-- ===== src/Iptables/Delete/First.antt =====
-- internal/firewall/iptables/delete.go: the rule that is deleted is the first one that equals the
-- instruction.
use mathlib.Core.Path.{subst}
use gluetun.Prelude.{
  ℕ, zero, suc, ◌+◌, ◌==◌, ◌≡◌, ◌<◌, refl, sym, ap, ◌⊎◌, inl, inr, Bool, List, [], ◌∷◌, String,
  if◌then◌else◌, arith, Bool-cases, if_cases, length,
}
use gluetun.Iptables.{Result, ok, Instruction, ChainRule, Chain, equal_to_rule}
use gluetun.Iptables.Delete.{
  Program, matching_line, find_line_number, delete_found, delete_iptables_rule,
}

-- The rules as a listing numbers them, from `n` on.
abbrev pub numbered : ℕ → List ChainRule → List ChainRule
numbered n [] = []
numbered n (rule ∷ rules) = record rule { line_number = n } ∷ numbered (suc n) rules

-- The rules without the one at a place, and without the first one that passes a test.
abbrev pub without_nth : ℕ → List ChainRule → List ChainRule
without_nth n [] = []
without_nth zero (rule ∷ rules) = rules
without_nth (suc n) (rule ∷ rules) = rule ∷ without_nth n rules

abbrev pub without_first : (ChainRule → Bool) → List ChainRule → List ChainRule
without_first test [] = []
without_first test (rule ∷ rules) = if test rule then rules else rule ∷ without_first test rules

-- The comparison does not look at the line number.
equal_to_rule-numbered :
    (i : Instruction) (chain : String) (rule : ChainRule) (n : ℕ)
    → equal_to_rule i i.table chain (record rule { line_number = n })
      ≡ equal_to_rule i i.table chain rule
unfolding equal_to_rule
equal_to_rule-numbered i chain rule n = refl

-- The line found is none where no rule equals the instruction, or that of the first that does.
matching_line-first :
    (i : Instruction) (chain : String) (n : ℕ) (rules : List ChainRule)
    → ((matching_line i chain (numbered (suc n) rules) ≡ 0)
        × (without_first (equal_to_rule i i.table chain) rules ≡ rules))
      ⊎ ((k : ℕ) × (k < length rules)
          × (matching_line i chain (numbered (suc n) rules) ≡ suc (n + k))
          × (without_first (equal_to_rule i i.table chain) rules ≡ without_nth k rules))
unfolding matching_line
matching_line-first i chain n [] = inl (refl, refl)
matching_line-first i chain n (rule ∷ rules) =
    elim (Bool-cases (equal_to_rule i i.table chain rule)) [
      | inl same ↦ inr (
        0,
        omega arith,
        rw (equal_to_rule-numbered i chain rule (suc n), same) (omega arith),
        rw same refl,
      )
      | inr other ↦ elim (matching_line-first i chain (suc n) rules) [
        | inl (a, b) ↦ inl (
          rw (equal_to_rule-numbered i chain rule (suc n), other) a,
          rw other (ap (λ rs. rule ∷ rs) b),
        )
        | inr (k, h, a, b) ↦ inr (
          suc k,
          omega (arith, h),
          rw (equal_to_rule-numbered i chain rule (suc n), other) (omega (arith, a)),
          rw other (ap (λ rs. rule ∷ rs) b),
        )
      ]
    ]

delete_found-suc :
    {System : Type 0} (program : Program System) (system : System) (i : Instruction) (n : ℕ)
    → delete_found program system i (ok (suc n))
      ≡ program.delete_line system i.table i.chain (suc n)
delete_found-suc program system i n =
    if_cases (λ r. r ≡ program.delete_line system i.table i.chain (suc n)) (suc n == 0)
      (ok tt, system) _ (λ h. absurd (ground (arith, h))) (λ _. refl)

-- Where the program lists the rules of the chain, numbered from 1 on, and deletes those of its
-- lines that it is asked to, deleting by an instruction succeeds, and takes the first rule that
-- equals the instruction off the chain, and no other rule; where none equals it, nothing changes.
pub delete_iptables_rule-first :
    {System : Type 0} (program : Program System) (rules : System → List ChainRule) (system : System)
    (i : Instruction) (listed : Chain)
    → listed.name ≡ i.chain
    → program.list system i.table i.chain ≡ ok (record listed { rules = numbered 1 (rules system) })
    → ((n : ℕ)
        → n < length (rules system)
        → ((program.delete_line system i.table i.chain (suc n)).0 ≡ ok tt)
          × (rules (program.delete_line system i.table i.chain (suc n)).1
              ≡ without_nth n (rules system)))
    → let (result, after) = delete_iptables_rule program system (ok i) in
      (result ≡ ok tt)
      × (rules after ≡ without_first (equal_to_rule i i.table i.chain) (rules system))
unfolding delete_iptables_rule find_line_number
delete_iptables_rule-first {System} program rules system i listed named lists deletes =
    subst (λ r. Deleted (delete_found program system i r)) (sym line)
      (elim (matching_line-first i i.chain 0 (rules system)) [
        | inl (a, b) ↦ rw a (refl, sym b)
        | inr (k, h, a, b) ↦
            let line_k : matching_line i i.chain (numbered 1 (rules system)) ≡ suc k =
              omega (arith, a) in
            rw (line_k, delete_found-suc program system i k, b) (deletes k h)
      ])
  where
    Deleted : Result (Unit {0}) × System → Type 0
    Deleted (result, after) =
        (result ≡ ok tt)
        × (rules after ≡ without_first (equal_to_rule i i.table i.chain) (rules system))

    line :
        find_line_number program system i ≡ ok (matching_line i i.chain (numbered 1 (rules system)))
    line =
        rw (find_line_number, lists)
          (ap (λ c. ok (matching_line i c (numbered 1 (rules system)))) named)
