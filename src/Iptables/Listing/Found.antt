-- ===== src/Iptables/Listing/Found.antt =====
-- internal/firewall/iptables: findLineNumber on a listing that parseChain accepts.
use mathlib.Core.Path.{subst}
use gluetun.Prelude.{
  ℕ, ◌≡◌, ◌≢◌, refl, inl, inr, Bool, true, false, not, List, [], ◌∷◌, String, str_eq, if◌then◌else◌,
  Member, arith, if_cases,
}
use gluetun.Iptables.{
  chain_malformed, Result, ok, err, panic, ◌>>=◌, Instruction, ChainRule, Chain, equal_to_rule,
  slices_equal,
}
use gluetun.Iptables.Delete.{matching_line}
use gluetun.Iptables.Listing.{
  LineTexts, parse_rules, expected_legend_fields, without_comments, parse_chain_general_data_line,
  parse_chain_lines, parse_chain,
}
use gluetun.Iptables.Listing.Numbers.{Numbered, NumberedRules, rules-Numbered}

abbrev NumberedChain : Result Chain → Type 0
NumberedChain (ok chain) = Numbered chain.rules
NumberedChain _ = Unit

lines-Numbered : (t : LineTexts) (lines : List String) → NumberedChain (parse_chain_lines t lines)
unfolding parse_chain_lines
lines-Numbered t [] = tt
lines-Numbered t (general ∷ []) = tt
lines-Numbered t (general ∷ legend ∷ lines) =
    by_general (parse_chain_general_data_line t general)
      (not (
        slices_equal (λ a b. str_eq a b) expected_legend_fields
          (t.texts.words (t.trim_space legend))))
      (parse_rules t lines) (rules-Numbered t lines)
  where
    by_rules :
        (chain : Chain) (rs : Result (List ChainRule))
        → NumberedRules rs
        → NumberedChain (rs >>= λ rules. ok (record chain { rules = rules }))
    by_rules chain (ok rules) h = h
    by_rules chain (err e) h = tt
    by_rules chain panic h = tt

    by_general :
        (r : Result Chain) (b : Bool) (rs : Result (List ChainRule))
        → NumberedRules rs
        → NumberedChain (
            r >>= λ chain.
            if b
            then err chain_malformed
            else (rs >>= λ rules. ok (record chain { rules = rules })))
    by_general (ok chain) true rs h = tt
    by_general (ok chain) false rs h = by_rules chain rs h
    by_general (err e) b rs h = tt
    by_general panic b rs h = tt

-- What the line that is found says of the rules.
abbrev pub FoundLine : Instruction → String → List ChainRule → ℕ → Type 0
FoundLine i chain rules line =
    (line ≡ 0 → (rule : ChainRule) → Member rule rules → equal_to_rule i i.table chain rule ≡ false)
    × (line ≢ 0
        → (rule : ChainRule) × Member rule rules
          × (rule.line_number ≡ line)
          × (equal_to_rule i i.table chain rule ≡ true))

matching_line-FoundLine :
    (i : Instruction) (chain : String) (rules : List ChainRule)
    → Numbered rules
    → FoundLine i chain rules (matching_line i chain rules)
unfolding matching_line
matching_line-FoundLine i chain [] h =
    ((λ e rule m. absurd m), (λ some_line. absurd (some_line refl)))
matching_line-FoundLine i chain (x ∷ rules) h =
    if_cases (FoundLine i chain (x ∷ rules)) (equal_to_rule i i.table chain x) x.line_number
      (matching_line i chain rules)
      (λ same. ((λ e. absurd (omega (arith, e, h x (inl refl)))), (λ _. (x, inl refl, refl, same))))
      (λ other.
        let (none_equal, one_equal) =
          matching_line-FoundLine i chain rules (λ rule m. h rule (inr m)) in
        (
          (λ e rule m. elim m [ inl here ↦ rw here other | inr later ↦ none_equal e rule later ]),
          (λ some_line.
              let (rule, m, line, same) = one_equal some_line in (rule, inr m, line, same)),
        ))

-- In the rules of any listing that parseChain accepts, the line 0 is found only where no rule
-- equals the instruction, and any other line that is found is that of a rule that equals it.
pub parse_chain-FoundLine :
    (t : LineTexts) (output : String) (i : Instruction) (chain : Chain)
    → parse_chain t output ≡ ok chain
    → FoundLine i chain.name chain.rules (matching_line i chain.name chain.rules)
unfolding parse_chain
parse_chain-FoundLine t output i chain parsed = matching_line-FoundLine i chain.name chain.rules (
    subst NumberedChain parsed
      (lines-Numbered t (without_comments t (t.texts.split (t.trim_space output) "\n"))))
