-- ===== src/Iptables/Equal.antt =====
-- internal/firewall/iptables/parse.go: when equalToRule holds.
use gluetun.Prelude.{
  ℕ, ◌==◌, ◌≡◌, ◌↔◌, refl, ◌⊎◌, inl, inr, Bool, true, false, not, ◌||◌, Option, none, some, List,
  [], ◌∷◌, String, str_eq, eq_iff, if◌then◌else◌, arith, Bool-cases,
}
use gluetun.Iptables.{
  Cidr, TcpFlags, Mark, Instruction, ChainRule, slices_equal, same_port, same_prefix,
  network_interfaces_equal, is_any_prefix, ip_prefixes_equal, same_mark, equal_to_rule,
}

-- A test that, where it fails, ends with no.
guarded :
    {P Q : Type 0} (b x : Bool)
    → (b ≡ true ↔ P)
    → (x ≡ true ↔ Q)
    → (if not b then false else x) ≡ true ↔ (P × Q)
guarded true x p q = ((λ e. (p.0 refl, q.0 e)), (λ (a, b). q.1 b))
guarded false x p q =
    ((λ e. absurd (ground (arith, e))), (λ (a, b). absurd (ground (arith, p.1 a))))

slices_equal-eq :
    {A : Type 0} (same : A → A → Bool) (xs ys : List A)
    → ((a b : A) → same a b ≡ true ↔ (a ≡ b))
    → slices_equal same xs ys ≡ true ↔ (xs ≡ ys)
unfolding slices_equal
slices_equal-eq same [] [] h = ((λ e. refl), (λ e. refl))
slices_equal-eq same [] (y ∷ ys) h =
    ((λ e. absurd (ground (arith, e))), (λ e. absurd (ground (arith, e))))
slices_equal-eq same (x ∷ xs) [] h =
    ((λ e. absurd (ground (arith, e))), (λ e. absurd (ground (arith, e))))
slices_equal-eq same (x ∷ xs) (y ∷ ys) h =
    let rest = slices_equal-eq same xs ys h in
    let head = h x y in ((λ e. ground (arith, e, rest, head)), (λ e. ground (arith, e, rest, head)))

same_port-eq : (a b : ℕ) → same_port a b ≡ true ↔ (a ≡ b)
same_port-eq a b = ((λ e. ground (arith, e)), (λ e. ground (arith, e)))

network_interfaces_equal-eq :
    (a b : String) → network_interfaces_equal a b ≡ true ↔ ((a ≡ b) ⊎ ((a ≡ "") × (b ≡ "*")))
unfolding network_interfaces_equal
network_interfaces_equal-eq a b = (
  (λ e. ground (arith, e, eq_iff a b, eq_iff a "", eq_iff b "*")),
  (λ e. ground (arith, e, eq_iff a b, eq_iff a "", eq_iff b "*")),
)

-- The prefix of all addresses
abbrev pub IsAnyPrefix : Option Cidr → Type 0
IsAnyPrefix none = ⊥
IsAnyPrefix (some c) = (c.bits ≡ 0) × ((c.address ≡ "0.0.0.0") ⊎ (c.address ≡ "::"))

is_any_prefix-IsAnyPrefix : (c : Option Cidr) → is_any_prefix c ≡ true ↔ IsAnyPrefix c
unfolding is_any_prefix
is_any_prefix-IsAnyPrefix none = ((λ e. absurd (ground (arith, e))), (λ e. absurd e))
is_any_prefix-IsAnyPrefix (some c) = (
  (λ e. ground (arith, e, eq_iff c.address "0.0.0.0", eq_iff c.address "::")),
  (λ e. ground (arith, e, eq_iff c.address "0.0.0.0", eq_iff c.address "::")),
)

same_prefix-eq : (a b : Option Cidr) → same_prefix a b ≡ true ↔ (a ≡ b)
unfolding same_prefix
same_prefix-eq none none = ((λ e. refl), (λ e. refl))
same_prefix-eq none (some b) =
    ((λ e. absurd (ground (arith, e))), (λ e. absurd (ground (arith, e))))
same_prefix-eq (some a) none =
    ((λ e. absurd (ground (arith, e))), (λ e. absurd (ground (arith, e))))
same_prefix-eq (some a) (some b) = (
  (λ e. ground (arith, e, eq_iff a.address b.address)),
  (λ e. ground (arith, e, eq_iff a.address b.address)),
)

ip_prefixes_equal-eq :
    (a b : Option Cidr) → ip_prefixes_equal a b ≡ true ↔ ((a ≡ b) ⊎ ((a ≡ none) × IsAnyPrefix b))
unfolding ip_prefixes_equal
ip_prefixes_equal-eq none b =
    let same = same_prefix-eq none b in
    let any = is_any_prefix-IsAnyPrefix b in
    (
      (λ e. elim (Bool-cases (same_prefix none b)) [
        | inl s ↦ inl (same.0 s)
        | inr s ↦ inr (refl, any.0 (ground (arith, e, s)))
      ]),
      (λ e. elim e [
        | inl s ↦ let t = same.1 s in ground (arith, t)
        | inr (n, s) ↦ let t = any.1 s in ground (arith, t)
      ]),
    )
ip_prefixes_equal-eq (some a) b =
    let same = same_prefix-eq (some a) b in
    (
      (λ e. inl (same.0 (ground (arith, e)))),
      (λ e. elim e [
        | inl s ↦ let t = same.1 s in ground (arith, t)
        | inr (n, s) ↦ absurd (ground (arith, n))
      ]),
    )

same_mark-eq : (a b : Mark) → same_mark a b ≡ true ↔ (a ≡ b)
same_mark-eq a b = ((λ e. ground (arith, e)), (λ e. ground (arith, e)))

-- What equalToRule asks: the table and the chain are those of the rule, as are the target, the
-- protocol, the ports, the states, the flags and the mark; an interface may be given by none for
-- any, and a prefix by none for all addresses.
pub record EqualsRule (i : Instruction) (table_name chain_name : String) (rule : ChainRule)
    : Type 0 where
  pub table : i.table ≡ table_name
  pub chain : i.chain ≡ chain_name
  pub target : i.target ≡ rule.target
  pub protocol : i.protocol ≡ rule.protocol
  pub destination_port : i.destination_port ≡ rule.destination_port
  pub source_port : i.source_port ≡ rule.source_port
  pub to_ports : i.to_ports ≡ rule.redir_ports
  pub ctstate : i.ctstate ≡ rule.ctstate
  pub input_interface :
      (i.input_interface ≡ rule.input_interface)
      ⊎ ((i.input_interface ≡ "") × (rule.input_interface ≡ "*"))
  pub output_interface :
      (i.output_interface ≡ rule.output_interface)
      ⊎ ((i.output_interface ≡ "") × (rule.output_interface ≡ "*"))
  pub source : (i.source ≡ rule.source) ⊎ ((i.source ≡ none) × IsAnyPrefix rule.source)
  pub destination :
      (i.destination ≡ rule.destination) ⊎ ((i.destination ≡ none) × IsAnyPrefix rule.destination)
  pub tcp_flags : i.tcp_flags ≡ rule.tcp_flags
  pub mark : i.mark ≡ rule.mark

same_flags-eq :
    (a b : TcpFlags) (x : Bool) {Q : Type 0}
    → (x ≡ true ↔ Q)
    → (if not (slices_equal same_port a.mask b.mask)
            || not (slices_equal same_port a.comparison b.comparison)
          then false
          else x)
        ≡ true
      ↔ ((a ≡ b) × Q)
same_flags-eq a b x {Q} q =
    let mask = slices_equal-eq same_port a.mask b.mask same_port-eq in
    let comparison = slices_equal-eq same_port a.comparison b.comparison same_port-eq in
    (
      (λ e. (ground (arith, e, mask, comparison), q.0 (ground (arith, e)))),
      (λ (same, h). let t = q.1 h in ground (arith, same, t, mask, comparison)),
    )

-- equalToRule accepts a rule exactly where the instruction and the rule agree in all fields but
-- the line number and the counters, with no interface for any and no prefix for all addresses.
pub equal_to_rule-EqualsRule :
    (i : Instruction) (table chain : String) (rule : ChainRule)
    → equal_to_rule i table chain rule ≡ true ↔ EqualsRule i table chain rule
unfolding equal_to_rule
equal_to_rule-EqualsRule i table chain rule =
    let parts = guarded (str_eq i.table table) _ (eq_iff i.table table) (
      guarded (str_eq i.chain chain) _ (eq_iff i.chain chain) (
        guarded (str_eq i.target rule.target) _ (eq_iff i.target rule.target) (
          guarded (str_eq i.protocol rule.protocol) _ (eq_iff i.protocol rule.protocol) (
            guarded (i.destination_port == rule.destination_port) _
              (same_port-eq i.destination_port rule.destination_port)
              (guarded (i.source_port == rule.source_port) _
                (same_port-eq i.source_port rule.source_port)
                (guarded _ _ (slices_equal-eq same_port i.to_ports rule.redir_ports same_port-eq) (
                  guarded _ _ (slices_equal-eq (λ a b. str_eq a b) i.ctstate rule.ctstate eq_iff) (
                    guarded _ _ (network_interfaces_equal-eq i.input_interface rule.input_interface)
                      (guarded _ _
                        (network_interfaces_equal-eq i.output_interface rule.output_interface)
                        (guarded _ _ (ip_prefixes_equal-eq i.source rule.source) (
                          guarded _ _ (ip_prefixes_equal-eq i.destination rule.destination) (
                            same_flags-eq i.tcp_flags rule.tcp_flags _ (
                              last (same_mark i.mark rule.mark)
                                (same_mark-eq i.mark rule.mark)))))))))))))) in
    (
      (λ e.
          let h = parts.0 e in
          record {
            table = h.0;
            chain = h.1.0;
            target = h.1.1.0;
            protocol = h.1.1.1.0;
            destination_port = h.1.1.1.1.0;
            source_port = h.1.1.1.1.1.0;
            to_ports = h.1.1.1.1.1.1.0;
            ctstate = h.1.1.1.1.1.1.1.0;
            input_interface = h.1.1.1.1.1.1.1.1.0;
            output_interface = h.1.1.1.1.1.1.1.1.1.0;
            source = h.1.1.1.1.1.1.1.1.1.1.0;
            destination = h.1.1.1.1.1.1.1.1.1.1.1.0;
            tcp_flags = h.1.1.1.1.1.1.1.1.1.1.1.1.0;
            mark = h.1.1.1.1.1.1.1.1.1.1.1.1.1;
          }),
      (λ r. parts.1 (
        r.table,
        (
          r.chain,
          (
            r.target,
            (
              r.protocol,
              (
                r.destination_port,
                (
                  r.source_port,
                  (
                    r.to_ports,
                    (
                      r.ctstate,
                      (
                        r.input_interface,
                        (r.output_interface, (r.source, (r.destination, (r.tcp_flags, r.mark)))),
                      ),
                    ),
                  ),
                ),
              ),
            ),
          ),
        ),
      )),
    )
  where
    last : {P : Type 0} (b : Bool) → (b ≡ true ↔ P) → (if not b then false else true) ≡ true ↔ P
    last true p = p
    last false p = p
