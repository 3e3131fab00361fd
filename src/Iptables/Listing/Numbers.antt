-- ===== src/Iptables/Listing/Numbers.antt =====
-- internal/firewall/iptables: the line numbers of a parsed listing, and what is found by them.
use gluetun.Prelude.{
  ℕ, zero, suc, ◌+◌, ◌==◌, ◌≤◌, inl, inr, ltb, Bool, not, List, [], ◌∷◌, String, str_eq,
  if◌then◌else◌, length, take, drop, Member, arith, if_cases,
}
use gluetun.Iptables.{chain_malformed, value_malformed, Result, ok, err, panic, ◌>>=◌, ChainRule}
use gluetun.Iptables.Parse.{value_of}
use gluetun.Iptables.Listing.{
  LineTexts, parse_line_number, parse_chain_rule_field, parse_chain_rule_fields, parse_udp_optional,
  parse_tcp_optional, parse_optional_field, optional_fields_loop, no_rule, parse_rule_words,
  parse_chain_rule_line, parse_rules,
}

-- A rule, if it is one, has a line number above zero; and so with a count.
abbrev Positive : Result ChainRule → Type 0
Positive (ok rule) = 1 ≤ rule.line_number
Positive _ = Unit

abbrev PositiveAt : Result (ℕ × ChainRule) → Type 0
PositiveAt (ok (n, rule)) = 1 ≤ rule.line_number
PositiveAt _ = Unit

either :
    {A : Type 0} (P : Result A → Type 0) (b : Bool) (x y : Result A)
    → P x
    → P y
    → P (if b then x else y)
either P b x y p q = if_cases P b x y (λ _. p) (λ _. q)

then_rule :
    {A : Type 0} (r : Result A) (f : A → Result ChainRule)
    → ((a : A) → Positive (f a))
    → Positive (r >>= f)
then_rule (ok a) f h = h a
then_rule (err e) f h = tt
then_rule panic f h = tt

then_rule_at :
    {A : Type 0} (r : Result A) (f : A → Result (ℕ × ChainRule))
    → ((a : A) → PositiveAt (f a))
    → PositiveAt (r >>= f)
then_rule_at (ok a) f h = h a
then_rule_at (err e) f h = tt
then_rule_at panic f h = tt

and_rule :
    (r : Result ChainRule) (f : ChainRule → Result ChainRule)
    → Positive r
    → ((x : ChainRule) → 1 ≤ x.line_number → Positive (f x))
    → Positive (r >>= f)
and_rule (ok x) f p h = h x p
and_rule (err e) f p h = tt
and_rule panic f p h = tt

and_rule_at :
    (r : Result (ℕ × ChainRule)) (f : ℕ → ChainRule → Result ChainRule)
    → PositiveAt r
    → ((n : ℕ) (x : ChainRule) → 1 ≤ x.line_number → Positive (f n x))
    → Positive (r >>= λ (n, x). f n x)
and_rule_at (ok (n, x)) f p h = h n x p
and_rule_at (err e) f p h = tt
and_rule_at panic f p h = tt

refused_at : PositiveAt (err chain_malformed)
refused_at = tt

-- The first field is the line number, which is refused where it is zero.
first_field-Positive :
    (t : LineTexts) (field : String) (rule : ChainRule)
    → Positive (parse_chain_rule_field t 0 field rule)
unfolding parse_chain_rule_field parse_line_number
first_field-Positive t field rule =
    either Positive (str_eq field "") (err chain_malformed) _ tt
      (number (value_of (t.texts.read_uint 10 16 field)))
  where
    number :
        (r : Result ℕ)
        → Positive (
            (r >>= λ n. if n == 0 then err value_malformed else ok n) >>= λ n.
            ok (record rule { line_number = n }))
    number (ok n) =
        if_cases (λ x. Positive (x >>= λ k. ok (record rule { line_number = k }))) (n == 0)
          (err value_malformed) (ok n) (λ _. tt) (λ h. ground (arith, h))
    number (err e) = tt
    number panic = tt

later_field-Positive :
    (t : LineTexts) (index : ℕ) (field : String) (rule : ChainRule)
    → 1 ≤ index
    → 1 ≤ rule.line_number
    → Positive (parse_chain_rule_field t index field rule)
unfolding parse_chain_rule_field
later_field-Positive t index field rule h k =
    either Positive (str_eq field "") (err chain_malformed) _ tt (
      if_cases Positive (index == 0) _ _ (λ e. absurd (ground (arith, e, h)))
        (λ _. search (either Positive, then_rule) depth 20))

fields-Positive :
    (t : LineTexts) (index : ℕ) (fields : List String) (rule : ChainRule)
    → 1 ≤ index
    → 1 ≤ rule.line_number
    → Positive (parse_chain_rule_fields t index fields rule)
unfolding parse_chain_rule_fields
fields-Positive t index [] rule h k = k
fields-Positive t index (field ∷ fields) rule h k =
    and_rule (parse_chain_rule_field t index field rule) _
      (later_field-Positive t index field rule h k)
      (λ r p. fields-Positive t (index + 1) fields r (omega (arith, h)) p)

udp-Positive :
    (t : LineTexts) (values : List String) (n : ℕ) (rule : ChainRule)
    → 1 ≤ rule.line_number
    → PositiveAt (parse_udp_optional t values n rule)
unfolding parse_udp_optional
udp-Positive t [] n rule k = k
udp-Positive t (value ∷ values) n rule k =
    either PositiveAt (not (t.has_colon value)) (ok (n, rule)) _ k (
      either PositiveAt (t.has_prefix value "dpt:") _ _
        (then_rule_at _ _
          (λ port. udp-Positive t values (n + 1) (record rule { destination_port = port }) k))
        (either PositiveAt (t.has_prefix value "spt:") _ _
          (then_rule_at _ _
            (λ port. udp-Positive t values (n + 1) (record rule { source_port = port }) k))
          tt))

tcp-Positive :
    (t : LineTexts) (values : List String) (n : ℕ) (rule : ChainRule)
    → 1 ≤ rule.line_number
    → PositiveAt (parse_tcp_optional t values n rule)
unfolding parse_tcp_optional
tcp-Positive t [] n rule k = k
tcp-Positive t (value ∷ values) n rule k =
    either PositiveAt (not (t.has_colon value)) (ok (n, rule)) _ k (
      either PositiveAt (t.has_prefix value "dpt:") _ _
        (then_rule_at _ _
          (λ port. tcp-Positive t values (n + 1) (record rule { destination_port = port }) k))
        (either PositiveAt (t.has_prefix value "spt:") _ _
          (then_rule_at _ _
            (λ port. tcp-Positive t values (n + 1) (record rule { source_port = port }) k))
          (either PositiveAt (t.has_prefix value "flags:") _ _
            (then_rule_at _ _
              (λ flags. tcp-Positive t values (n + 1) (record rule { tcp_flags = flags }) k))
            tt)))

optional_field-Positive :
    (t : LineTexts) (field : String) (values : List String) (rule : ChainRule)
    → 1 ≤ rule.line_number
    → PositiveAt (parse_optional_field t field values rule)
unfolding parse_optional_field
optional_field-Positive t field values rule k =
    either PositiveAt (str_eq field "udp") _ _ (udp-Positive t values 0 rule k) (
      either PositiveAt (str_eq field "tcp") _ _ (tcp-Positive t values 0 rule k)
        (search (either PositiveAt, then_rule_at, refused_at) depth 20))

optional_fields-Positive :
    (t : LineTexts) (fuel : ℕ) (fields : List String) (rule : ChainRule)
    → 1 ≤ rule.line_number
    → Positive (optional_fields_loop t fuel fields rule)
unfolding optional_fields_loop
optional_fields-Positive t fuel [] rule k = k
optional_fields-Positive t zero (field ∷ values) rule k = tt
optional_fields-Positive t (suc fuel) (field ∷ values) rule k =
    and_rule_at (parse_optional_field t field values rule) _
      (optional_field-Positive t field values rule k)
      (λ n x p. optional_fields-Positive t fuel (drop n values) x p)

rule_words-Positive : (t : LineTexts) (fields : List String) → Positive (parse_rule_words t fields)
unfolding parse_rule_words parse_chain_rule_fields
rule_words-Positive t [] = tt
rule_words-Positive t (field ∷ fields) =
    either Positive (ltb (length (field ∷ fields)) 10) (err chain_malformed) _ tt (
      and_rule (parse_chain_rule_fields t 0 (field ∷ take 9 fields) no_rule) _
        (and_rule (parse_chain_rule_field t 0 field no_rule) _
          (first_field-Positive t field no_rule)
          (λ x p. fields-Positive t 1 (take 9 fields) x (omega arith) p))
        (λ x p. optional_fields-Positive t (length (drop 9 fields)) (drop 9 fields) x p))

line-Positive : (t : LineTexts) (line : String) → Positive (parse_chain_rule_line t line)
unfolding parse_chain_rule_line
line-Positive t line =
    either Positive (str_eq (t.trim_space line) "") (err chain_malformed) _ tt
      (rule_words-Positive t (t.texts.words (t.trim_space line)))

-- Every rule of a list has a line number above zero.
abbrev pub Numbered : List ChainRule → Type 0
Numbered rules = (rule : ChainRule) → Member rule rules → 1 ≤ rule.line_number

abbrev pub NumberedRules : Result (List ChainRule) → Type 0
NumberedRules (ok rules) = Numbered rules
NumberedRules _ = Unit

pub rules-Numbered : (t : LineTexts) (lines : List String) → NumberedRules (parse_rules t lines)
unfolding parse_rules
rules-Numbered t [] = λ rule m. absurd m
rules-Numbered t (line ∷ lines) =
    cons (parse_chain_rule_line t line) (parse_rules t lines) (line-Positive t line)
      (rules-Numbered t lines)
  where
    cons :
        (r : Result ChainRule) (rs : Result (List ChainRule))
        → Positive r
        → NumberedRules rs
        → NumberedRules (r >>= λ x. rs >>= λ xs. ok (x ∷ xs))
    cons (ok x) (ok xs) p h = λ rule m. elim m [ inl e ↦ rw e p | inr n ↦ h rule n ]
    cons (ok x) (err e) p h = tt
    cons (ok x) panic p h = tt
    cons (err e) rs p h = tt
    cons panic rs p h = tt
