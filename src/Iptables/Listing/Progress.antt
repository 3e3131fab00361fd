-- ===== src/Iptables/Listing/Progress.antt =====
-- internal/firewall/iptables/list.go: the loop over the optional fields of a rule ends.
use gluetun.Prelude.{ℕ, zero, suc, ◌≡◌, ◌≤◌, refl, List, [], ◌∷◌, String, length, drop, arith}
use gluetun.Iptables.{Result, ok, err, panic, ◌>>=◌, ChainRule}
use gluetun.Iptables.Listing.{LineTexts, parse_optional_field, optional_fields_loop}

length-drop_le : (n : ℕ) (xs : List String) → length (drop n xs) ≤ length xs
length-drop_le zero xs = omega arith
length-drop_le (suc n) [] = omega arith
length-drop_le (suc n) (x ∷ xs) = omega (arith, length-drop_le n xs)

same_rules :
    (r : Result (ℕ × ChainRule)) (f g : ℕ → ChainRule → Result ChainRule)
    → ((n : ℕ) (rule : ChainRule) → f n rule ≡ g n rule)
    → (r >>= λ (n, rule). f n rule) ≡ (r >>= λ (n, rule). g n rule)
same_rules (ok (n, rule)) f g same = same n rule
same_rules (err e) f g same = refl
same_rules panic f g same = refl

-- With any two numbers of rounds that allow one for each field, the loop over the optional fields
-- has the same result, so that no more rounds are needed.
pub optional_fields_loop-ends :
    (t : LineTexts) (fuel more : ℕ) (fields : List String) (rule : ChainRule)
    → length fields ≤ fuel
    → length fields ≤ more
    → optional_fields_loop t fuel fields rule ≡ optional_fields_loop t more fields rule
unfolding optional_fields_loop
optional_fields_loop-ends t fuel more [] rule h k = refl
optional_fields_loop-ends t zero more (field ∷ values) rule h k = absurd (omega (arith, h))
optional_fields_loop-ends t (suc fuel) zero (field ∷ values) rule h k = absurd (omega (arith, k))
optional_fields_loop-ends t (suc fuel) (suc more) (field ∷ values) rule h k =
    same_rules (parse_optional_field t field values rule) _ _ (λ n r.
      optional_fields_loop-ends t fuel more (drop n values) r
        (omega (arith, h, length-drop_le n values)) (omega (arith, k, length-drop_le n values)))
