-- ===== src/Iptables/Parse/Progress.antt =====
-- internal/firewall/iptables/parse.go: the loop over the fields ends.
use gluetun.Prelude.{
  ℕ, zero, suc, ◌-◌, ◌≡◌, ◌≤◌, ltb, refl, Bool, List, [], ◌∷◌, String, str_eq, if◌then◌else◌,
  length, drop, arith, if_cases,
}
use gluetun.Iptables.{command_malformed, Result, ok, err, panic, ◌>>=◌, Instruction}
use gluetun.Iptables.Parse.{
  Texts, parse_match_mark, parse_match_module, pre_check_instruction_fields, parse_flag_value,
  parse_instruction_flag, flags_loop,
}

-- A result that consumes at least one field, if it is one.
abbrev Advances : Result (ℕ × Instruction) → Type 0
Advances (ok (consumed, i)) = 1 ≤ consumed
Advances _ = Unit

either :
    (b : Bool) (x y : Result (ℕ × Instruction))
    → Advances x
    → Advances y
    → Advances (if b then x else y)
either b x y p q = if_cases Advances b x y (λ _. p) (λ _. q)

after :
    {A : Type 0} (r : Result A) (n : ℕ) (f : A → Instruction)
    → 1 ≤ n
    → Advances (r >>= λ a. ok (n, f a))
after (ok a) n f h = h
after (err e) n f h = tt
after panic n f h = tt

refused : Advances (err command_malformed)
refused = tt

two : 1 ≤ 2
two = omega arith

three : 1 ≤ 3
three = omega arith

parse_match_module-Advances :
    (value : String) (values : List String) (i : Instruction)
    → Advances (parse_match_module value values i)
unfolding parse_match_module parse_match_mark
parse_match_module-Advances value [] i = search (either, two)
parse_match_module-Advances value (next ∷ values) i = search (either, two, three)

parse_flag_value-Advances :
    (t : Texts) (n : ℕ) (flag value : String) (values : List String) (i : Instruction)
    → 1 ≤ n
    → Advances (parse_flag_value t n flag value values i)
unfolding parse_flag_value
parse_flag_value-Advances t n flag value values i h =
    search (either, after, refused, parse_match_module-Advances) depth 20

-- A flag and its values are some fields, where there are enough of them.
pre_check-positive :
    (flag : String) (values : List String) (f : ℕ → Result (ℕ × Instruction))
    → ((n : ℕ) → 1 ≤ n → Advances (f n))
    → Advances (pre_check_instruction_fields flag values >>= f)
unfolding pre_check_instruction_fields
pre_check-positive flag values f h =
    if_cases (λ r. Advances (r >>= f)) (str_eq flag "--tcp-flags") _ _
      (λ _.
        if_cases (λ r. Advances (r >>= f)) (ltb (length values) 2) (err command_malformed) (ok 3)
          (λ _. tt) (λ _. h 3 three))
      (λ _.
        if_cases (λ r. Advances (r >>= f)) (ltb (length values) 1) (err command_malformed) (ok 2)
          (λ _. tt) (λ _. h 2 two))

parse_instruction_flag-Advances :
    (t : Texts) (fields : List String) (i : Instruction)
    → Advances (parse_instruction_flag t fields i)
unfolding parse_instruction_flag
parse_instruction_flag-Advances t [] i = tt
parse_instruction_flag-Advances t (flag ∷ []) i =
    pre_check-positive flag [] (λ n. panic) (λ n h. tt)
parse_instruction_flag-Advances t (flag ∷ value ∷ values) i =
    pre_check-positive flag (value ∷ values) (λ n. parse_flag_value t n flag value values i)
      (λ n h. parse_flag_value-Advances t n flag value values i h)

length-drop : (n : ℕ) (xs : List String) → 1 ≤ n → length (drop n xs) ≤ length xs - 1
length-drop zero xs h = absurd (omega (arith, h))
length-drop (suc n) [] h = omega arith
length-drop (suc zero) (x ∷ xs) h = omega arith
length-drop (suc (suc n)) (x ∷ xs) h = omega (arith, length-drop (suc n) xs (omega arith))

same_results :
    (r : Result (ℕ × Instruction)) (f g : ℕ → Instruction → Result Instruction)
    → Advances r
    → ((n : ℕ) (j : Instruction) → 1 ≤ n → f n j ≡ g n j)
    → (r >>= λ (n, j). f n j) ≡ (r >>= λ (n, j). g n j)
same_results (ok (n, j)) f g a same = same n j a
same_results (err e) f g a same = refl
same_results panic f g a same = refl

-- With any two numbers of rounds that allow one for each field, the loop has the same result:
-- every flag that is parsed consumes a field, so that no more rounds are needed.
pub flags_loop-ends :
    (t : Texts) (fuel more : ℕ) (fields : List String) (i : Instruction)
    → length fields ≤ fuel
    → length fields ≤ more
    → flags_loop t fuel fields i ≡ flags_loop t more fields i
unfolding flags_loop
flags_loop-ends t fuel more [] i h k = refl
flags_loop-ends t zero more (field ∷ fields) i h k = absurd (omega (arith, h))
flags_loop-ends t (suc fuel) zero (field ∷ fields) i h k = absurd (omega (arith, k))
flags_loop-ends t (suc fuel) (suc more) (field ∷ fields) i h k =
    same_results (parse_instruction_flag t (field ∷ fields) i) _ _
      (parse_instruction_flag-Advances t (field ∷ fields) i)
      (λ n j a.
        let shorter = length-drop n (field ∷ fields) a in
        flags_loop-ends t fuel more (drop n (field ∷ fields)) j (omega (arith, h, shorter))
          (omega (arith, k, shorter)))
