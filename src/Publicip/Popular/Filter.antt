-- ===== src/Publicip/Popular/Filter.antt =====
-- internal/publicip/api/resilient.go: the moving of the selected results to the front of the slice.
use mathlib.Core.List.{append-nil, append_assoc}
use gluetun.Prelude.{
  ℕ, zero, suc, ◌+◌, ◌≤◌, ◌<◌, ◌≡◌, refl, sym, ap, ◌∙◌, Option, none, some, List, [], ◌∷◌, ◌++◌,
  arith, length, get_elem?, set, take,
}
use gluetun.Publicip.Popular.{move_selected, filter_in_place}

-- Indices that go up from `low` and stay below `high`
abbrev pub Within : ℕ → ℕ → List ℕ → Type 0
Within low high [] = low ≤ high
Within low high (i ∷ is) = (low ≤ i) × Within (i + 1) high is

pub Within-low :
    (low low' high : ℕ) (is : List ℕ) → low' ≤ low → Within low high is → Within low' high is
Within-low low low' high [] h w = omega (arith, h, w)
Within-low low low' high (i ∷ is) h (le, w) = (omega (arith, h, le), w)

pub Within-append :
    (low high : ℕ) (is : List ℕ) → Within low high is → Within low (high + 1) (is ++ (high ∷ []))
Within-append low high [] w = (w, omega arith)
Within-append low high (i ∷ is) (le, w) = (le, Within-append (i + 1) high is w)

pub Within-later : (low high : ℕ) (is : List ℕ) → Within low high is → Within low (high + 1) is
Within-later low high [] w = omega (arith, w)
Within-later low high (i ∷ is) (le, w) = (le, Within-later (i + 1) high is w)

Within-le : (low high : ℕ) (is : List ℕ) → Within low high is → low ≤ high
Within-le low high [] w = w
Within-le low high (i ∷ is) (le, w) = omega (arith, le, Within-le (i + 1) high is w)

module _ {A : Type 0} where
  -- The entries at some indices, read from an unchanged list
  abbrev pub with_entry : Option A → List A → List A
  with_entry none xs = xs
  with_entry (some x) xs = x ∷ xs

  unfoldable pub picked : List A → List ℕ → List A
  picked xs [] = []
  picked xs (i ∷ is) = with_entry (get_elem? xs i) (picked xs is)

  picked-found :
      (xs : List A) (i : ℕ) (x : A) (is : List ℕ)
      → get_elem? xs i ≡ some x
      → picked xs (i ∷ is) ≡ (x ∷ picked xs is)
  unfolding picked
  picked-found xs i x is e = ap (λ o. with_entry o (picked xs is)) e

  pub get_elem?-inside : (xs : List A) (i : ℕ) → i < length xs → (x : A) × (get_elem? xs i ≡ some x)
  get_elem?-inside [] i h = absurd (omega (arith, h))
  get_elem?-inside (x ∷ xs) zero h = (x, refl)
  get_elem?-inside (x ∷ xs) (suc i) h = get_elem?-inside xs i (omega (arith, h))

  get_elem?-set :
      (xs : List A) (i j : ℕ) (x : A) → i < j → get_elem? (set xs i x) j ≡ get_elem? xs j
  get_elem?-set [] i j x h = refl
  get_elem?-set (y ∷ xs) zero zero x h = absurd (omega (arith, h))
  get_elem?-set (y ∷ xs) zero (suc j) x h = refl
  get_elem?-set (y ∷ xs) (suc i) zero x h = absurd (omega (arith, h))
  get_elem?-set (y ∷ xs) (suc i) (suc j) x h = get_elem?-set xs i j x (omega (arith, h))

  length-set : (xs : List A) (i : ℕ) (x : A) → length (set xs i x) ≡ length xs
  length-set [] i x = refl
  length-set (y ∷ xs) zero x = refl
  length-set (y ∷ xs) (suc i) x = ap suc (length-set xs i x)

  take-set :
      (xs : List A) (i : ℕ) (x : A)
      → i < length xs
      → take (suc i) (set xs i x) ≡ (take i xs ++ (x ∷ []))
  take-set [] i x h = absurd (omega (arith, h))
  take-set (y ∷ xs) zero x h = refl
  take-set (y ∷ xs) (suc i) x h = ap (λ ys. y ∷ ys) (take-set xs i x (omega (arith, h)))

  -- What the loop leaves at the front, where the slice from `i` on is as it was
  move_selected-picked :
      (is : List ℕ) (i : ℕ) (xs now : List A)
      → length now ≡ length xs
      → ((j : ℕ) → i ≤ j → get_elem? now j ≡ get_elem? xs j)
      → Within i (length xs) is
      → (moved : List A) × (move_selected i is now ≡ some moved)
        × (take (i + length is) moved ≡ (take i now ++ picked xs is))
  unfolding move_selected picked
  move_selected-picked [] i xs now same_length same w =
      let none_read : i + 0 ≡ i = omega arith in
      (now, refl, ap (λ n. take n now) none_read ∙ sym (append-nil (take i now)))
  move_selected-picked (k ∷ is) i xs now same_length same (le, w) =
      let inside : k + 1 ≤ length xs = Within-le (k + 1) (length xs) is w in
      let (x, read) : (x : A) × (get_elem? now k ≡ some x) =
        get_elem?-inside now k (omega (arith, inside, same_length)) in
      let (y, old) : (y : A) × (get_elem? now i ≡ some y) =
        get_elem?-inside now i (omega (arith, inside, same_length, le)) in
      let (moved, moves, taken) =
        move_selected-picked is (i + 1) xs (set now i x) (length-set now i x ∙ same_length)
          (λ j h. get_elem?-set now i j x (omega (arith, h)) ∙ same j (omega (arith, h)))
          (Within-low (k + 1) (i + 1) (length xs) is (omega (arith, le)) w) in
      let further : i + suc (length is) ≡ i + 1 + length is = omega arith in
      let next : i + 1 ≡ suc i = omega arith in
      let front : take (i + 1) (set now i x) ≡ (take i now ++ (x ∷ [])) =
        ap (λ n. take n (set now i x)) next
        ∙ take-set now i x (omega (arith, inside, same_length, le)) in
      (
        moved,
        rw (read, old) moves,
        ap (λ n. take n moved) further
            ∙ taken
            ∙ ap (λ ys. ys ++ picked xs is) front
            ∙ append_assoc (take i now) (x ∷ []) (picked xs is)
            ∙ ap (λ ys. take i now ++ ys) (sym (picked-found xs k x is (sym (same k le) ∙ read))),
      )

  -- Where the indices ascend within the slice, the moving in place gives the entries that the
  -- slice had at these indices before.
  pub filter_in_place-picked :
      (xs : List A) (is : List ℕ)
      → Within 0 (length xs) is
      → filter_in_place xs is ≡ some (picked xs is)
  unfolding filter_in_place
  filter_in_place-picked xs is w =
      let (moved, moves, taken) = move_selected-picked is 0 xs xs refl (λ j h. refl) w in
      let none_before : 0 + length is ≡ length is = omega arith in
      rw moves (ap some (ap (λ n. take n moved) (sym none_before) ∙ taken))
