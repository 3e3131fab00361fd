-- ===== src/Firewall/Redirect/Removal.antt =====
-- internal/firewall/redirect.go, portRedirections.remove: the loop shortens the slice that it
-- ranges over.
use gluetun.Prelude.{
  ℕ, zero, suc, ◌+◌, ◌-◌, ◌≤◌, ◌<◌, ◌≡◌, ◌≢◌, refl, ◌∙◌, ap, inl, inr, true, none, some, List, [],
  ◌∷◌, String, length, get_elem?, set, arith, Bool-cases, Option-cases,
}
use gluetun.Firewall.{PortRedirection}
use gluetun.Firewall.Redirect.{is_removed, remove_loop, remove, or_else}

length-set :
    (xs : List PortRedirection) (i : ℕ) (v : PortRedirection) → length (set xs i v) ≡ length xs
length-set [] i v = refl
length-set (x ∷ xs) zero v = refl
length-set (x ∷ xs) (suc i) v = ap suc (length-set xs i v)

get_elem?-set_ne :
    (xs : List PortRedirection) (i j : ℕ) (v : PortRedirection)
    → i ≢ j
    → get_elem? (set xs i v) j ≡ get_elem? xs j
get_elem?-set_ne [] i j v h = refl
get_elem?-set_ne (x ∷ xs) zero zero v h = absurd (h refl)
get_elem?-set_ne (x ∷ xs) zero (suc j) v h = refl
get_elem?-set_ne (x ∷ xs) (suc i) zero v h = refl
get_elem?-set_ne (x ∷ xs) (suc i) (suc j) v h = get_elem?-set_ne xs i j v (λ e. h (ap suc e))

module _ (intf : String) (port : ℕ) where
  -- One round of the loop, at an entry that is removed while the slice is long enough, at one
  -- that lies past the slice, and at one that is kept.
  abbrev Last : List PortRedirection → PortRedirection → ℕ → Type 0
  Last array y e = (get_elem? array e ≡ some y) × (is_removed intf port y ≡ true)

  past_end :
      (rounds i n e : ℕ) (array : List PortRedirection) (y : PortRedirection)
      → i + rounds ≡ suc e
      → i ≤ e
      → n ≤ e
      → Last array y e
      → remove_loop rounds i intf port array n ≡ none
  unfolding remove_loop
  past_end zero i n e array y total inside short last = absurd (omega arith)
  past_end (suc zero) i n e array y total inside short last =
      let here : i ≡ e = omega arith in rw here (ground (arith, last.0, last.1))
  past_end (suc (suc rounds)) i n e array y total inside short last =
      elim (Option-cases (get_elem? array i)) [
        | inl a ↦ ground (arith, a)
        | inr (r, a) ↦
            let v = or_else (get_elem? array (n - 1)) r in
            let later : i ≢ e = omega arith in
            let same = get_elem?-set_ne array i e v later in
            ground (
              arith,
              a,
              past_end (suc rounds) (i + 1) n e array y (omega arith) (omega arith) short last,
              past_end (suc rounds) (i + 1) (n - 1) e (set array i v) y (omega arith) (omega arith)
                  (omega arith) (same ∙ last.0, last.1),
            )
      ]

  -- Before the first removal the slice is its whole array.
  not_yet_shorter :
      (rounds i e j : ℕ) (array : List PortRedirection) (x y : PortRedirection)
      → i + rounds ≡ suc e
      → i ≤ j
      → j < e
      → get_elem? array j ≡ some x
      → is_removed intf port x ≡ true
      → Last array y e
      → remove_loop rounds i intf port array (suc e) ≡ none
  unfolding remove_loop
  not_yet_shorter zero i e j array x y total ij je gx mx last = absurd (omega arith)
  not_yet_shorter (suc rounds) i e j array x y total ij je gx mx last =
      elim (Option-cases (get_elem? array i)) [
        | inl a ↦ ground (arith, a)
        | inr (r, a) ↦ elim (Bool-cases (is_removed intf port r)) [
          | inl m ↦
              let v = or_else (get_elem? array (suc e - 1)) r in
              let later : i ≢ e = omega arith in
              let same = get_elem?-set_ne array i e v later in
              ground (
                arith,
                a,
                m,
                past_end rounds (i + 1) (suc e - 1) e (set array i v) y (omega arith) (omega arith)
                    (omega arith) (same ∙ last.0, last.1),
              )
          | inr m ↦
              let ne : i ≢ j = λ h. cc (a, gx, mx, m, h) in
              ground (
                arith,
                a,
                m,
                not_yet_shorter rounds (i + 1) e j array x y (omega arith) (omega arith) je gx mx
                    last,
              )
        ]
      ]

  -- Where the last redirection of the slice is to be removed and an earlier one too, `remove`
  -- panics with an index out of the slice.
  pub remove_panics :
      (ps : List PortRedirection) (j e : ℕ) (x y : PortRedirection)
      → length ps ≡ suc e
      → j < e
      → get_elem? ps j ≡ some x
      → is_removed intf port x ≡ true
      → get_elem? ps e ≡ some y
      → is_removed intf port y ≡ true
      → remove intf port ps ≡ none
  unfolding remove
  remove_panics ps j e x y size je gx mx gy my =
      rw size (not_yet_shorter (suc e) 0 e j ps x y (omega arith) (omega arith) je gx mx (gy, my))
