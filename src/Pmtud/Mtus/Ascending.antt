-- ===== src/Pmtud/Mtus/Ascending.antt =====
-- internal/pmtud/test/mtu.go: the MTUs go up from the minimum to the maximum.
use mathlib.Core.Path.{subst}
use gluetun.Prelude.{
  ℕ, zero, suc, ◌+◌, ◌-◌, ◌*◌, ◌%◌, ◌≤◌, ◌<◌, ◌≡◌, refl, leb, some, List, [], ◌∷◌, arith,
  Bool-cases, inl, inr,
}
use gluetun.Pmtud.Mtus.{word, each_mtu, each_point, Float64, make_mtus_to_test, unit, IsFloat64}

-- A list that starts at `low`, goes up at every step, and ends at `high`.
abbrev pub Ascends : ℕ → List ℕ → ℕ → Type 0
Ascends low [] high = ⊥
Ascends low (m ∷ []) high = (m ≡ low) × (m ≡ high)
Ascends low (m ∷ n ∷ ms) high = (m ≡ low) × (m < n) × Ascends n (n ∷ ms) high

Ascends-cons :
    (low n : ℕ) (ms : List ℕ) (high : ℕ) → low < n → Ascends n ms high → Ascends low (low ∷ ms) high
Ascends-cons low n [] high h up = absurd up
Ascends-cons low n (m ∷ []) high h up = (refl, omega (arith, h, up.0), (refl, up.1))
Ascends-cons low n (m ∷ k ∷ ms) high h up = (refl, omega (arith, h, up.0), (refl, up.1, up.2))

pub each_mtu-Ascends :
    (distance fuel low high : ℕ)
    → low + distance ≡ high
    → suc high < word
    → suc distance < fuel
    → (ms : List ℕ) × (each_mtu fuel low high ≡ some ms) × Ascends low ms high
unfolding each_mtu
each_mtu-Ascends distance zero low high d h f = absurd (omega arith)
each_mtu-Ascends zero (suc zero) low high d h f = absurd (omega arith)
each_mtu-Ascends zero (suc (suc fuel)) low high d h f =
    (low ∷ [], ground arith, (refl, omega arith))
each_mtu-Ascends (suc distance) (suc fuel) low high d h f =
    let (ms, e, up) = each_mtu-Ascends distance fuel (suc low) high (omega arith) h (omega arith) in
    let next : (low + 1) % word ≡ suc low = omega arith in
    (low ∷ ms, rw next (ground (arith, e)), Ascends-cons low (suc low) ms high (omega arith) up)

-- What some rounds add at most, for a step of so many units.
steps : ℕ → ℕ → ℕ
steps zero step = 0
steps (suc rounds) step = step + 2 + steps rounds step

-- In the rounds of the loop that are left, a step of more than a unit above one goes up to the
-- next whole number at least.
each_point-Ascends :
    (float : Float64) (k : IsFloat64 float) (rounds mtu step high : ℕ)
    → high < word
    → unit + 1 < k.units step
    → 2 * (k.units mtu + steps rounds (k.units step)) + unit < 2 * (high * unit)
    → Ascends (float.nearest mtu) (each_point float (suc rounds) mtu step high) high
unfolding each_point steps
each_point-Ascends float k zero mtu step high bound wide room =
    let inside : 2 * k.units mtu + unit < 2 * (word * unit) = omega (arith, room, bound) in
    (refl, omega (arith, room, k.round_high mtu inside), (refl, refl))
each_point-Ascends float k (suc rounds) mtu step high bound wide room =
    let next = float.sum mtu step in
    let inside : k.units mtu + k.units step < 2 * word * unit = omega (arith, room, bound) in
    let low = k.sum_low mtu step inside in
    let top = k.sum_high mtu step inside in
    let above =
      each_point-Ascends float k rounds next step high bound wide (omega (arith, room, top)) in
    Ascends-cons (float.nearest mtu) (float.nearest next)
      (each_point float (suc rounds) next step high) high
      (omega (
        arith,
        k.round_high mtu (omega (arith, room, bound)),
        k.round_low next (omega (arith, room, top, bound)),
        low,
        wide,
      ))
      above

-- Where the minimum does not exceed the maximum, the maximum is below the highest uint32, and the
-- float64 arithmetic is that of IEEE 754, the MTUs to test start at the minimum, go up at every
-- step, and end at the maximum.
pub make_mtus_to_test-Ascends :
    (float : Float64) (low high : ℕ)
    → IsFloat64 float
    → low ≤ high
    → suc high < word
    → (ms : List ℕ) × (make_mtus_to_test float low high ≡ some ms) × Ascends low ms high
unfolding make_mtus_to_test steps
make_mtus_to_test-Ascends float low high k h bound = elim (Bool-cases (leb (high - low) 11)) [
  | inl near ↦
      let (ms, e, up) =
        each_mtu-Ascends (high - low) 13 low high (omega arith) bound (ground (arith, near)) in
      (ms, ground (arith, near, e, h), up)
  | inr far ↦
      let wide : low + 11 < high = ground (arith, far) in
      let step = float.quotient (float.of_uint32 (high - low)) (float.of_uint32 10) in
      let start = float.of_uint32 low in
      let from = k.exact low (omega (arith, wide, bound)) in
      let least = k.quotient_low (high - low) (omega (arith, bound)) in
      let most = k.quotient_high (high - low) (omega (arith, bound)) in
      let inside : 2 * k.units start + unit < 2 * (word * unit) =
        omega (arith, from, wide, bound) in
      let rounded : float.nearest start ≡ low =
        omega (arith, from, k.round_low start inside, k.round_high start inside) in
      (
        each_point float 10 start step high,
        ground (arith, far, h),
        subst (λ l. Ascends l (each_point float 10 start step high) high) rounded
            (each_point-Ascends float k 9 start step high (omega (arith, bound))
              (omega (arith, least, wide)) (omega (arith, from, most, wide))),
      )
]
