-- ===== src/Pmtud/Mtus.antt =====
-- internal/pmtud/test/mtu.go: the MTUs that one round tests.
pub mod Ascending
use gluetun.Prelude.{
  Bool, true, false, ℕ, zero, suc, ◌+◌, ◌-◌, ◌*◌, ◌%◌, ◌≤◌, ◌<◌, ◌≡◌, ltb, leb, Option, none, some,
  List, [], ◌∷◌, if◌then◌else◌,
}

abbrev pub word : ℕ
word = 4294967296

abbrev pub prepend : ℕ → Option (List ℕ) → Option (List ℕ)
prepend mtu none = none
prepend mtu (some mtus) = some (mtu ∷ mtus)

-- The loop of the second case, over uint32, by the rounds left.
pub each_mtu : ℕ → ℕ → ℕ → Option (List ℕ)
each_mtu zero mtu max_mtu = none
each_mtu (suc fuel) mtu max_mtu =
    let rest = each_mtu fuel ((mtu + 1) % word) max_mtu in
    if leb mtu max_mtu then prepend mtu rest else some []

-- The float64 arithmetic of the language on bit patterns: the conversion of a uint32, the
-- quotient, the sum, and uint32(math.Round(x)).
pub record Float64 : Type 0 where
  pub of_uint32 : ℕ → ℕ
  pub quotient : ℕ → ℕ → ℕ
  pub sum : ℕ → ℕ → ℕ
  pub nearest : ℕ → ℕ

-- The loop of the last case, by the rounds left, and the maximum after it.
pub each_point : Float64 → ℕ → ℕ → ℕ → ℕ → List ℕ
each_point float zero mtu step max_mtu = max_mtu ∷ []
each_point float (suc rounds) mtu step max_mtu =
    float.nearest mtu ∷ each_point float rounds (float.sum mtu step) step max_mtu

-- MakeMTUsToTest; `none` is its panic, and the loop of the second case where it does not end,
-- which is at the highest uint32.
unfoldable pub make_mtus_to_test : Float64 → ℕ → ℕ → Option (List ℕ)
unfolding each_mtu each_point
make_mtus_to_test float min_mtu max_mtu =
    let step = float.quotient (float.of_uint32 (max_mtu - min_mtu)) (float.of_uint32 10) in
    if ltb max_mtu min_mtu
    then none
    else if leb (max_mtu - min_mtu) 11
    then each_mtu 13 min_mtu max_mtu
    else some (each_point float 10 (float.of_uint32 min_mtu) step max_mtu)

-- The unit in which a float64 is read, which is 2^-20.
abbrev pub unit : ℕ
unit = 1048576

-- What IEEE 754 and math.Round promise of the values that are not negative, where `units x` is the
-- number of whole units in the value of `x`. A uint32 is represented exactly. A quotient and a
-- sum that is less than 2^33 are at most half a unit away from the exact ones; the rest of the
-- bounds is what is cut off by reading whole units. A value that is rounded to a uint32 goes to a
-- nearest one.
pub record IsFloat64 (float : Float64) : Type 0 where
  pub units : ℕ → ℕ
  pub exact : (n : ℕ) → n < word → units (float.of_uint32 n) ≡ n * unit
  pub quotient_low :
      (n : ℕ)
      → n < word
      → n * unit ≤ 10 * units (float.quotient (float.of_uint32 n) (float.of_uint32 10)) + 20
  pub quotient_high :
      (n : ℕ)
      → n < word
      → 10 * units (float.quotient (float.of_uint32 n) (float.of_uint32 10)) ≤ n * unit + 20
  pub sum_low :
      (x y : ℕ)
      → units x + units y < 2 * word * unit
      → units x + units y ≤ units (float.sum x y) + 1
  pub sum_high :
      (x y : ℕ)
      → units x + units y < 2 * word * unit
      → units (float.sum x y) ≤ units x + units y + 2
  pub round_low :
      (x : ℕ)
      → 2 * units x + unit < 2 * (word * unit)
      → 2 * units x < 2 * (float.nearest x * unit) + unit
  pub round_high :
      (x : ℕ)
      → 2 * units x + unit < 2 * (word * unit)
      → 2 * (float.nearest x * unit) ≤ 2 * units x + unit
