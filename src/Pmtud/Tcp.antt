-- ===== src/Pmtud/Tcp.antt =====
-- internal/pmtud/tcp/multi.go: the rounds of tests of pathMTUDiscover. The tests of a round run
-- at once, and what is kept of them is which succeeded before the timeout.
pub mod Rounds
pub mod Found
pub mod Bounds
pub mod Mss
pub mod Header
use gluetun.Prelude.{
  ℕ, zero, suc, ◌+◌, ◌-◌, ◌%◌, ltb, Bool, true, false, Option, none, some, List, [], ◌∷◌, map,
  if◌then◌else◌,
}
use gluetun.Pmtud.Mtus.{word, Float64, make_mtus_to_test}

pub record TestUnit : Type 0 where
  pub mtu : ℕ
  pub ok : Bool

-- What the rounds meet: in round `r` the context is cancelled, or the test of an MTU succeeds.
pub record Network : Type 0 where
  pub cancelled : ℕ → Bool
  pub succeeds : ℕ → ℕ → Bool

pub data Outcome : Type 0 where
  found : ℕ → Outcome
  mtu_not_found : Outcome
  context_cancelled : Outcome
  panic : Outcome
  out_of_fuel : Outcome

abbrev pub run_tests : (ℕ → Bool) → List ℕ → List TestUnit
run_tests succeeds = map (λ m. record { mtu = m; ok = succeeds m })

-- `tests[len(tests)-1]`
unfoldable pub last_test : List TestUnit → Option TestUnit
last_test [] = none
last_test (t ∷ []) = some t
last_test (t ∷ u ∷ ts) = last_test (u ∷ ts)

abbrev pub first_of : Option (ℕ × ℕ) → Option (ℕ × ℕ) → Option (ℕ × ℕ)
first_of none b = b
first_of (some a) b = some a

-- The loop from `len(tests) - 2` down: the range for the next round, over uint32.
unfoldable pub next_range : List TestUnit → Option (ℕ × ℕ)
next_range [] = none
next_range (t ∷ []) = none
next_range (t ∷ u ∷ ts) =
    first_of (next_range (u ∷ ts))
      (if t.ok then some (t.mtu, (u.mtu + (word - 1)) % word) else none)

abbrev pub search_next : Option (ℕ × ℕ) → (ℕ × ℕ → Outcome) → Outcome
search_next none again = mtu_not_found
search_next (some range) again = again range

-- What follows the tests of a round, with `again` for the recursive call.
abbrev pub conclude : Option TestUnit → Option (ℕ × ℕ) → (ℕ × ℕ → Outcome) → Outcome
conclude none next again = panic
conclude (some last) next again = if last.ok then found last.mtu else search_next next again

pub test_mtus : Bool → (ℕ → Bool) → ℕ → List ℕ → (ℕ × ℕ → Outcome) → Outcome
unfolding last_test next_range
test_mtus cancelled succeeds min_mtu [] again = panic
test_mtus cancelled succeeds min_mtu (m ∷ []) again = found min_mtu
test_mtus cancelled succeeds min_mtu (m ∷ n ∷ ms) again =
    let tests = run_tests succeeds (m ∷ n ∷ ms) in
    if cancelled then context_cancelled else conclude (last_test tests) (next_range tests) again

-- pathMTUDiscover, by the rounds left and the number of the round.
unfoldable pub path_mtu_discover : Float64 → Network → ℕ → ℕ → ℕ → ℕ → Outcome
unfolding make_mtus_to_test test_mtus
path_mtu_discover float network zero round min_mtu max_mtu = out_of_fuel
path_mtu_discover float network (suc fuel) round min_mtu max_mtu =
    elim (make_mtus_to_test float min_mtu max_mtu) [
      | none ↦ panic
      | some mtus ↦
          test_mtus (network.cancelled round) (network.succeeds round) min_mtu mtus
            λ range. path_mtu_discover float network fuel (suc round) range.0 range.1
    ]

-- internal/pmtud/ip/ipheader.go, HeaderLength
unfoldable pub header_length : Bool → ℕ
header_length true = 20
header_length false = 40

-- The range that PathMTUDiscover searches for a destination with the MSS, over uint32.
pub searched_range : Bool → ℕ → ℕ → ℕ × ℕ
unfolding header_length
searched_range is_4 min_mtu mss =
    let max_mtu = (header_length is_4 + 20 + mss) % word in
    (if ltb max_mtu min_mtu then (max_mtu + (word - 100)) % word else min_mtu, max_mtu)

-- PathMTUDiscover from the MSS that findHighestMSSDestination returns.
unfoldable pub discover_from_mss : Float64 → Network → ℕ → Bool → ℕ → ℕ → Outcome
unfolding path_mtu_discover searched_range
discover_from_mss float network fuel is_4 min_mtu mss =
    let (low, high) = searched_range is_4 min_mtu mss in
    path_mtu_discover float network fuel 0 low high
