-- ===== src/Pmtud/Icmp.antt =====
-- internal/pmtud/icmp/multi.go: the echo requests of different sizes, and their replies. Sending
-- and receiving are parameters.
pub mod Sizes
pub mod Bounds
pub mod Marks
pub mod Replies
pub mod Copies
use gluetun.Prelude.{
  ℕ, zero, suc, ◌+◌, ◌==◌, ltb, not, ◌&&◌, Bool, true, false, Option, none, some, List, [], ◌∷◌,
  map, length, get_elem?, set, if◌then◌else◌,
}
use gluetun.Pmtud.Mtus.{Float64, make_mtus_to_test}
use gluetun.Pmtud.Tcp.{TestUnit, next_range, last_test}

pub record IcmpTestUnit : Type 0 where
  pub mtu : ℕ
  pub echo_id : ℕ
  pub sent_bytes : ℕ
  pub ok : Bool

-- What a read gives: an echo reply with its identifier and length, a message that is ignored, or
-- something that ends the loop with an error.
pub data Received : Type 0 where
  echo : ℕ → ℕ → Received
  ignored : Received
  unsupported : Received
  read_failed : Received

-- `closed` is the error of a read after the timeout, net.ErrClosed.
pub data CollectResult : Type 0 where
  all_found : CollectResult
  closed : CollectResult
  collect_failed : CollectResult

-- The map echoIDToTestIndex, in which the last index of an identifier stays
abbrev pub index_at : Bool → Option ℕ → Option ℕ
index_at here (some i) = some (suc i)
index_at here none = if here then some 0 else none

unfoldable pub index_of_id : ℕ → List IcmpTestUnit → Option ℕ
index_of_id id [] = none
index_of_id id (t ∷ tests) = index_at (t.echo_id == id) (index_of_id id tests)

-- Whether the length of a reply is one that the test accepts
unfoldable pub length_matches : ℕ → ℕ → Bool
length_matches sent received =
    let truncated = ltb received sent && (received == 556) in
    if not truncated && not (sent == received) then false else true

abbrev pub mark_ok : ℕ → List IcmpTestUnit → List IcmpTestUnit
mark_ok zero (t ∷ tests) = record t { ok = true } ∷ tests
mark_ok (suc i) (t ∷ tests) = t ∷ mark_ok i tests
mark_ok i [] = []

-- An iteration after a read: on with the number of identifiers found and the tests, or an error
pub data Step : Type 0 where
  on : ℕ → List IcmpTestUnit → Step
  stop : Step

pub reply_step : ℕ → ℕ → ℕ → Option IcmpTestUnit → List IcmpTestUnit → Step
unfolding length_matches
reply_step received ids_found i none tests = stop
reply_step received ids_found i (some t) tests =
    if length_matches t.sent_bytes received then on (ids_found + 1) (mark_ok i tests) else stop

pub id_step : ℕ → ℕ → Option ℕ → List IcmpTestUnit → Step
unfolding reply_step
id_step received ids_found none tests = on ids_found tests
id_step received ids_found (some i) tests =
    reply_step received ids_found i (get_elem? tests i) tests

pub read_step : Received → ℕ → List IcmpTestUnit → Step
unfolding id_step index_of_id
read_step (echo id received) ids_found tests =
    id_step received ids_found (index_of_id id tests) tests
read_step ignored ids_found tests = on ids_found tests
read_step unsupported ids_found tests = stop
read_step read_failed ids_found tests = stop

-- The loop of collectReplies over what is read until the connection is closed, with the number of
-- identifiers found
unfoldable pub collect_replies :
    List Received → ℕ → List IcmpTestUnit → CollectResult × List IcmpTestUnit
unfolding read_step
collect_replies [] ids_found tests =
    (if ltb ids_found (length tests) then closed else all_found, tests)
collect_replies (read ∷ reads) ids_found tests =
    if not (ltb ids_found (length tests))
    then (all_found, tests)
    else elim (read_step read ids_found tests) [
      | on found after ↦ collect_replies reads found after
      | stop ↦ (collect_failed, tests)
    ]

-- What pmtudMultiSizes meets: in a round, the identifier and the bytes of the request for an MTU,
-- none where it cannot be made or written, and what is read before the timeout.
pub record IcmpNetwork : Type 0 where
  pub listens : ℕ → Bool
  pub sends : ℕ → ℕ → Option (ℕ × ℕ)
  pub receives : ℕ → List Received

pub data IcmpOutcome : Type 0 where
  mtu_found : ℕ → IcmpOutcome
  not_found : IcmpOutcome
  icmp_failed : IcmpOutcome
  icmp_panic : IcmpOutcome
  no_fuel : IcmpOutcome

abbrev pub with_test : ℕ → Option (ℕ × ℕ) → Option (List IcmpTestUnit) → Option (List IcmpTestUnit)
with_test mtu (some (id, bytes)) (some tests) =
    some (record { mtu = mtu; echo_id = id; sent_bytes = bytes; ok = false } ∷ tests)
with_test mtu _ _ = none

pub send_tests : (ℕ → Option (ℕ × ℕ)) → List ℕ → Option (List IcmpTestUnit)
send_tests sends [] = some []
send_tests sends (mtu ∷ mtus) = with_test mtu (sends mtu) (send_tests sends mtus)

-- The loop over the tests from `len(tests) - 2` down is the one of the TCP search.
abbrev pub unit_of : IcmpTestUnit → TestUnit
unit_of t = record { mtu = t.mtu; ok = t.ok }

abbrev pub search_from : Option (ℕ × ℕ) → (ℕ × ℕ → IcmpOutcome) → IcmpOutcome
search_from none again = not_found
search_from (some range) again = again range

abbrev pub found_last : Option TestUnit → IcmpOutcome
found_last none = icmp_panic
found_last (some t) = mtu_found t.mtu

pub after_replies : CollectResult × List IcmpTestUnit → (ℕ × ℕ → IcmpOutcome) → IcmpOutcome
unfolding last_test next_range
after_replies (all_found, tests) again = found_last (last_test (map unit_of tests))
after_replies (closed, tests) again = search_from (next_range (map unit_of tests)) again
after_replies (collect_failed, tests) again = icmp_failed

pub test_sizes :
    (ℕ → Option (ℕ × ℕ)) → List Received → ℕ → List ℕ → (ℕ × ℕ → IcmpOutcome) → IcmpOutcome
unfolding send_tests after_replies collect_replies
test_sizes sends reads min_mtu (m ∷ []) again = mtu_found min_mtu
test_sizes sends reads min_mtu mtus again = elim (send_tests sends mtus) [
  | none ↦ icmp_failed
  | some tests ↦ after_replies (collect_replies reads 0 tests) again
]

-- pmtudMultiSizes, by the rounds left and the number of the round
unfoldable pub pmtud_multi_sizes : Float64 → IcmpNetwork → ℕ → ℕ → ℕ → ℕ → IcmpOutcome
unfolding test_sizes make_mtus_to_test
pmtud_multi_sizes float network zero round min_mtu max_mtu = no_fuel
pmtud_multi_sizes float network (suc fuel) round min_mtu max_mtu =
    if not (network.listens round)
    then icmp_failed
    else elim (make_mtus_to_test float min_mtu max_mtu) [
      | none ↦ icmp_panic
      | some mtus ↦
          test_sizes (network.sends round) (network.receives round) min_mtu mtus
            λ range. pmtud_multi_sizes float network fuel (suc round) range.0 range.1
    ]
