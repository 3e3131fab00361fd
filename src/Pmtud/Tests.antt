-- ===== src/Pmtud/Tests.antt =====
-- internal/pmtud: rounds evaluated, and the theorems at inputs.
use gluetun.Prelude.{
  ℕ, ◌+◌, ◌*◌, ◌/◌, ◌≡◌, refl, leb, true, false, some, List, [], ◌∷◌, arith, inl, inr,
}
use gluetun.Pmtud.Mtus.{unit, Float64, make_mtus_to_test, IsFloat64}
use gluetun.Pmtud.Mtus.Ascending.{Ascends, make_mtus_to_test-Ascends}
use gluetun.Pmtud.Icmp.{
  IcmpTestUnit, echo, ignored, all_found, IcmpNetwork, index_of_id, length_matches, collect_replies,
}
use gluetun.Pmtud.Icmp.Marks.{echo_ids}
use gluetun.Pmtud.Icmp.Replies.{IsComplete, collect_replies-IsComplete}
use gluetun.Pmtud.Icmp.Copies.{copies, collect_replies-copies}
use gluetun.Pmtud.Tcp.{Network, found, panic, path_mtu_discover, header_length, discover_from_mss}
use gluetun.Pmtud.Tcp.Found.{path_mtu_discover-finds}
use gluetun.Pmtud.Tcp.Mss.{
  Destination, replied, failed, find_highest_mss_destination, IsHighest,
  find_highest_mss_destination-IsHighest,
}
use gluetun.Prelude.{◌++◌}
use gluetun.Pmtud.Tcp.Header.{
  syn, parsed, no_options, packet_type, make_tcp_header, parse_tcp_header,
}
use gluetun.Pmtud.Tcp.Header.RoundTrip.{parse_tcp_header-make_tcp_header}
use gluetun.Pmtud.Tcp.Bounds.{discover_from_mss-panics}

-- Numbers of whole units, where a quotient is rounded down.
abbrev fixed : Float64
fixed = record {
  of_uint32 = λ n. n * unit;
  quotient = λ x y. x * unit / y;
  sum = λ x y. x + y;
  nearest = λ x. (x + unit / 2) / unit;
}

fixed-IsFloat64 : IsFloat64 fixed
fixed-IsFloat64 = record {
  units = λ x. x;
  exact = λ n b. refl;
  quotient_low = λ n b. omega arith;
  quotient_high = λ n b. omega arith;
  sum_low = λ x y b. omega arith;
  sum_high = λ x y b. omega arith;
  round_low = λ x b. omega arith;
  round_high = λ x b. omega arith;
}

-- Packets of up to 1420 bytes come through.
abbrev tunnel : Network
tunnel = record { cancelled = λ r. false; succeeds = λ r m. leb m 1420 }

tested :
    make_mtus_to_test fixed 1400 1500
    ≡ some (1400 ∷ 1410 ∷ 1420 ∷ 1430 ∷ 1440 ∷ 1450 ∷ 1460 ∷ 1470 ∷ 1480 ∷ 1490 ∷ 1500 ∷ [])
unfolding make_mtus_to_test
tested = refl

make_mtus_to_test-Ascends_example :
    (ms : List ℕ) × (make_mtus_to_test fixed 68 1500 ≡ some ms) × Ascends 68 ms 1500
make_mtus_to_test-Ascends_example =
    make_mtus_to_test-Ascends fixed 68 1500 fixed-IsFloat64 (omega arith) (omega arith)

few_rounds : path_mtu_discover fixed tunnel 5 0 68 1500 ≡ found 1420
unfolding path_mtu_discover make_mtus_to_test
few_rounds = refl

path_mtu_discover-finds_example : path_mtu_discover fixed tunnel 1433 0 68 1500 ≡ found 1420
path_mtu_discover-finds_example =
    path_mtu_discover-finds fixed fixed-IsFloat64 tunnel 1420 1433 0 68 1500 (λ r. refl)
      (λ r m. refl) (omega arith) (omega arith) (omega arith) (omega arith)

header_length_4 : header_length true ≡ 20
unfolding header_length
header_length_4 = refl

discover_from_mss-panics_example : discover_from_mss fixed tunnel 1 true 68 20 ≡ panic
discover_from_mss-panics_example =
    discover_from_mss-panics fixed tunnel 0 true 68 20 (omega (arith, header_length_4))
      (omega (arith, header_length_4))

abbrev server : Destination
server = record { text = "1.1.1.1:443"; is_4 = true }

find_highest_mss_destination-IsHighest_example :
    IsHighest 1500
      (failed server ∷ replied server 1400 ∷ [])
      (find_highest_mss_destination 1500 (failed server ∷ replied server 1400 ∷ []))
find_highest_mss_destination-IsHighest_example =
    find_highest_mss_destination-IsHighest 1500 (failed server ∷ replied server 1400 ∷ [])

packet_type_syn : packet_type 2 ≡ some syn
unfolding packet_type
packet_type_syn = refl

parse_tcp_header-make_tcp_header_example :
    parse_tcp_header (make_tcp_header 40000 443 1000 0 2 ++ [])
    ≡ parsed (record {
      typ = syn;
      src_port = 40000;
      dst_port = 443;
      seq = 1000;
      ack = 0;
      data_offset = 20;
      flags = 2;
      window_size = 5840;
      checksum = 0;
      urgent_ptr = 0;
      options = no_options;
    })
parse_tcp_header-make_tcp_header_example =
    parse_tcp_header-make_tcp_header 40000 443 1000 0 2 syn [] (omega arith) (omega arith)
      (omega arith) (omega arith) packet_type_syn

-- Every request is sent with its MTU as identifier and length, and two of each three come back.
abbrev half : IcmpNetwork
half = record {
  listens = λ round. true;
  sends = λ round mtu. some (mtu, mtu);
  receives = λ round. echo 68 68 ∷ echo 211 211 ∷ ignored ∷ [];
}

abbrev two_tests : List IcmpTestUnit
two_tests =
    record { mtu = 600; echo_id = 7; sent_bytes = 580; ok = false }
    ∷ record { mtu = 1500; echo_id = 9; sent_bytes = 1480; ok = false }
    ∷ []

collect_replies-IsComplete_example :
    IsComplete (collect_replies (echo 9 556 ∷ echo 7 580 ∷ []) 0 two_tests)
unfolding echo_ids
collect_replies-IsComplete_example =
    collect_replies-IsComplete (echo 9 556 ∷ echo 7 580 ∷ []) two_tests (refl, (refl, tt))
      ((λ m. elim m [ inl e ↦ absurd (ground (arith, e)) | inr n ↦ n ]), ((λ m. m), tt))

collect_replies-copies_example : (collect_replies (copies 2 (echo 7 580)) 0 two_tests).0 ≡ all_found
unfolding index_of_id length_matches
collect_replies-copies_example =
    collect_replies-copies 7 580 0 two_tests
      (record { mtu = 600; echo_id = 7; sent_bytes = 580; ok = false }) refl refl refl
