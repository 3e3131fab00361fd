-- ===== src/Pmtud/Tcp/Bounds.antt =====
-- internal/pmtud/tcp/multi.go: the range that PathMTUDiscover takes from the MSS of the server.
use gluetun.Prelude.{ℕ, suc, ◌+◌, ◌-◌, ◌%◌, ◌<◌, ◌≡◌, refl, ltb, Bool, none, if◌then◌else◌, arith}
use gluetun.Pmtud.Mtus.{word, Float64, make_mtus_to_test}
use gluetun.Pmtud.Tcp.{
  Network, panic, path_mtu_discover, header_length, searched_range, discover_from_mss,
}

-- The lower end of the range for headers and an MSS of `n` bytes.
abbrev low_end : ℕ → ℕ → ℕ
low_end n min_mtu = if ltb (n % word) min_mtu then (n % word + (word - 100)) % word else min_mtu

wrapped : (n min_mtu : ℕ) → n < min_mtu → n < 100 → n % word < low_end n min_mtu
wrapped n min_mtu below small =
    let same : n % word ≡ n = omega arith in
    let up : (n + (word - 100)) % word ≡ n + (word - 100) = omega arith in
    rw same (ground (arith, below, up, small))

module _ (float : Float64) (network : Network) where
  discover_range :
      (fuel low high : ℕ)
      → high < low
      → path_mtu_discover float network (suc fuel) 0 low high ≡ panic
  unfolding path_mtu_discover make_mtus_to_test
  discover_range fuel low high h =
      let refused : make_mtus_to_test float low high ≡ none = ground (arith, h) in
      rw (refused, path_mtu_discover) refl

  -- Where the MSS of the server is too small, the lower end of the range wraps around, and the
  -- discovery panics: the headers and the MSS are fewer than a hundred bytes and fewer than the
  -- minimum MTU.
  pub discover_from_mss-panics :
      (fuel : ℕ) (is_4 : Bool) (min_mtu mss : ℕ)
      → header_length is_4 + 20 + mss < min_mtu
      → header_length is_4 + 20 + mss < 100
      → discover_from_mss float network (suc fuel) is_4 min_mtu mss ≡ panic
  unfolding discover_from_mss searched_range
  discover_from_mss-panics fuel is_4 min_mtu mss below small =
      discover_range fuel _ _ (wrapped (header_length is_4 + 20 + mss) min_mtu below small)
