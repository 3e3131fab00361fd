-- ===== src/Pmtud/Icmp/Bounds.antt =====
-- internal/pmtud/icmp/multi.go: the search ends, with an MTU of its range.
use gluetun.Prelude.{ℕ, ◌≤◌}
use gluetun.Pmtud.Icmp.{IcmpOutcome, mtu_found, not_found, icmp_failed, icmp_panic, no_fuel}

-- A result of a search from `low` to `high`
abbrev pub IsIcmpResult : ℕ → ℕ → IcmpOutcome → Type 0
IsIcmpResult low high (mtu_found m) = (low ≤ m) × (m ≤ high)
IsIcmpResult low high not_found = Unit
IsIcmpResult low high icmp_failed = Unit
IsIcmpResult low high icmp_panic = ⊥
IsIcmpResult low high no_fuel = ⊥
