-- ===== src/Pmtud/Tcp/Rounds.antt =====
-- internal/pmtud/tcp/multi.go: one round of tests.
use mathlib.Core.Path.{subst}
use gluetun.Prelude.{
  ℕ, suc, ◌+◌, ◌-◌, ◌%◌, ◌≤◌, ◌<◌, ◌≡◌, refl, leb, Bool, none, some, List, [], ◌∷◌, arith,
  Bool-cases, Option-cases, inl, inr,
}
use gluetun.Pmtud.Mtus.{word}
use gluetun.Pmtud.Mtus.Ascending.{Ascends}
use gluetun.Pmtud.Tcp.{run_tests, last_test, next_range}

-- The test of the highest MTU.
pub last_test-run_tests :
    (succeeds : ℕ → Bool) (ms : List ℕ) (low high : ℕ)
    → Ascends low ms high
    → last_test (run_tests succeeds ms) ≡ some (record { mtu = high; ok = succeeds high })
unfolding last_test
last_test-run_tests succeeds [] low high up = absurd up
last_test-run_tests succeeds (m ∷ []) low high up = rw up.1 refl
last_test-run_tests succeeds (m ∷ n ∷ ms) low high up =
    last_test-run_tests succeeds (n ∷ ms) n high up.2

-- A range within the bounds that is shorter at the upper end.
abbrev pub Within : ℕ → ℕ → ℕ × ℕ → Type 0
Within low high (a, b) = (low ≤ a) × (a ≤ b) × (b < high)

pub low_of : (low high m : ℕ) (ms : List ℕ) → Ascends low (m ∷ ms) high → (m ≡ low) × (low ≤ high)
low_of low high m [] up = (up.0, omega (arith, up.0, up.1))
low_of low high m (n ∷ ms) up = (up.0, omega (arith, up.0, up.1, (low_of n high n ms up.2).1))

pub next_range-Within :
    (succeeds : ℕ → Bool) (ms : List ℕ) (low high : ℕ) (r : ℕ × ℕ)
    → Ascends low ms high
    → high < word
    → next_range (run_tests succeeds ms) ≡ some r
    → Within low high r
unfolding next_range
next_range-Within succeeds [] low high r up bound e = absurd up
next_range-Within succeeds (m ∷ []) low high r up bound e = absurd (ground (arith, e))
next_range-Within succeeds (m ∷ n ∷ ms) low high r up bound e =
    elim (Option-cases (next_range (run_tests succeeds (n ∷ ms)))) [
      | inr (q, later) ↦
          let h = next_range-Within succeeds (n ∷ ms) n high q up.2 bound later in
          let same : q ≡ r = ground (arith, e, later) in
          subst (Within low high) same (omega (arith, h.0, up.0, up.1), h.1, h.2)
      | inl nothing ↦
          let below = (low_of n high n ms up.2).1 in
          let before = (n + (word - 1)) % word in
          let one_less : suc before ≡ n = omega (arith, up.1, below, bound) in
          elim (Bool-cases (succeeds m)) [
            | inl yes_m ↦
                let same : (m, before) ≡ r = ground (arith, e, nothing, yes_m) in
                subst (Within low high) same (
                  omega (arith, up.0),
                  omega (arith, one_less, up.1),
                  omega (arith, one_less, below),
                )
            | inr no_m ↦ absurd (ground (arith, e, nothing, no_m))
          ]
    ]

-- Where no MTU of the round works there is no next range.
pub next_range-none :
    (path : ℕ) (ms : List ℕ) (low high : ℕ)
    → Ascends low ms high
    → path < low
    → next_range (run_tests (λ m. leb m path) ms) ≡ none
unfolding next_range
next_range-none path [] low high up a = refl
next_range-none path (m ∷ []) low high up a = refl
next_range-none path (m ∷ n ∷ ms) low high up a =
    ground (arith, next_range-none path (n ∷ ms) n high up.2 (omega (arith, up.0, up.1)), up.0)

-- Where the MTUs up to `path` work and no other ones, the next range has `path` in it.
pub next_range-threshold :
    (path : ℕ) (ms : List ℕ) (low high : ℕ)
    → Ascends low ms high
    → high < word
    → low ≤ path
    → path < high
    → (r : ℕ × ℕ) × (next_range (run_tests (λ m. leb m path) ms) ≡ some r)
      × (r.0 ≤ path)
      × (path ≤ r.1)
unfolding next_range
next_range-threshold path [] low high up bound a b = absurd up
next_range-threshold path (m ∷ []) low high up bound a b = absurd (omega (arith, up.0, up.1))
next_range-threshold path (m ∷ n ∷ ms) low high up bound a b = elim (Bool-cases (leb n path)) [
  | inl more ↦
      let (r, e, f, g) =
        next_range-threshold path (n ∷ ms) n high up.2 bound (ground (arith, more)) b in
      (r, ground (arith, e), f, g)
  | inr last ↦
      let beyond : path < n = ground (arith, last) in
      let before = (n + (word - 1)) % word in
      let one_less : suc before ≡ n = omega (arith, up.1, (low_of n high n ms up.2).1, bound) in
      let works : m ≤ path = omega (arith, up.0, a) in
      (
        (m, before),
        ground (arith, next_range-none path (n ∷ ms) n high up.2 beyond, works),
        works,
        omega (arith, one_less, beyond),
      )
]
