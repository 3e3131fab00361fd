-- ===== src/Pmtud/Icmp/Sizes.antt =====
-- internal/pmtud/icmp/multi.go: the MTUs of the tests, which the replies leave as they are.
use mathlib.Core.Path.{subst}
use mathlib.Core.Option.{some-injective}
use gluetun.Prelude.{
  ℕ, zero, suc, ◌+◌, ◌-◌, ◌%◌, ◌<◌, ◌≡◌, refl, sym, ap, ◌∙◌, ltb, Option, none, some, List, [], ◌∷◌,
  map, arith, length, get_elem?, Bool-cases, Option-cases, inl, inr,
}
use gluetun.Pmtud.Mtus.{word}
use gluetun.Pmtud.Mtus.Ascending.{Ascends}
use gluetun.Pmtud.Tcp.{TestUnit, next_range, last_test}
use gluetun.Pmtud.Tcp.Rounds.{Within, low_of}
use gluetun.Pmtud.Icmp.{
  IcmpTestUnit, Received, echo, ignored, unsupported, read_failed, CollectResult, collect_failed,
  Step, on, stop, mark_ok, reply_step, id_step, read_step, collect_replies, with_test, send_tests,
  unit_of, index_of_id, length_matches,
}

abbrev pub mtus_of : List TestUnit → List ℕ
mtus_of [] = []
mtus_of (t ∷ tests) = t.mtu ∷ mtus_of tests

abbrev pub sizes : List IcmpTestUnit → List ℕ
sizes [] = []
sizes (t ∷ tests) = t.mtu ∷ sizes tests

-- The next range of tests whose MTUs go up, whichever of them work
pub next_range-Ascends :
    (tests : List TestUnit) (low high : ℕ) (r : ℕ × ℕ)
    → Ascends low (mtus_of tests) high
    → high < word
    → next_range tests ≡ some r
    → Within low high r
unfolding next_range
next_range-Ascends [] low high r up bound e = absurd up
next_range-Ascends (t ∷ []) low high r up bound e = absurd (ground (arith, e))
next_range-Ascends (t ∷ u ∷ ts) low high r up bound e = elim (Option-cases (next_range (u ∷ ts))) [
  | inr (q, later) ↦
      let h = next_range-Ascends (u ∷ ts) u.mtu high q up.2 bound later in
      let same : q ≡ r = ground (arith, e, later) in
      subst (Within low high) same (omega (arith, h.0, up.0, up.1), h.1, h.2)
  | inl nothing ↦
      let below = (low_of u.mtu high u.mtu (mtus_of ts) up.2).1 in
      let before = (u.mtu + (word - 1)) % word in
      let one_less : suc before ≡ u.mtu = omega (arith, up.1, below, bound) in
      elim (Bool-cases t.ok) [
        | inl yes_m ↦
            let same : (t.mtu, before) ≡ r = ground (arith, e, nothing, yes_m) in
            subst (Within low high) same
              (omega (arith, up.0), omega (arith, one_less, up.1), omega (arith, one_less, below))
        | inr no_m ↦ absurd (ground (arith, e, nothing, no_m))
      ]
]

pub last_test-Ascends :
    (tests : List TestUnit) (low high : ℕ)
    → Ascends low (mtus_of tests) high
    → (t : TestUnit) × (last_test tests ≡ some t) × (t.mtu ≡ high)
unfolding last_test
last_test-Ascends [] low high up = absurd up
last_test-Ascends (t ∷ []) low high up = (t, refl, up.1)
last_test-Ascends (t ∷ u ∷ ts) low high up = last_test-Ascends (u ∷ ts) u.mtu high up.2

-- The replies change no MTU.
sizes-mark_ok : (i : ℕ) (tests : List IcmpTestUnit) → sizes (mark_ok i tests) ≡ sizes tests
sizes-mark_ok zero [] = refl
sizes-mark_ok (suc i) [] = refl
sizes-mark_ok zero (t ∷ tests) = refl
sizes-mark_ok (suc i) (t ∷ tests) = ap (λ ms. t.mtu ∷ ms) (sizes-mark_ok i tests)

SameSizes : List IcmpTestUnit → Step → Type 0
SameSizes tests (on n after) = sizes after ≡ sizes tests
SameSizes tests stop = Unit

reply_step-SameSizes :
    (received n i : ℕ) (o : Option IcmpTestUnit) (tests : List IcmpTestUnit)
    → SameSizes tests (reply_step received n i o tests)
unfolding reply_step SameSizes
reply_step-SameSizes received n i none tests = tt
reply_step-SameSizes received n i (some t) tests =
    elim (Bool-cases (length_matches t.sent_bytes received)) [
      | inl yes_m ↦ rw yes_m (sizes-mark_ok i tests)
      | inr no_m ↦ rw no_m tt
    ]

id_step-SameSizes :
    (received n : ℕ) (o : Option ℕ) (tests : List IcmpTestUnit)
    → SameSizes tests (id_step received n o tests)
unfolding id_step SameSizes
id_step-SameSizes received n none tests = refl
id_step-SameSizes received n (some i) tests =
    reply_step-SameSizes received n i (get_elem? tests i) tests

read_step-SameSizes :
    (read : Received) (n : ℕ) (tests : List IcmpTestUnit) → SameSizes tests (read_step read n tests)
unfolding read_step SameSizes
read_step-SameSizes (echo id received) n tests =
    id_step-SameSizes received n (index_of_id id tests) tests
read_step-SameSizes ignored n tests = refl
read_step-SameSizes unsupported n tests = tt
read_step-SameSizes read_failed n tests = tt

after_step-sizes :
    (step : Step) (tests : List IcmpTestUnit) (reads : List Received)
    → SameSizes tests step
    → ((n : ℕ) (after : List IcmpTestUnit) → sizes (collect_replies reads n after).1 ≡ sizes after)
    → sizes
        (elim step as (λ _. CollectResult × List IcmpTestUnit) [
          | on n after ↦ collect_replies reads n after
          | stop ↦ (collect_failed, tests)
        ]).1
      ≡ sizes tests
unfolding SameSizes
after_step-sizes (on n after) tests reads same later = later n after ∙ same
after_step-sizes stop tests reads same later = refl

pub collect_replies-sizes :
    (reads : List Received) (n : ℕ) (tests : List IcmpTestUnit)
    → sizes (collect_replies reads n tests).1 ≡ sizes tests
unfolding collect_replies
collect_replies-sizes [] n tests = refl
collect_replies-sizes (read ∷ reads) n tests = elim (Bool-cases (ltb n (length tests))) [
  | inl more ↦ rw more (
      after_step-sizes (read_step read n tests) tests reads (read_step-SameSizes read n tests)
        (λ m after. collect_replies-sizes reads m after))
  | inr enough ↦ rw enough refl
]

with_test-sizes :
    (mtu : ℕ) (sent : Option (ℕ × ℕ)) (o : Option (List IcmpTestUnit)) (tests : List IcmpTestUnit)
    (mtus : List ℕ)
    → with_test mtu sent o ≡ some tests
    → ((ts : List IcmpTestUnit) → o ≡ some ts → sizes ts ≡ mtus)
    → sizes tests ≡ (mtu ∷ mtus)
with_test-sizes mtu none o tests mtus e h = absurd (ground (arith, e))
with_test-sizes mtu (some (id, bytes)) none tests mtus e h = absurd (ground (arith, e))
with_test-sizes mtu (some (id, bytes)) (some ts) tests mtus e h =
    ap sizes (sym (some-injective _ _ e)) ∙ ap (λ ms. mtu ∷ ms) (h ts refl)

pub send_tests-sizes :
    (sends : ℕ → Option (ℕ × ℕ)) (mtus : List ℕ) (tests : List IcmpTestUnit)
    → send_tests sends mtus ≡ some tests
    → sizes tests ≡ mtus
unfolding send_tests
send_tests-sizes sends [] tests e = ap sizes (sym (some-injective _ _ e))
send_tests-sizes sends (m ∷ mtus) tests e =
    with_test-sizes m (sends m) (send_tests sends mtus) tests mtus e
      (λ ts k. send_tests-sizes sends mtus ts k)

pub sizes-unit_of : (tests : List IcmpTestUnit) → mtus_of (map unit_of tests) ≡ sizes tests
sizes-unit_of [] = refl
sizes-unit_of (t ∷ tests) = ap (λ ms. t.mtu ∷ ms) (sizes-unit_of tests)
