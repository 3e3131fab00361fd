-- ===== src/Pmtud/Tcp/Found.antt =====
-- internal/pmtud/tcp/multi.go: what pathMTUDiscover finds, and that it ends.
use mathlib.Core.Path.{subst, fun_ext}
use gluetun.Prelude.{
  ℕ, zero, suc, ◌-◌, ◌≤◌, ◌<◌, ◌≡◌, refl, sym, ap, ◌∙◌, leb, Bool, true, false, Option, none, some,
  List, [], ◌∷◌, if◌then◌else◌, arith,
}
use gluetun.Pmtud.Mtus.{word, Float64, make_mtus_to_test, IsFloat64}
use gluetun.Pmtud.Mtus.Ascending.{Ascends, make_mtus_to_test-Ascends}
use gluetun.Pmtud.Tcp.{
  Network, Outcome, found, mtu_not_found, context_cancelled, panic, out_of_fuel, run_tests,
  last_test, next_range, search_next, conclude, test_mtus, path_mtu_discover,
}
use gluetun.Pmtud.Tcp.Rounds.{Within, last_test-run_tests, next_range-Within, next_range-threshold}

-- A result of a search from `low` to `high`.
abbrev pub IsResult : ℕ → ℕ → Outcome → Type 0
IsResult low high (found m) = (low ≤ m) × (m ≤ high)
IsResult low high mtu_not_found = Unit
IsResult low high context_cancelled = Unit
IsResult low high panic = ⊥
IsResult low high out_of_fuel = ⊥

IsResult-widen :
    (a b low high : ℕ) (o : Outcome) → low ≤ a → b ≤ high → IsResult a b o → IsResult low high o
IsResult-widen a b low high (found m) h k r = (omega (arith, h, r.0), omega (arith, k, r.1))
IsResult-widen a b low high mtu_not_found h k r = tt
IsResult-widen a b low high context_cancelled h k r = tt
IsResult-widen a b low high panic h k r = r
IsResult-widen a b low high out_of_fuel h k r = r

if_outcome :
    (P : Outcome → Type 0) (b : Bool) (x y : Outcome)
    → (b ≡ true → P x)
    → (b ≡ false → P y)
    → P (if b then x else y)
if_outcome P true x y p q = p refl
if_outcome P false x y p q = q refl

search_next-result :
    (P : Outcome → Type 0) (next : Option (ℕ × ℕ)) (again : ℕ × ℕ → Outcome)
    → (next ≡ none → P mtu_not_found)
    → ((r : ℕ × ℕ) → next ≡ some r → P (again r))
    → P (search_next next again)
search_next-result P none again p q = p refl
search_next-result P (some r) again p q = q r refl

-- The branches of a round of more than one test.
test_mtus-result :
    (P : Outcome → Type 0) (cancelled : Bool) (succeeds : ℕ → Bool) (m n : ℕ) (ms : List ℕ)
    (low high : ℕ) (again : ℕ × ℕ → Outcome)
    → Ascends low (m ∷ n ∷ ms) high
    → (cancelled ≡ true → P context_cancelled)
    → (succeeds high ≡ true → P (found high))
    → (succeeds high ≡ false
        → next_range (run_tests succeeds (m ∷ n ∷ ms)) ≡ none
        → P mtu_not_found)
    → ((r : ℕ × ℕ)
        → succeeds high ≡ false
        → next_range (run_tests succeeds (m ∷ n ∷ ms)) ≡ some r
        → P (again r))
    → P (test_mtus cancelled succeeds low (m ∷ n ∷ ms) again)
unfolding test_mtus
test_mtus-result P cancelled succeeds m n ms low high again up on_cancel on_high on_none on_range =
    let tests = run_tests succeeds (m ∷ n ∷ ms) in
    if_outcome P cancelled context_cancelled (conclude (last_test tests) (next_range tests) again)
      on_cancel
      λ _.
        subst (λ last. P (conclude last (next_range tests) again))
          (sym (last_test-run_tests succeeds (m ∷ n ∷ ms) low high up))
          (if_outcome P (succeeds high) (found high) (search_next (next_range tests) again) on_high
            λ no.
              search_next-result P (next_range tests) again (on_none no) (λ r e. on_range r no e))

test_mtus-IsResult :
    (cancelled : Bool) (succeeds : ℕ → Bool) (ms : List ℕ) (low high : ℕ) (again : ℕ × ℕ → Outcome)
    → Ascends low ms high
    → high < word
    → low ≤ high
    → ((r : ℕ × ℕ) → Within low high r → IsResult low high (again r))
    → IsResult low high (test_mtus cancelled succeeds low ms again)
unfolding test_mtus
test_mtus-IsResult cancelled succeeds [] low high again up bound h narrows = absurd up
test_mtus-IsResult cancelled succeeds (m ∷ []) low high again up bound h narrows = (omega arith, h)
test_mtus-IsResult cancelled succeeds (m ∷ n ∷ ms) low high again up bound h narrows =
    test_mtus-result (IsResult low high) cancelled succeeds m n ms low high again up (λ _. tt)
      (λ _. (h, omega arith)) (λ _ _. tt)
      (λ r _ e. narrows r (next_range-Within succeeds (m ∷ n ∷ ms) low high r up bound e))

test_mtus-finds :
    (path : ℕ) (cancelled : Bool) (ms : List ℕ) (low high : ℕ) (again : ℕ × ℕ → Outcome)
    → cancelled ≡ false
    → Ascends low ms high
    → high < word
    → low ≤ path
    → path ≤ high
    → ((r : ℕ × ℕ) → Within low high r → r.0 ≤ path → path ≤ r.1 → again r ≡ found path)
    → test_mtus cancelled (λ m. leb m path) low ms again ≡ found path
unfolding test_mtus
test_mtus-finds path cancelled [] low high again on up bound l h finds = absurd up
test_mtus-finds path cancelled (m ∷ []) low high again on up bound l h finds =
    ap found (omega (arith, up.0, up.1))
test_mtus-finds path cancelled (m ∷ n ∷ ms) low high again on up bound l h finds =
    test_mtus-result (λ o. o ≡ found path) cancelled (λ m'. leb m' path) m n ms low high again up
      (λ c. absurd (ground (arith, c, on)))
      (λ ok. ap found (let reached : high ≤ path = ground (arith, ok) in omega arith))
      (λ no none_next.
        let (r, e, _, _) =
          next_range-threshold path (m ∷ n ∷ ms) low high up bound l (ground (arith, no)) in
        absurd (ground (arith, e, none_next)))
      (λ r no e.
        let (q, e', a, b) =
          next_range-threshold path (m ∷ n ∷ ms) low high up bound l (ground (arith, no)) in
        let same : q ≡ r = ground (arith, e, e') in
        subst (λ x. again x ≡ found path) same
          (finds q (next_range-Within (λ m'. leb m' path) (m ∷ n ∷ ms) low high q up bound e') a b))

module _ (float : Float64) (ieee : IsFloat64 float) (network : Network) where
  one_round :
      (fuel round low high : ℕ) (ms : List ℕ)
      → make_mtus_to_test float low high ≡ some ms
      → path_mtu_discover float network (suc fuel) round low high
        ≡ test_mtus
            (network.cancelled round)
            (network.succeeds round)
            low
            ms
            (λ r. path_mtu_discover float network fuel (suc round) r.0 r.1)
  unfolding path_mtu_discover
  one_round fuel round low high ms e = rw (e, path_mtu_discover) refl

  -- Whatever the network does, and where the float64 arithmetic keeps the bounds of IEEE 754, the
  -- search of a range that is not empty and ends below the highest uint32 ends within as many
  -- rounds as the range has MTUs, without a panic, and an MTU that it finds lies in the range.
  pub path_mtu_discover-IsResult :
      (fuel round low high : ℕ)
      → low ≤ high
      → suc high < word
      → high - low < fuel
      → IsResult low high (path_mtu_discover float network fuel round low high)
  path_mtu_discover-IsResult zero round low high h bound enough = absurd (omega arith)
  path_mtu_discover-IsResult (suc fuel) round low high h bound enough =
      let (ms, e, up) = make_mtus_to_test-Ascends float low high ieee h bound in
      subst (IsResult low high) (sym (one_round fuel round low high ms e)) (
        test_mtus-IsResult (network.cancelled round) (network.succeeds round) ms low high _ up
          (omega arith) h
          λ r w.
            IsResult-widen r.0 r.1 low high
              (path_mtu_discover float network fuel (suc round) r.0 r.1) w.0 (omega (arith, w.2))
              (path_mtu_discover-IsResult fuel (suc round) r.0 r.1 w.1 (omega (arith, w.2, bound))
                (omega (arith, w.0, w.1, w.2, enough))))

  -- Where the float64 arithmetic keeps the bounds of IEEE 754, no round is cancelled and, in
  -- every round, exactly the packets up to the path MTU `path` come through, the search of a range
  -- with `path` in it that ends below the highest uint32 finds `path`, within as many rounds as
  -- the range has MTUs.
  pub path_mtu_discover-finds :
      (path fuel round low high : ℕ)
      → ((r : ℕ) → network.cancelled r ≡ false)
      → ((r m : ℕ) → network.succeeds r m ≡ leb m path)
      → low ≤ path
      → path ≤ high
      → suc high < word
      → high - low < fuel
      → path_mtu_discover float network fuel round low high ≡ found path
  path_mtu_discover-finds path zero round low high on through l h bound enough =
      absurd (omega arith)
  path_mtu_discover-finds path (suc fuel) round low high on through l h bound enough =
      let (ms, e, up) = make_mtus_to_test-Ascends float low high ieee (omega arith) bound in
      one_round fuel round low high ms e
      ∙ ap
          (λ succeeds.
            test_mtus (network.cancelled round) succeeds low ms
              (λ r. path_mtu_discover float network fuel (suc round) r.0 r.1))
          (fun_ext (through round))
      ∙ test_mtus-finds path (network.cancelled round) ms low high
          (λ r. path_mtu_discover float network fuel (suc round) r.0 r.1) (on round) up
          (omega arith) l h
          (λ r w a b.
            path_mtu_discover-finds path fuel (suc round) r.0 r.1 on through a b
              (omega (arith, w.2, bound)) (omega (arith, w.0, w.1, w.2, enough)))
