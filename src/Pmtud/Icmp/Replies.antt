-- ===== src/Pmtud/Icmp/Replies.antt =====
-- internal/pmtud/icmp/multi.go: which tests have succeeded when the replies are collected.
use mathlib.Core.Option.{some-injective}
use gluetun.Prelude.{
  ℕ, zero, suc, ◌≡◌, refl, sym, ap, ◌∙◌, ltb, true, false, Option, none, some, List, [], ◌∷◌, All,
  arith, length, get_elem?, Bool-cases, inl, inr,
}
use gluetun.Pmtud.Icmp.{
  IcmpTestUnit, Received, echo, ignored, unsupported, read_failed, CollectResult, all_found, closed,
  collect_failed, Step, on, stop, mark_ok, reply_step, id_step, read_step, collect_replies,
  index_of_id, length_matches,
}
use gluetun.Pmtud.Icmp.Marks.{
  count_one, count_ok, count_ok-mark_ok, echo_ids, NoRepeat, Waiting, Waiting-All, All-ok,
}

-- What is known before the loop goes on
Counted : List ℕ → ℕ → List IcmpTestUnit → Type 0
Counted ids n tests = (n ≡ count_ok tests) × NoRepeat ids × All (Waiting tests) ids

Goes : List ℕ → Step → Type 0
Goes ids (on n after) = Counted ids n after
Goes ids stop = Unit

reply_step-Goes :
    (id received n i : ℕ) (ids : List ℕ) (o : Option IcmpTestUnit) (tests : List IcmpTestUnit)
    → index_of_id id tests ≡ some i
    → get_elem? tests i ≡ o
    → Counted (id ∷ ids) n tests
    → Goes ids (reply_step received n i o tests)
unfolding reply_step Goes Counted Waiting
reply_step-Goes id received n i ids none tests e f counted = tt
reply_step-Goes id received n i ids (some t) tests e f (count, (fresh, distinct), (waits, all)) =
    elim (Bool-cases (length_matches t.sent_bytes received)) [
      | inl fits ↦ rw fits (
          let marked : count_ok (mark_ok i tests) ≡ suc (count_ok tests) =
            count_ok-mark_ok i tests t f (waits i t e f) in
          (omega (arith, marked, count), distinct, Waiting-All tests id i ids e fresh all))
      | inr misfits ↦ rw misfits tt
    ]

id_step-Goes :
    (id received n : ℕ) (ids : List ℕ) (o : Option ℕ) (tests : List IcmpTestUnit)
    → index_of_id id tests ≡ o
    → Counted (id ∷ ids) n tests
    → Goes ids (id_step received n o tests)
unfolding id_step Goes Counted
id_step-Goes id received n ids none tests e (count, (fresh, distinct), (waits, all)) =
    (count, distinct, all)
id_step-Goes id received n ids (some i) tests e counted =
    reply_step-Goes id received n i ids (get_elem? tests i) tests e refl counted

read_step-Goes :
    (read : Received) (reads : List Received) (n : ℕ) (tests : List IcmpTestUnit)
    → Counted (echo_ids (read ∷ reads)) n tests
    → Goes (echo_ids reads) (read_step read n tests)
unfolding read_step Goes echo_ids
read_step-Goes (echo id received) reads n tests counted =
    id_step-Goes id received n (echo_ids reads) (index_of_id id tests) tests refl counted
read_step-Goes ignored reads n tests counted = counted
read_step-Goes unsupported reads n tests counted = tt
read_step-Goes read_failed reads n tests counted = tt

abbrev pub IsComplete : CollectResult × List IcmpTestUnit → Type 0
IsComplete (all_found, tests) = All (λ (t : IcmpTestUnit). t.ok ≡ true) tests
IsComplete (closed, tests) = Unit {0}
IsComplete (collect_failed, tests) = Unit {0}

after_step-IsComplete :
    (step : Step) (tests : List IcmpTestUnit) (reads : List Received)
    → Goes (echo_ids reads) step
    → ((n : ℕ) (after : List IcmpTestUnit)
        → Counted (echo_ids reads) n after
        → IsComplete (collect_replies reads n after))
    → IsComplete (elim step as (λ _. CollectResult × List IcmpTestUnit) [
      | on n after ↦ collect_replies reads n after
      | stop ↦ (collect_failed, tests)
    ])
unfolding Goes
after_step-IsComplete (on n after) tests reads goes later = later n after goes
after_step-IsComplete stop tests reads goes later = tt

collect-Counted :
    (reads : List Received) (n : ℕ) (tests : List IcmpTestUnit)
    → Counted (echo_ids reads) n tests
    → IsComplete (collect_replies reads n tests)
unfolding collect_replies Counted
collect-Counted [] n tests (count, _, _) = elim (Bool-cases (ltb n (length tests))) [
  | inl more ↦ rw more tt
  | inr enough ↦ rw enough (All-ok tests (ground (arith, enough, count)))
]
collect-Counted (read ∷ reads) n tests counted = elim (Bool-cases (ltb n (length tests))) [
  | inl more ↦ rw more (
      after_step-IsComplete (read_step read n tests) tests reads
        (read_step-Goes read reads n tests counted) (λ m after c. collect-Counted reads m after c))
  | inr enough ↦ rw enough (All-ok tests (ground (arith, enough, counted.0)))
]

abbrev pub Unanswered : List IcmpTestUnit → Type 0
Unanswered tests = All (λ (t : IcmpTestUnit). t.ok ≡ false) tests

none_counted : (tests : List IcmpTestUnit) → Unanswered tests → count_ok tests ≡ 0
unfolding count_ok count_one
none_counted [] new = refl
none_counted (t ∷ tests) (new_t, new) = rw new_t (none_counted tests new)

Unanswered-at :
    (i : ℕ) (tests : List IcmpTestUnit) (t : IcmpTestUnit)
    → Unanswered tests
    → get_elem? tests i ≡ some t
    → t.ok ≡ false
Unanswered-at i [] t new e = absurd (ground (arith, e))
Unanswered-at zero (u ∷ tests) t (new_u, new) e =
    sym (ap (λ (x : IcmpTestUnit). x.ok) (some-injective _ _ e)) ∙ new_u
Unanswered-at (suc i) (u ∷ tests) t (new_u, new) e = Unanswered-at i tests t new e

All-Waiting :
    (tests : List IcmpTestUnit) (ids : List ℕ) → Unanswered tests → All (Waiting tests) ids
unfolding Waiting
All-Waiting tests [] new = tt
All-Waiting tests (id ∷ ids) new =
    ((λ i t e f. Unanswered-at i tests t new f), All-Waiting tests ids new)

-- For tests that have no reply yet, where no identifier comes twice among the echo replies:
-- when the collection ends without an error before the connection is closed, every test has its
-- reply.
pub collect_replies-IsComplete :
    (reads : List Received) (tests : List IcmpTestUnit)
    → Unanswered tests
    → NoRepeat (echo_ids reads)
    → IsComplete (collect_replies reads 0 tests)
unfolding Counted
collect_replies-IsComplete reads tests new distinct =
    collect-Counted reads 0 tests
      (sym (none_counted tests new), distinct, All-Waiting tests (echo_ids reads) new)
