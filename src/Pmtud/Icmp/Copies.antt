-- ===== src/Pmtud/Icmp/Copies.antt =====
-- internal/pmtud/icmp/multi.go: a reply that comes more than once.
use mathlib.Core.Option.{some-injective}
use gluetun.Prelude.{
  ℕ, zero, suc, ◌+◌, ◌≤◌, ◌≡◌, refl, ap, ◌∙◌, ltb, true, false, some, List, [], ◌∷◌, arith, length,
  get_elem?, Bool-cases, inl, inr,
}
use gluetun.Pmtud.Icmp.{
  IcmpTestUnit, Received, echo, all_found, mark_ok, reply_step, id_step, read_step, collect_replies,
  index_of_id, length_matches,
}
use gluetun.Pmtud.Icmp.Marks.{index_of_id-mark_ok, length-mark_ok}

-- Copies of one message
abbrev pub copies : ℕ → Received → List Received
copies zero read = []
copies (suc k) read = read ∷ copies k read

get_elem?-marked :
    (i : ℕ) (tests : List IcmpTestUnit) (t : IcmpTestUnit)
    → get_elem? tests i ≡ some t
    → get_elem? (mark_ok i tests) i ≡ some (record t { ok = true })
get_elem?-marked i [] t e = absurd (ground (arith, e))
get_elem?-marked zero (u ∷ tests) t e =
    ap (λ (x : IcmpTestUnit). some (record x { ok = true })) (some-injective _ _ e)
get_elem?-marked (suc i) (u ∷ tests) t e = get_elem?-marked i tests t e

collect_copies :
    (k n id received i : ℕ) (tests : List IcmpTestUnit) (t : IcmpTestUnit)
    → length tests ≤ n + k
    → index_of_id id tests ≡ some i
    → get_elem? tests i ≡ some t
    → length_matches t.sent_bytes received ≡ true
    → (collect_replies (copies k (echo id received)) n tests).0 ≡ all_found
unfolding collect_replies read_step id_step reply_step
collect_copies zero n id received i tests t enough e f fits =
    let no_more : ltb n (length tests) ≡ false = ground (arith, enough) in rw no_more refl
collect_copies (suc k) n id received i tests t enough e f fits =
    elim (Bool-cases (ltb n (length tests))) [
      | inl more ↦
          rw (more, e, f, fits)
            (collect_copies k (n + 1) id received i (mark_ok i tests) (record t { ok = true })
              (omega (arith, enough, length-mark_ok i tests)) (index_of_id-mark_ok id i tests ∙ e)
              (get_elem?-marked i tests t f) fits)
      | inr done ↦ rw done refl
    ]

-- Copies of one reply that fits a test, as many as there are tests, end the collection as if
-- every test had its reply, whatever the other tests are.
pub collect_replies-copies :
    (id received i : ℕ) (tests : List IcmpTestUnit) (t : IcmpTestUnit)
    → index_of_id id tests ≡ some i
    → get_elem? tests i ≡ some t
    → length_matches t.sent_bytes received ≡ true
    → (collect_replies (copies (length tests) (echo id received)) 0 tests).0 ≡ all_found
collect_replies-copies id received i tests t e f fits =
    collect_copies (length tests) 0 id received i tests t (omega arith) e f fits
