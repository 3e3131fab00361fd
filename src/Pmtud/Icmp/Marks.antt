-- ===== src/Pmtud/Icmp/Marks.antt =====
-- internal/pmtud/icmp/multi.go: the tests that are marked, and those that wait for a reply.
use mathlib.Core.Path.{subst}
use mathlib.Core.Option.{some-injective}
use gluetun.Prelude.{
  ℕ, zero, suc, ◌≤◌, ◌==◌, ◌≡◌, ◌≢◌, refl, sym, ap, ◌∙◌, Bool, true, false, Option, none, some,
  List, [], ◌∷◌, All, Member, arith, length, get_elem?, if◌then◌else◌, Bool-cases, inl, inr,
}
use gluetun.Pmtud.Icmp.{IcmpTestUnit, Received, echo, index_at, mark_ok, index_of_id}

unfoldable pub count_one : Bool → ℕ → ℕ
count_one b n = if b then suc n else n

unfoldable pub count_ok : List IcmpTestUnit → ℕ
count_ok [] = 0
count_ok (t ∷ tests) = count_one t.ok (count_ok tests)

pub count_ok-mark_ok :
    (i : ℕ) (tests : List IcmpTestUnit) (t : IcmpTestUnit)
    → get_elem? tests i ≡ some t
    → t.ok ≡ false
    → count_ok (mark_ok i tests) ≡ suc (count_ok tests)
unfolding count_ok count_one
count_ok-mark_ok i [] t e new = absurd (ground (arith, e))
count_ok-mark_ok zero (u ∷ tests) t e new =
    rw (ap (λ (x : IcmpTestUnit). x.ok) (some-injective _ _ e) ∙ new) refl
count_ok-mark_ok (suc i) (u ∷ tests) t e new = elim (Bool-cases u.ok) [
  | inl yes_u ↦ rw yes_u (ap suc (count_ok-mark_ok i tests t e new))
  | inr no_u ↦ rw no_u (count_ok-mark_ok i tests t e new)
]

pub index_of_id-mark_ok :
    (id i : ℕ) (tests : List IcmpTestUnit) → index_of_id id (mark_ok i tests) ≡ index_of_id id tests
unfolding index_of_id
index_of_id-mark_ok id zero [] = refl
index_of_id-mark_ok id (suc i) [] = refl
index_of_id-mark_ok id zero (t ∷ tests) = refl
index_of_id-mark_ok id (suc i) (t ∷ tests) =
    ap (index_at (t.echo_id == id)) (index_of_id-mark_ok id i tests)

get_elem?-mark_ok :
    (i j : ℕ) (tests : List IcmpTestUnit)
    → i ≢ j
    → get_elem? (mark_ok i tests) j ≡ get_elem? tests j
get_elem?-mark_ok zero j [] h = refl
get_elem?-mark_ok (suc i) j [] h = refl
get_elem?-mark_ok zero zero (t ∷ tests) h = absurd (h refl)
get_elem?-mark_ok zero (suc j) (t ∷ tests) h = refl
get_elem?-mark_ok (suc i) zero (t ∷ tests) h = refl
get_elem?-mark_ok (suc i) (suc j) (t ∷ tests) h = get_elem?-mark_ok i j tests (λ e. h (ap suc e))

pub length-mark_ok : (i : ℕ) (tests : List IcmpTestUnit) → length (mark_ok i tests) ≡ length tests
length-mark_ok zero [] = refl
length-mark_ok (suc i) [] = refl
length-mark_ok zero (t ∷ tests) = refl
length-mark_ok (suc i) (t ∷ tests) = ap suc (length-mark_ok i tests)

-- What is found by an identifier has it.
abbrev IsFound : ℕ → List IcmpTestUnit → ℕ → Type 0
IsFound id tests i = (u : IcmpTestUnit) × (get_elem? tests i ≡ some u) × (u.echo_id ≡ id)

index_at-IsFound :
    (id i : ℕ) (t : IcmpTestUnit) (tests : List IcmpTestUnit) (o : Option ℕ)
    → index_at (t.echo_id == id) o ≡ some i
    → ((j : ℕ) → o ≡ some j → IsFound id tests j)
    → IsFound id (t ∷ tests) i
index_at-IsFound id i t tests none f h = elim (Bool-cases (t.echo_id == id)) [
  | inl same ↦
      subst (IsFound id (t ∷ tests)) (some-injective _ _ (sym (ap (λ b. index_at b none) same) ∙ f))
        (t, refl, ground (arith, same))
  | inr other ↦ absurd (ground (arith, sym (ap (λ b. index_at b none) other) ∙ f))
]
index_at-IsFound id i t tests (some j) f h =
    subst (IsFound id (t ∷ tests)) (some-injective _ _ f) (h j refl)

index_of_id-IsFound :
    (id i : ℕ) (tests : List IcmpTestUnit) → index_of_id id tests ≡ some i → IsFound id tests i
unfolding index_of_id
index_of_id-IsFound id i [] e = absurd (ground (arith, e))
index_of_id-IsFound id i (t ∷ tests) e =
    index_at-IsFound id i t tests (index_of_id id tests) e (λ j f. index_of_id-IsFound id j tests f)

-- The identifiers of the echo replies
unfoldable pub echo_ids : List Received → List ℕ
echo_ids [] = []
echo_ids (echo id received ∷ reads) = id ∷ echo_ids reads
echo_ids (_ ∷ reads) = echo_ids reads

abbrev pub NoRepeat : List ℕ → Type 0
NoRepeat [] = Unit {0}
NoRepeat (id ∷ ids) = (¬ Member id ids) × NoRepeat ids

-- The test with an identifier has had no reply.
unfoldable pub Waiting : List IcmpTestUnit → ℕ → Type 0
Waiting tests id =
    (i : ℕ) (t : IcmpTestUnit)
    → index_of_id id tests ≡ some i
    → get_elem? tests i ≡ some t
    → t.ok ≡ false

-- A reply to another identifier leaves it waiting.
Waiting-mark_ok :
    (tests : List IcmpTestUnit) (id other i : ℕ)
    → index_of_id id tests ≡ some i
    → id ≢ other
    → Waiting tests other
    → Waiting (mark_ok i tests) other
unfolding Waiting
Waiting-mark_ok tests id other i e differ waiting j t f g =
    let here : index_of_id other tests ≡ some j = sym (index_of_id-mark_ok other i tests) ∙ f in
    let apart : i ≢ j = λ same.
      let (u, at_i, id_u) = index_of_id-IsFound id i tests e in
      let (v, at_j, id_v) = index_of_id-IsFound other j tests here in
      let equal : u ≡ v = some-injective _ _ (sym at_i ∙ ap (get_elem? tests) same ∙ at_j) in
      differ (sym id_u ∙ ap (λ (x : IcmpTestUnit). x.echo_id) equal ∙ id_v) in
    waiting j t here (sym (get_elem?-mark_ok i j tests apart) ∙ g)

pub Waiting-All :
    (tests : List IcmpTestUnit) (id i : ℕ) (ids : List ℕ)
    → index_of_id id tests ≡ some i
    → ¬ Member id ids
    → All (Waiting tests) ids
    → All (Waiting (mark_ok i tests)) ids
Waiting-All tests id i [] e fresh all = tt
Waiting-All tests id i (other ∷ ids) e fresh (w, all) = (
  Waiting-mark_ok tests id other i e (λ same. fresh (inl same)) w,
  Waiting-All tests id i ids e (λ m. fresh (inr m)) all,
)

-- As many tests with a reply as there are tests
count_ok-le : (tests : List IcmpTestUnit) → count_ok tests ≤ length tests
unfolding count_ok count_one
count_ok-le [] = omega arith
count_ok-le (t ∷ tests) = ground (arith, count_ok-le tests)

pub All-ok :
    (tests : List IcmpTestUnit)
    → length tests ≤ count_ok tests
    → All (λ (t : IcmpTestUnit). t.ok ≡ true) tests
unfolding count_ok count_one
All-ok [] h = tt
All-ok (t ∷ tests) h = elim (Bool-cases t.ok) [
  | inl yes_t ↦ (yes_t, All-ok tests (ground (arith, h, yes_t)))
  | inr no_t ↦ absurd (ground (arith, h, no_t, count_ok-le tests))
]
