-- ===== src/Publicip/Distance/Edits.antt =====
-- internal/publicip/api/resilient.go: the distance is the least number of edits.
use Prim.Native.Nat.{min}
use mathlib.Core.List.{reverse, reverse_aux, reverse-reverse}
use mathlib.Core.Path.{subst}
use native.Mathlib.Nat.{min-le_left, min-le_right, min-eq_left, min-eq_right}
use gluetun.Prelude.{
  ℕ, suc, ◌+◌, ◌-◌, ◌≤◌, ◌==◌, ◌≡◌, refl, sym, ap, ◌∙◌, ◌⊎◌, leb, inl, inr, List, [], ◌∷◌, length,
  arith, Bool-cases,
}
use gluetun.Publicip.Distance.{
  cost, next_entries, next_column, columns, first_column, last_entry, levenshtein_distance,
}

-- `Edits a b n`: one string becomes the other in `n` edits of one byte each.
pub data Edits : List ℕ → List ℕ → ℕ → Type 0 where
  done : Edits [] [] 0
  keep : (x : ℕ) {a b : List ℕ} {n : ℕ} → Edits a b n → Edits (x ∷ a) (x ∷ b) n
  replace : (x y : ℕ) {a b : List ℕ} {n : ℕ} → Edits a b n → Edits (x ∷ a) (y ∷ b) (suc n)
  insert : (y : ℕ) {a b : List ℕ} {n : ℕ} → Edits a b n → Edits a (y ∷ b) (suc n)
  delete : (x : ℕ) {a b : List ℕ} {n : ℕ} → Edits a b n → Edits (x ∷ a) b (suc n)

-- The distance by recursion, on strings from their ends
distance : List ℕ → List ℕ → ℕ
unfolding cost
distance [] b = length b
distance (x ∷ a) [] = suc (length a)
distance (x ∷ a) (y ∷ b) =
    min (distance a (y ∷ b) + 1) (min (distance (x ∷ a) b + 1) (distance a b + cost x y))

-- The column for a prefix of the first string, from a prefix of the second one on
entries : List ℕ → List ℕ → List ℕ → List ℕ
unfolding distance
entries a b [] = []
entries a b (y ∷ ys) = distance a (y ∷ b) ∷ entries a (y ∷ b) ys

next_entries-entries :
    (x : ℕ) (a b ys : List ℕ)
    → next_entries x (distance (x ∷ a) b) (distance a b) ys (entries a b ys) ≡ entries (x ∷ a) b ys
unfolding next_entries entries distance
next_entries-entries x a b [] = refl
next_entries-entries x a b (y ∷ ys) =
    ap (λ column. distance (x ∷ a) (y ∷ b) ∷ column) (next_entries-entries x a (y ∷ b) ys)

first_column-entries : (b ys : List ℕ) → first_column (length b) ys ≡ (length b ∷ entries [] b ys)
unfolding first_column entries distance
first_column-entries b [] = refl
first_column-entries b (y ∷ ys) =
    let next : length b + 1 ≡ suc (length b) = omega arith in
    rw next (ap (λ column. length b ∷ column) (first_column-entries (y ∷ b) ys))

distance-nil : (a : List ℕ) → distance a [] ≡ length a
unfolding distance
distance-nil [] = refl
distance-nil (x ∷ a) = refl

next_column-entries :
    (x i : ℕ) (d b : List ℕ)
    → i ≡ distance (x ∷ d) []
    → i - 1 ≡ distance d []
    → next_column x i b (distance d [] ∷ entries d [] b)
      ≡ (distance (x ∷ d) [] ∷ entries (x ∷ d) [] b)
unfolding next_column
next_column-entries x i d b first before =
    rw (before, first) (ap (λ column. distance (x ∷ d) [] ∷ column) (next_entries-entries x d [] b))

-- `d` is what has been read of the first string.
columns-entries :
    (i : ℕ) (a d b : List ℕ)
    → i ≡ length d + 1
    → columns i a b (distance d [] ∷ entries d [] b)
      ≡ (distance (reverse_aux a d) [] ∷ entries (reverse_aux a d) [] b)
unfolding columns
columns-entries i [] d b read = refl
columns-entries i (x ∷ a) d b read =
    ap (columns (i + 1) a b) (
      next_column-entries x i d b (ground (arith, read, distance-nil (x ∷ d)))
        (ground (arith, read, distance-nil d)))
    ∙ columns-entries (i + 1) a (x ∷ d) b (ground (arith, read))

last_entry-entries :
    (a b ys : List ℕ) → last_entry (distance a b ∷ entries a b ys) ≡ distance a (reverse_aux ys b)
unfolding last_entry entries
last_entry-entries a b [] = refl
last_entry-entries a b (y ∷ ys) = last_entry-entries a (y ∷ b) ys

length-reverse_aux : (a d : List ℕ) → length (reverse_aux a d) ≡ length a + length d
length-reverse_aux [] d = omega arith
length-reverse_aux (x ∷ a) d = omega (arith, length-reverse_aux a (x ∷ d))

levenshtein_distance-distance :
    (a b : List ℕ) → levenshtein_distance a b ≡ distance (reverse a) (reverse b)
unfolding levenshtein_distance distance
levenshtein_distance-distance [] b = ground (arith, length-reverse_aux b [])
levenshtein_distance-distance (x ∷ a) [] =
    ground (arith, length-reverse_aux a (x ∷ []), distance-nil (reverse (x ∷ a)))
levenshtein_distance-distance (x ∷ a) (y ∷ b) =
    ap last_entry (
      ap (columns 1 (x ∷ a) (y ∷ b)) (first_column-entries [] (y ∷ b))
      ∙ columns-entries 1 (x ∷ a) [] (y ∷ b) refl)
    ∙ last_entry-entries (reverse_aux (x ∷ a) []) [] (y ∷ b)

distance-delete : (x : ℕ) (a b : List ℕ) → distance (x ∷ a) b ≤ distance a b + 1
unfolding distance
distance-delete x a [] = ground (arith, distance-nil a)
distance-delete x a (y ∷ b) =
    min-le_left (distance a (y ∷ b) + 1) (min (distance (x ∷ a) b + 1) (distance a b + cost x y))

distance-insert : (y : ℕ) (a b : List ℕ) → distance a (y ∷ b) ≤ distance a b + 1
unfolding distance
distance-insert y [] b = omega arith
distance-insert y (x ∷ a) b = omega (
  arith,
  min-le_right (distance a (y ∷ b) + 1) (min (distance (x ∷ a) b + 1) (distance a b + cost x y)),
  min-le_left (distance (x ∷ a) b + 1) (distance a b + cost x y),
)

distance-replace : (x y : ℕ) (a b : List ℕ) → distance (x ∷ a) (y ∷ b) ≤ distance a b + cost x y
unfolding distance
distance-replace x y a b = omega (
  arith,
  min-le_right (distance a (y ∷ b) + 1) (min (distance (x ∷ a) b + 1) (distance a b + cost x y)),
  min-le_right (distance (x ∷ a) b + 1) (distance a b + cost x y),
)

distance-least : {a b : List ℕ} {n : ℕ} → Edits a b n → distance a b ≤ n
unfolding distance cost
distance-least done = omega arith
distance-least (keep x {a} {b} e) = ground (arith, distance-replace x x a b, distance-least e)
distance-least (replace x y {a} {b} e) = ground (arith, distance-replace x y a b, distance-least e)
distance-least (insert y {a} {b} e) = omega (arith, distance-insert y a b, distance-least e)
distance-least (delete x {a} {b} e) = omega (arith, distance-delete x a b, distance-least e)

min-cases : (m n : ℕ) → (min m n ≡ m) ⊎ (min m n ≡ n)
min-cases m n = elim (Bool-cases (leb m n)) [
  | inl e ↦ inl (min-eq_left (ground (arith, e)))
  | inr e ↦ inr (min-eq_right (ground (arith, e)))
]

min_holds : (P : ℕ → Type 0) (m n : ℕ) → P m → P n → P (min m n)
min_holds P m n p q = elim (min-cases m n) [ inl e ↦ subst P (sym e) p | inr e ↦ subst P (sym e) q ]

one_more : {a b : List ℕ} {n : ℕ} → Edits a b (suc n) → Edits a b (n + 1)
one_more {a} {b} e = subst (Edits a b) (omega arith) e

replaced : (x y : ℕ) {a b : List ℕ} {n : ℕ} → Edits a b n → Edits (x ∷ a) (y ∷ b) (n + cost x y)
unfolding cost
replaced x y {a} {b} {n} e = elim (Bool-cases (x == y)) [
  | inl same ↦
      let equal : x ≡ y = ground (arith, same) in
      subst (Edits (x ∷ a) (y ∷ b)) (ground (arith, same))
        (subst (λ z. Edits (x ∷ a) (z ∷ b) n) equal (keep x e))
  | inr other ↦ subst (Edits (x ∷ a) (y ∷ b)) (ground (arith, other)) (replace x y e)
]

distance-Edits : (a b : List ℕ) → Edits a b (distance a b)
unfolding distance
distance-Edits [] [] = done
distance-Edits [] (y ∷ b) = insert y (distance-Edits [] b)
distance-Edits (x ∷ a) [] =
    subst (Edits (x ∷ a) []) (ap suc (distance-nil a)) (delete x (distance-Edits a []))
distance-Edits (x ∷ a) (y ∷ b) =
    min_holds (Edits (x ∷ a) (y ∷ b)) (distance a (y ∷ b) + 1) _
      (one_more (delete x (distance-Edits a (y ∷ b))))
      (min_holds (Edits (x ∷ a) (y ∷ b)) (distance (x ∷ a) b + 1) _
        (one_more (insert y (distance-Edits (x ∷ a) b))) (replaced x y (distance-Edits a b)))

reversed :
    {a b c d : List ℕ} {n m k : ℕ}
    → Edits a b n
    → Edits c d m
    → n + m ≡ k
    → Edits (reverse_aux a c) (reverse_aux b d) k
reversed {c} {d} done f e = subst (Edits c d) (ground (arith, e)) f
reversed (keep x g) f e = reversed g (keep x f) e
reversed (replace x y g) f e = reversed g (replace x y f) (omega (arith, e))
reversed (insert y g) f e = reversed g (insert y f) (omega (arith, e))
reversed (delete x g) f e = reversed g (delete x f) (omega (arith, e))

unreversed : (a b : List ℕ) {n : ℕ} → Edits (reverse a) (reverse b) n → Edits a b n
unreversed a b {n} e =
    subst (λ c. Edits c b n) (reverse-reverse a)
      (subst (λ d. Edits (reverse (reverse a)) d n) (reverse-reverse b)
        (reversed e done (omega arith)))

-- The least number of edits
abbrev pub IsDistance : List ℕ → List ℕ → ℕ → Type 0
IsDistance a b n = Edits a b n × ((m : ℕ) → Edits a b m → n ≤ m)

-- The distance of two strings is the least number of insertions, deletions and replacements of
-- one byte that make the second string of the first one.
pub levenshtein_distance-IsDistance : (a b : List ℕ) → IsDistance a b (levenshtein_distance a b)
levenshtein_distance-IsDistance a b =
    let same : levenshtein_distance a b ≡ distance (reverse a) (reverse b) =
      levenshtein_distance-distance a b in
    (
      subst (Edits a b) (sym same) (unreversed a b (distance-Edits (reverse a) (reverse b))),
      λ m e. ground (arith, same, distance-least {n = m} (reversed e done (omega arith))),
    )
