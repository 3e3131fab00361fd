-- ===== src/Publicip/Distance.antt =====
-- internal/publicip/api/resilient.go: levenshteinDistance, on strings as their bytes.
pub mod Edits
use Prim.Native.Nat.{min}
use gluetun.Prelude.{ℕ, zero, suc, ◌+◌, ◌-◌, ◌==◌, List, [], ◌∷◌, if◌then◌else◌, length}

pub cost : ℕ → ℕ → ℕ
cost x y = if x == y then 0 else 1

-- The entries of the column from `j` on, over the old ones. `left` is the entry before in the new
-- column, `last` the one before in the old column (lastValue).
pub next_entries : ℕ → ℕ → ℕ → List ℕ → List ℕ → List ℕ
unfolding cost
next_entries x left last (y ∷ ys) (old ∷ column) =
    let new = min (old + 1) (min (left + 1) (last + cost x y)) in
    new ∷ next_entries x new old ys column
next_entries x left last _ _ = []

-- A round of the outer loop, for the byte before index `i`
pub next_column : ℕ → ℕ → List ℕ → List ℕ → List ℕ
unfolding next_entries
next_column x i b [] = []
next_column x i b (first ∷ column) = i ∷ next_entries x i (i - 1) b column

pub columns : ℕ → List ℕ → List ℕ → List ℕ → List ℕ
unfolding next_column
columns i [] b column = column
columns i (x ∷ a) b column = columns (i + 1) a b (next_column x i b column)

-- The numbers from `i` on, as many as there are bytes and one more
pub first_column : ℕ → List ℕ → List ℕ
first_column i [] = i ∷ []
first_column i (y ∷ b) = i ∷ first_column (i + 1) b

-- column[len(b)] of a column of len(b)+1 entries
pub last_entry : List ℕ → ℕ
last_entry [] = 0
last_entry (n ∷ []) = n
last_entry (m ∷ n ∷ column) = last_entry (n ∷ column)

unfoldable pub levenshtein_distance : List ℕ → List ℕ → ℕ
unfolding columns first_column last_entry
levenshtein_distance [] b = length b
levenshtein_distance (x ∷ a) [] = length (x ∷ a)
levenshtein_distance (x ∷ a) (y ∷ b) =
    last_entry (columns 1 (x ∷ a) (y ∷ b) (first_column 0 (y ∷ b)))
