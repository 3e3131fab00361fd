-- ===== src/Publicip/Popular.antt =====
-- internal/publicip/api/resilient.go: the choice of the most popular result. A string is the list
-- of its bytes, and normalize, which needs the tables of Unicode, a parameter.
pub mod Groups
pub mod Clusters
pub mod Filter
pub mod Chosen
use gluetun.Prelude.{
  ℕ, suc, ◌+◌, Bool, true, false, Option, none, some, List, [], ◌∷◌, ◌++◌, map, if◌then◌else◌,
  length, get_elem?, set, take, leb, ltb,
}
use gluetun.Publicip.Distance.{levenshtein_distance}

abbrev pub Bytes : Type 0
Bytes = List ℕ

-- What may panic is `none` where it does.
infixl 1 ◌>>=◌
abbrev pub ◌>>=◌ {ℓ} : {A B : Type ℓ} → Option A → (A → Option B) → Option B
none >>= f = none
some a >>= f = f a

-- models.PublicIP
pub record PublicIp : Type 0 where
  pub ip : Bytes
  pub region : Bytes
  pub country : Bytes
  pub city : Bytes
  pub hostname : Bytes
  pub location : Bytes
  pub organization : Bytes
  pub postal_code : Bytes
  pub timezone : Bytes

-- The struct cluster
pub record Cluster : Type 0 where
  pub first_index : ℕ
  pub norm_rep : Bytes
  pub members : List ℕ

-- The search of a group, and the new group where there is none
pub add_value : ℕ → Bytes → List Cluster → List Cluster
add_value i value [] = record { first_index = i; norm_rep = value; members = i ∷ [] } ∷ []
add_value i value (group ∷ groups) =
    if leb (levenshtein_distance value group.norm_rep) 1
    then record group { members = group.members ++ (i ∷ []) } ∷ groups
    else group ∷ add_value i value groups

pub group_values : (Bytes → Bytes) → ℕ → List Bytes → List Cluster → List Cluster
unfolding add_value
group_values normalize i [] groups = groups
group_values normalize i (value ∷ values) groups =
    group_values normalize (i + 1) values (add_value i (normalize value) groups)

-- The last loop. `none` is the zero cluster with the maxCount of -1.
pub is_larger : Cluster → Option Cluster → Bool
is_larger group none = true
is_larger group (some best) = ltb (length best.members) (length group.members)

pub best_group : Option Cluster → List Cluster → Option Cluster
unfolding is_larger
best_group best [] = best
best_group best (group ∷ groups) =
    best_group (if is_larger group best then some group else best) groups

-- `none` is the index -1 and the nil slice.
unfoldable pub get_most_popular_string : (Bytes → Bytes) → List Bytes → Option (ℕ × List ℕ)
unfolding group_values best_group
get_most_popular_string normalize values = do
  best ← best_group none (group_values normalize 0 values [])
  some (best.first_index, best.members)

-- The loop of filterInPlace from an index on, over the slice that it reads and writes. An index out
-- of the slice panics, also one that is written.
pub move_selected : {A : Type 0} → ℕ → List ℕ → List A → Option (List A)
move_selected i [] results = some results
move_selected i (index ∷ indices) results = do
  result ← get_elem? results index
  overwritten ← get_elem? results i
  move_selected (i + 1) indices (set results i result)

unfoldable pub filter_in_place : {A : Type 0} → List A → List ℕ → Option (List A)
unfolding move_selected
filter_in_place results indices = do
  moved ← move_selected 0 indices results
  some (take (length indices) moved)

-- One of the two filters of getMostPopularResult
pub filter_by : (Bytes → Bytes) → (PublicIp → Bytes) → List PublicIp → Option (List PublicIp)
unfolding get_most_popular_string filter_in_place
filter_by normalize field results = do
  (winner, members) ← get_most_popular_string normalize (map field results)
  filter_in_place results members

-- `none` is a panic.
unfoldable pub get_most_popular_result : (Bytes → Bytes) → List PublicIp → Option PublicIp
unfolding filter_by
get_most_popular_result normalize results = do
  of_country ← filter_by normalize (λ r. r.country) results
  of_region ← filter_by normalize (λ r. r.region) of_country
  (winner, members) ← get_most_popular_string normalize (map (λ r. r.city) of_region)
  get_elem? of_region winner
