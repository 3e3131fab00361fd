-- ===== src/Publicip/Popular/Chosen.antt =====
-- internal/publicip/api/resilient.go: what getMostPopularResult returns.
use mathlib.Core.Path.{subst}
use mathlib.Core.Option.{some-injective}
use gluetun.Prelude.{
  ℕ, zero, suc, ◌≡◌, ◌≢◌, refl, sym, ap, ◌∙◌, ◌⊎◌, inl, inr, Option, none, some, List, [], ◌∷◌,
  arith, map, length, get_elem?, Member,
}
use gluetun.Publicip.Popular.{
  Bytes, PublicIp, ◌>>=◌, get_most_popular_string, filter_in_place, filter_by,
  get_most_popular_result,
}
use gluetun.Publicip.Popular.Clusters.{IsPopular, get_most_popular_string-IsPopular}
use gluetun.Publicip.Popular.Filter.{Within, with_entry, picked, filter_in_place-picked}

get_elem?-map :
    {A B : Type 0} (f : A → B) (xs : List A) (i : ℕ) (y : B)
    → get_elem? (map f xs) i ≡ some y
    → (x : A) × (get_elem? xs i ≡ some x)
get_elem?-map f [] i y e = absurd (ground (arith, e))
get_elem?-map f (x ∷ xs) zero y e = (x, refl)
get_elem?-map f (x ∷ xs) (suc i) y e = get_elem?-map f xs i y e

length-map : {A B : Type 0} (f : A → B) (xs : List A) → length (map f xs) ≡ length xs
length-map f [] = refl
length-map f (x ∷ xs) = ap suc (length-map f xs)

get_elem?-Member :
    {A : Type 0} (xs : List A) (i : ℕ) (x : A) → get_elem? xs i ≡ some x → Member x xs
get_elem?-Member [] i x e = absurd (ground (arith, e))
get_elem?-Member (y ∷ xs) zero x e = inl (sym (some-injective _ _ e))
get_elem?-Member (y ∷ xs) (suc i) x e = inr (get_elem?-Member xs i x e)

with_entry-Member :
    {A : Type 0} (o : Option A) (xs : List A) (x : A)
    → Member x (with_entry o xs)
    → (o ≡ some x) ⊎ Member x xs
with_entry-Member none xs x m = inr m
with_entry-Member (some y) xs x (inl e) = inl (ap some (sym e))
with_entry-Member (some y) xs x (inr m) = inr m

picked-Member :
    {A : Type 0} (xs : List A) (is : List ℕ) (x : A) → Member x (picked xs is) → Member x xs
unfolding picked
picked-Member xs [] x m = absurd m
picked-Member xs (i ∷ is) x m = elim (with_entry-Member (get_elem? xs i) (picked xs is) x m) [
  | inl e ↦ get_elem?-Member xs i x e
  | inr later ↦ picked-Member xs is x later
]

with_entry-some : {A : Type 0} (o : Option A) (xs : List A) → xs ≢ [] → with_entry o xs ≢ []
with_entry-some none xs h = h
with_entry-some (some x) xs h = λ e. absurd (ground (arith, e))

picked-some :
    {A : Type 0} (xs : List A) (is : List ℕ) (i : ℕ) (x : A)
    → Member i is
    → get_elem? xs i ≡ some x
    → picked xs is ≢ []
unfolding picked
picked-some xs (j ∷ is) i x (inl e) found = λ empty. absurd (
    ground
      (arith, ap (λ o. with_entry o (picked xs is)) (ap (get_elem? xs) (sym e) ∙ found), empty))
picked-some xs (j ∷ is) i x (inr m) found =
    with_entry-some (get_elem? xs j) (picked xs is) (picked-some xs is i x m found)
picked-some xs [] i x m found = absurd m

map-some : {A B : Type 0} (f : A → B) (xs : List A) → xs ≢ [] → map f xs ≢ []
map-some f [] h = λ _. h refl
map-some f (x ∷ xs) h = λ e. absurd (ground (arith, e))

module _ (normalize : Bytes → Bytes) where
  abbrev Kept : List PublicIp → Option (List PublicIp) → Type 0
  Kept results none = ⊥
  Kept results (some kept) = (kept ≢ []) × ((r : PublicIp) → Member r kept → Member r results)

  after_popular-Kept :
      (field : PublicIp → Bytes) (results : List PublicIp) (o : Option (ℕ × List ℕ))
      → IsPopular normalize (map field results) o
      → Kept results (o >>= λ (winner, members). filter_in_place results members)
  after_popular-Kept field results none popular = absurd popular
  after_popular-Kept field results (some (winner, members))
        (within, first, (rep, (value, found, _), near), _, _, _, _) =
      let inside : Within 0 (length results) members =
        subst (λ n. Within 0 n members) (length-map field results) within in
      let (r, here) = get_elem?-map field results winner value found in
      rw (filter_in_place-picked results members inside)
        (picked-some results members winner r first here, λ q m. picked-Member results members q m)

  filter_by-Kept :
      (field : PublicIp → Bytes) (results : List PublicIp)
      → results ≢ []
      → Kept results (filter_by normalize field results)
  unfolding filter_by
  filter_by-Kept field results some_results =
      after_popular-Kept field results (get_most_popular_string normalize (map field results)) (
        get_most_popular_string-IsPopular normalize (map field results)
          (map-some field results some_results))

  abbrev pub IsOneOf : List PublicIp → Option PublicIp → Type 0
  IsOneOf results none = ⊥
  IsOneOf results (some r) = Member r results

  city_winner-IsOneOf :
      (results : List PublicIp) (o : Option (ℕ × List ℕ))
      → IsPopular normalize (map (λ r. r.city) results) o
      → IsOneOf results (o >>= λ (winner, members). get_elem? results winner)
  city_winner-IsOneOf results none popular = absurd popular
  city_winner-IsOneOf results (some (winner, members))
        (_, _, (_, (value, found, _), _), _, _, _, _) =
      let (r, here) = get_elem?-map (λ (q : PublicIp). q.city) results winner value found in
      rw here (get_elem?-Member results winner r here)

  IsOneOf-more :
      (few results : List PublicIp) (o : Option PublicIp)
      → ((r : PublicIp) → Member r few → Member r results)
      → IsOneOf few o
      → IsOneOf results o
  IsOneOf-more few results none inside one = absurd one
  IsOneOf-more few results (some r) inside one = inside r one

  -- One of fewer results is one of all.
  after_filter-IsOneOf :
      (results : List PublicIp) (o : Option (List PublicIp))
      (next : List PublicIp → Option PublicIp)
      → Kept results o
      → ((kept : List PublicIp) → kept ≢ [] → IsOneOf kept (next kept))
      → IsOneOf results (o >>= next)
  after_filter-IsOneOf results none next kept h = absurd kept
  after_filter-IsOneOf results (some few) next (some_few, inside) h =
      IsOneOf-more few results (next few) inside (h few some_few)

  -- With at least one result, getMostPopularResult does not panic and returns one of the
  -- results.
  pub get_most_popular_result-IsOneOf :
      (results : List PublicIp)
      → results ≢ []
      → IsOneOf results (get_most_popular_result normalize results)
  unfolding get_most_popular_result
  get_most_popular_result-IsOneOf results some_results =
      after_filter-IsOneOf results (filter_by normalize (λ r. r.country) results) _
        (filter_by-Kept (λ r. r.country) results some_results)
        λ of_country some_country.
          after_filter-IsOneOf of_country (filter_by normalize (λ r. r.region) of_country) _
            (filter_by-Kept (λ r. r.region) of_country some_country)
            λ of_region some_region.
              city_winner-IsOneOf of_region
                (get_most_popular_string normalize (map (λ r. r.city) of_region))
                (get_most_popular_string-IsPopular normalize (map (λ r. r.city) of_region)
                  (map-some (λ (r : PublicIp). r.city) of_region some_region))
