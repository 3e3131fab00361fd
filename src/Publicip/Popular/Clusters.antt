-- ===== src/Publicip/Popular/Clusters.antt =====
-- internal/publicip/api/resilient.go: the group that getMostPopularString chooses.
use mathlib.Core.Path.{subst}
use mathlib.Core.Option.{some-injective}
use gluetun.Prelude.{
  ℕ, ◌+◌, ◌≤◌, ◌≡◌, ◌≢◌, refl, sym, ap, ◌∙◌, ◌⊎◌, inl, inr, Option, none, some, List, [], ◌∷◌, ◌++◌,
  All, arith, length, leb, ltb, Bool-cases, Member,
}
use gluetun.Publicip.Distance.{levenshtein_distance}
use gluetun.Publicip.Popular.{
  Bytes, Cluster, ◌>>=◌, add_value, group_values, is_larger, best_group, get_most_popular_string,
}
use gluetun.Publicip.Popular.Filter.{Within}
use gluetun.Publicip.Popular.Groups.{
  Near, IsValue, IsGroup, Begins-Member, IsClustering, groups-IsClustering,
}

module _ (normalize : Bytes → Bytes) (values : List Bytes) where
  -- What the last loop chooses, from a best group so far
  AtLeast : Option Cluster → Cluster → Type 0
  AtLeast none best = Unit
  AtLeast (some group) best = length group.members ≤ length best.members

  Largest : Option Cluster → List Cluster → Option Cluster → Type 0
  Largest before groups none = (before ≡ none) × (groups ≡ [])
  Largest before groups (some best) =
      ((before ≡ some best) ⊎ Member best groups)
      × AtLeast before best
      × All (λ g. length g.members ≤ length best.members) groups

  first_found :
      (g : Cluster) (groups : List Cluster) (best : Cluster) (before : Option Cluster)
      → (some g ≡ some best) ⊎ Member best groups
      → (before ≡ some best) ⊎ Member best (g ∷ groups)
  first_found g groups best before (inl e) = inr (inl (sym (some-injective _ _ e)))
  first_found g groups best before (inr m) = inr (inr m)

  first-Largest :
      (before : Option Cluster) (g : Cluster) (groups : List Cluster) (best : Option Cluster)
      → ((b : Cluster) → before ≡ some b → length b.members ≤ length g.members)
      → Largest (some g) groups best
      → Largest before (g ∷ groups) best
  unfolding Largest AtLeast
  first-Largest before g groups none less (e, _) = absurd (ground (arith, e))
  first-Largest none g groups (some best) less (from, least, all) =
      (first_found g groups best none from, tt, (least, all))
  first-Largest (some b) g groups (some best) less (from, least, all) =
      (first_found g groups best (some b) from, omega (arith, less b refl, least), (least, all))

  kept-Largest :
      (b g : Cluster) (groups : List Cluster) (best : Option Cluster)
      → length g.members ≤ length b.members
      → Largest (some b) groups best
      → Largest (some b) (g ∷ groups) best
  unfolding Largest AtLeast
  kept-Largest b g groups none less (e, _) = absurd (ground (arith, e))
  kept-Largest b g groups (some best) less (from, least, all) =
      (elim from [ inl e ↦ inl e | inr m ↦ inr (inr m) ], least, (omega (arith, less, least), all))

  best_group-Largest :
      (before : Option Cluster) (groups : List Cluster)
      → Largest before groups (best_group before groups)
  unfolding best_group is_larger Largest AtLeast
  best_group-Largest none [] = (refl, refl)
  best_group-Largest (some g) [] = (inl refl, omega arith, tt)
  best_group-Largest none (g ∷ groups) =
      first-Largest none g groups (best_group (some g) groups) (λ b e. absurd (ground (arith, e)))
        (best_group-Largest (some g) groups)
  best_group-Largest (some b) (g ∷ groups) =
      elim (Bool-cases (ltb (length b.members) (length g.members))) [
        | inl less ↦ rw less (
            first-Largest (some b) g groups (best_group (some g) groups)
              (λ c e.
                ground (arith, less, ap (λ (d : Cluster). length d.members) (some-injective _ _ e)))
              (best_group-Largest (some g) groups))
        | inr more ↦ rw more (
            kept-Largest b g groups (best_group (some b) groups) (ground (arith, more))
              (best_group-Largest (some b) groups))
      ]

  -- The representative with its group, the largest of all that the values belong to
  abbrev pub IsPopular : Option (ℕ × List ℕ) → Type 0
  IsPopular none = ⊥
  IsPopular (some (winner, members)) =
      Within 0 (length values) members
      × Member winner members
      × ((rep : Bytes) × IsValue normalize values winner rep
          × All (Near normalize values rep) members)
      × (groups : List Cluster) × IsClustering normalize values (length values) groups
      × ((g : Cluster) × Member g groups × (g.first_index ≡ winner) × (g.members ≡ members))
      × All (λ g. length g.members ≤ length members) groups

  group_values-some :
      (i : ℕ) (rest : List Bytes) (g : Cluster) (groups : List Cluster)
      → (h : Cluster) × (hs : List Cluster) × (group_values normalize i rest (g ∷ groups)
          ≡ (h ∷ hs))
  unfolding group_values add_value
  group_values-some i [] g groups = (g, groups, refl)
  group_values-some i (value ∷ rest) g groups =
      elim (Bool-cases (leb (levenshtein_distance (normalize value) g.norm_rep) 1)) [
        | inl close ↦
            rw close
              (group_values-some (i + 1) rest (record g { members = g.members ++ (i ∷ []) }) groups)
        | inr far ↦ rw far (group_values-some (i + 1) rest g (add_value i (normalize value) groups))
      ]

  groups_some : (vs : List Bytes) → vs ≢ [] → group_values normalize 0 vs [] ≢ []
  unfolding group_values add_value
  groups_some [] some_values = λ _. some_values refl
  groups_some (v ∷ rest) some_values = λ empty.
      let (h, hs, e) =
        group_values-some (0 + 1) rest
          (record { first_index = 0; norm_rep = normalize v; members = 0 ∷ [] }) [] in
      absurd (ground (arith, sym e ∙ empty))

  member_of :
      (P : Cluster → Type 0) (g : Cluster) (groups : List Cluster)
      → All P groups
      → Member g groups
      → P g
  member_of P g (h ∷ groups) (p, all) (inl e) = subst P (sym e) p
  member_of P g (h ∷ groups) (p, all) (inr m) = member_of P g groups all m
  member_of P g [] all m = absurd m

  chosen-IsPopular :
      (best : Option Cluster)
      → Largest none (group_values normalize 0 values []) best
      → values ≢ []
      → IsPopular (best >>= λ b. some (b.first_index, b.members))
  unfolding Largest AtLeast
  chosen-IsPopular none (_, empty) some_values = groups_some values some_values empty
  chosen-IsPopular (some best) (inl e, _, all) some_values = absurd (ground (arith, e))
  chosen-IsPopular (some best) (inr m, _, all) some_values =
      let groups = group_values normalize 0 values [] in
      let clustering = groups-IsClustering normalize values in
      let ((w, near), first, rep) =
        member_of (IsGroup normalize values (length values)) best groups clustering.are_groups m in
      (
        w,
        Begins-Member best.first_index best.members first,
        (best.norm_rep, rep, near),
        groups,
        clustering,
        (best, m, refl, refl),
        all,
      )

  -- For values of which there is at least one, the members of the group that is chosen are
  -- indices of values in ascending order, with the winner among them, and each member is, once
  -- normalized, at most one edit from the normalized value of the winner. The group is one of
  -- groups in which each value belongs to the first group whose representative is at most one
  -- edit from it, each representative is the first value of its group, and the groups stand in
  -- the order of their representatives; and none of these has more members.
  pub get_most_popular_string-IsPopular :
      values ≢ [] → IsPopular (get_most_popular_string normalize values)
  unfolding get_most_popular_string
  get_most_popular_string-IsPopular some_values =
      chosen-IsPopular (best_group none (group_values normalize 0 values []))
        (best_group-Largest none (group_values normalize 0 values [])) some_values
