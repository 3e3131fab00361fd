-- ===== src/Publicip/Popular/Groups.antt =====
-- internal/publicip/api/resilient.go: the groups that getMostPopularString puts the values into.
use mathlib.Core.Path.{subst}
use mathlib.Core.Option.{some-injective}
use gluetun.Prelude.{
  ℕ, suc, ◌+◌, ◌≤◌, ◌<◌, ◌≡◌, refl, sym, ap, ◌∙◌, ◌⊎◌, inl, inr, some, List, [], ◌∷◌, ◌++◌, All,
  arith, length, get_elem?, leb, map, Bool-cases, Member, Member-append, dec_lt, false,
}
use gluetun.Publicip.Distance.{levenshtein_distance}
use gluetun.Publicip.Distance.Edits.{Edits, done, keep, levenshtein_distance-IsDistance}
use gluetun.Publicip.Popular.{Bytes, Cluster, add_value, group_values}
use gluetun.Publicip.Popular.Filter.{Within, Within-append, Within-later}

no_edits : (a : Bytes) → Edits a a 0
no_edits [] = done
no_edits (x ∷ a) = keep x (no_edits a)

abbrev pub Begins : ℕ → List ℕ → Type 0
Begins first [] = ⊥
Begins first (i ∷ is) = first ≡ i

pub Begins-Member : (first : ℕ) (is : List ℕ) → Begins first is → Member first is
Begins-Member first [] b = absurd b
Begins-Member first (i ∷ is) b = inl b

Begins-append : (first : ℕ) (is js : List ℕ) → Begins first is → Begins first (is ++ js)
Begins-append first [] js b = absurd b
Begins-append first (i ∷ is) js b = b

-- The index stands in a group.
abbrev pub Covered : ℕ → List Cluster → Type 0
Covered k [] = ⊥
Covered k (g ∷ groups) = Member k g.members ⊎ Covered k groups

module _ (normalize : Bytes → Bytes) (values : List Bytes) where
  -- The value at an index is within one edit of a representative, once normalized.
  abbrev pub Near : Bytes → ℕ → Type 0
  Near rep i =
      (value : Bytes) × (get_elem? values i ≡ some value)
      × (levenshtein_distance (normalize value) rep ≤ 1)

  abbrev pub IsValue : ℕ → Bytes → Type 0
  IsValue i rep = (value : Bytes) × (get_elem? values i ≡ some value) × (rep ≡ normalize value)

  -- A group of some of the values below an index, in ascending order, of which the first one is
  -- the representative
  abbrev pub IsGroup : ℕ → Cluster → Type 0
  IsGroup i group =
      (Within 0 i group.members × All (Near group.norm_rep) group.members)
      × Begins group.first_index group.members
      × IsValue group.first_index group.norm_rep

  All-append : (P : ℕ → Type 0) (is : List ℕ) (i : ℕ) → All P is → P i → All P (is ++ (i ∷ []))
  All-append P [] i all p = (p, tt)
  All-append P (j ∷ is) i (q, all) p = (q, All-append P is i all p)

  later : (i : ℕ) (groups : List Cluster) → All (IsGroup i) groups → All (IsGroup (i + 1)) groups
  later i [] all = tt
  later i (g ∷ groups) (((w, near), first, rep), all) =
      (((Within-later 0 i g.members w, near), first, rep), later i groups all)

  add_value-IsGroup :
      (i : ℕ) (value : Bytes) (groups : List Cluster)
      → get_elem? values i ≡ some value
      → All (IsGroup i) groups
      → All (IsGroup (i + 1)) (add_value i (normalize value) groups)
  unfolding add_value
  add_value-IsGroup i value [] e all =
      let rep : Bytes = normalize value in
      let near : levenshtein_distance rep rep ≤ 1 =
        omega (arith, (levenshtein_distance-IsDistance rep rep).1 0 (no_edits rep)) in
      ((((omega arith, omega arith), ((value, e, near), tt)), refl, (value, e, refl)), tt)
  add_value-IsGroup i value (g ∷ groups) e (here, all) =
      let ((w, near), first, rep) = here in
      elim (Bool-cases (leb (levenshtein_distance (normalize value) g.norm_rep) 1)) [
        | inl close ↦ rw close (
          (
            (
              Within-append 0 i g.members w,
              All-append (Near g.norm_rep) g.members i near (value, e, ground (arith, close)),
            ),
            Begins-append g.first_index g.members (i ∷ []) first,
            rep,
          ),
          later i groups all,
        )
        | inr far ↦ rw far (
          ((Within-later 0 i g.members w, near), first, rep),
          add_value-IsGroup i value groups e all,
        )
      ]

  -- No member is within one edit of a representative.
  abbrev pub Far : Bytes → Cluster → Type 0
  Far rep group = All (λ i. ¬ Near rep i) group.members

  -- A member of a group is far from the representatives of the groups before.
  abbrev pub Apart : List Cluster → Type 0
  Apart [] = Unit
  Apart (g ∷ groups) = All (Far g.norm_rep) groups × Apart groups

  -- The groups that are determined by the values below an index: each value belongs to the first
  -- group whose representative it is near, each representative is the first value of its group,
  -- and the groups stand in the order of their representatives.
  pub record IsClustering (i : ℕ) (groups : List Cluster) : Type 0 where
    pub are_groups : All (IsGroup i) groups
    pub all_covered : (k : ℕ) → k < i → Covered k groups
    pub apart : Apart groups
    pub in_order : Within 0 i (map (λ g. g.first_index) groups)

  not-Near :
      (i : ℕ) (value rep : Bytes)
      → get_elem? values i ≡ some value
      → leb (levenshtein_distance (normalize value) rep) 1 ≡ false
      → ¬ Near rep i
  not-Near i value rep e far (other, f, close) =
      let same : value ≡ other = some-injective _ _ (sym e ∙ f) in
      let less : levenshtein_distance (normalize value) rep ≤ 1 =
        subst (λ v. levenshtein_distance (normalize v) rep ≤ 1) (sym same) close in
      ground (arith, far, less)

  add_value-Far :
      (rep : Bytes) (i : ℕ) (value : Bytes) (groups : List Cluster)
      → ¬ Near rep i
      → All (Far rep) groups
      → All (Far rep) (add_value i value groups)
  unfolding add_value
  add_value-Far rep i value [] far all = ((far, tt), tt)
  add_value-Far rep i value (g ∷ groups) far (here, all) =
      elim (Bool-cases (leb (levenshtein_distance value g.norm_rep) 1)) [
        | inl close ↦ rw close (All-append (λ k. ¬ Near rep k) g.members i here far, all)
        | inr away ↦ rw away (here, add_value-Far rep i value groups far all)
      ]

  add_value-Apart :
      (i : ℕ) (value : Bytes) (groups : List Cluster)
      → get_elem? values i ≡ some value
      → Apart groups
      → Apart (add_value i (normalize value) groups)
  unfolding add_value
  add_value-Apart i value [] e all = (tt, tt)
  add_value-Apart i value (g ∷ groups) e (here, all) =
      elim (Bool-cases (leb (levenshtein_distance (normalize value) g.norm_rep) 1)) [
        | inl close ↦ rw close (here, all)
        | inr away ↦ rw away (
          add_value-Far g.norm_rep i (normalize value) groups (not-Near i value g.norm_rep e away)
              here,
          add_value-Apart i value groups e all,
        )
      ]

  add_value-in_order :
      (low i : ℕ) (value : Bytes) (groups : List Cluster)
      → Within low i (map (λ g. g.first_index) groups)
      → Within low (i + 1) (map (λ g. g.first_index) (add_value i value groups))
  unfolding add_value
  add_value-in_order low i value [] w = (w, omega arith)
  add_value-in_order low i value (g ∷ groups) (le, w) =
      elim (Bool-cases (leb (levenshtein_distance value g.norm_rep) 1)) [
        | inl close ↦
            rw close (le, Within-later (g.first_index + 1) i (map (λ h. h.first_index) groups) w)
        | inr away ↦ rw away (le, add_value-in_order (g.first_index + 1) i value groups w)
      ]

  add_value-adds :
      (i : ℕ) (value : Bytes) (groups : List Cluster) → Covered i (add_value i value groups)
  unfolding add_value
  add_value-adds i value [] = inl (inl refl)
  add_value-adds i value (g ∷ groups) =
      elim (Bool-cases (leb (levenshtein_distance value g.norm_rep) 1)) [
        | inl close ↦ rw close (inl ((Member-append i g.members (i ∷ [])).1 (inr (inl refl))))
        | inr away ↦ rw away (inr (add_value-adds i value groups))
      ]

  add_value-keeps :
      (k i : ℕ) (value : Bytes) (groups : List Cluster)
      → Covered k groups
      → Covered k (add_value i value groups)
  unfolding add_value
  add_value-keeps k i value [] c = absurd c
  add_value-keeps k i value (g ∷ groups) c =
      elim (Bool-cases (leb (levenshtein_distance value g.norm_rep) 1)) [
        | inl close ↦ rw close (elim c [
          | inl m ↦ inl ((Member-append k g.members (i ∷ [])).1 (inl m))
          | inr more ↦ inr more
        ])
        | inr away ↦
            rw away
              (elim c [ inl m ↦ inl m | inr more ↦ inr (add_value-keeps k i value groups more) ])
      ]

  add_value-covers :
      (i : ℕ) (value : Bytes) (groups : List Cluster)
      → ((k : ℕ) → k < i → Covered k groups)
      → (k : ℕ) → k < i + 1
      → Covered k (add_value i value groups)
  add_value-covers i value groups all k h = elim (dec_lt k i) [
    | yes below ↦ add_value-keeps k i value groups (all k below)
    | no above ↦
        let last : i ≡ k = omega (arith, h, above) in
        subst (λ n. Covered n (add_value i value groups)) last (add_value-adds i value groups)
  ]

  add_value-IsClustering :
      (i : ℕ) (value : Bytes) (groups : List Cluster)
      → get_elem? values i ≡ some value
      → IsClustering i groups
      → IsClustering (i + 1) (add_value i (normalize value) groups)
  add_value-IsClustering i value groups e c = record {
    are_groups = add_value-IsGroup i value groups e c.are_groups;
    all_covered = add_value-covers i (normalize value) groups c.all_covered;
    apart = add_value-Apart i value groups e c.apart;
    in_order = add_value-in_order 0 i (normalize value) groups c.in_order;
  }

  group_values-IsClustering :
      (i : ℕ) (rest : List Bytes) (groups : List Cluster)
      → ((j : ℕ) → get_elem? rest j ≡ get_elem? values (i + j))
      → IsClustering i groups
      → IsClustering (i + length rest) (group_values normalize i rest groups)
  unfolding group_values
  group_values-IsClustering i [] groups same all =
      subst (λ n. IsClustering n groups) (omega arith) all
  group_values-IsClustering i (value ∷ rest) groups same all =
      let none_before : i + 0 ≡ i = omega arith in
      let here : get_elem? values i ≡ some value =
        sym (same 0 ∙ ap (get_elem? values) none_before) in
      let next : (j : ℕ) → get_elem? rest j ≡ get_elem? values (i + 1 + j) =
        λ j. same (suc j) ∙ ap (get_elem? values) (omega arith) in
      let groups_of : List Cluster =
        group_values normalize (i + 1) rest (add_value i (normalize value) groups) in
      subst (λ n. IsClustering n groups_of) (omega arith)
        (group_values-IsClustering (i + 1) rest (add_value i (normalize value) groups) next
          (add_value-IsClustering i value groups here all))

  pub groups-IsClustering : IsClustering (length values) (group_values normalize 0 values [])
  groups-IsClustering =
      subst (λ n. IsClustering n (group_values normalize 0 values [])) (omega arith)
        (group_values-IsClustering 0 values [] (λ j. ap (get_elem? values) (omega arith))
          (record {
            are_groups = tt;
            all_covered = λ k h. absurd (omega (arith, h));
            apart = tt;
            in_order = omega arith;
          }))
