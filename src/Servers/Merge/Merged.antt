-- ===== src/Servers/Merge/Merged.antt =====
-- internal/storage/merge.go: which servers the merged list has.
use mathlib.Core.Path.{subst}
use gluetun.Prelude.{
  ℕ, ◌≤◌, ◌<◌, ◌≡◌, ◌↔◌, refl, sym, ◌∙◌, ◌⊎◌, inl, inr, ltb, true, not, ◌&&◌, Option, none, some,
  List, [], ◌∷◌, ◌++◌, String, str_eq, eq_iff, Member, Member-append, arith, if_cases, Bool-cases,
}
use gluetun.Servers.{Server}
use gluetun.Servers.Merge.{
  key_of, ServerList, KeyMap, lookup, delete, values, kept_map, prepend, merge_loop,
  merge_provider_servers,
}
use gluetun.Servers.Merge.Kept.{
  lookup-delete, Member-lookup, Member-delete, Member-kept_map, IsOnly, lookup-kept_map,
  lookup-kept_map_from,
}

merge_rule :
    (P : List Server × KeyMap → Type 0) (x : Server) (hs : List Server) (m : KeyMap)
    → (lookup (key_of x) m ≡ none → P (prepend x (merge_loop hs m)))
    → ((p : Server)
        → lookup (key_of x) m ≡ some p
        → P (prepend p (merge_loop hs (delete (key_of x) m))))
    → P (merge_loop (x ∷ hs) m)
unfolding merge_loop
merge_rule P x hs m f g = by_lookup (lookup (key_of x) m) f g
  where
    by_lookup :
        (o : Option Server)
        → (o ≡ none → P (prepend x (merge_loop hs m)))
        → ((p : Server) → o ≡ some p → P (prepend p (merge_loop hs (delete (key_of x) m))))
        → P (elim o as (λ _. List Server × KeyMap) [
          | some p ↦ prepend p (merge_loop hs (delete (key_of x) m))
          | none ↦ prepend x (merge_loop hs m)
        ])
    by_lookup none f g = f refl
    by_lookup (some p) f g = g p refl

-- A server of the map is in the merged list or stays in the map.
merge_loop-lookup :
    (hs : List Server) (m : KeyMap) (k : String) (s : Server)
    → lookup k m ≡ some s
    → Member s (merge_loop hs m).0 ⊎ (lookup k (merge_loop hs m).1 ≡ some s)
unfolding merge_loop
merge_loop-lookup [] m k s h = inr h
merge_loop-lookup (x ∷ hs) m k s h =
    merge_rule (λ r. Member s r.0 ⊎ (lookup k r.1 ≡ some s)) x hs m
      (λ _. elim (merge_loop-lookup hs m k s h) [ inl n ↦ inl (inr n) | inr e ↦ inr e ])
      (λ p e. elim (Bool-cases (str_eq (key_of x) k)) [
        | inl same ↦ inl (inl (let k_x = (eq_iff (key_of x) k).0 same in ground (arith, h, e, k_x)))
        | inr other ↦
            elim (merge_loop-lookup hs (delete (key_of x) m) k s
              (lookup-delete (key_of x) k m ∙ rw other h)) [ inl n ↦ inl (inr n) | inr l ↦ inr l ]
      ])

-- What is merged or stays comes from the hard-coded servers or the map.
merge_loop-from :
    (hs : List Server) (m : KeyMap) (s : Server)
    → (Member s (merge_loop hs m).0 → Member s hs ⊎ Member s (values m))
      × (Member s (values (merge_loop hs m).1) → Member s (values m))
unfolding merge_loop
merge_loop-from [] m s = ((λ n. absurd n), (λ n. n))
merge_loop-from (x ∷ hs) m s =
    merge_rule
      (λ r.
        (Member s r.0 → Member s (x ∷ hs) ⊎ Member s (values m))
        × (Member s (values r.1) → Member s (values m)))
      x hs m
      (λ _.
        let rest = merge_loop-from hs m s in
        (
          (λ n. elim n [
            | inl e ↦ inl (inl e)
            | inr l ↦ elim (rest.0 l) [ inl a ↦ inl (inr a) | inr b ↦ inr b ]
          ]),
          rest.1,
        ))
      (λ p e.
        let rest = merge_loop-from hs (delete (key_of x) m) s in
        (
          (λ n. elim n [
            | inl here ↦
                inr (subst (λ y. Member y (values m)) (sym here) (Member-lookup (key_of x) m p e))
            | inr l ↦ elim (rest.0 l) [
              | inl a ↦ inl (inr a)
              | inr b ↦ inr (Member-delete (key_of x) m s b)
            ]
          ]),
          (λ n. Member-delete (key_of x) m s (rest.1 n)),
        ))

-- A hard-coded server is merged, or a server of the map with its key is.
merge_loop-hardcoded :
    (hs : List Server) (m : KeyMap) (s : Server)
    → Member s hs
    → Member s (merge_loop hs m).0
      ⊎ ((p : Server) × (lookup (key_of s) m ≡ some p) × Member p (merge_loop hs m).0)
merge_loop-hardcoded [] m s n = absurd n
merge_loop-hardcoded (x ∷ hs) m s (inl here) =
    merge_rule (λ r. Member s r.0 ⊎ ((p : Server) × (lookup (key_of s) m ≡ some p) × Member p r.0))
      x hs m (λ _. inl (inl here))
      (λ p e. inr (p, subst (λ y. lookup (key_of y) m ≡ some p) (sym here) e, inl refl))
merge_loop-hardcoded (x ∷ hs) m s (inr later) =
    merge_rule (λ r. Member s r.0 ⊎ ((p : Server) × (lookup (key_of s) m ≡ some p) × Member p r.0))
      x hs m
      (λ _. elim (merge_loop-hardcoded hs m s later) [
        | inl n ↦ inl (inr n)
        | inr (q, e, n) ↦ inr (q, e, inr n)
      ])
      (λ p e. elim (merge_loop-hardcoded hs (delete (key_of x) m) s later) [
        | inl n ↦ inl (inr n)
        | inr (q, d, n) ↦ inr (q, ground (arith, d, lookup-delete (key_of x) (key_of s) m), inr n)
      ])

-- What a merged list of servers has.
abbrev pub IsMerged : List Server → List Server → List Server → Type 0
IsMerged hardcoded persisted merged =
    ((s : Server) → Member s persisted → s.keep ≡ true → IsOnly s persisted → Member s merged)
    × ((s : Server) → Member s merged → Member s hardcoded ⊎ (Member s persisted × (s.keep ≡ true)))
    × ((s : Server)
        → Member s hardcoded
        → Member s merged
          ⊎ ((p : Server) × Member p persisted
              × (p.keep ≡ true)
              × (key_of p ≡ key_of s)
              × Member p merged))

merge_loop-IsMerged :
    (hs ps : List Server)
    → let r = merge_loop hs (kept_map ps []) in IsMerged hs ps (r.0 ++ values r.1)
unfolding values lookup
merge_loop-IsMerged hs ps =
    let m = kept_map ps [] in
    let r = merge_loop hs m in
    let parts : (s : Server)
        → Member s (r.0 ++ values r.1) ↔ (Member s r.0 ⊎ Member s (values r.1)) =
      λ s. Member-append s r.0 (values r.1) in
    let from_map : (s : Server) → Member s (values m) → Member s ps × (s.keep ≡ true) =
      λ s n. elim (Member-kept_map ps [] s n) [ inl a ↦ a | inr b ↦ absurd b ] in
    (
      (λ s n keep only.
          (parts s).1
            (elim (merge_loop-lookup hs m (key_of s) s (lookup-kept_map ps [] s n keep only)) [
              | inl a ↦ inl a
              | inr b ↦ inr (Member-lookup (key_of s) r.1 s b)
            ])),
      (λ s n. elim ((parts s).0 n) [
        | inl a ↦ elim ((merge_loop-from hs m s).0 a) [ inl b ↦ inl b | inr b ↦ inr (from_map s b) ]
        | inr a ↦ inr (from_map s ((merge_loop-from hs m s).1 a))
      ]),
      (λ s n. elim (merge_loop-hardcoded hs m s n) [
        | inl a ↦ inl ((parts s).1 (inl a))
        | inr (p, e, a) ↦ elim (lookup-kept_map_from ps [] (key_of s) p e) [
          | inl (b, c, d) ↦ inr (p, b, c, d, (parts p).1 (inl a))
          | inr none_found ↦ absurd (ground (arith, none_found))
        ]
      ]),
    )

-- Sorting a list keeps the servers that it has.
IsMerged-sort :
    (sort : List Server → List Server) (hs ps xs : List Server)
    → ((x : Server) (ys : List Server) → Member x (sort ys) ↔ Member x ys)
    → IsMerged hs ps xs
    → IsMerged hs ps (sort xs)
IsMerged-sort sort hs ps xs same (a, b, c) = (
  (λ s n keep only. (same s xs).1 (a s n keep only)),
  (λ s n. b s ((same s xs).0 n)),
  (λ s n. elim (c s n) [
    | inl d ↦ inl ((same s xs).1 d)
    | inr (p, d, k, e, l) ↦ inr (p, d, k, e, (same p xs).1 l)
  ]),
)

-- The persisted servers are newer than the hard-coded ones, and not of the future.
abbrev pub IsNewer : ℕ → ServerList → ServerList → Type 0
IsNewer now hardcoded persisted =
    (persisted.timestamp ≤ now) × (hardcoded.timestamp < persisted.timestamp)

-- For a sort that keeps the servers of a list: where the persisted list is newer than the
-- hard-coded one and not of the future, mergeProviderServers returns it. In every other case the
-- result has the hard-coded timestamp, and every persisted server to keep that no other one shares
-- its key with; each of its servers is hard-coded or is persisted and to keep; and for each
-- hard-coded server it has this one or a persisted one to keep with the same key.
pub merge_provider_servers-IsMerged :
    (sort : List Server → List Server) (now : ℕ) (hardcoded persisted : ServerList)
    → ((x : Server) (xs : List Server) → Member x (sort xs) ↔ Member x xs)
    → (IsNewer now hardcoded persisted
        → merge_provider_servers sort now hardcoded persisted ≡ persisted)
      × (¬ IsNewer now hardcoded persisted
          → ((merge_provider_servers sort now hardcoded persisted).timestamp ≡ hardcoded.timestamp)
            × IsMerged hardcoded.servers persisted.servers
                (merge_provider_servers sort now hardcoded persisted).servers)
unfolding merge_provider_servers
merge_provider_servers-IsMerged sort now hardcoded persisted same =
    let test = not (ltb now persisted.timestamp) && ltb hardcoded.timestamp persisted.timestamp in
    let r = merge_loop hardcoded.servers (kept_map persisted.servers []) in
    let merged : ServerList = record hardcoded { servers = sort (r.0 ++ values r.1) } in
    (
      (λ newer.
          if_cases (λ l. l ≡ persisted) test persisted merged (λ _. refl)
            (λ no. absurd (ground (arith, no, newer)))),
      (λ older.
          if_cases
            (λ l.
              (l.timestamp ≡ hardcoded.timestamp)
              × IsMerged hardcoded.servers persisted.servers l.servers)
            test persisted merged (λ yes. absurd (older (ground (arith, yes))))
            (λ _. (
              refl,
              IsMerged-sort sort hardcoded.servers persisted.servers (r.0 ++ values r.1) same
                  (merge_loop-IsMerged hardcoded.servers persisted.servers),
            ))),
    )
