-- ===== src/Servers/Merge/Kept.antt =====
-- internal/storage/merge.go: the map of the persisted servers to keep.
use mathlib.Core.Path.{subst}
use gluetun.Prelude.{
  ◌≡◌, refl, sym, ap, ◌∙◌, ◌⊎◌, inl, inr, true, none, some, List, [], ◌∷◌, String, str_eq, eq_iff,
  if◌then◌else◌, Member, arith, if_cases, Bool-cases,
}
use gluetun.Servers.{Server}
use gluetun.Servers.Merge.{key_of, KeyMap, put, lookup, delete, values, kept_map}

lookup-put :
    (k j : String) (s : Server) (m : KeyMap)
    → lookup j (put k s m) ≡ (if str_eq k j then some s else lookup j m)
unfolding lookup put
lookup-put k j s [] = refl
lookup-put k j s ((i, t) ∷ m) =
    ground (arith, lookup-put k j s m, eq_iff i k, eq_iff i j, eq_iff k j)

pub lookup-delete :
    (k j : String) (m : KeyMap) → lookup j (delete k m) ≡ (if str_eq k j then none else lookup j m)
unfolding lookup delete
lookup-delete k j [] = ground arith
lookup-delete k j ((i, t) ∷ m) =
    ground (arith, lookup-delete k j m, eq_iff i k, eq_iff i j, eq_iff k j)

pub Member-lookup :
    (k : String) (m : KeyMap) (s : Server) → lookup k m ≡ some s → Member s (values m)
unfolding lookup values
Member-lookup k [] s h = absurd (ground (arith, h))
Member-lookup k ((j, t) ∷ m) s h = elim (Bool-cases (str_eq j k)) [
  | inl e ↦ inl (ground (arith, h, e))
  | inr e ↦ inr (Member-lookup k m s (ground (arith, h, e)))
]

pub Member-delete :
    (k : String) (m : KeyMap) (s : Server) → Member s (values (delete k m)) → Member s (values m)
unfolding delete values
Member-delete k [] s = λ h. h
Member-delete k ((j, t) ∷ m) s =
    if_cases (λ n. Member s (values n) → (s ≡ t) ⊎ Member s (values m)) (str_eq j k) (delete k m)
      ((j, t) ∷ delete k m) (λ _ h. inr (Member-delete k m s h))
      (λ _ h. elim h [ inl e ↦ inl e | inr n ↦ inr (Member-delete k m s n) ])

Member-put :
    (k : String) (p : Server) (m : KeyMap) (s : Server)
    → Member s (values (put k p m))
    → (s ≡ p) ⊎ Member s (values m)
unfolding put values
Member-put k p [] s = λ h. h
Member-put k p ((j, t) ∷ m) s =
    if_cases (λ n. Member s (values n) → (s ≡ p) ⊎ ((s ≡ t) ⊎ Member s (values m))) (str_eq j k)
      ((k, p) ∷ m) ((j, t) ∷ put k p m) (λ _ h. elim h [ inl e ↦ inl e | inr n ↦ inr (inr n) ])
      (λ _ h. elim h [
        | inl e ↦ inr (inl e)
        | inr n ↦ elim (Member-put k p m s n) [ inl e ↦ inl e | inr l ↦ inr (inr l) ]
      ])

-- The map has only servers that are kept, besides those that it started with.
pub Member-kept_map :
    (ps : List Server) (m : KeyMap) (s : Server)
    → Member s (values (kept_map ps m))
    → (Member s ps × (s.keep ≡ true)) ⊎ Member s (values m)
unfolding kept_map
Member-kept_map [] m s h = inr h
Member-kept_map (p ∷ ps) m s h =
    elim (Member-kept_map ps (if p.keep then put (key_of p) p m else m) s h) [
      | inl (a, b) ↦ inl (inr a, b)
      | inr n ↦
          if_cases
            (λ k. Member s (values k) → (Member s (p ∷ ps) × (s.keep ≡ true)) ⊎ Member s (values m))
            p.keep (put (key_of p) p m) m
            (λ keep n. elim (Member-put (key_of p) p m s n) [
              | inl e ↦ inl (inl e, ap (λ x. x.keep) e ∙ keep)
              | inr l ↦ inr l
            ])
            (λ _ n. inr n) n
    ]

-- No other server that is kept has the key of `s`.
abbrev pub IsOnly : Server → List Server → Type 0
IsOnly s ps = (t : Server) → Member t ps → t.keep ≡ true → key_of t ≡ key_of s → t ≡ s

lookup-kept_map_later :
    (ps : List Server) (m : KeyMap) (s : Server)
    → IsOnly s ps
    → lookup (key_of s) m ≡ some s
    → lookup (key_of s) (kept_map ps m) ≡ some s
unfolding kept_map
lookup-kept_map_later [] m s only h = h
lookup-kept_map_later (p ∷ ps) m s only h =
    lookup-kept_map_later ps (if p.keep then put (key_of p) p m else m) s (λ t n. only t (inr n))
      (if_cases (λ k. lookup (key_of s) k ≡ some s) p.keep (put (key_of p) p m) m
        (λ keep.
          lookup-put (key_of p) (key_of s) p m
          ∙ if_cases (λ x. x ≡ some s) (str_eq (key_of p) (key_of s)) (some p) (lookup (key_of s) m)
              (λ e. ap some (only p (inl refl) keep ((eq_iff (key_of p) (key_of s)).0 e))) (λ _. h))
        (λ _. h))

pub lookup-kept_map :
    (ps : List Server) (m : KeyMap) (s : Server)
    → Member s ps
    → s.keep ≡ true
    → IsOnly s ps
    → lookup (key_of s) (kept_map ps m) ≡ some s
unfolding kept_map
lookup-kept_map [] m s n keep only = absurd n
lookup-kept_map (p ∷ ps) m s (inr n) keep only =
    lookup-kept_map ps (if p.keep then put (key_of p) p m else m) s n keep (λ t k. only t (inr k))
lookup-kept_map (p ∷ ps) m s (inl here) keep only =
    lookup-kept_map_later ps (if p.keep then put (key_of p) p m else m) s (λ t k. only t (inr k))
      (if_cases (λ k. lookup (key_of s) k ≡ some s) p.keep (put (key_of p) p m) m
        (λ _.
          subst (λ x. lookup (key_of s) (put (key_of x) x m) ≡ some s) here
            (lookup-put (key_of s) (key_of s) s m
              ∙ ground (arith, (eq_iff (key_of s) (key_of s)).1 refl)))
        (λ no. absurd (ground (arith, no, ap (λ x. x.keep) here, keep))))

-- A server of the map is under its key, and is one of those kept, besides those that it started with.
pub lookup-kept_map_from :
    (ps : List Server) (m : KeyMap) (k : String) (s : Server)
    → lookup k (kept_map ps m) ≡ some s
    → (Member s ps × (s.keep ≡ true) × (key_of s ≡ k)) ⊎ (lookup k m ≡ some s)
unfolding kept_map
lookup-kept_map_from [] m k s h = inr h
lookup-kept_map_from (p ∷ ps) m k s h =
    elim (lookup-kept_map_from ps (if p.keep then put (key_of p) p m else m) k s h) [
      | inl (a, b, c) ↦ inl (inr a, b, c)
      | inr e ↦
          if_cases
            (λ n.
              lookup k n ≡ some s
              → (Member s (p ∷ ps) × (s.keep ≡ true) × (key_of s ≡ k)) ⊎ (lookup k m ≡ some s))
            p.keep (put (key_of p) p m) m
            (λ keep e.
              if_cases
                (λ o.
                  o ≡ some s
                  → (Member s (p ∷ ps) × (s.keep ≡ true) × (key_of s ≡ k)) ⊎ (lookup k m ≡ some s))
                (str_eq (key_of p) k) (some p) (lookup k m)
                (λ same d.
                  let here : s ≡ p = ground (arith, d) in
                  inl (
                    inl here,
                    ap (λ x. x.keep) here ∙ keep,
                    ap key_of here ∙ (eq_iff (key_of p) k).0 same,
                  ))
                (λ _ d. inr d) (sym (lookup-put (key_of p) k p m) ∙ e))
            (λ _ e. inr e) e
    ]
