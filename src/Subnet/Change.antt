-- ===== src/Subnet/Change.antt =====
-- internal/subnet/subsets.go: what the two differences of subnet lists hold.
use gluetun.Prelude.{
  ℕ, suc, ◌-◌, ltb, ◌≡◌, refl, not, ◌&&◌, List, [], ◌∷◌, str_eq, eq_iff, if◌then◌else◌, arith,
}
use gluetun.Subnet.{
  Prefix, found, find_subnets_to_add, find_subnets_to_remove, find_subnets_to_change, split_last,
  swap_out, remove_subnet_from_subnets,
}

-- `found` reads the texts only.
found-congr : (a b : Prefix) (xs : List Prefix) → a.text ≡ b.text → found a xs ≡ found b xs
unfolding found
found-congr a b [] e = refl
found-congr a b (x ∷ xs) e = rw (e, found-congr a b xs e)

found-find_subnets_to_add :
    (s : Prefix) (old new : List Prefix)
    → found s (find_subnets_to_add old new) ≡ found s new && not (found s old)
unfolding find_subnets_to_add found
found-find_subnets_to_add s old [] = refl
found-find_subnets_to_add s old (n ∷ new) =
    ground (arith, found-find_subnets_to_add s old new, eq_iff s.text n.text, found-congr s n old)

found-find_subnets_to_remove :
    (s : Prefix) (old new : List Prefix)
    → found s (find_subnets_to_remove old new) ≡ found s old && not (found s new)
unfolding find_subnets_to_remove found
found-find_subnets_to_remove s [] new = refl
found-find_subnets_to_remove s (o ∷ old) new =
    ground
      (arith, found-find_subnets_to_remove s old new, eq_iff s.text o.text, found-congr s o new)

-- A subnet is to be added exactly when it is new, and to be removed exactly when it is old and
-- not new, whatever the order and the repetitions of the two lists.
pub found-find_subnets_to_change :
    (s : Prefix) (old new : List Prefix)
    → (found s (find_subnets_to_change old new).0 ≡ found s new && not (found s old))
      × (found s (find_subnets_to_change old new).1 ≡ found s old && not (found s new))
unfolding find_subnets_to_change
found-find_subnets_to_change s old new =
    (found-find_subnets_to_add s old new, found-find_subnets_to_remove s old new)

-- How often a subnet stands in a list.
unfoldable pub count : Prefix → List Prefix → ℕ
count s [] = 0
count s (x ∷ xs) = if str_eq s.text x.text then suc (count s xs) else count s xs

pub count-find_subnets_to_remove :
    (s : Prefix) (old new : List Prefix)
    → count s (find_subnets_to_remove old new) ≡ (if found s new then 0 else count s old)
unfolding find_subnets_to_remove count
count-find_subnets_to_remove s [] new = ground arith
count-find_subnets_to_remove s (o ∷ old) new =
    ground
      (arith, count-find_subnets_to_remove s old new, eq_iff s.text o.text, found-congr s o new)

count-split_last :
    (s x : Prefix) (xs : List Prefix)
    → count s ((split_last x xs).1 ∷ (split_last x xs).0) ≡ count s (x ∷ xs)
unfolding count split_last
count-split_last s x [] = refl
count-split_last s x (y ∷ xs) = ground (arith, count-split_last s y xs)

count-swap_out : (s : Prefix) (xs : List Prefix) → count s (swap_out xs) ≡ count s xs
unfolding swap_out
count-swap_out s [] = refl
count-swap_out s (x ∷ xs) = count-split_last s x xs

-- Removing a subnet takes away one of its entries, if there is one, and no other entry.
pub count-remove_subnet :
    (s t : Prefix) (xs : List Prefix)
    → count s (remove_subnet_from_subnets xs t)
      ≡ (if str_eq s.text t.text then count s xs - 1 else count s xs)
unfolding count remove_subnet_from_subnets
count-remove_subnet s t [] = ground arith
count-remove_subnet s t (x ∷ xs) = ground (
  arith,
  count-remove_subnet s t xs,
  count-swap_out s xs,
  eq_iff s.text t.text,
  eq_iff s.text x.text,
  eq_iff t.text x.text,
)

pub found-count : (s : Prefix) (xs : List Prefix) → found s xs ≡ ltb 0 (count s xs)
unfolding found count
found-count s [] = refl
found-count s (x ∷ xs) = ground (arith, found-count s xs)
