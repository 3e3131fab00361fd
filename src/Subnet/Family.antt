-- ===== src/Subnet/Family.antt =====
-- internal/subnet/subsets.go: the subnets of one address family in its lists.
use gluetun.Prelude.{
  suc, ◌≡◌, refl, ◌||◌, Bool, true, false, List, [], ◌∷◌, ◌++◌, str_eq, if◌then◌else◌, All, arith,
}
use gluetun.Subnet.{Prefix, found, find_subnets_to_add, find_subnets_to_remove}
use gluetun.Subnet.Change.{count}

-- The prefixes of the list that read like `s` are of the family of `s`.
abbrev pub SameFamily : Prefix → List Prefix → Type 0
SameFamily s = All (λ p. s.text ≡ p.text → s.is_6 ≡ p.is_6)

pub count-nil : (s : Prefix) → count s [] ≡ 0
unfolding count
count-nil s = refl

pub count-cons :
    (s x : Prefix) (xs : List Prefix)
    → count s (x ∷ xs) ≡ (if str_eq s.text x.text then suc (count s xs) else count s xs)
unfolding count
count-cons s x xs = refl

pub found-nil : (s : Prefix) → found s [] ≡ false
unfolding found
found-nil s = refl

pub found-cons :
    (s x : Prefix) (xs : List Prefix) → found s (x ∷ xs) ≡ str_eq s.text x.text || found s xs
unfolding found
found-cons s x xs = ground arith

pub found-append :
    (s : Prefix) (xs ys : List Prefix) → found s (xs ++ ys) ≡ found s xs || found s ys
unfolding found
found-append s [] ys = refl
found-append s (x ∷ xs) ys = ground (arith, found-append s xs ys)

pub SameFamily-find_subnets_to_remove :
    (s : Prefix) (old new : List Prefix)
    → SameFamily s old
    → SameFamily s (find_subnets_to_remove old new)
unfolding find_subnets_to_remove
SameFamily-find_subnets_to_remove s [] new h = tt
SameFamily-find_subnets_to_remove s (o ∷ old) new h =
    by_test (found o new) (SameFamily-find_subnets_to_remove s old new h.1)
  where
    by_test :
        (b : Bool)
        → SameFamily s (find_subnets_to_remove old new)
        → SameFamily s
            (if b then find_subnets_to_remove old new else o ∷ find_subnets_to_remove old new)
    by_test true rest = rest
    by_test false rest = (h.0, rest)

pub SameFamily-find_subnets_to_add :
    (s : Prefix) (old new : List Prefix)
    → SameFamily s new
    → SameFamily s (find_subnets_to_add old new)
unfolding find_subnets_to_add
SameFamily-find_subnets_to_add s old [] h = tt
SameFamily-find_subnets_to_add s old (n ∷ new) h =
    by_test (found n old) (SameFamily-find_subnets_to_add s old new h.1)
  where
    by_test :
        (b : Bool)
        → SameFamily s (find_subnets_to_add old new)
        → SameFamily s (if b then find_subnets_to_add old new else n ∷ find_subnets_to_add old new)
    by_test true rest = rest
    by_test false rest = (h.0, rest)
