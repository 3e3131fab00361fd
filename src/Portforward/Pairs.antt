-- ===== src/Portforward/Pairs.antt =====
-- internal/portforward/service/start.go: the map of ports turned round, and its ports in order.
pub mod Doubled
use mathlib.Core.List.{Permᴰ, append_assoc, append-nil}
use mathlib.Core.List.Permᴰ.{nil, cons, swap, trans}
use mathlib.Core.Path.{subst}
use gluetun.Prelude.{
  ℕ, suc, ◌==◌, ◌≡◌, ◌≢◌, refl, sym, ap, ◌∙◌, true, false, List, [], ◌∷◌, ◌++◌, map, length, All,
  if◌then◌else◌, arith, Bool-cases, inl, inr,
}
use gluetun.Portforward.{
  PortPairs, internal_of, put_internal, identity_pairs, ports_equal, turned, keys, copied,
}
use gluetun.Portforward.Closed.{port_in}

equal_self : (n : ℕ) → (n == n) ≡ true
equal_self n = ground arith

-- The other half of the map
unfoldable pub externals : PortPairs → List ℕ
externals [] = []
externals ((e, i) ∷ pairs) = i ∷ externals pairs

pub swapped : PortPairs → PortPairs
swapped [] = []
swapped ((i, e) ∷ pairs) = (e, i) ∷ swapped pairs

abbrev pub Distinct : List ℕ → Type 0
Distinct [] = Unit {0}
Distinct (e ∷ es) = (port_in e es ≡ false) × Distinct es

-- No key of the first map is one of the second.
abbrev pub Apart : PortPairs → PortPairs → Type 0
Apart pairs acc = All (λ (p : ℕ × ℕ). port_in p.1 (keys acc) ≡ false) pairs

put_internal-fresh :
    (e i : ℕ) (acc : PortPairs)
    → port_in e (keys acc) ≡ false
    → put_internal e i acc ≡ (acc ++ ((e, i) ∷ []))
unfolding put_internal keys port_in
put_internal-fresh e i [] h = refl
put_internal-fresh e i ((f, j) ∷ acc) h = elim (Bool-cases (f == e)) [
  | inl same ↦ absurd (ground (arith, same, h))
  | inr other ↦
      rw other (ap (λ ps. (f, j) ∷ ps) (put_internal-fresh e i acc (ground (arith, other, h))))
]

port_in-append :
    (q e i : ℕ) (acc : PortPairs)
    → (e == q) ≡ false
    → port_in q (keys (acc ++ ((e, i) ∷ []))) ≡ port_in q (keys acc)
unfolding keys port_in
port_in-append q e i [] h = rw h refl
port_in-append q e i ((f, j) ∷ acc) h =
    ap (λ b. if f == q then true else b) (port_in-append q e i acc h)

Apart-append :
    (e i : ℕ) (pairs acc : PortPairs)
    → port_in e (externals pairs) ≡ false
    → Apart pairs acc
    → Apart pairs (acc ++ ((e, i) ∷ []))
unfolding externals port_in
Apart-append e i [] acc fresh apart = tt
Apart-append e i ((j, f) ∷ pairs) acc fresh (unused, apart) = (
  port_in-append f e i acc (ground (arith, fresh)) ∙ unused,
  Apart-append e i pairs acc (ground (arith, fresh)) apart,
)

pub turned-swapped :
    (pairs acc : PortPairs)
    → Distinct (externals pairs)
    → Apart pairs acc
    → turned pairs acc ≡ (acc ++ swapped pairs)
unfolding turned swapped externals
turned-swapped [] acc distinct apart = simp append-nil
turned-swapped ((i, e) ∷ pairs) acc (fresh, distinct) (unused, apart) =
    rw (put_internal-fresh e i acc unused) (
      turned-swapped pairs (acc ++ ((e, i) ∷ [])) distinct (Apart-append e i pairs acc fresh apart)
      ∙ append_assoc acc ((e, i) ∷ []) (swapped pairs))

pub port_in-Permᴰ : {xs ys : List ℕ} (q : ℕ) → Permᴰ xs ys → port_in q xs ≡ port_in q ys
unfolding port_in
port_in-Permᴰ q nil = refl
port_in-Permᴰ q (cons e d) = ground (arith, e, port_in-Permᴰ q d)
port_in-Permᴰ q (swap e f) = ground (arith, e, f)
port_in-Permᴰ q (trans d e) = port_in-Permᴰ q d ∙ port_in-Permᴰ q e

pub map-Permᴰ : {xs ys : List ℕ} (f : ℕ → ℕ) → Permᴰ xs ys → Permᴰ (map f xs) (map f ys)
map-Permᴰ f nil = nil
map-Permᴰ f (cons e d) = cons (ap f e) (map-Permᴰ f d)
map-Permᴰ f (swap e g) = swap (ap f e) (ap f g)
map-Permᴰ f (trans d e) = trans (map-Permᴰ f d) (map-Permᴰ f e)

pub copied-same : (xs : List ℕ) → copied (length xs) xs ≡ xs
unfolding copied
copied-same [] = refl
copied-same (x ∷ xs) = ap (λ ys. x ∷ ys) (copied-same xs)

-- The internal ports, looked up for the external ones
lookup-other :
    (e i : ℕ) (pairs : PortPairs) (es : List ℕ)
    → port_in e es ≡ false
    → map (λ x. internal_of x ((e, i) ∷ pairs)) es ≡ map (λ x. internal_of x pairs) es
unfolding internal_of port_in
lookup-other e i pairs [] h = refl
lookup-other e i pairs (x ∷ es) h =
    let other : (e == x) ≡ false = ground (arith, h) in
    rw other
      (ap (λ ys. internal_of x pairs ∷ ys) (lookup-other e i pairs es (ground (arith, h, other))))

pub internal_of-swapped :
    (pairs : PortPairs)
    → Distinct (externals pairs)
    → map (λ x. internal_of x (swapped pairs)) (externals pairs) ≡ keys pairs
unfolding internal_of swapped externals keys
internal_of-swapped [] distinct = refl
internal_of-swapped ((i, e) ∷ pairs) (fresh, distinct) = rw (equal_self e) (
    ap (λ ys. i ∷ ys)
      (lookup-other e i (swapped pairs) (externals pairs) fresh
        ∙ internal_of-swapped pairs distinct))

pub keys-swapped : (pairs : PortPairs) → keys (swapped pairs) ≡ externals pairs
unfolding keys swapped externals
keys-swapped [] = refl
keys-swapped ((i, e) ∷ pairs) = ap (λ es. e ∷ es) (keys-swapped pairs)

pub length-externals : (pairs : PortPairs) → length (externals pairs) ≡ length pairs
unfolding externals
length-externals [] = refl
length-externals (p ∷ pairs) = ap suc (length-externals pairs)

pub length-Permᴰ : {xs ys : List ℕ} → Permᴰ xs ys → length xs ≡ length ys
length-Permᴰ nil = refl
length-Permᴰ (cons e d) = ap suc (length-Permᴰ d)
length-Permᴰ (swap e f) = refl
length-Permᴰ (trans d e) = length-Permᴰ d ∙ length-Permᴰ e

pub All-Permᴰ : {xs ys : List ℕ} → Permᴰ xs ys → All (λ p. p ≢ 0) xs → All (λ p. p ≢ 0) ys
All-Permᴰ nil all = all
All-Permᴰ (cons e d) (h, all) = ((λ k. h (e ∙ k)), All-Permᴰ d all)
All-Permᴰ (swap e f) (h, (k, all)) = ((λ x. k (f ∙ x)), ((λ x. h (e ∙ x)), all))
All-Permᴰ (trans d e) all = All-Permᴰ e (All-Permᴰ d all)

Apart-nil : (pairs : PortPairs) → Apart pairs []
unfolding keys port_in
Apart-nil [] = tt
Apart-nil (p ∷ pairs) = (refl, Apart-nil pairs)

pub turned-Distinct :
    (pairs : PortPairs) → Distinct (externals pairs) → turned pairs [] ≡ swapped pairs
turned-Distinct pairs distinct = turned-swapped pairs [] distinct (Apart-nil pairs)

module _ (sort : List ℕ → List ℕ) (sorts : (ps : List ℕ) → Permᴰ ps (sort ps)) where
  -- The internal ports in the order of the external ones
  pub internals-Permᴰ :
      (pairs : PortPairs)
      → Distinct (externals pairs)
      → Permᴰ
          (keys pairs)
          (map (λ e. internal_of e (turned pairs [])) (sort (keys (turned pairs []))))
  internals-Permᴰ pairs distinct =
      rw (turned-Distinct pairs distinct, keys-swapped pairs)
        (subst (λ ps. Permᴰ ps (map (λ e. internal_of e (swapped pairs)) (sort (externals pairs))))
          (internal_of-swapped pairs distinct)
          (map-Permᴰ (λ e. internal_of e (swapped pairs)) (sorts (externals pairs))))

  pub copied-sort :
      (pairs : PortPairs)
      → Distinct (externals pairs)
      → copied (length pairs) (sort (keys (turned pairs []))) ≡ sort (externals pairs)
  copied-sort pairs distinct =
      rw
        (
          turned-Distinct pairs distinct,
          keys-swapped pairs,
          sym (length-externals pairs),
          length-Permᴰ (sorts (externals pairs)),
        )
        (copied-same (sort (externals pairs)))

pub Distinct-Permᴰ : {xs ys : List ℕ} → Permᴰ xs ys → Distinct xs → Distinct ys
unfolding port_in
Distinct-Permᴰ nil distinct = distinct
Distinct-Permᴰ (cons {a} {l₂ = ys} e d) (fresh, distinct) = (
  subst (λ x. port_in x ys ≡ false) e (sym (port_in-Permᴰ a d) ∙ fresh),
  Distinct-Permᴰ d distinct,
)
Distinct-Permᴰ (swap e f) (fresh, (other, distinct)) =
    (ground (arith, e, f, fresh, other), (ground (arith, e, f, fresh, other), distinct))
Distinct-Permᴰ (trans d e) distinct = Distinct-Permᴰ e (Distinct-Permᴰ d distinct)
