-- ===== src/Portforward/Pairs/Doubled.antt =====
-- internal/portforward/service/service.go: the map from each port to itself.
use mathlib.Core.Path.{subst}
use gluetun.Prelude.{ℕ, ◌≡◌, refl, sym, ap, ◌∙◌, true, List, [], ◌∷◌, arith}
use gluetun.Portforward.{PortPairs, put_internal, identity_pairs, ports_equal, turned, keys}
use gluetun.Portforward.Pairs.{externals, swapped, Distinct, turned-Distinct, keys-swapped}

-- The map that SetPortsForwarded makes
doubled : List ℕ → PortPairs
doubled [] = []
doubled (p ∷ ps) = (p, p) ∷ doubled ps

externals-doubled : (ps : List ℕ) → externals (doubled ps) ≡ ps
unfolding externals doubled
externals-doubled [] = refl
externals-doubled (p ∷ ps) = ap (λ qs. p ∷ qs) (externals-doubled ps)

swapped-doubled : (ps : List ℕ) → swapped (doubled ps) ≡ doubled ps
unfolding swapped doubled
swapped-doubled [] = refl
swapped-doubled (p ∷ ps) = ap (λ qs. (p, p) ∷ qs) (swapped-doubled ps)

identity_pairs-turned :
    (ps : List ℕ) (acc : PortPairs) → identity_pairs ps acc ≡ turned (doubled ps) acc
unfolding identity_pairs turned doubled
identity_pairs-turned [] acc = refl
identity_pairs-turned (p ∷ ps) acc = identity_pairs-turned ps (put_internal p p acc)

identity_pairs-doubled : (ps : List ℕ) → Distinct ps → identity_pairs ps [] ≡ doubled ps
identity_pairs-doubled ps distinct =
    identity_pairs-turned ps []
    ∙ turned-Distinct (doubled ps) (subst Distinct (sym (externals-doubled ps)) distinct)
    ∙ swapped-doubled ps

pub externals-identity_pairs : (ps : List ℕ) → Distinct ps → externals (identity_pairs ps []) ≡ ps
externals-identity_pairs ps distinct =
    ap externals (identity_pairs-doubled ps distinct) ∙ externals-doubled ps

pub keys-identity_pairs : (ps : List ℕ) → Distinct ps → keys (identity_pairs ps []) ≡ ps
keys-identity_pairs ps distinct =
    ap keys (identity_pairs-doubled ps distinct ∙ sym (swapped-doubled ps))
    ∙ keys-swapped (doubled ps)
    ∙ externals-doubled ps

pub ports_equal-same : (ps qs : List ℕ) → ports_equal ps qs ≡ true → ps ≡ qs
unfolding ports_equal
ports_equal-same [] [] h = refl
ports_equal-same [] (q ∷ qs) h = absurd (ground (arith, h))
ports_equal-same (p ∷ ps) [] h = absurd (ground (arith, h))
ports_equal-same (p ∷ ps) (q ∷ qs) h =
    let same : p ≡ q = ground (arith, h) in
    let rest : ps ≡ qs = ports_equal-same ps qs (ground (arith, h)) in cc
