-- ===== src/Firewall/Subnets/Updated.antt =====
-- internal/firewall/outboundsubnets.go: which subnets the receiver lists after a change.
use mathlib.Core.Path.{subst}
use gluetun.Prelude.{
  ◌≡◌, ap, ◌∙◌, not, ◌&&◌, ◌||◌, Bool, true, false, List, [], ◌∷◌, ◌++◌, str_eq, eq_iff,
  if◌then◌else◌, arith,
}
use gluetun.Subnet.{
  Prefix, found, find_subnets_to_add, find_subnets_to_remove, find_subnets_to_change,
}
use gluetun.Subnet.Change.{found-find_subnets_to_change}
use gluetun.Subnet.Family.{
  SameFamily, found-append, SameFamily-find_subnets_to_add, SameFamily-find_subnets_to_remove,
  found-nil, found-cons,
}
use gluetun.Firewall.{
  FirewallImpl, Config, State, DefaultRoute, Result, ok, err, panic, M, ◌>>◌, done, update,
}
use gluetun.Firewall.Rules.{Post, if_rule, bind_rule}
use gluetun.Firewall.Subnets.{
  has_family, is_nil, remove_outbound_subnets, accept_subnet, add_outbound_subnets, change_subnets,
  set_outbound_subnets,
}
use gluetun.Firewall.Subnets.Removed.{
  remove_all, found-remove_all, accept_subnet-Keeps, remove_outbound_subnets-Removed,
}

is_nil-found : (p : Prefix) (xs : List Prefix) → is_nil xs ≡ true → found p xs ≡ false
unfolding is_nil
is_nil-found p [] h = found-nil p
is_nil-found p (x ∷ xs) h = absurd (ground (arith, h))

-- Prefixes that read the same have the same default routes.
family_of :
    (p q : Prefix) (routes : List DefaultRoute)
    → (p.text ≡ q.text → p.is_6 ≡ q.is_6)
    → str_eq p.text q.text ≡ true
    → has_family p.is_6 routes ≡ has_family q.is_6 routes
family_of p q routes same e = ap (λ b. has_family b routes) (same ((eq_iff p.text q.text).0 e))

module _ {W E : Type 0} (impl : FirewallImpl W E) where
  -- The list after addOutboundSubnets: all that is added for good where there is no error, and
  -- no more than that where there is one.
  abbrev Added : Prefix → Bool → Bool → Bool → Post W E (Unit {0})
  Added p family listed added (ok a, t) =
      found p t.config.outbound_subnets ≡ (if family then listed || added else listed)
  Added p family listed added (err e, t) =
      found p t.config.outbound_subnets ≡ true → (listed || added) ≡ true
  Added p family listed added (panic, t) = ⊥

  Added-weaken :
      (p : Prefix) (family l a l' a' : Bool) (r : Result E (Unit {0}) × State W)
      → Added p family l' a' r
      → (if family then l' || a' else l') ≡ (if family then l || a else l)
      → ((l' || a') ≡ true → (l || a) ≡ true)
      → Added p family l a r
  Added-weaken p family l a l' a' (ok _, t) h e i = h ∙ e
  Added-weaken p family l a l' a' (err _, t) h e i = λ f. i (h f)
  Added-weaken p family l a l' a' (panic, t) h e i = h

  abbrev adding : Bool → Prefix → List Prefix → M W E (Unit {0})
  adding b q ps =
      if b
      then update (λ d. record d { outbound_subnets = d.outbound_subnets ++ q ∷ [] })
        >> add_outbound_subnets impl ps
      else add_outbound_subnets impl ps

  -- `Added` of a round and of those after it, from the state `s`.
  abbrev AddedFrom : Prefix → List Prefix → State W → Post W E (Unit {0})
  AddedFrom p ps s =
      Added p (has_family p.is_6 s.config.default_routes) (found p s.config.outbound_subnets)
        (found p ps)

  adding-Added :
      (b : Bool) (p q : Prefix) (ps : List Prefix) (t : State W)
      → has_family q.is_6 t.config.default_routes ≡ b
      → (p.text ≡ q.text → p.is_6 ≡ q.is_6)
      → ((u : State W) → AddedFrom p ps u (add_outbound_subnets impl ps u))
      → AddedFrom p (q ∷ ps) t (adding b q ps t)
  adding-Added true p q ps t known same rest =
      let xs = t.config.outbound_subnets in
      let agrees = family_of p q t.config.default_routes same in
      Added-weaken p (has_family p.is_6 t.config.default_routes) (found p xs) (found p (q ∷ ps))
        (found p (xs ++ q ∷ [])) (found p ps) (adding true q ps t)
        (rest (record t { config = record t.config { outbound_subnets = xs ++ q ∷ [] } }))
        (ground (
          arith,
          found-append p xs (q ∷ []),
          found-cons p q ps,
          found-cons p q [],
          found-nil p,
          known,
          agrees,
        ))
        (λ h.
          ground (
            arith,
            found-append p xs (q ∷ []),
            found-cons p q ps,
            found-cons p q [],
            found-nil p,
            h,
          ))
  adding-Added false p q ps t known same rest =
      let xs = t.config.outbound_subnets in
      let agrees = family_of p q t.config.default_routes same in
      Added-weaken p (has_family p.is_6 t.config.default_routes) (found p xs) (found p (q ∷ ps))
        (found p xs) (found p ps) (adding false q ps t) (rest t)
        (ground (arith, found-cons p q ps, known, agrees))
        (λ h. ground (arith, found-cons p q ps, h))

  add_outbound_subnets-Added :
      (p : Prefix) (ps : List Prefix) (s : State W)
      → SameFamily p ps
      → AddedFrom p ps s (add_outbound_subnets impl ps s)
  unfolding add_outbound_subnets
  add_outbound_subnets-Added p [] s same = ground (arith, found-nil p)
  add_outbound_subnets-Added p (q ∷ ps) s same =
      let family = has_family q.is_6 s.config.default_routes in
      let call = accept_subnet impl q s.config.default_routes in
      let kept = accept_subnet-Keeps impl q s.config.default_routes s in
      bind_rule (AddedFrom p (q ∷ ps) s) call (λ _. adding family q ps) s
        (λ _ _.
          subst
            (λ (c : Config W).
              Added p (has_family p.is_6 c.default_routes) (found p c.outbound_subnets)
                (found p (q ∷ ps)) (adding family q ps (call s).1))
            kept.0
            (adding-Added family p q ps (call s).1
              (ap (λ (c : Config W). has_family q.is_6 c.default_routes) kept.0) same.0
              (λ u. add_outbound_subnets-Added p ps u same.1)))
        (λ e _ f. ground (arith, f, ap (λ (c : Config W). found p c.outbound_subnets) kept.0))
        (λ h. absurd (kept.1 h))

  -- What the receiver lists after SetOutboundSubnets.
  abbrev pub Updated : Prefix → Bool → Bool → Bool → Post W E (Unit {0})
  Updated p family was wanted (ok a, t) =
      found p t.config.outbound_subnets ≡ (if family then wanted else was)
  Updated p family was wanted (err e, t) =
      found p t.config.outbound_subnets ≡ true → (was || wanted) ≡ true
  Updated p family was wanted (panic, t) = ⊥

  Updated-Added :
      (p : Prefix) (family was wanted listed added : Bool) (r : Result E (Unit {0}) × State W)
      → listed ≡ (if family then was && wanted else was)
      → added ≡ wanted && not was
      → Added p family listed added r
      → Updated p family was wanted r
  Updated-Added p family was wanted listed added (ok _, t) l a h = ground (arith, l, a, h)
  Updated-Added p family was wanted listed added (err _, t) l a h = λ f. ground (arith, l, a, h f)
  Updated-Added p family was wanted listed added (panic, t) l a h = h

  -- On an enabled firewall, a subnet of the family of a default route is listed after
  -- SetOutboundSubnets returns with no error exactly when the new list has it, and a subnet of
  -- another family exactly when it was listed before; after an error only subnets of the old and
  -- the new list are listed; the method does not panic.
  pub set_outbound_subnets-Updated :
      (subnets : List Prefix) (s : State W) (p : Prefix)
      → s.config.enabled ≡ true
      → SameFamily p s.config.outbound_subnets
      → SameFamily p subnets
      → Updated p
          (has_family p.is_6 s.config.default_routes)
          (found p s.config.outbound_subnets)
          (found p subnets)
          (set_outbound_subnets impl subnets s)
  unfolding set_outbound_subnets change_subnets find_subnets_to_change
  set_outbound_subnets-Updated subnets s p on same_old same_new =
      let old = s.config.outbound_subnets in
      let P =
        Updated p (has_family p.is_6 s.config.default_routes) (found p old) (found p subnets) in
      let to_add = find_subnets_to_add old subnets in
      let to_remove = find_subnets_to_remove old subnets in
      let change = found-find_subnets_to_change p old subnets in
      if_rule P (not s.config.enabled) _ _ s (λ off. absurd (ground (arith, on, off)))
        λ _.
          if_rule P (is_nil to_add && is_nil to_remove) done
            (remove_outbound_subnets impl to_remove >> add_outbound_subnets impl to_add) s
            (λ none.
              ground
                (arith, none, change.0, change.1, is_nil-found p to_add, is_nil-found p to_remove))
            λ _.
              let removed = remove_outbound_subnets-Removed impl to_remove s in
              let t = (remove_outbound_subnets impl to_remove s).1 in
              bind_rule P (remove_outbound_subnets impl to_remove)
                (λ _. add_outbound_subnets impl to_add) s
                (λ _ _.
                  Updated-Added p (has_family p.is_6 s.config.default_routes) (found p old)
                    (found p subnets) (found p (remove_all s.config.default_routes old to_remove))
                    (found p to_add) (add_outbound_subnets impl to_add t)
                    (found-remove_all s.config.default_routes p old subnets
                      (SameFamily-find_subnets_to_remove p old subnets same_old))
                    change.0
                    (subst
                      (λ (c : Config W).
                        Added p (has_family p.is_6 c.default_routes) (found p c.outbound_subnets)
                          (found p to_add) (add_outbound_subnets impl to_add t))
                      removed.1
                      (add_outbound_subnets-Added p to_add t
                        (SameFamily-find_subnets_to_add p old subnets same_new))))
                (λ e h. absurd (ground (arith, h, removed.0)))
                (λ h. absurd (ground (arith, h, removed.0)))
