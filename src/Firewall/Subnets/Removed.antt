-- ===== src/Firewall/Subnets/Removed.antt =====
-- internal/firewall/outboundsubnets.go: what the loops of the removal do to the receiver, and what
-- the loop of one subnet that is added keeps of it.
use gluetun.Prelude.{
  ◌-◌, ◌≡◌, ◌≢◌, refl, ap, ◌∙◌, inl, inr, ◌&&◌, Bool, true, false, List, [], ◌∷◌, str_eq, eq_iff,
  if◌then◌else◌, arith, Bool-cases,
}
use gluetun.Subnet.{Prefix, found, find_subnets_to_remove, remove_subnet_from_subnets}
use gluetun.Subnet.Change.{count, found-count, count-remove_subnet, count-find_subnets_to_remove}
use gluetun.Subnet.Family.{SameFamily, count-nil, count-cons}
use gluetun.Firewall.{
  FirewallImpl, Config, State, DefaultRoute, ok, panic, M, ◌>>◌, update, change, same_bool,
  accept_output_from_ip_to_subnet, impl_call_logged,
}
use gluetun.Firewall.Rules.{Post, if_rule, call_rule, bind_rule}
use gluetun.Firewall.Subnets.{has_family, delete_subnet, remove_outbound_subnets, accept_subnet}

-- What the loop of removeOutboundSubnets does to the list.
pub remove_all : List DefaultRoute → List Prefix → List Prefix → List Prefix
remove_all routes xs [] = xs
remove_all routes xs (p ∷ ps) =
    remove_all routes (if has_family p.is_6 routes then remove_subnet_from_subnets xs p else xs) ps

count-remove_all :
    (routes : List DefaultRoute) (s : Prefix) (xs ps : List Prefix)
    → SameFamily s ps
    → count s (remove_all routes xs ps)
      ≡ (if has_family s.is_6 routes then count s xs - count s ps else count s xs)
unfolding remove_all
count-remove_all routes s xs [] h = ground (arith, count-nil s)
count-remove_all routes s xs (p ∷ ps) h = elim (Bool-cases (str_eq s.text p.text)) [
  | inl same ↦
      let family = h.0 ((eq_iff s.text p.text).0 same) in
      ground (
        arith,
        same,
        ap (λ b. has_family b routes) family,
        count-remove_all routes s xs ps h.1,
        count-remove_all routes s (remove_subnet_from_subnets xs p) ps h.1,
        count-remove_subnet s p xs,
        count-cons s p ps,
      )
  | inr other ↦ ground (
    arith,
    other,
    count-remove_all routes s xs ps h.1,
    count-remove_all routes s (remove_subnet_from_subnets xs p) ps h.1,
    count-remove_subnet s p xs,
    count-cons s p ps,
  )
]

pub found-remove_all :
    (routes : List DefaultRoute) (s : Prefix) (old new : List Prefix)
    → SameFamily s (find_subnets_to_remove old new)
    → found s (remove_all routes old (find_subnets_to_remove old new))
      ≡ (if has_family s.is_6 routes then found s old && found s new else found s old)
found-remove_all routes s old new h = ground (
  arith,
  found-count s (remove_all routes old (find_subnets_to_remove old new)),
  found-count s old,
  count-remove_all routes s old (find_subnets_to_remove old new) h,
  count-find_subnets_to_remove s old new,
)

module _ {W E : Type 0} (impl : FirewallImpl W E) where
  -- A method that keeps the receiver and does not panic.
  abbrev pub Keeps : State W → Post W E (Unit {0})
  Keeps s r = (r.1.config ≡ s.config) × (r.0 ≢ panic)

  delete_subnet-Keeps :
      (p : Prefix) (rs : List DefaultRoute) (s : State W)
      → (Keeps s (delete_subnet impl p rs s)) × ((delete_subnet impl p rs s).0 ≡ ok tt)
  unfolding delete_subnet impl_call_logged
  delete_subnet-Keeps p [] s = ((refl, λ e. ground (arith, e)), refl)
  delete_subnet-Keeps p (r ∷ rs) s =
      if_rule (λ x. (Keeps s x) × (x.0 ≡ ok tt)) (same_bool p.is_6 r.is_6) _ _ s
        (λ _. delete_subnet-Keeps p rs (record s {
          world =
              (impl.call
                (change (accept_output_from_ip_to_subnet r.net_interface r.assigned_ip p) true)
                s.world).0;
        }))
        (λ _. delete_subnet-Keeps p rs s)

  pub accept_subnet-Keeps :
      (p : Prefix) (rs : List DefaultRoute) (s : State W) → Keeps s (accept_subnet impl p rs s)
  unfolding accept_subnet
  accept_subnet-Keeps p [] s = (refl, λ e. ground (arith, e))
  accept_subnet-Keeps p (r ∷ rs) s =
      let call = change (accept_output_from_ip_to_subnet r.net_interface r.assigned_ip p) false in
      if_rule (Keeps s) (same_bool p.is_6 r.is_6) _ _ s
        (λ _.
          call_rule (Keeps s) impl call (λ _. accept_subnet impl p rs) s
            (λ _. accept_subnet-Keeps p rs (record s { world = (impl.call call s.world).0 }))
            (λ e _. (refl, λ h. ground (arith, h))))
        (λ _. accept_subnet-Keeps p rs s)

  -- The list of the receiver, and all the rest of it, after removeOutboundSubnets.
  abbrev pub Removed : Config W → List Prefix → Post W E (Unit {0})
  Removed c ps r =
      (r.0 ≡ ok tt)
      × (r.1.config
          ≡ record c { outbound_subnets = remove_all c.default_routes c.outbound_subnets ps })

  -- One round of the outer loop, after its inner loop.
  abbrev removing : Bool → Prefix → List Prefix → M W E (Unit {0})
  removing b p ps =
      if b
      then update
          (λ d. record d { outbound_subnets = remove_subnet_from_subnets d.outbound_subnets p })
        >> remove_outbound_subnets impl ps
      else remove_outbound_subnets impl ps

  removing-Removed :
      (b : Bool) (p : Prefix) (ps : List Prefix) (c : Config W) (t : State W)
      → t.config ≡ c
      → ((u : State W) → Removed u.config ps (remove_outbound_subnets impl ps u))
      → ((removing b p ps t).0 ≡ ok tt)
        × ((removing b p ps t).1.config ≡ record c {
          outbound_subnets =
              remove_all c.default_routes
                (if b then remove_subnet_from_subnets c.outbound_subnets p else c.outbound_subnets)
                ps;
        })
  removing-Removed true p ps c t e rest =
      let r = rest (record t {
        config = record t.config {
          outbound_subnets = remove_subnet_from_subnets t.config.outbound_subnets p;
        };
      }) in
      (
        r.0,
        r.1
            ∙ ap
                (λ (d : Config W). record d {
                  outbound_subnets =
                      remove_all d.default_routes (remove_subnet_from_subnets d.outbound_subnets p)
                        ps;
                })
                e,
      )
  removing-Removed false p ps c t e rest =
      let r = rest t in
      (
        r.0,
        r.1
            ∙ ap
                (λ (d : Config W). record d {
                  outbound_subnets = remove_all d.default_routes d.outbound_subnets ps;
                })
                e,
      )

  pub remove_outbound_subnets-Removed :
      (ps : List Prefix) (s : State W) → Removed s.config ps (remove_outbound_subnets impl ps s)
  unfolding remove_outbound_subnets remove_all
  remove_outbound_subnets-Removed [] s = (refl, refl)
  remove_outbound_subnets-Removed (p ∷ ps) s =
      let quiet = delete_subnet-Keeps p s.config.default_routes s in
      let family = has_family p.is_6 s.config.default_routes in
      bind_rule (Removed s.config (p ∷ ps)) (delete_subnet impl p s.config.default_routes)
        (λ _. removing family p ps) s
        (λ _ _.
          removing-Removed family p ps s.config (delete_subnet impl p s.config.default_routes s).1
            quiet.0.0 (remove_outbound_subnets-Removed ps))
        (λ e h. absurd (ground (arith, h, quiet.1))) (λ h. absurd (quiet.0.1 h))
