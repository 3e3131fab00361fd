-- ===== src/Firewall/Subnets.antt =====
-- internal/firewall/outboundsubnets.go
pub mod Removed
pub mod Updated
use gluetun.Prelude.{Bool, true, false, not, ◌&&◌, List, [], ◌∷◌, ◌++◌, if◌then◌else◌}
use gluetun.Subnet.{Prefix, find_subnets_to_change, remove_subnet_from_subnets}
use gluetun.Firewall.{
  FirewallImpl, DefaultRoute, M, ◌>>=◌, ◌>>◌, done, update, config_of, change, same_bool,
  accept_output_from_ip_to_subnet, impl_call, impl_call_logged,
}

-- Whether a default route has the family of the subnet: firewallUpdated after the inner loop.
pub has_family : Bool → List DefaultRoute → Bool
has_family is_6 [] = false
has_family is_6 (r ∷ rs) = if same_bool is_6 r.is_6 then true else has_family is_6 rs

pub is_nil : List Prefix → Bool
is_nil [] = true
is_nil (p ∷ ps) = false

module _ {W E : Type 0} (impl : FirewallImpl W E) where
  -- The inner loop of removeOutboundSubnets: an error is logged, and the loop goes on.
  pub delete_subnet : Prefix → List DefaultRoute → M W E (Unit {0})
  delete_subnet p [] = done
  delete_subnet p (r ∷ rs) =
      let rest = delete_subnet p rs in
      let delete =
        impl_call_logged impl
          (change (accept_output_from_ip_to_subnet r.net_interface r.assigned_ip p) true)
        >> rest in
      if same_bool p.is_6 r.is_6 then delete else rest

  pub remove_outbound_subnets : List Prefix → M W E (Unit {0})
  unfolding delete_subnet has_family
  remove_outbound_subnets [] = done
  remove_outbound_subnets (p ∷ ps) =
      let rest = remove_outbound_subnets ps in
      config_of >>= λ c.
      delete_subnet p c.default_routes
      >> (if has_family p.is_6 c.default_routes
          then update
              (λ d. record d { outbound_subnets = remove_subnet_from_subnets d.outbound_subnets p })
            >> rest
          else rest)

  -- The inner loop of addOutboundSubnets: an error is returned.
  pub accept_subnet : Prefix → List DefaultRoute → M W E (Unit {0})
  accept_subnet p [] = done
  accept_subnet p (r ∷ rs) =
      let rest = accept_subnet p rs in
      let accept =
        impl_call impl
          (change (accept_output_from_ip_to_subnet r.net_interface r.assigned_ip p) false)
        >> rest in
      if same_bool p.is_6 r.is_6 then accept else rest

  pub add_outbound_subnets : List Prefix → M W E (Unit {0})
  unfolding accept_subnet has_family
  add_outbound_subnets [] = done
  add_outbound_subnets (p ∷ ps) =
      let rest = add_outbound_subnets ps in
      config_of >>= λ c.
      accept_subnet p c.default_routes
      >> (if has_family p.is_6 c.default_routes
          then update (λ d. record d { outbound_subnets = d.outbound_subnets ++ p ∷ [] }) >> rest
          else rest)

  pub change_subnets : List Prefix × List Prefix → M W E (Unit {0})
  unfolding remove_outbound_subnets add_outbound_subnets is_nil
  change_subnets (to_add, to_remove) =
      if is_nil to_add && is_nil to_remove
      then done
      else remove_outbound_subnets to_remove >> add_outbound_subnets to_add

  unfoldable pub set_outbound_subnets : List Prefix → M W E (Unit {0})
  unfolding change_subnets
  set_outbound_subnets subnets = do
    c ← config_of
    if not c.enabled
        then update (λ d. record d { outbound_subnets = subnets })
        else change_subnets (find_subnets_to_change c.outbound_subnets subnets)
