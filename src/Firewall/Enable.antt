-- ===== src/Firewall/Enable.antt =====
-- internal/firewall/enable.go
pub mod Calls
pub mod Rollback
use gluetun.Prelude.{ℕ, Bool, true, false, Option, none, some, List, [], ◌∷◌, String, if◌then◌else◌}
use gluetun.Subnet.{Prefix}
use gluetun.Firewall.{
  FirewallImpl, Config, State, Connection, DefaultRoute, LocalNetwork, PortRedirection, Result, ok,
  err, panic, M, ◌>>=◌, ◌>>◌, done, crash, update, config_of, Saved, saved, save_failed, change,
  set_ipv4_all_policies, set_ipv6_all_policies, run_user_post_rules, accept_input_through_interface,
  accept_input_to_port, accept_input_to_subnet, accept_established_related_traffic,
  accept_ipv6_multicast_output, accept_output_from_ip_to_subnet, accept_output_through_interface,
  accept_output_traffic_to_vpn, redirect_port, impl_call, same_bool,
}
use gluetun.Firewall.Ports.{has_interface, PortMap}

module _ {W E : Type 0} (impl : FirewallImpl W E) where
  -- The loop of allowVPNIP; `seen` is interfacesSeen.
  pub allow_vpn_loop : Connection → List String → List DefaultRoute → M W E (Unit {0})
  allow_vpn_loop connection seen [] = done
  allow_vpn_loop connection seen (route ∷ routes) =
      let intf = route.net_interface in
      let allow =
        impl_call impl (change (accept_output_traffic_to_vpn intf connection) false)
        >> allow_vpn_loop connection (intf ∷ seen) routes in
      let skip = allow_vpn_loop connection seen routes in
      if has_interface intf seen then skip else allow

  pub allow_vpn_ip : Config W → M W E (Unit {0})
  unfolding allow_vpn_loop
  allow_vpn_ip c = elim c.vpn_connection.ip [
    | none ↦ done
    | some ip ↦ allow_vpn_loop c.vpn_connection [] c.default_routes
  ]

  -- `for _, network := range c.localNetworks`; `seen` is localInterfaces.
  pub allow_local_networks : List String → List LocalNetwork → M W E (Unit {0})
  allow_local_networks seen [] = done
  allow_local_networks seen (network ∷ networks) =
      let intf = network.interface_name in
      let multicast =
        impl_call impl (change (accept_ipv6_multicast_output intf) false)
        >> allow_local_networks (intf ∷ seen) networks in
      let skip = allow_local_networks seen networks in
      impl_call impl (change (accept_output_from_ip_to_subnet intf network.ip network.ip_net) false)
      >> (if has_interface intf seen then skip else multicast)

  -- The inner loop of allowOutboundSubnets.
  pub allow_subnet : Prefix → List DefaultRoute → M W E (Unit {0})
  allow_subnet subnet [] = done
  allow_subnet subnet (route ∷ routes) =
      let rest = allow_subnet subnet routes in
      let allow =
        impl_call impl (
          change (accept_output_from_ip_to_subnet route.net_interface route.assigned_ip subnet)
            false)
        >> rest in
      if same_bool subnet.is_6 route.is_6 then allow else rest

  pub allow_outbound_subnets : List DefaultRoute → List Prefix → M W E (Unit {0})
  unfolding allow_subnet
  allow_outbound_subnets routes [] = done
  allow_outbound_subnets routes (subnet ∷ subnets) =
      allow_subnet subnet routes >> allow_outbound_subnets routes subnets

  -- The second loop over the local networks.
  pub allow_local_input : List LocalNetwork → M W E (Unit {0})
  allow_local_input [] = done
  allow_local_input (network ∷ networks) =
      impl_call impl (change (accept_input_to_subnet network.interface_name network.ip_net) false)
      >> allow_local_input networks

  pub allow_port : ℕ → List String → M W E (Unit {0})
  allow_port port [] = done
  allow_port port (intf ∷ intfs) =
      impl_call impl (change (accept_input_to_port intf port) false) >> allow_port port intfs

  pub allow_input_ports : PortMap → M W E (Unit {0})
  unfolding allow_port
  allow_input_ports [] = done
  allow_input_ports ((port, intfs) ∷ ports) = allow_port port intfs >> allow_input_ports ports

  pub redirect_ports : List PortRedirection → M W E (Unit {0})
  redirect_ports [] = done
  redirect_ports (p ∷ ps) =
      impl_call impl
        (change (redirect_port p.interface_name p.source_port p.destination_port) false)
      >> redirect_ports ps

  -- The body of enable, between SaveAndRestore and the deferred restoration.
  pub enable_rules : Config W → M W E (Unit {0})
  unfolding allow_vpn_ip allow_local_networks allow_outbound_subnets allow_local_input
      allow_input_ports redirect_ports
  enable_rules c =
      impl_call impl (set_ipv4_all_policies "DROP")
      >> (impl_call impl (set_ipv6_all_policies "DROP")
          >> (impl_call impl (change (accept_input_through_interface "lo") false)
              >> (impl_call impl (change (accept_output_through_interface "lo") false)
                  >> (impl_call impl (change accept_established_related_traffic false)
                      >> (allow_vpn_ip c
                          >> (allow_local_networks [] c.local_networks
                              >> (allow_outbound_subnets c.default_routes c.outbound_subnets
                                  >> (allow_local_input c.local_networks
                                      >> (allow_input_ports c.allowed_input_ports
                                          >> (redirect_ports c.port_redirections
                                              >> (impl_call impl
                                                    (run_user_post_rules c.custom_rules_path)
                                                  >> done)))))))))))

  -- The deferred function: on an error the saved rules are restored, and not on a panic.
  pub restore_on_error : (W → W) → Result E (Unit {0}) × State W → Result E (Unit {0}) × State W
  restore_on_error restore (ok x, s) = (ok x, s)
  restore_on_error restore (err e, s) = (err e, record s { world = restore s.world })
  restore_on_error restore (panic, s) = (panic, s)

  -- What enable does with the result of SaveAndRestore, which is stored before the error check.
  pub enable_saved : Saved W E → M W E (Unit {0})
  unfolding enable_rules restore_on_error
  enable_saved (save_failed e) s = (err e, record s { config = record s.config { restore = none } })
  enable_saved (saved restore) s =
      let t : State W = record s { config = record s.config { restore = some restore } } in
      restore_on_error restore (enable_rules t.config t)

  pub enable : M W E (Unit {0})
  unfolding enable_saved
  enable s =
      let (w, result) = impl.save_and_restore s.world in
      enable_saved result (record s { world = w })

  pub call_restore : Option (W → W) → M W E (Unit {0})
  call_restore none s = crash s
  call_restore (some restore) s = (ok tt, record s { world = restore s.world })

  unfoldable pub set_enabled : Bool → M W E (Unit {0})
  unfolding enable call_restore
  set_enabled enabled = do
    c ← config_of
    if same_bool enabled c.enabled
        then done
        else if enabled
        then enable >> update (λ d. record d { enabled = true })
        else call_restore c.restore >> update (λ d. record d { enabled = false })
