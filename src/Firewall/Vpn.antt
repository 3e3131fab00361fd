-- ===== src/Firewall/Vpn.antt =====
-- internal/firewall/vpn.go
pub mod Connect
use gluetun.Prelude.{
  Bool, true, false, not, Option, none, some, List, [], ◌∷◌, String, str_eq, if◌then◌else◌,
}
use gluetun.Firewall.{
  FirewallImpl, Config, Connection, DefaultRoute, M, ◌>>=◌, ◌>>◌, done, update, config_of, change,
  no_connection, connection_equal, accept_output_traffic_to_vpn, accept_output_through_interface,
  impl_call, impl_call_logged,
}

module _ {W E : Type 0} (impl : FirewallImpl W E) where
  -- The first loop of SetVPNConnection: an error is logged, and the loop goes on.
  pub delete_vpn : Connection → List DefaultRoute → M W E (Unit {0})
  delete_vpn connection [] = done
  delete_vpn connection (r ∷ rs) =
      impl_call_logged impl (change (accept_output_traffic_to_vpn r.net_interface connection) true)
      >> delete_vpn connection rs

  -- `if c.vpnConnection.IP.IsValid()`
  pub delete_valid : Connection → List DefaultRoute → M W E (Unit {0})
  unfolding delete_vpn
  delete_valid connection routes = elim connection.ip [
    | none ↦ done
    | some ip ↦ delete_vpn connection routes
  ]

  pub delete_interface_rule : String → M W E (Unit {0})
  delete_interface_rule intf =
      if str_eq intf ""
      then done
      else impl_call_logged impl (change (accept_output_through_interface intf) true)

  -- The second loop: an error is returned.
  pub accept_vpn : Connection → List DefaultRoute → M W E (Unit {0})
  accept_vpn connection [] = done
  accept_vpn connection (r ∷ rs) =
      impl_call impl (change (accept_output_traffic_to_vpn r.net_interface connection) false)
      >> accept_vpn connection rs

  pub replace_connection : Connection → String → Config W → M W E (Unit {0})
  unfolding delete_valid delete_interface_rule accept_vpn
  replace_connection connection vpn_intf c =
      delete_valid c.vpn_connection c.default_routes
      >> (update (λ d. record d { vpn_connection = no_connection })
          >> (delete_interface_rule c.vpn_intf
              >> (update (λ d. record d { vpn_intf = "" })
                  >> (accept_vpn connection c.default_routes
                      >> (update (λ d. record d { vpn_connection = connection })
                          >> (impl_call impl
                                (change (accept_output_through_interface vpn_intf) false)
                              >> update (λ d. record d { vpn_intf = vpn_intf })))))))

  unfoldable pub set_vpn_connection : Connection → String → M W E (Unit {0})
  unfolding replace_connection connection_equal
  set_vpn_connection connection vpn_intf = do
    c ← config_of
    if not c.enabled
        then update (λ d. record d { vpn_connection = connection })
        else if connection_equal c.vpn_connection connection
        then done
        else replace_connection connection vpn_intf c
