-- ===== src/Firewall/Vpn/Connect.antt =====
-- internal/firewall/vpn.go: what SetVPNConnection stores.
use gluetun.Prelude.{
  ◌≡◌, ◌≢◌, refl, ap, ◌∙◌, ◌⊎◌, inl, inr, not, true, false, Option, none, some, List, [], ◌∷◌,
  String, str_eq, arith,
}
use gluetun.Firewall.{
  FirewallImpl, State, Connection, DefaultRoute, ok, err, panic, M, ◌>>◌, done, update, change,
  no_connection, connection_equal, accept_output_traffic_to_vpn, accept_output_through_interface,
  impl_call, impl_call_logged,
}
use gluetun.Firewall.Rules.{Post, if_rule, call_rule, bind_rule}
use gluetun.Firewall.Vpn.{
  delete_vpn, delete_valid, delete_interface_rule, accept_vpn, replace_connection,
  set_vpn_connection,
}

module _ {W E : Type 0} (impl : FirewallImpl W E) where
  -- A method that returns with no error and leaves the receiver as it was.
  abbrev Quiet : State W → Post W E (Unit {0})
  Quiet s r = (r.0 ≡ ok tt) × (r.1.config ≡ s.config)

  delete_vpn-Quiet :
      (c : Connection) (rs : List DefaultRoute) (s : State W) → Quiet s (delete_vpn impl c rs s)
  unfolding delete_vpn impl_call_logged
  delete_vpn-Quiet c [] s = (refl, refl)
  delete_vpn-Quiet c (r ∷ rs) s = delete_vpn-Quiet c rs (record s {
    world = (impl.call (change (accept_output_traffic_to_vpn r.net_interface c) true) s.world).0;
  })

  delete_valid-Quiet :
      (c : Connection) (rs : List DefaultRoute) (s : State W) → Quiet s (delete_valid impl c rs s)
  unfolding delete_valid
  delete_valid-Quiet c rs s = by_ip c.ip
    where
      by_ip :
          (ip : Option String)
          → Quiet s (
              (elim ip as (λ _. M W E (Unit {0})) [ none ↦ done | some _ ↦ delete_vpn impl c rs ])
                s)
      by_ip none = (refl, refl)
      by_ip (some ip) = delete_vpn-Quiet c rs s

  delete_interface_rule-Quiet :
      (intf : String) (s : State W) → Quiet s (delete_interface_rule impl intf s)
  unfolding delete_interface_rule impl_call_logged
  delete_interface_rule-Quiet intf s =
      if_rule (Quiet s) (str_eq intf "") done _ s (λ _. (refl, refl)) (λ _. (refl, refl))

  accept_vpn-total :
      (c : Connection) (rs : List DefaultRoute) (s : State W) → (accept_vpn impl c rs s).0 ≢ panic
  unfolding accept_vpn
  accept_vpn-total c [] s = λ p. ground (arith, p)
  accept_vpn-total c (r ∷ rs) s =
      let call = change (accept_output_traffic_to_vpn r.net_interface c) false in
      call_rule (λ x. x.0 ≢ panic) impl call (λ _. accept_vpn impl c rs) s
        (λ _. accept_vpn-total c rs (record s { world = (impl.call call s.world).0 }))
        (λ e _ p. ground (arith, p))

  -- The loop keeps the receiver, also when it fails.
  accept_vpn-config :
      (c : Connection) (rs : List DefaultRoute) (s : State W)
      → (accept_vpn impl c rs s).1.config ≡ s.config
  unfolding accept_vpn
  accept_vpn-config c [] s = refl
  accept_vpn-config c (r ∷ rs) s =
      let call = change (accept_output_traffic_to_vpn r.net_interface c) false in
      call_rule (λ x. x.1.config ≡ s.config) impl call (λ _. accept_vpn impl c rs) s
        (λ _. accept_vpn-config c rs (record s { world = (impl.call call s.world).0 }))
        (λ e _. refl)

  quiet_rule :
      (P : Post W E (Unit {0})) (m k : M W E (Unit {0})) (s : State W)
      → Quiet s (m s)
      → ((t : State W) → t.config ≡ s.config → P (k t))
      → P ((m >> k) s)
  quiet_rule P m k s quiet next =
      bind_rule P m (λ _. k) s (λ a _. next (m s).1 quiet.1)
        (λ e h. absurd (ground (arith, h, quiet.0))) (λ h. absurd (ground (arith, h, quiet.0)))

  -- What the receiver holds after the method: the new connection and interface, or after an
  -- error no interface, and no connection or the new one.
  abbrev pub Settled : Connection → String → Post W E (Unit {0})
  Settled connection intf (ok a, s) =
      (s.config.vpn_connection ≡ connection) × (s.config.vpn_intf ≡ intf)
  Settled connection intf (err e, s) =
      (s.config.vpn_intf ≡ "")
      × ((s.config.vpn_connection ≡ no_connection) ⊎ (s.config.vpn_connection ≡ connection))
  Settled connection intf (panic, s) = ⊥

  accept_interface-Settled :
      (connection : Connection) (intf : String) (s : State W)
      → s.config.vpn_intf ≡ ""
      → s.config.vpn_connection ≡ connection
      → Settled connection intf (
          (impl_call impl (change (accept_output_through_interface intf) false)
              >> update (λ d. record d { vpn_intf = intf }))
            s)
  accept_interface-Settled connection intf s no_intf stored =
      call_rule (Settled connection intf) impl (change (accept_output_through_interface intf) false)
        (λ _. update (λ d. record d { vpn_intf = intf })) s (λ _. (stored, refl))
        (λ e _. (no_intf, inr stored))

  -- The second loop and what follows it, from a receiver with no connection and no interface.
  accept_all-Settled :
      (connection : Connection) (intf : String) (routes : List DefaultRoute) (s : State W)
      → s.config.vpn_intf ≡ ""
      → s.config.vpn_connection ≡ no_connection
      → Settled connection intf (
          (accept_vpn impl connection routes
              >> (update (λ d. record d { vpn_connection = connection })
                  >> (impl_call impl (change (accept_output_through_interface intf) false)
                      >> update (λ d. record d { vpn_intf = intf }))))
            s)
  accept_all-Settled connection intf routes s no_intf none_stored =
      let kept = accept_vpn-config connection routes s in
      bind_rule (Settled connection intf) (accept_vpn impl connection routes)
        (λ _.
          update (λ d. record d { vpn_connection = connection })
          >> (impl_call impl (change (accept_output_through_interface intf) false)
              >> update (λ d. record d { vpn_intf = intf })))
        s
        (λ _ _.
          accept_interface-Settled connection intf
            (record (accept_vpn impl connection routes s).1 {
              config = record (accept_vpn impl connection routes s).1.config {
                vpn_connection = connection;
              };
            })
            (ap (λ c. c.vpn_intf) kept ∙ no_intf) refl)
        (λ e _. (
          ap (λ c. c.vpn_intf) kept ∙ no_intf,
          inl (ap (λ c. c.vpn_connection) kept ∙ none_stored),
        ))
        (λ p. absurd (accept_vpn-total connection routes s p))

  replace_connection-Settled :
      (connection : Connection) (intf : String) (s : State W)
      → Settled connection intf (replace_connection impl connection intf s.config s)
  unfolding replace_connection
  replace_connection-Settled connection intf s =
      quiet_rule (Settled connection intf)
        (delete_valid impl s.config.vpn_connection s.config.default_routes) _ s
        (delete_valid-Quiet s.config.vpn_connection s.config.default_routes s)
        λ t kept.
          quiet_rule (Settled connection intf) (delete_interface_rule impl s.config.vpn_intf) _
            (record t { config = record t.config { vpn_connection = no_connection } })
            (delete_interface_rule-Quiet s.config.vpn_intf
              (record t { config = record t.config { vpn_connection = no_connection } }))
            λ u kept'.
              accept_all-Settled connection intf s.config.default_routes
                (record u { config = record u.config { vpn_intf = "" } }) refl
                (ap (λ c. c.vpn_connection) kept')

  -- On an enabled firewall that has another VPN connection, SetVPNConnection either returns with
  -- no error and holds the new connection and interface, or returns an error and holds no
  -- interface, and no connection or the new one; the old connection and interface never stay.
  pub set_vpn_connection-Settled :
      (connection : Connection) (intf : String) (s : State W)
      → s.config.enabled ≡ true
      → connection_equal s.config.vpn_connection connection ≡ false
      → Settled connection intf (set_vpn_connection impl connection intf s)
  unfolding set_vpn_connection
  set_vpn_connection-Settled connection intf s on new =
      if_rule (Settled connection intf) (not s.config.enabled) _ _ s
        (λ off. absurd (ground (arith, on, off)))
        λ _.
          if_rule (Settled connection intf) (connection_equal s.config.vpn_connection connection)
            done (replace_connection impl connection intf s.config) s
            (λ same. absurd (ground (arith, new, same)))
            λ _. replace_connection-Settled connection intf s
