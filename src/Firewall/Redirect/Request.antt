-- ===== src/Firewall/Redirect/Request.antt =====
-- internal/firewall/redirect.go, Config.RedirectPort on an enabled firewall.
use gluetun.Prelude.{◌≡◌, ◌≢◌, refl, ◌==◌, true, false, none, List, [], ◌∷◌, ◌++◌, eq_iff, arith}
use gluetun.Firewall.{FirewallImpl, State, PortRedirection, ok, crash, change, redirect_port}
use gluetun.Firewall.Rules.{Post, if_rule, call_rule}
use gluetun.Firewall.Redirect.{check, append_stored, add_redirection, request_redirection}

-- A redirection at the end is found where nothing before it exists already or conflicts with it.
check-append :
    (ps : List PortRedirection) (r : PortRedirection)
    → check ps r ≡ (false, none)
    → check (ps ++ r ∷ []) r ≡ (true, none)
unfolding check
check-append [] r h = ground (arith, (eq_iff r.interface_name r.interface_name).1 refl)
check-append (p ∷ ps) r h = ground (arith, check-append ps r)

module _ {W E : Type 0} (impl : FirewallImpl W E) where
  abbrev Stored : PortRedirection → Post W E (Unit {0})
  Stored r x = (x.0 ≡ ok tt) × (check x.1.config.port_redirections r ≡ (true, none))

  -- On an enabled firewall a redirection that neither exists nor conflicts with a stored one is
  -- stored once the implementation accepts it, also where the destination port is zero.
  pub request_redirection-stores :
      (r : PortRedirection) (s : State W)
      → s.config.enabled ≡ true
      → r.source_port ≢ 0
      → check s.config.port_redirections r ≡ (false, none)
      → (impl.call
          (change (redirect_port r.interface_name r.source_port r.destination_port) false)
          s.world).1
        ≡ none
      → ((request_redirection impl r.interface_name r.source_port r.destination_port s).0 ≡ ok tt)
        × (check
              (request_redirection impl r.interface_name r.source_port r.destination_port
                s).1.config.port_redirections
              r
            ≡ (true, none))
  unfolding request_redirection
  request_redirection-stores r s on nz fresh accepted =
      if_rule (Stored r) (r.source_port == 0) crash _ s (λ z. absurd (nz (ground arith)))
        λ _.
          if_rule (Stored r) s.config.enabled _ _ s (λ _. rw fresh added)
            (λ off. absurd (ground (arith, on, off)))
    where
      added : Stored r (add_redirection impl r s)
      added =
          call_rule (Stored r) impl
            (change (redirect_port r.interface_name r.source_port r.destination_port) false)
            (λ _. append_stored impl r) s
            (λ _. (refl, check-append s.config.port_redirections r fresh))
            (λ e failed. absurd (ground (arith, accepted, failed)))
