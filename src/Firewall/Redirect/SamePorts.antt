-- ===== src/Firewall/Redirect/SamePorts.antt =====
-- internal/firewall/redirect.go: a redirection leaves the map of allowed ports as it is.
use gluetun.Prelude.{
  ℕ, ◌==◌, ◌≡◌, refl, ◌∙◌, inl, inr, Bool, true, false, Option, none, some, String, Option-cases,
}
use gluetun.Firewall.{
  FirewallImpl, State, Result, crash, ◌>>◌, change, redirect_port, PortRedirection,
}
use gluetun.Firewall.Rules.{if_rule, call_rule, bind_rule}
use gluetun.Firewall.Redirect.{
  check, remove, remove_stored, append_stored, add_redirection, redirect_enabled, redirect_disabled,
  request_redirection,
}

module _ {W E : Type 0} (impl : FirewallImpl W E) where
  abbrev pub SamePorts : State W → Result E (Unit {0}) × State W → Type 0
  SamePorts s r = r.1.config.allowed_input_ports ≡ s.config.allowed_input_ports

  remove_stored-same : (i : String) (p : ℕ) (s : State W) → SamePorts s (remove_stored impl i p s)
  unfolding remove_stored
  remove_stored-same i p s = elim (Option-cases (remove i p s.config.port_redirections)) [
    | inl e ↦ rw (remove_stored, e) refl
    | inr (ps, e) ↦ rw (remove_stored, e) refl
  ]

  add-same : (r : PortRedirection) (s : State W) → SamePorts s (add_redirection impl r s)
  unfolding add_redirection append_stored
  add-same r s =
      call_rule (SamePorts s) impl
        (change (redirect_port r.interface_name r.source_port r.destination_port) false)
        (λ _. append_stored impl r) s (λ _. refl) (λ _ _. refl)

  -- A method that removes stored redirections, and one after it.
  after_removal-same :
      (i : String) (p : ℕ) (s : State W) (next : State W → Result E (Unit {0}) × State W)
      → ((t : State W) → SamePorts t (next t))
      → SamePorts s ((remove_stored impl i p >> next) s)
  after_removal-same i p s next h =
      bind_rule (SamePorts s) (remove_stored impl i p) (λ _. next) s
        (λ _ _. h (remove_stored impl i p s).1 ∙ remove_stored-same i p s)
        (λ _ _. remove_stored-same i p s) (λ _. remove_stored-same i p s)

  redirect_disabled-same :
      (c : Bool × Option PortRedirection) (r : PortRedirection) (s : State W)
      → SamePorts s (redirect_disabled impl c r s)
  unfolding redirect_disabled append_stored
  redirect_disabled-same (true, conflict) r s = refl
  redirect_disabled-same (false, none) r s = refl
  redirect_disabled-same (false, some c) r s =
      after_removal-same c.interface_name c.source_port s (append_stored impl r) (λ t. refl)

  redirect_enabled-same :
      (c : Bool × Option PortRedirection) (r : PortRedirection) (s : State W)
      → SamePorts s (redirect_enabled impl c r s)
  unfolding redirect_enabled
  redirect_enabled-same (true, conflict) r s = refl
  redirect_enabled-same (false, none) r s = add-same r s
  redirect_enabled-same (false, some c) r s =
      call_rule (SamePorts s) impl
        (change (redirect_port c.interface_name c.source_port c.destination_port) true)
        (λ _. remove_stored impl c.interface_name c.source_port >> add_redirection impl r) s
        (λ _.
          after_removal-same c.interface_name c.source_port _ (add_redirection impl r) (add-same r))
        (λ _ _. refl)

  pub request_redirection-SamePorts :
      (i : String) (p d : ℕ) (s : State W) → SamePorts s (request_redirection impl i p d s)
  unfolding request_redirection
  request_redirection-SamePorts i p d s =
      let r : PortRedirection = record {
        interface_name = i;
        source_port = p;
        destination_port = d;
      } in
      if_rule (SamePorts s) (p == 0) crash _ s (λ _. refl)
        λ _.
          if_rule (SamePorts s) s.config.enabled _ _ s
            (λ _. redirect_enabled-same (check s.config.port_redirections r) r s)
            λ _.
              if_rule (SamePorts s) (d == 0) _ _ s (λ _. remove_stored-same i p s)
                (λ _. redirect_disabled-same (check s.config.port_redirections r) r s)
