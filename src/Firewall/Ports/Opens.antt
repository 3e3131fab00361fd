-- ===== src/Firewall/Ports/Opens.antt =====
-- internal/firewall/ports.go: which ports the map allows after a method that succeeds.
use gluetun.Prelude.{
  ℕ, ◌==◌, ◌≡◌, ◌≢◌, refl, sym, ◌∙◌, inl, inr, not, Bool, true, false, Option, none, some, List, [],
  ◌∷◌, String, str_eq, eq_iff, if◌then◌else◌, arith, Bool-cases,
}
use gluetun.Firewall.{
  FirewallImpl, State, Result, ok, done, update, ◌>>◌, change, accept_input_to_port,
}
use gluetun.Firewall.Rules.{if_rule, call_rule, bind_rule}
use gluetun.Firewall.Ports.{
  has_interface, interfaces_of, interfaces_or_empty, allow_interface, forget_interface, delete_port,
  set_allowed_port, remove_interfaces, remove_port_entry, remove_allowed_port,
}
use gluetun.Firewall.Ports.Allows.{
  allows, allows_lem, allows-allow_interface, allows-forget_interface, allows-delete_port,
}

abbrev pub is_open : {W : Type 0} → State W → String → ℕ → Bool
is_open s j q = allows s.config.allowed_input_ports j q

module _ {W E : Type 0} (impl : FirewallImpl W E) where
  abbrev pub Opens : ℕ → String → State W → String → ℕ → Result E (Unit {0}) × State W → Type 0
  Opens p i s j q r =
      r.0 ≡ ok tt
      → is_open r.1 j q
        ≡ (if p == q then (if str_eq i j then true else is_open s j q) else is_open s j q)

  pub set_allowed_port-Opens :
      (p : ℕ) (i : String) (s : State W) (j : String) (q : ℕ)
      → p ≢ 0
      → Opens p i s j q (set_allowed_port impl p i s)
  unfolding set_allowed_port
  set_allowed_port-Opens p i s j q some_port =
      let ports = s.config.allowed_input_ports in
      if_rule (Opens p i s j q) (p == 0) done _ s (λ e. absurd (some_port (ground (arith, e))))
        λ _.
          if_rule (Opens p i s j q) (not s.config.enabled) _ _ s
            (λ _ _. allows-allow_interface p q i j ports)
            λ _.
              if_rule (Opens p i s j q)
                (has_interface i (interfaces_or_empty (interfaces_of p ports))) done _ s
                (λ known _. ground (arith, known, allows_lem ports i p, eq_iff i j))
                λ _.
                  call_rule (Opens p i s j q) impl (change (accept_input_to_port i p) false)
                    (λ _. update λ d. record d { allowed_input_ports = allow_interface p i ports })
                    s (λ _ _. allows-allow_interface p q i j ports)
                    (λ e _ h. absurd (ground (arith, h)))

  -- What the removal of the interfaces of a port leaves for another one.
  remove_interfaces-other :
      (is : List String) (p : ℕ) (s : State W) (j : String) (q : ℕ)
      → (p == q) ≡ false
      → is_open (remove_interfaces impl p is s).1 j q ≡ is_open s j q
  unfolding remove_interfaces
  remove_interfaces-other [] p s j q h = refl
  remove_interfaces-other (i ∷ is) p s j q h =
      let ports = s.config.allowed_input_ports in
      let world = (impl.call (change (accept_input_to_port i p) true) s.world).0 in
      call_rule (λ r. is_open r.1 j q ≡ is_open s j q) impl (change (accept_input_to_port i p) true)
        (λ _.
          update
            (λ c. record c { allowed_input_ports = forget_interface p i c.allowed_input_ports })
          >> remove_interfaces impl p is)
        s
        (λ _.
          remove_interfaces-other is p
            (record {
              config = record s.config { allowed_input_ports = forget_interface p i ports };
              world = world;
            })
            j q h
          ∙ ground (arith, h, allows-forget_interface p q i j ports))
        (λ _ _. refl)

  abbrev pub Closes : ℕ → State W → String → ℕ → Result E (Unit {0}) × State W → Type 0
  Closes p s j q r = r.0 ≡ ok tt → is_open r.1 j q ≡ (if p == q then false else is_open s j q)

  remove_port_entry-Closes :
      (is : Option (List String)) (p : ℕ) (s : State W) (j : String) (q : ℕ)
      → interfaces_of p s.config.allowed_input_ports ≡ is
      → Closes p s j q (remove_port_entry impl p is s)
  unfolding remove_port_entry interfaces_or_empty has_interface
  remove_port_entry-Closes none p s j q e = λ _. elim (Bool-cases (p == q)) [
    | inl same ↦
        let p_q : p ≡ q = ground (arith, same) in
        rw same (rw (allows_lem s.config.allowed_input_ports j q, sym p_q, e) refl)
    | inr other ↦ rw other refl
  ]
  remove_port_entry-Closes (some is) p s j q e =
      bind_rule (Closes p s j q) (remove_interfaces impl p is)
        (λ _. update (λ c. record c { allowed_input_ports = delete_port p c.allowed_input_ports }))
        s
        (λ _ _ _. ground (
          arith,
          allows-delete_port p q j (remove_interfaces impl p is s).1.config.allowed_input_ports,
          remove_interfaces-other is p s j q,
        ))
        (λ _ _ h. absurd (ground (arith, h))) (λ _ h. absurd (ground (arith, h)))

  pub remove_allowed_port-Closes :
      (p : ℕ) (s : State W) (j : String) (q : ℕ)
      → p ≢ 0
      → Closes p s j q (remove_allowed_port impl p s)
  unfolding remove_allowed_port
  remove_allowed_port-Closes p s j q some_port =
      if_rule (Closes p s j q) (p == 0) done _ s (λ e. absurd (some_port (ground (arith, e))))
        λ _.
          if_rule (Closes p s j q) (not s.config.enabled) _ _ s
            (λ _ _. allows-delete_port p q j s.config.allowed_input_ports)
            λ _.
              remove_port_entry-Closes (interfaces_of p s.config.allowed_input_ports) p s j q refl
