-- ===== src/Firewall/Ports/Synced.antt =====
-- internal/firewall/ports.go against the calls of AcceptInputToPort that it makes.
use gluetun.Prelude.{
  ℕ, suc, ◌+◌, ◌==◌, ◌≡◌, refl, ◌&&◌, not, Bool, true, false, Option, none, some, List, [], ◌∷◌,
  String, str_eq, eq_iff, if◌then◌else◌, arith,
}
use gluetun.Firewall.{
  FirewallImpl, State, Result, Call, Saved, saved, save_failed, Rule, ok, ◌>>◌, done, update,
  change, accept_input_to_port,
}
use gluetun.Firewall.Rules.{if_rule, call_rule, bind_rule}
use gluetun.Firewall.Ports.{
  has_interface, PortMap, interfaces_of, delete_port, interfaces_or_empty, allow_interface,
  forget_interface, set_allowed_port, remove_interfaces, remove_port_entry, remove_allowed_port,
}
use gluetun.Firewall.Ports.Allows.{
  allows, allows_lem, allows-allow_interface, allows-forget_interface, allows-delete_port,
  NoRepeats, IsPortMap, allow_interface-IsPortMap, forget_interface-IsPortMap,
  delete_port-IsPortMap,
}

-- How often AcceptInputToPort has appended and has deleted with no error, for each interface and
-- port.
pub record Ledger : Type 0 where
  pub appended : String → ℕ → ℕ
  pub deleted : String → ℕ → ℕ

abbrev one_more : String → ℕ → (String → ℕ → ℕ) → String → ℕ → ℕ
one_more intf port count j q = if port == q && str_eq intf j then suc (count j q) else count j q

abbrev noted_rule : Rule → Bool → Ledger → Ledger
noted_rule (accept_input_to_port i p) false l = record l { appended = one_more i p l.appended }
noted_rule (accept_input_to_port i p) true l = record l { deleted = one_more i p l.deleted }
noted_rule rule remove l = l

abbrev noted : {E : Type 0} → Option E → Call → Ledger → Ledger
noted none (change rule remove) l = noted_rule rule remove l
noted none call l = l
noted (some e) call l = l

abbrev recorded_save : {W E : Type 0} → Saved W E → Ledger → Saved (W × Ledger) E
recorded_save (saved restore) l = saved (λ (w, now). (restore w, l))
recorded_save (save_failed e) l = save_failed e

-- Any implementation, with a ledger of its calls beside the system; what it restores is also the
-- ledger.
abbrev pub recorded : {W E : Type 0} → FirewallImpl W E → FirewallImpl (W × Ledger) E
recorded impl = record {
  save_and_restore =
      λ (w, l). (((impl.save_and_restore w).0, l), recorded_save (impl.save_and_restore w).1 l);
  call = λ c (w, l). (((impl.call c w).0, noted (impl.call c w).1 c l), (impl.call c w).1);
}

-- What was appended and not deleted since is once what the map allows, and nothing else.
abbrev pub PortsMatch : Ledger → PortMap → Type 0
PortsMatch l ports =
    (j : String) (q : ℕ) → l.appended j q ≡ l.deleted j q + (if allows ports j q then 1 else 0)

append-PortsMatch :
    (l : Ledger) (p : ℕ) (i : String) (ports : PortMap)
    → PortsMatch l ports
    → allows ports i p ≡ false
    → PortsMatch (noted_rule (accept_input_to_port i p) false l) (allow_interface p i ports)
append-PortsMatch l p i ports m new j q =
    ground (arith, m j q, new, allows-allow_interface p q i j ports, eq_iff i j)

delete-PortsMatch :
    (l : Ledger) (p : ℕ) (i : String) (ports : PortMap)
    → PortsMatch l ports
    → allows ports i p ≡ true
    → PortsMatch (noted_rule (accept_input_to_port i p) true l) (forget_interface p i ports)
delete-PortsMatch l p i ports m old j q =
    ground (arith, m j q, old, allows-forget_interface p q i j ports, eq_iff i j)

module _ {W E : Type 0} (impl : FirewallImpl W E) where
  -- The calls that were made agree with the map, whose lists stand for sets.
  abbrev pub Synced : State (W × Ledger) → Type 0
  Synced s =
      PortsMatch s.world.1 s.config.allowed_input_ports × IsPortMap s.config.allowed_input_ports

  -- With any implementation, SetAllowedPort on an enabled firewall keeps the accept rules that
  -- were appended and not deleted since in step with the map of allowed input ports, one for each
  -- interface of a port, whether it succeeds or fails.
  pub set_allowed_port-Synced :
      (port : ℕ) (intf : String) (s : State (W × Ledger))
      → s.config.enabled ≡ true
      → Synced s
      → Synced (set_allowed_port (recorded impl) port intf s).1
  unfolding set_allowed_port
  set_allowed_port-Synced port intf s on (m, sets) =
      let P = λ (r : Result E (Unit {0}) × State (W × Ledger)). Synced r.1 in
      let ports = s.config.allowed_input_ports in
      if_rule P (port == 0) done _ s (λ _. (m, sets))
        λ _.
          if_rule P (not s.config.enabled) _ _ s (λ off. absurd (ground (arith, off, on)))
            λ _.
              if_rule P (has_interface intf (interfaces_or_empty (interfaces_of port ports))) done _
                s (λ _. (m, sets))
                λ new.
                  call_rule P (recorded impl) (change (accept_input_to_port intf port) false)
                    (λ _.
                      update
                        (λ d. record d { allowed_input_ports = allow_interface port intf ports }))
                    s
                    (λ e. rw e (
                      append-PortsMatch s.world.1 port intf ports m
                          (ground (arith, allows_lem ports intf port, new)),
                      allow_interface-IsPortMap port intf ports sets,
                    ))
                    λ x e. rw e (m, sets)

  -- The map allows for the port the interfaces of the list.
  abbrev Covers : List String → ℕ → PortMap → Type 0
  Covers is port ports = (j : String) → allows ports j port ≡ has_interface j is

  forget-Covers :
      (i : String) (is : List String) (port : ℕ) (ports : PortMap)
      → has_interface i is ≡ false
      → Covers (i ∷ is) port ports
      → Covers is port (forget_interface port i ports)
  unfolding has_interface
  forget-Covers i is port ports once c j =
      ground (arith, c j, once, allows-forget_interface port port i j ports, eq_iff i j)

  first-Covers :
      (i : String) (is : List String) (port : ℕ) (ports : PortMap)
      → Covers (i ∷ is) port ports
      → allows ports i port ≡ true
  unfolding has_interface
  first-Covers i is port ports c = ground (arith, c i, eq_iff i i)

  -- The loop keeps the calls in step, and once it has ended with no error, the port has no
  -- interface left.
  remove_interfaces-Synced :
      (is : List String) (port : ℕ) (s : State (W × Ledger))
      → NoRepeats is
      → Covers is port s.config.allowed_input_ports
      → Synced s
      → Synced (remove_interfaces (recorded impl) port is s).1
        × ((remove_interfaces (recorded impl) port is s).0 ≡ ok tt
            → (j : String)
            → allows
                (remove_interfaces (recorded impl) port is s).1.config.allowed_input_ports
                j
                port
              ≡ false)
  unfolding remove_interfaces
  remove_interfaces-Synced [] port s n c m = (m, λ e j. unfold has_interface in c j)
  remove_interfaces-Synced (i ∷ is) port s (once, n) c (m, sets) =
      let ports = s.config.allowed_input_ports in
      call_rule
        (λ (r : Result E (Unit {0}) × State (W × Ledger)).
          Synced r.1
          × (r.0 ≡ ok tt → (j : String) → allows r.1.config.allowed_input_ports j port ≡ false))
        (recorded impl) (change (accept_input_to_port i port) true)
        (λ _.
          update
            (λ c. record c { allowed_input_ports = forget_interface port i c.allowed_input_ports })
          >> remove_interfaces (recorded impl) port is)
        s
        (λ e.
          remove_interfaces-Synced is port
            (record {
              config = record s.config { allowed_input_ports = forget_interface port i ports };
              world = (
                (impl.call (change (accept_input_to_port i port) true) s.world.0).0,
                noted (impl.call (change (accept_input_to_port i port) true) s.world.0).1
                    (change (accept_input_to_port i port) true) s.world.1,
              );
            })
            n (forget-Covers i is port ports once c)
            (rw e (
              delete-PortsMatch s.world.1 port i ports m (first-Covers i is port ports c),
              forget_interface-IsPortMap port i ports sets,
            )))
        (λ x e. ((rw e m, sets), (λ h. absurd (ground (arith, h)))))

  delete_port-Synced :
      (port : ℕ) (s : State (W × Ledger))
      → Synced s
      → ((j : String) → allows s.config.allowed_input_ports j port ≡ false)
      → PortsMatch s.world.1 (delete_port port s.config.allowed_input_ports)
        × IsPortMap (delete_port port s.config.allowed_input_ports)
  delete_port-Synced port s (m, sets) none_left = (
    (λ j q.
        ground
          (arith, m j q, none_left j, allows-delete_port port q j s.config.allowed_input_ports)),
    delete_port-IsPortMap port s.config.allowed_input_ports sets,
  )

  remove_port_entry-Synced :
      (is : Option (List String)) (port : ℕ) (s : State (W × Ledger))
      → interfaces_of port s.config.allowed_input_ports ≡ is
      → Synced s
      → Synced (remove_port_entry (recorded impl) port is s).1
  unfolding remove_port_entry
  remove_port_entry-Synced none port s e m = m
  remove_port_entry-Synced (some is) port s e (m, sets) =
      let ports = s.config.allowed_input_ports in
      let once : NoRepeats is = unfold interfaces_or_empty in rw e at (sets port) in
      let covers : Covers is port ports =
        unfold interfaces_or_empty in λ j. rw (allows_lem ports j port, e) refl in
      let looped = remove_interfaces-Synced is port s once covers (m, sets) in
      bind_rule (λ (r : Result E (Unit {0}) × State (W × Ledger)). Synced r.1)
        (remove_interfaces (recorded impl) port is)
        (λ _.
          update (λ c. record c { allowed_input_ports = delete_port port c.allowed_input_ports }))
        s
        (λ _ e'.
          delete_port-Synced port (remove_interfaces (recorded impl) port is s).1 looped.0
            (looped.1 e'))
        (λ _ _. looped.0) (λ _. looped.0)

  -- With any implementation, RemoveAllowedPort on an enabled firewall keeps the accept rules that
  -- were appended and not deleted since in step with the map of allowed input ports, one for each
  -- interface of a port, also when it fails after having removed the rules of some of the
  -- interfaces.
  pub remove_allowed_port-Synced :
      (port : ℕ) (s : State (W × Ledger))
      → s.config.enabled ≡ true
      → Synced s
      → Synced (remove_allowed_port (recorded impl) port s).1
  unfolding remove_allowed_port
  remove_allowed_port-Synced port s on m =
      let P = λ (r : Result E (Unit {0}) × State (W × Ledger)). Synced r.1 in
      if_rule P (port == 0) done _ s (λ _. m)
        λ _.
          if_rule P (not s.config.enabled) _ _ s (λ off. absurd (ground (arith, off, on)))
            λ _.
              remove_port_entry-Synced (interfaces_of port s.config.allowed_input_ports) port s refl
                m
