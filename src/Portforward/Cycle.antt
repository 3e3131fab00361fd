-- ===== src/Portforward/Cycle.antt =====
-- internal/portforward/service: the starting of the service, the changing of its ports and its end,
-- one after the other.
use mathlib.Core.List.{Permᴰ}
use mathlib.Core.List.Permᴰ.{trans}
use mathlib.Core.Path.{subst}
use gluetun.Prelude.{
  ℕ, ◌≡◌, ◌≢◌, refl, sym, ap, ◌∙◌, Bool, true, false, List, [], ◌∷◌, String, str_eq, eq_iff, All,
  if◌then◌else◌, arith, not,
}
use gluetun.Firewall.{Result, ok}
use gluetun.Portforward.{
  PortAllower, Outside, Settings, Service, Run, PortPairs, ◌>>◌, done, crash, keys, ports_equal,
  identity_pairs, cleanup, on_new_ports, start_given, start_service, stop_service, stop_ports,
  set_ports_forwarded,
}
use gluetun.Portforward.Allower.{IsPortAllower}
use gluetun.Portforward.Closed.{
  Succeeds, and_then-Succeeds, if-Succeeds, port_in, ClosesPorts, cleanup-Closes,
}
use gluetun.Portforward.Opened.{OpensPorts, on_new_ports-Opens}
use gluetun.Portforward.Pairs.{externals, Distinct, port_in-Permᴰ, All-Permᴰ, Distinct-Permᴰ}
use gluetun.Portforward.Pairs.Doubled.{
  externals-identity_pairs, keys-identity_pairs, ports_equal-same,
}

module _ {F S E : Type 0} (allower : PortAllower F E) (is_open : F → String → ℕ → Bool)
    (laws : IsPortAllower allower is_open) (outside : Outside S E) (settings : Settings) where
  abbrev Closed : Service F S → String → ℕ → Service F S → Type 0
  Closed s j q t =
      (t.ports ≡ []) × ClosesPorts allower is_open laws outside settings s.ports s.firewall j q t

  stop_ports-Closes :
      (ports : List ℕ) (s : Service F S) (j : String) (q : ℕ)
      → s.ports ≡ ports
      → All (λ p. p ≢ 0) s.ports
      → Succeeds (Closed s j q) (stop_ports allower outside settings ports s)
  unfolding stop_ports port_in
  stop_ports-Closes [] s j q e some_ports =
      λ _. (e, ap (λ ps. if port_in q ps then false else is_open s.firewall j q) (sym e))
  stop_ports-Closes (p ∷ ps) s j q e some_ports =
      if-Succeeds (Closed s j q) s.keeps (cleanup allower outside settings) crash s
        (λ _. cleanup-Closes allower is_open laws outside settings s j q some_ports)
        (λ _ k. absurd (ground (arith, k)))

  start-Opens :
      (sort : List ℕ → List ℕ) (pairs : PortPairs) (s : Service F S) (j : String) (q : ℕ)
      → ((ps : List ℕ) → Permᴰ ps (sort ps))
      → settings.enabled ≡ true
      → Distinct (externals pairs)
      → All (λ p. p ≢ 0) (keys pairs)
      → Succeeds
          (λ t.
            (t.ports ≡ sort (externals pairs))
            × OpensPorts allower is_open laws outside settings (keys pairs) s.firewall j q t)
          (start_service allower outside settings sort (ok pairs) s)
  unfolding start_service start_given
  start-Opens sort pairs s j q sorts on distinct some_ports =
      let P : Service F S → Type 0 = λ t.
        (t.ports ≡ sort (externals pairs))
        × OpensPorts allower is_open laws outside settings (keys pairs) s.firewall j q t in
      let keep : Run F S E = λ t. (ok tt, record t { keeps = true }) in
      if-Succeeds P (not settings.enabled) done
        (on_new_ports allower outside settings sort pairs >> keep) s
        (λ off. absurd (ground (arith, off, on)))
        λ _.
          and_then-Succeeds P (on_new_ports allower outside settings sort pairs s) keep λ success _.
            on_new_ports-Opens allower is_open laws outside settings sort pairs s j q sorts distinct
              some_ports success

  -- What a start and a stop leave of the firewall
  abbrev pub Cycled : PortPairs → F → String → ℕ → Service F S → Type 0
  Cycled pairs f j q t =
      (t.ports ≡ [])
      × (is_open t.firewall j q ≡ (
          if port_in q (externals pairs)
          then false
          else if port_in q (keys pairs)
          then (if str_eq settings.interface j then true else is_open f j q)
          else is_open f j q))

  -- With a port allower that keeps its contract and a sort that permutes, for an enabled
  -- service and a map with no port 0 whose external ports differ: when a start and then a
  -- stop return with no error, the service has no port, the external ports are closed, the
  -- internal ports that are no external ones are open on the interface of the settings, and
  -- all else is open or closed as before.
  pub start_stop-Cycled :
      (sort : List ℕ → List ℕ) (pairs : PortPairs) (s : Service F S) (j : String) (q : ℕ)
      → ((ps : List ℕ) → Permᴰ ps (sort ps))
      → settings.enabled ≡ true
      → Distinct (externals pairs)
      → All (λ p. p ≢ 0) (keys pairs)
      → All (λ p. p ≢ 0) (externals pairs)
      → Succeeds (Cycled pairs s.firewall j q) (
          (start_service allower outside settings sort (ok pairs)
              >> stop_service allower outside settings)
            s)
  unfolding stop_service
  start_stop-Cycled sort pairs s j q sorts on distinct some_internals some_externals =
      let started : Result E (Unit {0}) × Service F S =
        start_service allower outside settings sort (ok pairs) s in
      and_then-Succeeds (Cycled pairs s.firewall j q) started
        (stop_service allower outside settings)
        λ success stopped.
          let (ports, opens) =
            start-Opens sort pairs s j q sorts on distinct some_internals success in
          let some_ports : All (λ p. p ≢ 0) started.1.ports =
            subst (All (λ p. p ≢ 0)) (sym ports)
              (All-Permᴰ (sorts (externals pairs)) some_externals) in
          let (gone, closes) =
            stop_ports-Closes started.1.ports started.1 j q refl some_ports stopped in
          (
            gone,
            ground (
              arith,
              closes,
              opens,
              ap (port_in q) ports,
              port_in-Permᴰ q (sorts (externals pairs)),
            ),
          )

module _ {F S E : Type 0} (allower : PortAllower F E) (is_open : F → String → ℕ → Bool)
    (laws : IsPortAllower allower is_open) (outside : Outside S E) (settings : Settings)
    (sort : List ℕ → List ℕ) (sorts : (ps : List ℕ) → Permᴰ ps (sort ps)) where
  -- The VPN interface after a change of the ports
  abbrev pub Changed : List ℕ → Service F S → ℕ → Service F S → Type 0
  Changed ports s q t =
      Permᴰ ports t.ports
      × (is_open t.firewall settings.interface q ≡ (
          if port_in q ports
          then true
          else if port_in q s.ports
          then false
          else is_open s.firewall settings.interface q))

  -- With a port allower that keeps its contract and a sort that permutes, for different ports
  -- of which none is 0, on a service whose ports are open and not 0: when SetPortsForwarded
  -- returns with no error, the service holds a permutation of the new ports, and on the
  -- interface of the settings the new ports are open, the old ones that are not new closed,
  -- and the others as before.
  pub set_ports_forwarded-Changed :
      (ports : List ℕ) (s : Service F S) (q : ℕ)
      → Distinct ports
      → All (λ p. p ≢ 0) ports
      → All (λ p. p ≢ 0) s.ports
      → (port_in q s.ports ≡ true → is_open s.firewall settings.interface q ≡ true)
      → Succeeds (Changed ports s q) (set_ports_forwarded allower outside settings sort ports s)
  unfolding set_ports_forwarded
  set_ports_forwarded-Changed ports s q distinct some_ports some_old open_before =
      let interface : String = settings.interface in
      let P : Service F S → Type 0 = Changed ports s q in
      let new : List ℕ = sort ports in
      let order : Permᴰ ports new = sorts ports in
      let once : Distinct new = Distinct-Permᴰ order distinct in
      let cleaned : Result E (Unit {0}) × Service F S = cleanup allower outside settings s in
      let pairs : PortPairs = identity_pairs new [] in
      let ports_of : externals pairs ≡ new = externals-identity_pairs new once in
      let keys_of : keys pairs ≡ new = keys-identity_pairs new once in
      if-Succeeds P (ports_equal s.ports new) done
        (cleanup allower outside settings >> on_new_ports allower outside settings sort pairs) s
        (λ equal _.
          let same : s.ports ≡ new = ports_equal-same s.ports new equal in
          (
            subst (Permᴰ ports) (sym same) order,
            ground (arith, open_before, ap (port_in q) same, port_in-Permᴰ q order),
          ))
        (λ _.
          and_then-Succeeds P cleaned (on_new_ports allower outside settings sort pairs)
            λ cleared opened.
              let (gone, closes) =
                cleanup-Closes allower is_open laws outside settings s interface q some_old
                  cleared in
              let (now, opens) =
                on_new_ports-Opens allower is_open laws outside settings sort pairs cleaned.1
                  interface q sorts (subst Distinct (sym ports_of) once)
                  (subst (All (λ p. p ≢ 0)) (sym keys_of) (All-Permᴰ order some_ports)) opened in
              (
                trans order (subst (Permᴰ new) (sym (now ∙ ap sort ports_of)) (sorts new)),
                ground (
                  arith,
                  closes,
                  opens,
                  ap (port_in q) keys_of,
                  port_in-Permᴰ q order,
                  (eq_iff interface interface).1 refl,
                ),
              ))
