-- ===== src/Portforward/Opened.antt =====
-- internal/portforward/service/start.go: what new ports do to the firewall and to the service.
use mathlib.Core.List.{Permᴰ}
use gluetun.Prelude.{
  ℕ, ◌+◌, ◌≡◌, ◌≢◌, refl, sym, ap, ◌∙◌, inl, inr, Bool, true, List, [], ◌∷◌, map, length, String,
  str_eq, All, get_elem?, if◌then◌else◌, arith, Option-cases,
}
use gluetun.Firewall.{Result, ok, err, panic}
use gluetun.Portforward.{
  PortAllower, Outside, Settings, Service, Run, PortPairs, ◌>>◌, done, on_firewall, on_outside,
  assign_ports, after_write, user_redirection, internal_of, turned, redirection_needed, keys,
  copied, run_if_set, cleanup, redirect_at, open_ports, on_new_ports,
}
use gluetun.Portforward.Allower.{IsPortAllower}
use gluetun.Portforward.Closed.{Succeeds, and_then-Succeeds, if-Succeeds, port_in, run_if_set-same}
use gluetun.Portforward.Pairs.{
  externals, Distinct, port_in-Permᴰ, internals-Permᴰ, copied-sort, All-Permᴰ,
}

module _ {F S E : Type 0} (allower : PortAllower F E) (is_open : F → String → ℕ → Bool)
    (laws : IsPortAllower allower is_open) (outside : Outside S E) (settings : Settings) where
  abbrev pub OpensPorts : List ℕ → F → String → ℕ → Service F S → Type 0
  OpensPorts ps f j q t = is_open t.firewall j q ≡ (
      if port_in q ps
      then (if str_eq settings.interface j then true else is_open f j q)
      else is_open f j q)

  redirect_at-same :
      (needed : Bool) (index internal external : ℕ) (s : Service F S) (j : String) (q : ℕ)
      → Succeeds
          (λ t. is_open t.firewall j q ≡ is_open s.firewall j q)
          (redirect_at allower outside settings needed index internal external s)
  unfolding redirect_at
  redirect_at-same needed index internal external s j q =
      let P : Service F S → Type 0 = λ t. is_open t.firewall j q ≡ is_open s.firewall j q in
      let to : ℕ → Run F S E =
        λ d. on_firewall (allower.redirect_port settings.interface internal d) in
      let same : (d : ℕ) → Succeeds P (to d s) =
        λ d _. laws.redirected settings.interface internal d s.firewall j q in
      if-Succeeds P (user_redirection settings) _ (if needed then to external else done) s
        (λ _. elim (Option-cases (get_elem? settings.listening_ports index)) [
          | inl e ↦ rw e (λ k. absurd (ground (arith, k)))
          | inr (d, e) ↦ rw e (same d)
        ])
        (λ _. if-Succeeds P needed (to external) done s (λ _. same external) (λ _ _. refl))

  open_ports-Opens :
      (needed : Bool) (pairs : PortPairs) (index : ℕ) (es : List ℕ) (s : Service F S) (j : String)
      (q : ℕ)
      → All (λ p. p ≢ 0) (map (λ e. internal_of e pairs) es)
      → Succeeds
          (OpensPorts (map (λ e. internal_of e pairs) es) s.firewall j q)
          (open_ports allower outside settings needed pairs index es s)
  unfolding open_ports port_in
  open_ports-Opens needed pairs index [] s j q some_ports = λ _. refl
  open_ports-Opens needed pairs index (e ∷ es) s j q (some_port, some_ports) =
      let p : ℕ = internal_of e pairs in
      let P : Service F S → Type 0 =
        OpensPorts (map (λ x. internal_of x pairs) (e ∷ es)) s.firewall j q in
      let rest : Run F S E = open_ports allower outside settings needed pairs (index + 1) es in
      let opened : Service F S =
        (on_firewall (allower.set_allowed_port p settings.interface) s).1 in
      let redirect : Run F S E = redirect_at allower outside settings needed index p e in
      and_then-Succeeds P (on_firewall (allower.set_allowed_port p settings.interface) s)
        (redirect >> rest)
        λ success. and_then-Succeeds P (redirect opened) rest λ redirected finished. ground (
          arith,
          open_ports-Opens needed pairs (index + 1) es (redirect opened).1 j q some_ports finished,
          redirect_at-same needed index p e opened j q redirected,
          laws.opened p settings.interface s.firewall j q some_port success,
        )

  -- Where the port file is written, nothing is cleaned up.
  cleaned_up-fails :
      (e : E) (r : Result E (Unit {0})) (t : Service F S) (P : Service F S → Type 0)
      → Succeeds {E = E} P (elim r [ ok _ ↦ (err e, t) | err _ ↦ (err e, t) | panic ↦ (panic, t) ])
  cleaned_up-fails e (ok u) t P = λ k. absurd (ground (arith, k))
  cleaned_up-fails e (err f) t P = λ k. absurd (ground (arith, k))
  cleaned_up-fails e panic t P = λ k. absurd (ground (arith, k))

  after_write-same :
      (r : Result E (Unit {0})) (s : Service F S)
      → Succeeds (λ t. t ≡ s) (after_write allower outside settings (r, s))
  after_write-same (ok u) s = λ _. refl
  after_write-same (err e) s =
      let (r, t) = cleanup allower outside settings s in cleaned_up-fails e r t (λ t. t ≡ s)
  after_write-same panic s = λ k. absurd (ground (arith, k))

  -- What new ports leave, by the map turned round
  NewPorts : PortPairs → List ℕ → ℕ → F → String → ℕ → Service F S → Type 0
  NewPorts internals es n f j q t =
      (t.ports ≡ copied n es) × OpensPorts (map (λ e. internal_of e internals) es) f j q t

  on_new_ports-NewPorts :
      (sort : List ℕ → List ℕ) (pairs : PortPairs) (s : Service F S) (j : String) (q : ℕ)
      → All
          (λ p. p ≢ 0)
          (map (λ e. internal_of e (turned pairs [])) (sort (keys (turned pairs []))))
      → Succeeds
          (NewPorts (turned pairs []) (sort (keys (turned pairs []))) (length pairs) s.firewall j q)
          (on_new_ports allower outside settings sort pairs s)
  unfolding on_new_ports NewPorts
  on_new_ports-NewPorts sort pairs s j q some_ports =
      let internals : PortPairs = turned pairs [] in
      let es : List ℕ = sort (keys internals) in
      let P : Service F S → Type 0 = NewPorts internals es (length pairs) s.firewall j q in
      let opening : Result E (Unit {0}) × Service F S =
        open_ports allower outside settings (redirection_needed pairs) internals 0 es s in
      let write : Run F S E = on_outside (outside.write_file es) in
      let tell : Run F S E = run_if_set allower outside settings settings.up_command es in
      let store : Run F S E = assign_ports (copied (length pairs) es) >> tell in
      and_then-Succeeds P opening ((λ t. after_write allower outside settings (write t)) >> store)
        λ opened.
          let written : Result E (Unit {0}) × Service F S = write opening.1 in
          let kept : Result E (Unit {0}) × Service F S =
            after_write allower outside settings written in
          and_then-Succeeds P kept store λ wrote told.
            let stored : Service F S = record kept.1 { ports = copied (length pairs) es } in
            let (firewall, ports, keeps) =
              run_if_set-same allower is_open laws outside settings settings.up_command es stored
                told in
            (
              ports,
              ap (λ f. is_open f j q)
                    (firewall
                      ∙ ap (λ (t : Service F S). t.firewall)
                          (after_write-same written.0 written.1 wrote))
                  ∙ open_ports-Opens (redirection_needed pairs) internals 0 es s j q some_ports
                      opened,
            )

  -- With a port allower that keeps its contract and a sort that permutes, for a map whose
  -- external ports differ and whose internal ports are not 0: when the handling of new ports
  -- returns with no error, the service holds the external ports in the order of the sort, the
  -- internal ports are open on the interface of the settings, and nothing else has changed of
  -- what is open.
  pub on_new_ports-Opens :
      (sort : List ℕ → List ℕ) (pairs : PortPairs) (s : Service F S) (j : String) (q : ℕ)
      → ((ps : List ℕ) → Permᴰ ps (sort ps))
      → Distinct (externals pairs)
      → All (λ p. p ≢ 0) (keys pairs)
      → Succeeds
          (λ t. (t.ports ≡ sort (externals pairs)) × OpensPorts (keys pairs) s.firewall j q t)
          (on_new_ports allower outside settings sort pairs s)
  unfolding NewPorts
  on_new_ports-Opens sort pairs s j q sorts distinct some_ports success =
      let internals : List ℕ =
        map (λ e. internal_of e (turned pairs [])) (sort (keys (turned pairs []))) in
      let order : Permᴰ (keys pairs) internals = internals-Permᴰ sort sorts pairs distinct in
      let (ports, opens) : NewPorts (turned pairs []) (sort (keys (turned pairs []))) (length pairs)
          s.firewall j q (on_new_ports allower outside settings sort pairs s).1 =
        on_new_ports-NewPorts sort pairs s j q (All-Permᴰ order some_ports) success in
      (
        ports ∙ copied-sort sort sorts pairs distinct,
        opens
            ∙ ap
                (λ b.
                  if b
                  then (if str_eq settings.interface j then true else is_open s.firewall j q)
                  else is_open s.firewall j q)
                (sym (port_in-Permᴰ q order)),
      )
