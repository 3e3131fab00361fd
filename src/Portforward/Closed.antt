-- ===== src/Portforward/Closed.antt =====
-- internal/portforward/service/stop.go: what the clearing of the ports does to the firewall.
use gluetun.Prelude.{
  ℕ, ◌==◌, ◌≡◌, ◌≢◌, refl, ◌∙◌, inl, inr, Bool, true, false, List, [], ◌∷◌, String, str_eq, All,
  if◌then◌else◌, arith, Bool-cases,
}
use gluetun.Firewall.{Result, ok, err, panic}
use gluetun.Portforward.{
  PortAllower, Outside, Settings, Service, Run, and_then, ◌>>◌, done, on_firewall, on_outside,
  assign_ports, user_redirection, run_command, run_if_set, close_ports, cleanup,
}
use gluetun.Portforward.Allower.{IsPortAllower}

-- A property of the service after a method that succeeds
abbrev pub Succeeds :
    {F S E : Type 0} → (Service F S → Type 0) → Result E (Unit {0}) × Service F S → Type 0
Succeeds P r = r.0 ≡ ok tt → P r.1

module _ {F S E : Type 0} (P : Service F S → Type 0) where
  pub and_then-Succeeds :
      (r : Result E (Unit {0}) × Service F S) (next : Run F S E)
      → (r.0 ≡ ok tt → Succeeds P (next r.1))
      → Succeeds P (and_then r next)
  and_then-Succeeds (ok u, s) next h = h refl
  and_then-Succeeds (err e, s) next h = λ k. absurd (ground (arith, k))
  and_then-Succeeds (panic, s) next h = λ k. absurd (ground (arith, k))

  pub if-Succeeds :
      (b : Bool) (m k : Run F S E) (s : Service F S)
      → (b ≡ true → Succeeds P (m s))
      → (b ≡ false → Succeeds P (k s))
      → Succeeds P ((if b then m else k) s)
  if-Succeeds true m k s x y = x refl
  if-Succeeds false m k s x y = y refl

unfoldable pub port_in : ℕ → List ℕ → Bool
port_in q [] = false
port_in q (p ∷ ps) = if p == q then true else port_in q ps

module _ {F S E : Type 0} (allower : PortAllower F E) (is_open : F → String → ℕ → Bool)
    (laws : IsPortAllower allower is_open) (outside : Outside S E) (settings : Settings) where
  -- run_if_set leaves all but what is outside.
  abbrev pub SameButOutside : Service F S → Service F S → Type 0
  SameButOutside s t = (t.firewall ≡ s.firewall) × (t.ports ≡ s.ports) × (t.keeps ≡ s.keeps)

  pub run_if_set-same :
      (command : String) (ports : List ℕ) (s : Service F S)
      → Succeeds (SameButOutside s) (run_if_set allower outside settings command ports s)
  unfolding run_if_set run_command
  run_if_set-same command [] s =
      if-Succeeds (SameButOutside s) (str_eq command "") done
        (run_command allower outside settings command []) s (λ _ _. (refl, refl, refl))
        (λ _ k. absurd (ground (arith, k)))
  run_if_set-same command (p ∷ ps) s =
      if-Succeeds (SameButOutside s) (str_eq command "") done
        (run_command allower outside settings command (p ∷ ps)) s (λ _ _. (refl, refl, refl))
        (λ _ _. (refl, refl, refl))

  -- `at` is the state before.
  abbrev pub ClosesPorts : List ℕ → F → String → ℕ → Service F S → Type 0
  ClosesPorts ps f j q t = is_open t.firewall j q ≡ (if port_in q ps then false else is_open f j q)

  close_ports-Closes :
      (ps : List ℕ) (s : Service F S) (j : String) (q : ℕ)
      → All (λ p. p ≢ 0) ps
      → Succeeds (ClosesPorts ps s.firewall j q) (close_ports allower outside settings ps s)
  unfolding close_ports port_in
  close_ports-Closes [] s j q some_ports = λ _. refl
  close_ports-Closes (p ∷ ps) s j q (some_port, some_ports) =
      let P : Service F S → Type 0 = ClosesPorts (p ∷ ps) s.firewall j q in
      let removed : Service F S = (on_firewall (allower.remove_allowed_port p) s).1 in
      let clear : Run F S E = on_firewall (allower.redirect_port settings.interface p 0) in
      let after : (t : Service F S)
          → is_open t.firewall j q ≡ (if p == q then false else is_open s.firewall j q)
          → Succeeds P (close_ports allower outside settings ps t) =
        λ t e success. ground (arith, close_ports-Closes ps t j q some_ports success, e) in
      and_then-Succeeds P (on_firewall (allower.remove_allowed_port p) s)
        ((if user_redirection settings then clear else done)
          >> close_ports allower outside settings ps)
        λ success.
          let closed : is_open removed.firewall j q
              ≡ (if p == q then false else is_open s.firewall j q) =
            laws.closed p s.firewall j q some_port success in
          elim (Bool-cases (user_redirection settings)) [
            | inl e ↦ rw e (
                and_then-Succeeds P (clear removed) (close_ports allower outside settings ps) λ _.
                  after (clear removed).1
                    (laws.redirected settings.interface p 0 removed.firewall j q ∙ closed))
            | inr e ↦ rw e (after removed closed)
          ]

  -- With a port allower that keeps its contract, and ports of which none is 0, a cleanup that
  -- returns with no error leaves the service with no port, each of its ports closed on every
  -- interface, and every other port as it was.
  pub cleanup-Closes :
      (s : Service F S) (j : String) (q : ℕ)
      → All (λ p. p ≢ 0) s.ports
      → Succeeds
          (λ t. (t.ports ≡ []) × ClosesPorts s.ports s.firewall j q t)
          (cleanup allower outside settings s)
  unfolding cleanup
  cleanup-Closes s j q some_ports =
      let P : Service F S → Type 0 = λ t. (t.ports ≡ []) × ClosesPorts s.ports s.firewall j q t in
      let told : Result E (Unit {0}) × Service F S =
        run_if_set allower outside settings settings.down_command s.ports s in
      let clear : Run F S E = assign_ports [] >> on_outside (outside.write_file []) in
      and_then-Succeeds P told (close_ports allower outside settings s.ports >> clear) λ success.
        let same : told.1.firewall ≡ s.firewall =
          (run_if_set-same settings.down_command s.ports s success).0 in
        and_then-Succeeds P (close_ports allower outside settings s.ports told.1) clear λ closed _.
          (refl, ground (arith, close_ports-Closes s.ports told.1 j q some_ports closed, same))
