-- ===== src/Healthcheck/Fallback.antt =====
-- internal/healthcheck/checker.go: once ICMP is known not to be permitted, the small checks are DNS.
use mathlib.Core.Path.{subst}
use gluetun.Prelude.{
  ℕ, ◌+◌, ◌%◌, ◌≡◌, refl, sym, ap, ◌∙◌, Bool, true, false, Option, none, some, List, [], ◌∷◌, ◌++◌,
  String, str_eq, eq_iff, if◌then◌else◌, arith, Bool-cases, inl, inr, length, get_elem?,
}
use gluetun.Healthcheck.{
  Checker, Probes, Checked, passed, failed, check_panic, Retried, context_error, retry_panic,
  has_small_check_name, small_check_dns, run_dns, after_echo, echo_failed, echo_target, small_check,
  small_periodic_check, after_try, with_retries, small_timeouts, Started, running, start_error,
  start_panic, restored, start_with, start, startup_check, is_true,
}

-- What is known of the permission forces the type of the small check.
abbrev pub IsForced : Checker → Type 0
IsForced c = c.icmp_not_permitted ≡ some true → c.small_check_type ≡ small_check_dns

module _ {S E : Type 0} (cancelled : S → Bool) (check : ℕ → ℕ → S → Checked E × S)
    (P : S → Type 0) where
  after_try-keeps :
      (r : Checked E) (s : S) (again : E → S → Retried E × S)
      → P s
      → ((e : E) → P (again e s).1)
      → P (after_try cancelled check (r, s) again).1
  after_try-keeps passed s again p h = p
  after_try-keeps check_panic s again p h = p
  after_try-keeps (failed e) s again p h = elim (Bool-cases (cancelled s)) [
    | inl off ↦ rw off p
    | inr on ↦ rw on (h e)
  ]

  with_retries-keeps :
      ((timeout try : ℕ) (s : S) → P s → P (check timeout try s).1)
      → (try : ℕ) (timeouts : List ℕ) (errs : List E) (s : S) → P s
      → P (with_retries cancelled check try timeouts errs s).1
  unfolding with_retries
  with_retries-keeps keeps try [] errs s p = p
  with_retries-keeps keeps try (t ∷ timeouts) errs s p =
      let (r, after) = check t try s in
      after_try-keeps r after _ (keeps t try s p)
        λ e. with_retries-keeps keeps (try + 1) timeouts (errs ++ (e ∷ [])) after (keeps t try s p)

module _ {W E : Type 0} (probes : Probes W E) where
  echo_failed-IsForced :
      (timeout : ℕ) (e : E) (s : Checker × W) (known : Option Bool)
      → IsForced s.0
      → IsForced (echo_failed probes timeout e s known).1.0
  unfolding echo_failed
  echo_failed-IsForced timeout e s (some known) forced = forced
  echo_failed-IsForced timeout e (c, w) none forced =
      elim (Bool-cases (probes.is_not_permitted e)) [
        | inl denied ↦ rw denied (λ _. refl)
        | inr other ↦ rw other forced
      ]

  after_echo-IsForced :
      (timeout : ℕ) (r : Option E × W) (c : Checker)
      → IsForced c
      → IsForced (after_echo probes timeout r c).1.0
  unfolding after_echo
  after_echo-IsForced timeout (none, w) c forced = forced
  after_echo-IsForced timeout (some e, w) c forced =
      echo_failed-IsForced timeout e (c, w) c.icmp_not_permitted forced

  echo_target-IsForced :
      (timeout : ℕ) (target : Option String) (s : Checker × W)
      → IsForced s.0
      → IsForced (echo_target probes timeout target s).1.0
  echo_target-IsForced timeout none s forced = forced
  echo_target-IsForced timeout (some ip) (c, w) forced =
      after_echo-IsForced timeout (probes.echo timeout ip w) c forced

  small_check-IsForced :
      (ips : List String) (timeout try : ℕ) (s : Checker × W)
      → IsForced s.0
      → IsForced (small_check probes ips timeout try s).1.0
  unfolding small_check
  small_check-IsForced ips timeout try (c, w) forced =
      elim (Bool-cases (str_eq c.small_check_type small_check_dns)) [
        | inl dns ↦ rw dns forced
        | inr icmp ↦
            rw icmp (echo_target-IsForced timeout (get_elem? ips (try % length ips)) (c, w) forced)
      ]

  -- A small check leaves the type of the small check forced to DNS where ICMP is not
  -- permitted.
  pub small_periodic_check-IsForced :
      (s : Checker × W) → IsForced s.0 → IsForced (small_periodic_check probes s).1.0
  unfolding small_periodic_check
  small_periodic_check-IsForced (c, w) forced =
      let checked =
        with_retries-keeps (λ s. probes.cancelled s.1) (small_check probes c.icmp_target_ips)
          (λ s. IsForced s.0) (small_check-IsForced c.icmp_target_ips) 0 small_timeouts [] (c, w)
          forced in
      elim (Bool-cases (has_small_check_name c.small_check_type)) [
        | inl known ↦ rw known checked
        | inr unknown ↦ rw unknown forced
      ]

module _ {S E : Type 0} (cancelled : S → Bool) (check other : ℕ → ℕ → S → Checked E × S)
    (P : S → Type 0) where
  after_try-agrees :
      (r : Checked E) (s : S) (again also : E → S → Retried E × S)
      → ((e : E) → again e s ≡ also e s)
      → after_try cancelled check (r, s) again ≡ after_try cancelled other (r, s) also
  after_try-agrees passed s again also h = refl
  after_try-agrees check_panic s again also h = refl
  after_try-agrees (failed e) s again also h =
      ap (λ x. if cancelled s then (context_error, s) else x) (h e)

  with_retries-agrees :
      ((timeout try : ℕ) (s : S) → P s → P (check timeout try s).1)
      → ((timeout try : ℕ) (s : S) → P s → check timeout try s ≡ other timeout try s)
      → (try : ℕ) (timeouts : List ℕ) (errs : List E) (s : S) → P s
      → with_retries cancelled check try timeouts errs s
        ≡ with_retries cancelled other try timeouts errs s
  unfolding with_retries
  with_retries-agrees keeps agrees try [] errs s p = refl
  with_retries-agrees keeps agrees try (t ∷ timeouts) errs s p =
      let (r, after) = check t try s in
      after_try-agrees r after _ _ (λ e.
        with_retries-agrees keeps agrees (try + 1) timeouts (errs ++ (e ∷ [])) after
          (keeps t try s p))
      ∙ ap
          (λ x.
            after_try cancelled other x
              λ e after. with_retries cancelled other (try + 1) timeouts (errs ++ (e ∷ [])) after)
          (agrees t try s p)

module _ {W E : Type 0} (probes : Probes W E) where
  abbrev Dns : Checker × W → Type 0
  Dns s = s.0.small_check_type ≡ small_check_dns

  small_check-run_dns :
      (ips : List String) (timeout try : ℕ) (s : Checker × W)
      → Dns s
      → small_check probes ips timeout try s ≡ run_dns probes timeout s
  unfolding small_check
  small_check-run_dns ips timeout try (c, w) dns =
      rw ((eq_iff c.small_check_type small_check_dns).1 dns) refl

  small_check-Dns :
      (ips : List String) (timeout try : ℕ) (s : Checker × W)
      → Dns s
      → Dns (small_check probes ips timeout try s).1
  small_check-Dns ips timeout try (c, w) dns =
      ap (λ x. x.1.0.small_check_type) (small_check-run_dns ips timeout try (c, w) dns) ∙ dns

module _ {W E : Type 0} (probes : Probes W E) where
  -- Where ICMP is not permitted and the type is forced, a small check does not depend on the
  -- echo.
  pub small_periodic_check-echo :
      (echo : ℕ → String → W → Option E × W) (s : Checker × W)
      → IsForced s.0
      → s.0.icmp_not_permitted ≡ some true
      → small_periodic_check probes s ≡ small_periodic_check (record probes { echo = echo }) s
  unfolding small_periodic_check
  small_periodic_check-echo echo (c, w) forced denied =
      let deaf : Probes W E = record probes { echo = echo } in
      ap (λ x. if has_small_check_name c.small_check_type then x else (retry_panic, (c, w)))
        (with_retries-agrees (λ s. probes.cancelled s.1) (small_check probes c.icmp_target_ips)
          (small_check deaf c.icmp_target_ips) (Dns probes)
          (small_check-Dns probes c.icmp_target_ips)
          (λ timeout try s dns.
            small_check-run_dns probes c.icmp_target_ips timeout try s dns
            ∙ sym (small_check-run_dns deaf c.icmp_target_ips timeout try s dns))
          0 small_timeouts [] (c, w) (forced denied))

restored-IsForced : (c : Checker) → IsForced (restored c)
restored-IsForced c = elim (Bool-cases (is_true c.icmp_not_permitted)) [
  | inl denied ↦ rw denied (λ _. refl)
  | inr unknown ↦ rw unknown (λ e. absurd (ground (arith, ap is_true e, unknown)))
]

started-same :
    {E : Type 0} (c d : Checker) (fs : List E) (errs : Option (List E)) (goes : Bool)
    → (if goes then running (some fs) c else start_error fs c) ≡ running errs d
    → c ≡ d
started-same c d fs errs true e = cc
started-same c d fs errs false e = absurd (ground (arith, e))

start_with-same :
    {E : Type 0} (c d : Checker) (o errs : Option (List E))
    → start_with c o ≡ running errs d
    → c ≡ d
start_with-same c d none errs e = cc
start_with-same c d (some fs) errs e = started-same c d fs errs c.startup_on_fail e

no_panic :
    {E : Type 0} (unset : Bool) (s : Started E) (errs : Option (List E)) (d : Checker)
    → (if unset then start_panic else s) ≡ running errs d
    → s ≡ running errs d
no_panic true s errs d e = absurd (ground (arith, e))
no_panic false s errs d e = e

-- Start, whatever configuration was set, forces the type before the checks run.
pub start-IsForced :
    {E : Type 0} (replies : List (Option E)) (c d : Checker) (errs : Option (List E))
    → start replies c ≡ running errs d
    → IsForced d
unfolding start
start-IsForced replies c d errs e =
    subst IsForced
      (start_with-same (restored c) d (startup_check replies) errs (no_panic _ _ errs d e))
      (restored-IsForced c)

module _ {W E : Type 0} (probes : Probes W E) where
  -- What is reached from a start with any configuration, by small checks, and by all else that
  -- changes only the network, the full checks for instance.
  pub data Session : Checker × W → Type 0 where
    starts :
        (replies : List (Option E)) (c : Checker) {d : Checker} {errs : Option (List E)} (w : W)
        → start replies c ≡ running errs d
        → Session (d, w)
    checks : {s : Checker × W} → Session s → Session (small_periodic_check probes s).1
    waits : {c : Checker} {w : W} (later : W) → Session (c, w) → Session (c, later)

  Session-IsForced : {s : Checker × W} → Session s → IsForced s.0
  Session-IsForced (starts replies c {d} {errs} w e) = start-IsForced replies c d errs e
  Session-IsForced (checks {s} session) =
      small_periodic_check-IsForced probes s (Session-IsForced session)
  Session-IsForced (waits later session) = Session-IsForced session

  -- In a session that a start has begun, once ICMP is known not to be permitted, what a small
  -- check does does not depend on the echo: only DNS is used.
  pub Session-echo :
      (s : Checker × W) (echo : ℕ → String → W → Option E × W)
      → Session s
      → s.0.icmp_not_permitted ≡ some true
      → small_periodic_check probes s ≡ small_periodic_check (record probes { echo = echo }) s
  Session-echo s echo session denied =
      small_periodic_check-echo probes echo s (Session-IsForced session) denied
