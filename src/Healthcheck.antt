-- ===== src/Healthcheck.antt =====
-- internal/healthcheck/checker.go: the checks of the VPN connection. The probes of the network are
-- parameters, over a state of the network.
pub mod Retries
pub mod Fallback
mod Tests
use gluetun.Prelude.{
  ℕ, zero, suc, ◌+◌, ◌%◌, Bool, true, false, not, ◌&&◌, ◌||◌, Option, none, some, List, [], ◌∷◌,
  ◌++◌, String, str_eq, if◌then◌else◌, length, get_elem?,
}

-- Checker: the configuration, and what is known of the permission to send ICMP (icmpNotPermitted)
pub record Checker : Type 0 where
  pub tls_dial_addrs : List String
  pub icmp_target_ips : List String
  pub small_check_type : String
  pub startup_on_fail : Bool
  pub icmp_not_permitted : Option Bool

pub record Probes (W E : Type 0) : Type 0 where
  pub dns_check : ℕ → W → Option E × W
  pub echo : ℕ → String → W → Option E × W
  pub tls_check : ℕ → String → W → Option E × W
  pub is_not_permitted : E → Bool
  pub cancelled : W → Bool

-- The result of a check; a panic is of an index out of range.
pub data Checked (E : Type 0) : Type 0 where
  passed : Checked E
  failed : E → Checked E
  check_panic : Checked E

pub data Retried (E : Type 0) : Type 0 where
  success : Retried E
  context_error : Retried E
  all_tries_failed : List E → Retried E
  retry_panic : Retried E

abbrev pub small_check_dns : String
small_check_dns = "dns"

abbrev pub small_check_icmp : String
small_check_icmp = "icmp"

-- Whether smallCheckTypeToString does not panic
abbrev pub has_small_check_name : String → Bool
has_small_check_name check_type =
    str_eq check_type small_check_icmp || str_eq check_type small_check_dns

abbrev pub is_empty : {A : Type 0} → List A → Bool
is_empty [] = true
is_empty (x ∷ xs) = false

pub set_config : List String → List String → String → Bool → Checker → Checker
set_config addrs ips check_type on_fail c = record c {
  tls_dial_addrs = addrs;
  icmp_target_ips = ips;
  small_check_type = check_type;
  startup_on_fail = on_fail;
}

abbrev pub checked_of : {E : Type 0} → Option E → Checked E
checked_of none = passed
checked_of (some e) = failed e

module _ {S E : Type 0} (cancelled : S → Bool) (check : ℕ → ℕ → S → Checked E × S) where
  abbrev pub after_try : Checked E × S → (E → S → Retried E × S) → Retried E × S
  after_try (passed, s) again = (success, s)
  after_try (check_panic, s) again = (retry_panic, s)
  after_try (failed e, s) again = if cancelled s then (context_error, s) else again e s

  -- withRetries, from a try on and with the errors so far. A check gets its timeout.
  pub with_retries : ℕ → List ℕ → List E → S → Retried E × S
  with_retries try [] errs s = (all_tries_failed errs, s)
  with_retries try (timeout ∷ timeouts) errs s =
      after_try (check timeout try s)
        λ e after. with_retries (try + 1) timeouts (errs ++ (e ∷ [])) after

abbrev pub small_timeouts : List ℕ
small_timeouts = 5 ∷ 5 ∷ 5 ∷ 10 ∷ 10 ∷ 10 ∷ 15 ∷ 15 ∷ 15 ∷ 30 ∷ []

abbrev pub full_timeouts : List ℕ
full_timeouts = 10 ∷ 15 ∷ 30 ∷ []

module _ {W E : Type 0} (probes : Probes W E) where
  abbrev pub run_dns : ℕ → Checker × W → Checked E × (Checker × W)
  run_dns timeout (c, w) = let (r, after) = probes.dns_check timeout w in (checked_of r, (c, after))

  -- What follows an echo that fails, by what is known of the permission
  pub echo_failed : ℕ → E → Checker × W → Option Bool → Checked E × (Checker × W)
  echo_failed timeout e s (some known) = (failed e, s)
  echo_failed timeout e (c, w) none =
      if probes.is_not_permitted e
      then run_dns timeout
          (record c { icmp_not_permitted = some true; small_check_type = small_check_dns }, w)
      else (failed e, (c, w))

  abbrev pub after_echo : ℕ → Option E × W → Checker → Checked E × (Checker × W)
  unfolding echo_failed
  after_echo timeout (none, w) c = (passed, (c, w))
  after_echo timeout (some e, w) c = echo_failed timeout e (c, w) c.icmp_not_permitted

  abbrev pub echo_target : ℕ → Option String → Checker × W → Checked E × (Checker × W)
  echo_target timeout none (c, w) = (check_panic, (c, w))
  echo_target timeout (some ip) (c, w) = after_echo timeout (probes.echo timeout ip w) c

  -- The check of smallPeriodicCheck, with the addresses copied before
  pub small_check : List String → ℕ → ℕ → Checker × W → Checked E × (Checker × W)
  small_check ips timeout try (c, w) =
      if str_eq c.small_check_type small_check_dns
      then run_dns timeout (c, w)
      else echo_target timeout (get_elem? ips (try % length ips)) (c, w)

  unfoldable pub small_periodic_check : Checker × W → Retried E × (Checker × W)
  unfolding small_check with_retries
  small_periodic_check (c, w) =
      if has_small_check_name c.small_check_type
      then with_retries (λ s. probes.cancelled s.1) (small_check c.icmp_target_ips) 0 small_timeouts
          [] (c, w)
      else (retry_panic, (c, w))

  abbrev pub dial_target : ℕ → Option String → Checker × W → Checked E × (Checker × W)
  dial_target timeout none s = (check_panic, s)
  dial_target timeout (some addr) (c, w) =
      let (r, after) = probes.tls_check timeout addr w in (checked_of r, (c, after))

  pub full_check : ℕ → ℕ → Checker × W → Checked E × (Checker × W)
  full_check timeout try (c, w) =
      dial_target timeout (get_elem? c.tls_dial_addrs (try % length c.tls_dial_addrs)) (c, w)

  unfoldable pub full_periodic_check : Checker × W → Retried E × (Checker × W)
  unfolding full_check with_retries
  full_periodic_check s = with_retries (λ t. probes.cancelled t.1) full_check 0 full_timeouts [] s

-- The loop of startupCheck over the replies of the dials, in the order of their arrival
pub startup_loop : {E : Type 0} → Bool → List E → List (Option E) → Bool × List E
startup_loop ok errs [] = (ok, errs)
startup_loop ok errs (none ∷ replies) = startup_loop true errs replies
startup_loop ok errs (some e ∷ replies) =
    let kept = if ok then errs else errs ++ (e ∷ []) in startup_loop ok kept replies

-- `none` is a nil error.
unfoldable pub startup_check : {E : Type 0} → List (Option E) → Option (List E)
unfolding startup_loop
startup_check replies =
    let (ok, errs) = startup_loop false [] replies in if ok then none else some errs

-- What Start returns: an error, or a channel that holds the startup error where there is one
pub data Started (E : Type 0) : Type 0 where
  running : Option (List E) → Checker → Started E
  start_error : List E → Checker → Started E
  start_panic : Started E

abbrev pub is_true : Option Bool → Bool
is_true none = false
is_true (some b) = b

abbrev pub restored : Checker → Checker
restored c =
    if is_true c.icmp_not_permitted then record c { small_check_type = small_check_dns } else c

abbrev pub start_with : {E : Type 0} → Checker → Option (List E) → Started E
start_with c none = running none c
start_with c (some errs) = if c.startup_on_fail then running (some errs) c else start_error errs c

unfoldable pub start : {E : Type 0} → List (Option E) → Checker → Started E
unfolding startup_check
start replies c =
    if is_empty c.tls_dial_addrs || is_empty c.icmp_target_ips || str_eq c.small_check_type ""
    then start_panic
    else start_with (restored c) (startup_check replies)

-- Stop clears the configuration, once the goroutine is done.
pub stop : Checker → Checker
stop c = record c { tls_dial_addrs = []; icmp_target_ips = []; small_check_type = "" }
