-- ===== src/Healthcheck/Tests.antt =====
-- internal/healthcheck/checker.go: probes that may not send ICMP, and the theorems at inputs.
use gluetun.Prelude.{ℕ, ◌+◌, ◌≡◌, refl, true, false, none, some, [], ◌∷◌, String, str_eq}
use gluetun.Healthcheck.{
  Checker, Probes, full_timeouts, full_check, after_echo, with_retries, small_periodic_check, start,
  running,
}
use gluetun.Healthcheck.Retries.{IsRetried, with_retries-IsRetried}
use gluetun.Healthcheck.Fallback.{starts, checks, Session-echo}

-- The state of the network counts the DNS queries.
abbrev denying : Probes ℕ String
denying = record {
  dns_check = λ timeout w. (none, w + 1);
  echo = λ timeout ip w. (some "not permitted", w);
  tls_check = λ timeout addr w. (some "timed out", w);
  is_not_permitted = λ e. str_eq e "not permitted";
  cancelled = λ w. false;
}

abbrev checker : Checker
checker = record {
  tls_dial_addrs = "cloudflare.com:443" ∷ [];
  icmp_target_ips = "1.1.1.1" ∷ "8.8.8.8" ∷ [];
  small_check_type = "icmp";
  startup_on_fail = false;
  icmp_not_permitted = none;
}

with_retries-IsRetried_example :
    IsRetried
      (λ s. false)
      (full_check denying)
      full_timeouts
      (checker, 0)
      (with_retries (λ s. false) (full_check denying) 0 full_timeouts [] (checker, 0))
with_retries-IsRetried_example =
    with_retries-IsRetried (λ s. false) (full_check denying) full_timeouts (checker, 0)

abbrev after_check : Checker × ℕ
after_check = (small_periodic_check denying (checker, 0)).1

now_denied : after_check.0.icmp_not_permitted ≡ some true
unfolding small_periodic_check after_echo
now_denied = refl

checker_runs : start {E = String} (none ∷ []) checker ≡ running none checker
unfolding start
checker_runs = refl

Session-echo_example :
    small_periodic_check denying after_check
    ≡ small_periodic_check (record denying { echo = λ timeout ip w. (none, w) }) after_check
Session-echo_example =
    Session-echo denying after_check (λ timeout ip w. (none, w))
      (checks (starts (none ∷ []) checker 0 checker_runs)) now_denied
