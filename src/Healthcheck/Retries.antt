-- ===== src/Healthcheck/Retries.antt =====
-- internal/healthcheck/checker.go: the tries of a check, and the parallel tries at the start.
use mathlib.Core.Path.{subst}
use mathlib.Core.List.{append_assoc, append-nil}
use gluetun.Prelude.{
  ℕ, ◌+◌, ◌≡◌, refl, sym, ap, ◌∙◌, Bool, true, false, Option, none, some, List, [], ◌∷◌, ◌++◌,
  if◌then◌else◌, Bool-cases, inl, inr,
}
use gluetun.Healthcheck.{
  Checked, passed, failed, check_panic, Retried, success, context_error, all_tries_failed,
  retry_panic, after_try, with_retries, startup_loop, startup_check,
}

module _ {S E : Type 0} (cancelled : S → Bool) (check : ℕ → ℕ → S → Checked E × S) where
  -- Tries of the timeouts that all fail, with their errors
  pub data AllFail : ℕ → List ℕ → S → List E → S → Type 0 where
    no_more : {try : ℕ} {s : S} → AllFail try [] s [] s
    fails :
        {try timeout : ℕ} {timeouts : List ℕ} {s after end : S} {e : E} {es : List E}
        → check timeout try s ≡ (failed e, after)
        → cancelled after ≡ false
        → AllFail (try + 1) timeouts after es end
        → AllFail try (timeout ∷ timeouts) s (e ∷ es) end

  -- A try that passes, after tries that fail
  pub data Passes : ℕ → List ℕ → S → S → Type 0 where
    now :
        {try timeout : ℕ} {timeouts : List ℕ} {s end : S}
        → check timeout try s ≡ (passed, end)
        → Passes try (timeout ∷ timeouts) s end
    later :
        {try timeout : ℕ} {timeouts : List ℕ} {s after end : S} {e : E}
        → check timeout try s ≡ (failed e, after)
        → cancelled after ≡ false
        → Passes (try + 1) timeouts after end
        → Passes try (timeout ∷ timeouts) s end

  -- `before` are the errors of the tries before.
  abbrev Outcome : ℕ → List ℕ → List E → S → Retried E × S → Type 0
  Outcome try timeouts before s (success, end) = Passes try timeouts s end
  Outcome try timeouts before s (context_error, end) = cancelled end ≡ true
  Outcome try timeouts before s (all_tries_failed errs, end) =
      (es : List E) × (errs ≡ (before ++ es)) × AllFail try timeouts s es end
  Outcome try timeouts before s (retry_panic, end) = Unit {0}

  Outcome-later :
      (try timeout : ℕ) (timeouts : List ℕ) (before : List E) (s after : S) (e : E) (r : Retried E)
      (end : S)
      → check timeout try s ≡ (failed e, after)
      → cancelled after ≡ false
      → Outcome (try + 1) timeouts (before ++ (e ∷ [])) after (r, end)
      → Outcome try (timeout ∷ timeouts) before s (r, end)
  Outcome-later try timeout timeouts before s after e success end f on passes = later f on passes
  Outcome-later try timeout timeouts before s after e context_error end f on h = h
  Outcome-later try timeout timeouts before s after e (all_tries_failed errs) end f on
        (es, same, all) =
      (e ∷ es, same ∙ append_assoc before (e ∷ []) es, fails f on all)
  Outcome-later try timeout timeouts before s after e retry_panic end f on h = tt

  after_try-Outcome :
      (try timeout : ℕ) (timeouts : List ℕ) (before : List E) (s after : S) (r : Checked E)
      (again : E → S → Retried E × S)
      → check timeout try s ≡ (r, after)
      → ((e : E) → Outcome (try + 1) timeouts (before ++ (e ∷ [])) after (again e after))
      → Outcome try (timeout ∷ timeouts) before s (after_try cancelled check (r, after) again)
  after_try-Outcome try timeout timeouts before s after passed again f h = now f
  after_try-Outcome try timeout timeouts before s after check_panic again f h = tt
  after_try-Outcome try timeout timeouts before s after (failed e) again f h =
      elim (Bool-cases (cancelled after)) [
        | inl off ↦ rw off off
        | inr on ↦ rw on (
            let (r, end) = again e after in
            Outcome-later try timeout timeouts before s after e r end f on (h e))
      ]

  with_retries-Outcome :
      (try : ℕ) (timeouts : List ℕ) (before : List E) (s : S)
      → Outcome try timeouts before s (with_retries cancelled check try timeouts before s)
  unfolding with_retries
  with_retries-Outcome try [] before s = ([], sym (append-nil before), no_more)
  with_retries-Outcome try (timeout ∷ timeouts) before s =
      let (r, after) = check timeout try s in
      after_try-Outcome try timeout timeouts before s after r _ refl
        λ e. with_retries-Outcome (try + 1) timeouts (before ++ (e ∷ [])) after

  abbrev pub IsRetried : List ℕ → S → Retried E × S → Type 0
  IsRetried timeouts s (success, end) = Passes 0 timeouts s end
  IsRetried timeouts s (context_error, end) = cancelled end ≡ true
  IsRetried timeouts s (all_tries_failed errs, end) = AllFail 0 timeouts s errs end
  IsRetried timeouts s (retry_panic, end) = Unit {0}

  retried :
      (timeouts : List ℕ) (s : S) (r : Retried E) (end : S)
      → Outcome 0 timeouts [] s (r, end)
      → IsRetried timeouts s (r, end)
  retried timeouts s success end h = h
  retried timeouts s context_error end h = h
  retried timeouts s (all_tries_failed errs) end (es, same, all) =
      subst (λ fs. AllFail 0 timeouts s fs end) (sym same) all
  retried timeouts s retry_panic end h = tt

  -- A check with retries succeeds only where one of its tries passes after tries that failed;
  -- it says that all tries have failed, with their errors in order, only where each of them
  -- has failed; and it returns the error of the context only where this is cancelled.
  pub with_retries-IsRetried :
      (timeouts : List ℕ) (s : S)
      → IsRetried timeouts s (with_retries cancelled check 0 timeouts [] s)
  with_retries-IsRetried timeouts s =
      let (r, end) = with_retries cancelled check 0 timeouts [] s in
      retried timeouts s r end (with_retries-Outcome 0 timeouts [] s)

-- The parallel tries, by their replies alone
pub any_passes : {E : Type 0} → List (Option E) → Bool
any_passes [] = false
any_passes (none ∷ replies) = true
any_passes (some e ∷ replies) = any_passes replies

pub errors_of : {E : Type 0} → List (Option E) → List E
errors_of [] = []
errors_of (none ∷ replies) = errors_of replies
errors_of (some e ∷ replies) = e ∷ errors_of replies

startup_loop-passed :
    {E : Type 0} (errs : List E) (replies : List (Option E))
    → (startup_loop true errs replies).0 ≡ true
unfolding startup_loop
startup_loop-passed errs [] = refl
startup_loop-passed errs (none ∷ replies) = startup_loop-passed errs replies
startup_loop-passed errs (some e ∷ replies) = startup_loop-passed errs replies

startup_loop-result :
    {E : Type 0} (errs : List E) (replies : List (Option E))
    → (if (startup_loop false errs replies).0
        then none
        else some (startup_loop false errs replies).1)
      ≡ (if any_passes replies then none else some (errs ++ errors_of replies))
unfolding startup_loop any_passes errors_of
startup_loop-result errs [] = ap some (sym (append-nil errs))
startup_loop-result errs (none ∷ replies) = rw (startup_loop-passed errs replies) refl
startup_loop-result errs (some e ∷ replies) =
    startup_loop-result (errs ++ (e ∷ [])) replies
    ∙ ap (λ es. if any_passes replies then none else some es)
        (append_assoc errs (e ∷ []) (errors_of replies))

-- The check at the start passes exactly where some reply is no error, and returns all errors in
-- their order otherwise.
pub startup_check-any_passes :
    {E : Type 0} (replies : List (Option E))
    → startup_check replies ≡ (if any_passes replies then none else some (errors_of replies))
unfolding startup_check
startup_check-any_passes replies = startup_loop-result [] replies
