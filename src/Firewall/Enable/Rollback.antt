-- ===== src/Firewall/Enable/Rollback.antt =====
-- internal/firewall/enable.go against the rules of the system: a failed enabling and a disabling
-- both bring back the rules of before.
use mathlib.Core.Path.{subst}
use gluetun.Prelude.{◌≡◌, refl, ◌∙◌, ap, sym, Bool, true, false, Option, some, arith}
use gluetun.Firewall.{
  FirewallImpl, Config, State, Result, ok, err, panic, ◌>>◌, done, update, Saved, saved,
  save_failed, same_bool,
}
use gluetun.Firewall.Kernel.{IsSaving, BringsBack}
use gluetun.Firewall.Rules.{Post, bind_rule, if_rule}
use gluetun.Firewall.Enable.{
  enable_rules, restore_on_error, enable_saved, enable, call_restore, set_enabled,
}
use gluetun.Firewall.Enable.Calls.{enable_rules-config}

module _ {W E R : Type 0} (impl : FirewallImpl W E) (rules : W → R) (k : IsSaving impl rules) where
  -- The system `w` has the rules of the system `before`.
  abbrev pub SameRules : W → W → Type 0
  SameRules before w = rules w ≡ rules before

  -- What enabling leaves, by its result: after an error the rules of before and the stored state
  -- but for the restore function; after a success a restore function that brings them back.
  abbrev Enabled : W → Bool → Result E (Unit {0}) × State W → Type 0
  Enabled before on (ok a, t) =
      (restore : W → W) × (t.config.restore ≡ some restore)
      × ((w : W) → SameRules before (restore w))
  Enabled before on (err e, t) = (t.config.enabled ≡ on) × SameRules before t.world
  Enabled before on (panic, t) = Unit

  restore_on_error-Enabled :
      (before : W) (restore : W → W) (r : Result E (Unit {0})) (t : State W)
      → t.config.restore ≡ some restore
      → ((w : W) → SameRules before (restore w))
      → Enabled before t.config.enabled (restore_on_error impl restore (r, t))
  unfolding restore_on_error
  restore_on_error-Enabled before restore (ok a) t e h = (restore, e, h)
  restore_on_error-Enabled before restore (err x) t e h = (refl, h t.world)
  restore_on_error-Enabled before restore panic t e h = tt

  enable_saved-Enabled :
      (before : W) (saving : Saved W E) (s : State W)
      → SameRules before s.world
      → BringsBack rules before saving
      → Enabled before s.config.enabled (enable_saved impl saving s)
  unfolding enable_saved
  enable_saved-Enabled before (save_failed e) s same back = (refl, same)
  enable_saved-Enabled before (saved restore) s same back =
      let t : State W = record s { config = record s.config { restore = some restore } } in
      let kept = enable_rules-config impl t.config t in
      let result = enable_rules impl t.config t in
      rw (ap (λ (c : Config W). c.enabled) kept) at (
        restore_on_error-Enabled before restore result.0 result.1
          (ap (λ (c : Config W). c.restore) kept) back)

  enable-Enabled : (s : State W) → Enabled s.world s.config.enabled (enable impl s)
  unfolding enable
  enable-Enabled s =
      enable_saved-Enabled s.world (impl.save_and_restore s.world).1
        (record s { world = (impl.save_and_restore s.world).0 }) (k.saves s.world)
        (k.restores s.world)

  Enabled-err :
      (before : W) (on : Bool) (r : Result E (Unit {0})) (t : State W) (e : E)
      → r ≡ err e
      → Enabled before on (r, t)
      → (t.config.enabled ≡ on) × SameRules before t.world
  Enabled-err before on (ok a) t e h x = absurd (ground (arith, h))
  Enabled-err before on (err a) t e h x = x
  Enabled-err before on panic t e h x = absurd (ground (arith, h))

  Enabled-ok :
      (before : W) (on : Bool) (r : Result E (Unit {0})) (t : State W) (a : Unit {0})
      → r ≡ ok a
      → Enabled before on (r, t)
      → (restore : W → W) × (t.config.restore ≡ some restore)
        × ((w : W) → SameRules before (restore w))
  Enabled-ok before on (ok b) t a h x = x
  Enabled-ok before on (err e) t a h x = absurd (ground (arith, h))
  Enabled-ok before on panic t a h x = absurd (ground (arith, h))

  -- What a call on a disabled firewall does, and on an enabled one.
  set_enabled_rule :
      (P : Post W E (Unit {0})) (s : State W)
      → s.config.enabled ≡ false
      → P ((enable impl >> update (λ d. record d { enabled = true })) s)
      → P (set_enabled impl true s)
  unfolding set_enabled
  set_enabled_rule P s off h =
      if_rule P (same_bool true s.config.enabled) done _ s (λ on. absurd (ground (arith, on, off)))
        λ _. h

  set_disabled_rule :
      (P : Post W E (Unit {0})) (s : State W)
      → s.config.enabled ≡ true
      → P ((call_restore impl s.config.restore >> update (λ d. record d { enabled = false })) s)
      → P (set_enabled impl false s)
  unfolding set_enabled
  set_disabled_rule P s on h =
      if_rule P (same_bool false s.config.enabled) done _ s
        (λ off. absurd (ground (arith, on, off))) λ _. h

  -- With an implementation whose SaveAndRestore keeps its contract, enabling a disabled firewall
  -- that fails leaves it disabled, and the rules of the system as they were before the call.
  pub set_enabled-rollback :
      (s : State W) (e : E)
      → s.config.enabled ≡ false
      → (set_enabled impl true s).0 ≡ err e
      → ((set_enabled impl true s).1.config.enabled ≡ false)
        × SameRules s.world (set_enabled impl true s).1.world
  set_enabled-rollback s e off =
      let P : Post W E (Unit {0}) =
        λ r. r.0 ≡ err e → (r.1.config.enabled ≡ false) × SameRules s.world r.1.world in
      set_enabled_rule P s off (
        bind_rule P (enable impl) (λ _. update (λ d. record d { enabled = true })) s
          (λ a h g. absurd (ground (arith, g)))
          (λ x h g.
            let (kept, same) = Enabled-err s.world _ _ _ x h (enable-Enabled s) in
            (kept ∙ off, same))
          (λ h g. absurd (ground (arith, g))))

  -- What a successful enabling leaves.
  enabled_lem :
      (s : State W)
      → s.config.enabled ≡ false
      → (set_enabled impl true s).0 ≡ ok tt
      → (restore : W → W) × ((set_enabled impl true s).1.config.restore ≡ some restore)
        × ((w : W) → SameRules s.world (restore w))
  enabled_lem s off =
      let P : Post W E (Unit {0}) = λ r.
        r.0 ≡ ok tt
        → (restore : W → W) × (r.1.config.restore ≡ some restore)
          × ((w : W) → SameRules s.world (restore w)) in
      set_enabled_rule P s off (
        bind_rule P (enable impl) (λ _. update (λ d. record d { enabled = true })) s
          (λ a h g. Enabled-ok s.world _ _ _ a h (enable-Enabled s))
          (λ x h g. absurd (ground (arith, g))) (λ h g. absurd (ground (arith, g))))

  -- With an implementation whose SaveAndRestore keeps its contract, disabling a firewall that was
  -- enabled from the state `s`, whatever was done to the system in between, succeeds and brings
  -- back the rules that the system had in `s`.
  pub set_enabled-restores :
      (s u : State W)
      → s.config.enabled ≡ false
      → (set_enabled impl true s).0 ≡ ok tt
      → u.config.enabled ≡ true
      → u.config.restore ≡ (set_enabled impl true s).1.config.restore
      → ((set_enabled impl false u).0 ≡ ok tt)
        × ((set_enabled impl false u).1.config.enabled ≡ false)
        × SameRules s.world (set_enabled impl false u).1.world
  set_enabled-restores s u off h on same =
      let P : Post W E (Unit {0}) =
        λ r. (r.0 ≡ ok tt) × (r.1.config.enabled ≡ false) × SameRules s.world r.1.world in
      let (restore, e, back) = enabled_lem s off h in
      let restored = λ (o : Option (W → W)).
        P ((call_restore impl o >> update (λ d. record d { enabled = false })) u) in
      set_disabled_rule P u on
        (subst restored (sym (same ∙ e)) (unfold call_restore in (refl, refl, back u.world)))
