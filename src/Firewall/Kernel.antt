-- ===== src/Firewall/Kernel.antt =====
-- What SaveAndRestore of firewallImpl (internal/firewall/interfaces.go) promises to Config, and that
-- the one of internal/firewall/iptables/atomic.go keeps it.
use gluetun.Prelude.{◌≡◌, refl, ap, Option, none, some, String}
use gluetun.Iptables.{Error, Result, ok, err, panic, command_failed, ◌>>=◌}
use gluetun.Iptables.Run.{
  Binary, Restore, both, save_and_restore, save_and_restore_ipv4, save_and_restore_ipv6,
}
use gluetun.Iptables.Run.Atomic.{Restores, RestoresAny}
use gluetun.Firewall.{FirewallImpl, Call, Saved, saved, save_failed}

module _ {W E R : Type 0} where
  -- What is called when something has gone wrong brings back the rules of the moment of the save,
  -- whatever happened since.
  abbrev pub BringsBack : (W → R) → W → Saved W E → Type 0
  BringsBack rules before (saved restore) = (w : W) → rules (restore w) ≡ rules before
  BringsBack rules before (save_failed e) = Unit

  -- `rules w` is all that the implementation manages of the system `w`.
  pub record IsSaving (impl : FirewallImpl W E) (rules : W → R) : Type 0 where
    pub saves : (w : W) → rules (impl.save_and_restore w).0 ≡ rules w
    pub restores : (w : W) → BringsBack rules w (impl.save_and_restore w).1

module _ {A B : Type 0} where
  -- The result of saveAndRestore: the programs that save do not panic, and with no error the
  -- restore function is not nil.
  abbrev saved_of : Result (Restore (A × B)) → Saved (A × B) Error
  saved_of (ok (some restore)) = saved restore
  saved_of (ok none) = save_failed command_failed
  saved_of (err e) = save_failed e
  saved_of panic = save_failed command_failed

  -- SaveAndRestore of iptables, with any other calls.
  abbrev pub iptables_firewall :
      Binary A
      → Option (Binary B)
      → (Call → A × B → (A × B) × Option Error)
      → FirewallImpl (A × B) Error
  iptables_firewall iptables ip6tables call = record {
    save_and_restore = λ w. (w, saved_of (save_and_restore iptables ip6tables w));
    call = call;
  }

  -- The rules of iptables, and those of ip6tables where there is one.
  abbrev pub managed : Option (Binary B) → A × B → A × Option B
  managed none (a, b) = (a, none)
  managed (some binary) (a, b) = (a, some b)

  ipv4-BringsBack :
      (iptables : Binary A) (a : A) (b : B) (r : Result String)
      → Restores iptables
      → iptables.save a ≡ r
      → BringsBack
          (managed none)
          (a, b)
          (saved_of ((r >>= λ text. ok (some (iptables.restore text))) >>= λ f. ok (both f none)))
  ipv4-BringsBack iptables a b (ok text) back e = λ w. ap (λ x. (x, none)) (back a w.0 text e)
  ipv4-BringsBack iptables a b (err x) back e = tt
  ipv4-BringsBack iptables a b panic back e = tt

  both-BringsBack :
      (iptables : Binary A) (ip6tables : Binary B) (a : A) (b : B) (r : Result String)
      (q : Result String)
      → Restores iptables
      → Restores ip6tables
      → iptables.save a ≡ r
      → ip6tables.save b ≡ q
      → BringsBack
          (managed (some ip6tables))
          (a, b)
          (saved_of (do
            f ← r >>= λ text. ok (some (iptables.restore text))
            g ← q >>= λ text. ok (some (ip6tables.restore text))
            ok (both f g)))
  both-BringsBack iptables ip6tables a b (ok x) (ok y) back back_6 e d =
      λ w. rw (back a w.0 x e, back_6 b w.1 y d) refl
  both-BringsBack iptables ip6tables a b (ok x) (err z) back back_6 e d = tt
  both-BringsBack iptables ip6tables a b (ok x) panic back back_6 e d = tt
  both-BringsBack iptables ip6tables a b (err z) q back back_6 e d = tt
  both-BringsBack iptables ip6tables a b panic q back back_6 e d = tt

  saved_of-BringsBack :
      (iptables : Binary A) (ip6tables : Option (Binary B)) (w : A × B)
      → Restores iptables
      → RestoresAny ip6tables
      → BringsBack (managed ip6tables) w (saved_of (save_and_restore iptables ip6tables w))
  unfolding save_and_restore save_and_restore_ipv4 save_and_restore_ipv6
  saved_of-BringsBack iptables none (a, b) back tt =
      ipv4-BringsBack iptables a b (iptables.save a) back refl
  saved_of-BringsBack iptables (some binary) (a, b) back back_6 =
      both-BringsBack iptables binary a b (iptables.save a) (binary.save b) back back_6 refl refl

  pub iptables-IsSaving :
      (iptables : Binary A) (ip6tables : Option (Binary B))
      (call : Call → A × B → (A × B) × Option Error)
      → Restores iptables
      → RestoresAny ip6tables
      → IsSaving (iptables_firewall iptables ip6tables call) (managed ip6tables)
  iptables-IsSaving iptables ip6tables call back back_any = record {
    saves = λ w. refl;
    restores = λ w. saved_of-BringsBack iptables ip6tables w back back_any;
  }
