-- ===== src/Iptables/Run/Atomic.antt =====
-- internal/firewall/iptables: the instructions of a call take effect together or not at all.
use mathlib.Core.Path.{subst}
use gluetun.Prelude.{
  ◌≡◌, refl, sym, ap, ◌∙◌, ◌⊎◌, inl, inr, Option, none, some, List, [], ◌∷◌, String, arith,
}
use gluetun.Iptables.{Result, ok, err, panic, ◌>>=◌}
use gluetun.Iptables.Parse.{Texts}
use gluetun.Iptables.Run.{
  Binary, Run, run_no_save, run_ip6tables_no_save, run_each, and_then, run_first, run_second,
  run_mixed_no_save, Restore, call_on_error, save_and_restore_ipv4, save_and_restore_ipv6, both,
  save_and_restore, with_saved, run_ip6tables_instructions, run_mixed_instructions,
}

-- Restoring what was saved of some rules gives these rules, whatever they have become.
abbrev pub Restores : {Rules : Type 0} → Binary Rules → Type 0
Restores {Rules} binary =
    (rules now : Rules) (saved : String)
    → binary.save rules ≡ ok saved
    → binary.restore saved now ≡ rules

abbrev pub RestoresAny : {Rules : Type 0} → Option (Binary Rules) → Type 0
RestoresAny none = Unit
RestoresAny (some binary) = Restores binary

-- How a call ends: with all that the run does where it succeeds, with the system as it was where
-- there is an error, and with a panic only where the run or the saving panics.
abbrev pub IsAtomic :
    {System : Type 0}
    → System
    → Result (Restore System)
    → Result (Unit {0}) × System
    → Result (Unit {0}) × System
    → Type 0
IsAtomic before saved run (ok u, after) = run ≡ (ok tt, after)
IsAtomic before saved run (err e, after) = after ≡ before
IsAtomic before saved run (panic, after) = (run.0 ≡ panic) ⊎ (saved ≡ panic)

-- After an error there is a restore function, and it gives the system back as it was.
abbrev IsUndo : {System : Type 0} → System → Restore System → Result (Unit {0}) × System → Type 0
IsUndo before (some f) (err e, after) = f after ≡ before
IsUndo before none (err e, after) = ⊥
IsUndo before restore _ = Unit

call_on_error-IsAtomic :
    {System : Type 0} (before : System) (restore : Restore System) (r : Result (Unit {0}) × System)
    → IsUndo before restore r
    → IsAtomic before (ok restore) r (call_on_error restore r)
call_on_error-IsAtomic before restore (ok u, after) undo = refl
call_on_error-IsAtomic before none (err e, after) undo = absurd undo
call_on_error-IsAtomic before (some f) (err e, after) undo = undo
call_on_error-IsAtomic before restore (panic, after) undo = inl refl

with_saved-IsAtomic :
    {System : Type 0} (run : Run System) (saved : Result (Restore System)) (before : System)
    → ((restore : Restore System) → saved ≡ ok restore → IsUndo before restore (run before))
    → IsAtomic before saved (run before) (with_saved saved run before)
with_saved-IsAtomic run (ok restore) before undo =
    call_on_error-IsAtomic before restore (run before) (undo restore refl)
with_saved-IsAtomic run (err e) before undo = refl
with_saved-IsAtomic run panic before undo = inr refl

-- A restore function that always gives the system back is an undo of every run.
always-IsUndo :
    {System : Type 0} (before : System) (f : System → System) (r : Result (Unit {0}) × System)
    → ((now : System) → f now ≡ before)
    → IsUndo before (some f) r
always-IsUndo before f (ok u, after) h = tt
always-IsUndo before f (err e, after) h = h after
always-IsUndo before f (panic, after) h = tt

-- Without ip6tables nothing is run, and no run fails.
run_each-none :
    {Rules : Type 0} (t : Texts) (instructions : List String) (rules : Rules)
    → run_each (run_ip6tables_no_save t none) instructions rules ≡ (ok tt, rules)
unfolding run_each run_ip6tables_no_save
run_each-none t [] rules = refl
run_each-none t (instruction ∷ instructions) rules = run_each-none t instructions rules

ok-injective : {A : Type 0} {a b : A} → ok a ≡ ok b → a ≡ b
ok-injective e = ground (arith, e)

-- Where a sequence of two steps succeeds, the first does.
bind_ok :
    {A B : Type 0} (r : Result A) (f : A → Result B) (b : B)
    → (r >>= f) ≡ ok b
    → (a : A) × (r ≡ ok a) × (f a ≡ ok b)
bind_ok (ok a) f b h = (a, refl, h)
bind_ok (err e) f b h = absurd (ground (arith, h))
bind_ok panic f b h = absurd (ground (arith, h))

saved_ipv6-IsUndo :
    {Rules : Type 0} (t : Texts) (binary : Option (Binary Rules)) (instructions : List String)
    (rules : Rules)
    → RestoresAny binary
    → (restore : Restore Rules) → save_and_restore_ipv6 binary rules ≡ ok restore
    → IsUndo rules restore (run_each (run_ip6tables_no_save t binary) instructions rules)
unfolding save_and_restore_ipv6
saved_ipv6-IsUndo t none instructions rules h none saved =
    subst (λ r. IsUndo rules none r) (sym (run_each-none t instructions rules)) tt
saved_ipv6-IsUndo t none instructions rules h (some f) saved = absurd (ground (arith, saved))
saved_ipv6-IsUndo t (some binary) instructions rules h restore saved =
    let (text, e, same) =
      bind_ok (binary.save rules) (λ x. ok (some (binary.restore x))) restore saved in
    subst
      (λ k. IsUndo rules k (run_each (run_ip6tables_no_save t (some binary)) instructions rules))
      (ok-injective same) (always-IsUndo rules (binary.restore text) _ (λ now. h rules now text e))

-- Runs that leave the second part of the system alone.
and_then-second :
    {A B : Type 0} (b : B) (r : Result (Unit {0}) × (A × B)) (next : Run (A × B))
    → r.1.1 ≡ b
    → ((a : A) → (next (a, b)).1.1 ≡ b)
    → (and_then r next).1.1 ≡ b
and_then-second b (ok u, (a, c)) next same h = subst (λ x. (next (a, x)).1.1 ≡ b) (sym same) (h a)
and_then-second b (err e, after) next same h = same
and_then-second b (panic, after) next same h = same

run_mixed-second :
    {A B : Type 0} (t : Texts) (iptables : Binary A) (instructions : List String) (a : A) (b : B)
    → (run_each (run_mixed_no_save t iptables none) instructions (a, b)).1.1 ≡ b
unfolding run_each run_mixed_no_save run_ip6tables_no_save
run_mixed-second t iptables [] a b = refl
run_mixed-second t iptables (instruction ∷ instructions) a b =
    and_then-second b (run_mixed_no_save t iptables none instruction (a, b))
      (run_each (run_mixed_no_save t iptables none) instructions)
      (and_then-second b (run_first (run_no_save t iptables instruction) (a, b))
        (run_second (run_ip6tables_no_save t none instruction)) refl (λ c. refl))
      (λ c. run_mixed-second t iptables instructions c b)

first_part-IsUndo :
    {A B : Type 0} (a : A) (b : B) (f : A → A) (r : Result (Unit {0}) × (A × B))
    → ((now : A) → f now ≡ a)
    → r.1.1 ≡ b
    → IsUndo (a, b) (some (λ (x, y). (f x, y))) r
first_part-IsUndo a b f (ok u, after) h same = tt
first_part-IsUndo a b f (err e, (x, y)) h same = rw (h x, same) refl
first_part-IsUndo a b f (panic, after) h same = tt

-- Where each binary restores what it saved, the instructions of runMixedIptablesInstructions take
-- effect all together, or there is an error and the rules of iptables and of ip6tables are as they
-- were; it panics only where one of the instructions or the saving does, and never by a restore
-- function that is nil.
pub run_mixed_instructions-IsAtomic :
    {A B : Type 0} (t : Texts) (iptables : Binary A) (ip6tables : Option (Binary B))
    (instructions : List String) (before : A × B)
    → Restores iptables
    → RestoresAny ip6tables
    → IsAtomic before
        (save_and_restore iptables ip6tables before)
        (run_each (run_mixed_no_save t iptables ip6tables) instructions before)
        (run_mixed_instructions t iptables ip6tables instructions before)
unfolding run_mixed_instructions save_and_restore save_and_restore_ipv4 save_and_restore_ipv6
run_mixed_instructions-IsAtomic t iptables none instructions (a, b) h k =
    with_saved-IsAtomic (run_each (run_mixed_no_save t iptables none) instructions)
      (save_and_restore iptables none (a, b)) (a, b)
      (λ restore saved.
        let (f, e, rest) =
          bind_ok (save_and_restore_ipv4 iptables a) (λ x. ok (both x none)) restore saved in
        let (text, d, same) = bind_ok (iptables.save a) (λ x. ok (some (iptables.restore x))) f e in
        subst
          (λ x. IsUndo (a, b) x (run_each (run_mixed_no_save t iptables none) instructions (a, b)))
          (ap (λ x. both x none) (ok-injective same) ∙ ok-injective rest)
          (first_part-IsUndo a b (iptables.restore text) _ (λ now. h a now text d)
            (run_mixed-second t iptables instructions a b)))
run_mixed_instructions-IsAtomic t iptables (some binary) instructions (a, b) h k =
    with_saved-IsAtomic (run_each (run_mixed_no_save t iptables (some binary)) instructions)
      (save_and_restore iptables (some binary) (a, b)) (a, b)
      (λ restore saved.
        let (f, e, rest) =
          bind_ok (save_and_restore_ipv4 iptables a)
            (λ x. save_and_restore_ipv6 (some binary) b >>= λ y. ok (both x y)) restore saved in
        let (g, c, last) =
          bind_ok (save_and_restore_ipv6 (some binary) b) (λ y. ok (both f y)) restore rest in
        let (text, d, same) = bind_ok (iptables.save a) (λ x. ok (some (iptables.restore x))) f e in
        let (text6, d6, same6) = bind_ok (binary.save b) (λ x. ok (some (binary.restore x))) g c in
        subst
          (λ x.
            IsUndo (a, b) x
              (run_each (run_mixed_no_save t iptables (some binary)) instructions (a, b)))
          (ap (λ x. both x (some (binary.restore text6))) (ok-injective same)
            ∙ ap (λ y. both f y) (ok-injective same6)
            ∙ ok-injective last)
          (always-IsUndo (a, b) (λ (x, y). (iptables.restore text x, binary.restore text6 y)) _
            (λ now. rw (h a now.0 text d, k b now.1 text6 d6) refl)))

-- Where ip6tables, if there is one, restores what it saved, the instructions of
-- runIP6tablesInstructions take effect all together, or there is an error and the rules are as
-- they were; it panics only where one of the instructions or the saving does, and never by a
-- restore function that is nil.
pub run_ip6tables_instructions-IsAtomic :
    {Rules : Type 0} (t : Texts) (binary : Option (Binary Rules)) (instructions : List String)
    (before : Rules)
    → RestoresAny binary
    → IsAtomic before
        (save_and_restore_ipv6 binary before)
        (run_each (run_ip6tables_no_save t binary) instructions before)
        (run_ip6tables_instructions t binary instructions before)
unfolding run_ip6tables_instructions
run_ip6tables_instructions-IsAtomic t binary instructions before h =
    with_saved-IsAtomic (run_each (run_ip6tables_no_save t binary) instructions)
      (save_and_restore_ipv6 binary before) before
      (saved_ipv6-IsUndo t binary instructions before h)
