-- ===== src/Iptables/Run.antt =====
-- internal/firewall/iptables: iptables.go, ip6tables.go, iptablesmix.go, atomic.go, and
-- isDeleteMatchInstruction of delete.go. The rules of iptables and those of ip6tables are the two
-- parts of the system; there is no ip6tables where its path is empty. The mutex is held for the
-- whole of each function. A restoration that fails is only logged.
pub mod Atomic
use gluetun.Prelude.{
  Bool, true, false, not, Option, none, some, List, [], ◌∷◌, String, str_eq, if◌then◌else◌,
}
use gluetun.Iptables.{Error, Result, ok, err, panic, ◌>>=◌}
use gluetun.Iptables.Parse.{Texts, is_flag, parse_iptables_instruction}
use gluetun.Iptables.Delete.{Program, delete_iptables_rule}

-- What a binary does to the rules that it manages.
pub record Binary (Rules : Type 0) : Type 0 where
  pub program : Program Rules
  pub run : List String → Rules → Result (Unit {0}) × Rules
  pub save : Rules → Result String
  pub restore : String → Rules → Rules

abbrev pub Run : Type 0 → Type 0
Run System = System → Result (Unit {0}) × System

-- The fields after the delete flag: the chain alone, or with a line number or a match.
pub is_match : Texts → List String → Bool
is_match t [] = false
is_match t (chain ∷ []) = true
is_match t (chain ∷ value ∷ values) = elim (t.read_uint 10 16 value) [
  | none ↦ true
  | some line ↦ false
]

pub is_delete_match_fields : Texts → List String → Bool
unfolding is_match
is_delete_match_fields t [] = false
is_delete_match_fields t (field ∷ fields) =
    if not (is_flag field "-D" "--delete")
    then is_delete_match_fields t fields
    else is_match t fields

pub is_delete_match_instruction : Texts → String → Bool
unfolding is_delete_match_fields
is_delete_match_instruction t instruction = is_delete_match_fields t (t.words instruction)

pub run_no_save : {Rules : Type 0} → Texts → Binary Rules → String → Run Rules
unfolding is_delete_match_instruction
run_no_save t binary instruction rules =
    if is_delete_match_instruction t instruction
    then delete_iptables_rule binary.program rules (parse_iptables_instruction t instruction)
    else binary.run (t.words instruction) rules

pub run_ip6tables_no_save : {Rules : Type 0} → Texts → Option (Binary Rules) → String → Run Rules
unfolding run_no_save
run_ip6tables_no_save t none instruction rules = (ok tt, rules)
run_ip6tables_no_save t (some binary) instruction rules = run_no_save t binary instruction rules

-- The next run, unless there is an error.
abbrev pub and_then :
    {System : Type 0} → Result (Unit {0}) × System → Run System → Result (Unit {0}) × System
and_then (ok u, system) next = next system
and_then (err e, system) next = (err e, system)
and_then (panic, system) next = (panic, system)

pub run_each : {System : Type 0} → (String → Run System) → List String → Run System
run_each run [] system = (ok tt, system)
run_each run (instruction ∷ instructions) system =
    and_then (run instruction system) (run_each run instructions)

abbrev pub run_first : {A B : Type 0} → Run A → Run (A × B)
run_first run (a, b) = let (result, after) = run a in (result, (after, b))

abbrev pub run_second : {A B : Type 0} → Run B → Run (A × B)
run_second run (a, b) = let (result, after) = run b in (result, (a, after))

pub run_mixed_no_save : {A B : Type 0} → Texts → Binary A → Option (Binary B) → String → Run (A × B)
unfolding run_no_save run_ip6tables_no_save
run_mixed_no_save t iptables ip6tables instruction system =
    and_then (run_first (run_no_save t iptables instruction) system)
      (run_second (run_ip6tables_no_save t ip6tables instruction))

-- A restore function; one that is nil is `none`, and to call it panics.
abbrev pub Restore : Type 0 → Type 0
Restore System = Option (System → System)

abbrev pub call_on_error :
    {System : Type 0} → Restore System → Result (Unit {0}) × System → Result (Unit {0}) × System
call_on_error restore (ok u, system) = (ok u, system)
call_on_error none (err e, system) = (panic, system)
call_on_error (some restore) (err e, system) = (err e, restore system)
call_on_error restore (panic, system) = (panic, system)

unfoldable pub save_and_restore_ipv4 :
    {Rules : Type 0} → Binary Rules → Rules → Result (Restore Rules)
save_and_restore_ipv4 binary rules = binary.save rules >>= λ saved. ok (some (binary.restore saved))

unfoldable pub save_and_restore_ipv6 :
    {Rules : Type 0} → Option (Binary Rules) → Rules → Result (Restore Rules)
save_and_restore_ipv6 none rules = ok none
save_and_restore_ipv6 (some binary) rules =
    binary.save rules >>= λ saved. ok (some (binary.restore saved))

abbrev pub both : {A B : Type 0} → Restore A → Restore B → Restore (A × B)
both none second = none
both (some f) none = some (λ (a, b). (f a, b))
both (some f) (some g) = some (λ (a, b). (f a, g b))

unfoldable pub save_and_restore :
    {A B : Type 0} → Binary A → Option (Binary B) → A × B → Result (Restore (A × B))
unfolding save_and_restore_ipv4 save_and_restore_ipv6
save_and_restore iptables ip6tables (a, b) = do
  restore_ipv4 ← save_and_restore_ipv4 iptables a
  restore_ipv6 ← save_and_restore_ipv6 ip6tables b
  ok (both restore_ipv4 restore_ipv6)

-- To run with what was saved, and to restore it on an error.
abbrev pub with_saved : {System : Type 0} → Result (Restore System) → Run System → Run System
with_saved (ok restore) run system = call_on_error restore (run system)
with_saved (err e) run system = (err e, system)
with_saved panic run system = (panic, system)

unfoldable pub run_iptables_instructions :
    {Rules : Type 0} → Texts → Binary Rules → List String → Run Rules
unfolding run_each run_no_save save_and_restore_ipv4
run_iptables_instructions t binary instructions rules =
    with_saved (save_and_restore_ipv4 binary rules) (run_each (run_no_save t binary) instructions)
      rules

unfoldable pub run_ip6tables_instructions :
    {Rules : Type 0} → Texts → Option (Binary Rules) → List String → Run Rules
unfolding run_each run_ip6tables_no_save save_and_restore_ipv6
run_ip6tables_instructions t binary instructions rules =
    with_saved (save_and_restore_ipv6 binary rules)
      (run_each (run_ip6tables_no_save t binary) instructions) rules

unfoldable pub run_mixed_instructions :
    {A B : Type 0} → Texts → Binary A → Option (Binary B) → List String → Run (A × B)
unfolding run_each run_mixed_no_save save_and_restore
run_mixed_instructions t iptables ip6tables instructions system =
    with_saved (save_and_restore iptables ip6tables system)
      (run_each (run_mixed_no_save t iptables ip6tables) instructions) system

-- The functions for one instruction
unfoldable pub run_iptables_instruction :
    {Rules : Type 0} → Texts → Binary Rules → String → Run Rules
unfolding run_no_save save_and_restore_ipv4
run_iptables_instruction t binary instruction rules =
    with_saved (save_and_restore_ipv4 binary rules) (run_no_save t binary instruction) rules

unfoldable pub run_ip6tables_instruction :
    {Rules : Type 0} → Texts → Option (Binary Rules) → String → Run Rules
unfolding run_ip6tables_no_save save_and_restore_ipv6
run_ip6tables_instruction t binary instruction rules =
    with_saved (save_and_restore_ipv6 binary rules) (run_ip6tables_no_save t binary instruction)
      rules

unfoldable pub run_mixed_instruction :
    {A B : Type 0} → Texts → Binary A → Option (Binary B) → String → Run (A × B)
unfolding run_mixed_no_save save_and_restore
run_mixed_instruction t iptables ip6tables instruction system =
    with_saved (save_and_restore iptables ip6tables system)
      (run_mixed_no_save t iptables ip6tables instruction) system
