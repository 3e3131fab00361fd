-- ===== src/Iptables/Delete.antt =====
-- internal/firewall/iptables/delete.go. `system` is the state that the runs of the program read
-- and write.
pub mod First
use gluetun.Prelude.{ℕ, zero, suc, ◌==◌, Bool, true, false, List, [], ◌∷◌, String, if◌then◌else◌}
use gluetun.Iptables.{Error, Result, ok, err, panic, Instruction, ChainRule, Chain, equal_to_rule}

-- What the program does: list a chain, with the parsing of the output, and delete a line of it.
pub record Program (System : Type 0) : Type 0 where
  pub list : System → String → String → Result Chain
  pub delete_line : System → String → String → ℕ → Result (Unit {0}) × System

-- The loop over the rules
unfoldable pub matching_line : Instruction → String → List ChainRule → ℕ
unfolding equal_to_rule
matching_line i chain [] = 0
matching_line i chain (rule ∷ rules) =
    if equal_to_rule i i.table chain rule then rule.line_number else matching_line i chain rules

pub find_line_number : {System : Type 0} → Program System → System → Instruction → Result ℕ
unfolding matching_line
find_line_number program system i = elim (program.list system i.table i.chain) [
  | ok chain ↦ ok (matching_line i chain.name chain.rules)
  | err e ↦ err e
  | panic ↦ panic
]

abbrev pub delete_found :
    {System : Type 0}
    → Program System
    → System
    → Instruction
    → Result ℕ
    → Result (Unit {0}) × System
delete_found program system i (ok line) =
    if line == 0 then (ok tt, system) else program.delete_line system i.table i.chain line
delete_found program system i (err e) = (err e, system)
delete_found program system i panic = (panic, system)

-- deleteIPTablesRule, from the result of parsing the instruction.
unfoldable pub delete_iptables_rule :
    {System : Type 0} → Program System → System → Result Instruction → Result (Unit {0}) × System
unfolding find_line_number
delete_iptables_rule program system (ok i) =
    delete_found program system i (find_line_number program system i)
delete_iptables_rule program system (err e) = (err e, system)
delete_iptables_rule program system panic = (panic, system)
