-- ===== src/Iptables/Tests.antt =====
-- Runs of the parser and of the deletion of a rule, and the theorems at inputs.
use gluetun.Prelude.{
  suc, ◌-◌, ◌≡◌, refl, true, false, none, some, List, [], ◌∷◌, String, str_eq, str_append, eq_iff,
  if◌then◌else◌, arith,
}
use gluetun.Iptables.{ok, err, command_failed, panic, Instruction, ChainRule, Chain, equal_to_rule}
use gluetun.Iptables.Delete.{Program, delete_iptables_rule}
use gluetun.Iptables.Delete.First.{numbered, without_nth, without_first, delete_iptables_rule-first}
use gluetun.Iptables.Run.{
  Binary, run_each, run_mixed_no_save, save_and_restore, run_mixed_instructions,
}
use gluetun.Iptables.Run.Atomic.{IsAtomic, run_mixed_instructions-IsAtomic}
use gluetun.Iptables.Parse.{Texts, set_defaults, no_instruction, parse_iptables_instruction}
use gluetun.Iptables.Parse.Flags.{
  Flag, delete_from, in_interface, protocol_of, match_tcp, match_not_mark, mark_of,
  destination_port_of, jump_to, effects, written, parse_iptables_instruction-written,
}

abbrev command : String
command = "-D INPUT -i tun0 -p tcp -m tcp --dport 80 -m mark ! --mark 4867 --jump ACCEPT"

abbrev command_flags : List Flag
command_flags =
    delete_from false "INPUT"
    ∷ in_interface false "tun0"
    ∷ protocol_of false "tcp"
    ∷ match_tcp false
    ∷ destination_port_of 80 "80"
    ∷ match_not_mark false
    ∷ mark_of 4867 "4867"
    ∷ jump_to true "ACCEPT"
    ∷ []

abbrev command_words : List String
command_words =
    "-D" ∷ "INPUT" ∷ "-i" ∷ "tun0" ∷ "-p" ∷ "tcp" ∷ "-m" ∷ "tcp" ∷ "--dport" ∷ "80" ∷ "-m" ∷ "mark"
    ∷ "!" ∷ "--mark" ∷ "4867" ∷ "--jump" ∷ "ACCEPT" ∷ []

-- Texts that know the words of this command and its two numbers.
abbrev texts : Texts
texts = record {
  words = λ s. if str_eq s command then command_words else s ∷ [];
  split = λ s separator. s ∷ [];
  trim_prefix = λ s start. s;
  has_slash = λ s. false;
  read_prefix = λ s. none;
  read_address = λ s. none;
  read_uint =
      λ base bits s. if str_eq s "80" then some 80 else if str_eq s "4867" then some 4867 else none;
}

abbrev parsed : Instruction
parsed = record no_instruction {
  table = "filter";
  chain = "INPUT";
  target = "ACCEPT";
  protocol = "tcp";
  input_interface = "tun0";
  destination_port = 80;
  mark = record { invert = true; value = 4867 };
}

parse_run : parse_iptables_instruction texts command ≡ ok parsed
unfolding parse_iptables_instruction
parse_run = refl

-- A match of marks without a value, and a mark that is no number at the end
mark_panics :
    parse_iptables_instruction (record texts { words = λ s. "-m" ∷ "mark" ∷ [] }) "-m mark" ≡ panic
unfolding parse_iptables_instruction
mark_panics = refl

parse_iptables_instruction-written_example :
    parse_iptables_instruction texts command
    ≡ ok (set_defaults (effects texts command_flags no_instruction))
unfolding written
parse_iptables_instruction-written_example =
    parse_iptables_instruction-written texts command command_flags
      (λ e. absurd (ground (arith, (eq_iff command "").1 e))) refl
      (tt, (tt, (tt, (tt, (refl, (tt, (refl, (tt, tt))))))))

abbrev listed_rule : ChainRule
listed_rule = record {
  line_number = 1;
  packets = 0;
  bytes = 0;
  target = "ACCEPT";
  protocol = "tcp";
  input_interface = "tun0";
  output_interface = "*";
  source = some (record { address = "0.0.0.0"; bits = 0 });
  source_port = 0;
  destination = some (record { address = "0.0.0.0"; bits = 0 });
  destination_port = 80;
  redir_ports = [];
  ctstate = [];
  tcp_flags = record { mask = []; comparison = [] };
  mark = record { invert = true; value = 4867 };
}

rule_found : equal_to_rule parsed "filter" "INPUT" listed_rule ≡ true
unfolding equal_to_rule
rule_found = refl

abbrev input_chain : Chain
input_chain = record { name = "INPUT"; policy = "DROP"; packets = 0; bytes = 0; rules = [] }

-- A system with the rules of one chain.
abbrev program : Program (List ChainRule)
program = record {
  list = λ rules table chain. ok (record input_chain { rules = numbered 1 rules });
  delete_line = λ rules table chain line. (ok tt, without_nth (line - 1) rules);
}

abbrev two_rules : List ChainRule
two_rules = record listed_rule { destination_port = 22 } ∷ listed_rule ∷ []

delete_run :
    (delete_iptables_rule program two_rules (ok parsed)).1
    ≡ record listed_rule { destination_port = 22 } ∷ []
unfolding delete_iptables_rule
delete_run = refl

delete_iptables_rule-first_example :
    let (result, after) = delete_iptables_rule program two_rules (ok parsed) in
    (result ≡ ok tt) × (after ≡ without_first (equal_to_rule parsed "filter" "INPUT") two_rules)
delete_iptables_rule-first_example =
    delete_iptables_rule-first program (λ rules. rules) two_rules parsed input_chain refl refl
      (λ n h. (refl, (let same : suc n - 1 ≡ n = omega arith in rw same refl)))

-- A binary whose rules are a text, and which fails on an instruction of another word.
abbrev text_binary : Binary String
text_binary = record {
  program = record {
    list = λ rules table chain. err command_failed;
    delete_line = λ rules table chain line. (ok tt, rules);
  };
  run = λ words rules. elim words [
    | [] ↦ (err command_failed, rules)
    | word ∷ more ↦
        if str_eq word "--append"
        then (ok tt, str_append rules "+")
        else (err command_failed, str_append rules "?")
  ];
  save = λ rules. ok rules;
  restore = λ saved rules. saved;
}

abbrev instructions : List String
instructions = "--append" ∷ "--other" ∷ []

restored_run :
    run_mixed_instructions texts text_binary (some text_binary) instructions ("a", "b")
    ≡ (err command_failed, ("a", "b"))
unfolding run_mixed_instructions
restored_run = refl

run_mixed_instructions-IsAtomic_example :
    IsAtomic
      ("a", "b")
      (save_and_restore text_binary (some text_binary) ("a", "b"))
      (run_each (run_mixed_no_save texts text_binary (some text_binary)) instructions ("a", "b"))
      (run_mixed_instructions texts text_binary (some text_binary) instructions ("a", "b"))
run_mixed_instructions-IsAtomic_example =
    run_mixed_instructions-IsAtomic texts text_binary (some text_binary) instructions ("a", "b")
      (λ rules now saved e. ground (arith, e)) (λ rules now saved e. ground (arith, e))
