-- ===== src/Iptables/Parse.antt =====
-- internal/firewall/iptables/parse.go, and the TCP flags of tcp.go and list.go.
pub mod Flags
pub mod Progress
use gluetun.Prelude.{
  ℕ, zero, suc, ltb, ◌+◌, Bool, true, false, not, ◌||◌, Option, none, some, List, [], ◌∷◌, String,
  str_eq, str_append, if◌then◌else◌, length, drop,
}
use gluetun.Iptables.{
  command_malformed, value_malformed, tcp_flags_malformed, tcp_flag_unknown, Result, ok, err, panic,
  ◌>>=◌, Cidr, TcpFlags, Mark, Instruction,
}

-- What is used of the packages strings, strconv and netip: strings.Fields, strings.Split,
-- strings.TrimPrefix, strings.Index of a slash, ParsePrefix, ParseAddr with PrefixFrom at the
-- address's length, and ParseUint with its base and bits.
pub record Texts : Type 0 where
  pub words : String → List String
  pub split : String → String → List String
  pub trim_prefix : String → String → String
  pub has_slash : String → Bool
  pub read_prefix : String → Option Cidr
  pub read_address : String → Option Cidr
  pub read_uint : ℕ → ℕ → String → Option ℕ

abbrev pub value_of : {A : Type 0} → Option A → Result A
value_of none = err value_malformed
value_of (some a) = ok a

unfoldable pub parse_ip_prefix : Texts → String → Result (Option Cidr)
parse_ip_prefix t value =
    if t.has_slash value
    then (value_of (t.read_prefix value) >>= λ c. ok (some c))
    else (value_of (t.read_address value) >>= λ c. ok (some c))

abbrev pub parse_port : Texts → String → Result ℕ
parse_port t value = value_of (t.read_uint 10 16 value)

-- The flags with their numbers in hexadecimal and their names
pub all_flags : List (ℕ × String × String)
all_flags =
    (1, "0x01", "FIN")
    ∷ (2, "0x02", "SYN")
    ∷ (4, "0x04", "RST")
    ∷ (8, "0x08", "PSH")
    ∷ (16, "0x10", "ACK")
    ∷ (32, "0x20", "URG")
    ∷ (64, "0x40", "ECE")
    ∷ (128, "0x80", "CWR")
    ∷ []

pub find_flag : String → List (ℕ × String × String) → Result ℕ
find_flag s [] = err tcp_flag_unknown
find_flag s ((flag, number, name) ∷ flags) =
    if str_eq s number || str_eq s name then ok flag else find_flag s flags

unfoldable pub parse_tcp_flag : String → Result ℕ
unfolding find_flag all_flags
parse_tcp_flag s = find_flag s all_flags

-- A loop that parses every entry, up to the first error.
unfoldable pub parse_each : (String → Result ℕ) → List String → Result (List ℕ)
parse_each parse [] = ok []
parse_each parse (s ∷ ss) = do n ← parse s; ns ← parse_each parse ss; ok (n ∷ ns)

pub parse_tcp_flag_fields : Texts → List String → Result TcpFlags
unfolding parse_each
parse_tcp_flag_fields t (mask_field ∷ comparison_field ∷ []) = do
  mask ← parse_each parse_tcp_flag (t.split mask_field ",")
  comparison ← parse_each parse_tcp_flag (t.split comparison_field ",")
  ok (record { mask = mask; comparison = comparison })
parse_tcp_flag_fields t _ = err tcp_flags_malformed

unfoldable pub parse_tcp_flags : Texts → String → Result TcpFlags
unfolding parse_tcp_flag_fields
parse_tcp_flags t value = parse_tcp_flag_fields t (t.split (t.trim_prefix value "flags:") "/")

pub parse_to_ports : Texts → String → Result (List ℕ)
unfolding parse_each
parse_to_ports t value = parse_each (parse_port t) (t.split value ",")

-- The values after a flag: a flag without enough of them is refused.
pub pre_check_instruction_fields : String → List String → Result ℕ
pre_check_instruction_fields flag values =
    if str_eq flag "--tcp-flags"
    then (if ltb (length values) 2 then err command_malformed else ok 3)
    else if ltb (length values) 1
    then err command_malformed
    else ok 2

-- parseMatchModule, from the values after the flag: `fields[2]` may be out of range.
pub parse_match_mark : List String → Instruction → Result (ℕ × Instruction)
parse_match_mark [] i = panic
parse_match_mark (value ∷ values) i =
    if str_eq value "!"
    then ok (3, record i { mark = record { invert = true; value = i.mark.value } })
    else err command_malformed

pub parse_match_module : String → List String → Instruction → Result (ℕ × Instruction)
unfolding parse_match_mark
parse_match_module value values i =
    if str_eq value "tcp" || str_eq value "udp"
    then ok (2, i)
    else if str_eq value "mark"
    then parse_match_mark values i
    else err command_malformed

-- The value of a mark. The message of the error reads `fields[2]`, which may be out of range.
pub parse_mark_value : Option ℕ → List String → Instruction → Result Instruction
parse_mark_value (some n) values i =
    ok (record i { mark = record { invert = i.mark.invert; value = n } })
parse_mark_value none [] i = panic
parse_mark_value none (value ∷ values) i = err value_malformed

pub parse_tcp_flags_value : Texts → String → List String → Instruction → Result Instruction
unfolding parse_tcp_flags
parse_tcp_flags_value t mask [] i = panic
parse_tcp_flags_value t mask (comparison ∷ values) i =
    parse_tcp_flags t (str_append mask (str_append "/" comparison)) >>= λ f.
    ok (record i { tcp_flags = f })

abbrev pub is_flag : String → String → String → Bool
is_flag flag short long = str_eq flag short || str_eq flag long

-- The switch of parseInstructionFlag, for a flag, its first value, and the fields after them.
pub parse_flag_value :
    Texts → ℕ → String → String → List String → Instruction → Result (ℕ × Instruction)
unfolding parse_match_module parse_mark_value parse_ip_prefix parse_to_ports parse_tcp_flags_value
parse_flag_value t consumed flag value values i =
    if is_flag flag "-t" "--table"
    then ok (consumed, record i { table = value })
    else if is_flag flag "-D" "--delete"
    then ok (consumed, record i { append = false; chain = value })
    else if is_flag flag "-A" "--append"
    then ok (consumed, record i { append = true; chain = value })
    else if is_flag flag "-j" "--jump"
    then ok (consumed, record i { target = value })
    else if is_flag flag "-p" "--protocol"
    then ok (consumed, record i { protocol = value })
    else if is_flag flag "-m" "--match"
    then parse_match_module value values i
    else if str_eq flag "--mark"
    then (parse_mark_value (t.read_uint 0 32 value) values i >>= λ j. ok (consumed, j))
    else if is_flag flag "-i" "--in-interface"
    then ok (consumed, record i { input_interface = value })
    else if is_flag flag "-o" "--out-interface"
    then ok (consumed, record i { output_interface = value })
    else if is_flag flag "-s" "--source"
    then (parse_ip_prefix t value >>= λ c. ok (consumed, record i { source = c }))
    else if str_eq flag "--sport"
    then (parse_port t value >>= λ n. ok (consumed, record i { source_port = n }))
    else if is_flag flag "-d" "--destination"
    then (parse_ip_prefix t value >>= λ c. ok (consumed, record i { destination = c }))
    else if str_eq flag "--dport"
    then (parse_port t value >>= λ n. ok (consumed, record i { destination_port = n }))
    else if str_eq flag "--ctstate"
    then ok (consumed, record i { ctstate = t.split value "," })
    else if str_eq flag "--to-ports"
    then (parse_to_ports t value >>= λ ns. ok (consumed, record i { to_ports = ns }))
    else if str_eq flag "--tcp-flags"
    then (parse_tcp_flags_value t value values i >>= λ j. ok (consumed, j))
    else err command_malformed

pub parse_instruction_flag : Texts → List String → Instruction → Result (ℕ × Instruction)
unfolding pre_check_instruction_fields parse_flag_value
parse_instruction_flag t [] i = panic
parse_instruction_flag t (flag ∷ []) i = pre_check_instruction_fields flag [] >>= λ consumed. panic
parse_instruction_flag t (flag ∷ value ∷ values) i =
    pre_check_instruction_fields flag (value ∷ values) >>= λ consumed.
    parse_flag_value t consumed flag value values i

-- The loop over the fields, on fuel.
pub flags_loop : Texts → ℕ → List String → Instruction → Result Instruction
unfolding parse_instruction_flag
flags_loop t fuel [] i = ok i
flags_loop t zero (field ∷ fields) i = panic
flags_loop t (suc fuel) (field ∷ fields) i =
    parse_instruction_flag t (field ∷ fields) i >>= λ (consumed, j).
    flags_loop t fuel (drop consumed (field ∷ fields)) j

pub set_defaults : Instruction → Instruction
set_defaults i = if str_eq i.table "" then record i { table = "filter" } else i

abbrev pub no_instruction : Instruction
no_instruction = record {
  table = "";
  append = false;
  chain = "";
  target = "";
  protocol = "";
  input_interface = "";
  output_interface = "";
  source = none;
  source_port = 0;
  destination = none;
  destination_port = 0;
  to_ports = [];
  ctstate = [];
  tcp_flags = record { mask = []; comparison = [] };
  mark = record { invert = false; value = 0 };
}

unfoldable pub parse_iptables_instruction : Texts → String → Result Instruction
unfolding flags_loop set_defaults
parse_iptables_instruction t s =
    if str_eq s ""
    then err command_malformed
    else (flags_loop t (length (t.words s)) (t.words s) no_instruction >>= λ i. ok (set_defaults i))
