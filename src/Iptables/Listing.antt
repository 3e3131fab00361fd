-- ===== src/Iptables/Listing.antt =====
-- internal/firewall/iptables/list.go: the parser of a listed chain. The loop over the optional
-- fields runs on fuel, one unit a field.
pub mod Numbers
pub mod Found
pub mod Progress
mod Tests
use gluetun.Prelude.{
  ℕ, zero, suc, ◌+◌, ◌*◌, ◌%◌, ◌^◌, ◌==◌, ltb, Bool, true, false, not, ◌||◌, ◌&&◌, Option, none,
  some, List, [], ◌∷◌, String, str_eq, if◌then◌else◌, length, take, drop,
}
use gluetun.Iptables.{
  chain_malformed, value_malformed, Result, ok, err, panic, ◌>>=◌, Cidr, TcpFlags, Mark, ChainRule,
  Chain, slices_equal,
}
use gluetun.Iptables.Parse.{
  Texts, value_of, parse_ip_prefix, parse_port, parse_tcp_flags, parse_each,
}

-- What is used of the package strings besides: TrimSpace, HasPrefix, ContainsRune of a colon, the
-- text without the brackets and commas (ReplaceAll), and the last byte with what is before it.
pub record LineTexts : Type 0 where
  pub texts : Texts
  pub trim_space : String → String
  pub has_prefix : String → String → Bool
  pub has_colon : String → Bool
  pub without_brackets : String → String
  pub last_byte : String → Option ℕ
  pub without_last : String → String

pub parse_line_number : Texts → String → Result ℕ
parse_line_number t s =
    value_of (t.read_uint 10 16 s) >>= λ n. if n == 0 then err value_malformed else ok n

pub check_target : String → Result (Unit {0})
check_target target =
    if str_eq target "ACCEPT"
      || (str_eq target "DROP" || (str_eq target "REJECT" || str_eq target "REDIRECT"))
    then ok tt
    else err value_malformed

pub parse_protocol : String → Result String
parse_protocol s =
    if str_eq s "0" || str_eq s "all"
    then ok ""
    else if str_eq s "1" || str_eq s "icmp"
    then ok "icmp"
    else if str_eq s "6" || str_eq s "tcp"
    then ok "tcp"
    else if str_eq s "17" || str_eq s "udp"
    then ok "udp"
    else err value_malformed

-- The multiplier that a letter stands for, if it is one: K, M, G or T.
pub multiplier_of : ℕ → Option ℕ
multiplier_of letter =
    if letter == 75
    then some 1000
    else if letter == 77
    then some 1000000
    else if letter == 71
    then some 1000000000
    else if letter == 84
    then some 1000000000000
    else none

abbrev pub multiplier_at : Option ℕ → Option ℕ
multiplier_at none = none
multiplier_at (some letter) = multiplier_of letter

-- The product wraps around at 64 bits.
pub parse_metric_size : LineTexts → String → Result ℕ
unfolding multiplier_of
parse_metric_size t size =
    if str_eq size "" then err value_malformed else elim (multiplier_at (t.last_byte size)) [
      | some multiplier ↦ value_of (t.texts.read_uint 10 64 (t.without_last size)) >>= λ n.
          ok (n * multiplier % 2 ^ 64)
      | none ↦ value_of (t.texts.read_uint 10 64 size) >>= λ n. ok (n * 1 % 2 ^ 64)
    ]

pub parse_chain_rule_field : LineTexts → ℕ → String → ChainRule → Result ChainRule
unfolding parse_line_number check_target parse_protocol parse_metric_size parse_ip_prefix
parse_chain_rule_field t index field rule =
    if str_eq field ""
    then err chain_malformed
    else if index == 0
    then (parse_line_number t.texts field >>= λ n. ok (record rule { line_number = n }))
    else if index == 1
    then (parse_metric_size t field >>= λ n. ok (record rule { packets = n }))
    else if index == 2
    then (parse_metric_size t field >>= λ n. ok (record rule { bytes = n }))
    else if index == 3
    then (check_target field >>= λ _. ok (record rule { target = field }))
    else if index == 4
    then (parse_protocol field >>= λ p. ok (record rule { protocol = p }))
    else if index == 5
    then ok rule
    else if index == 6
    then ok (record rule { input_interface = field })
    else if index == 7
    then ok (record rule { output_interface = field })
    else if index == 8
    then (parse_ip_prefix t.texts field >>= λ c. ok (record rule { source = c }))
    else if index == 9
    then (parse_ip_prefix t.texts field >>= λ c. ok (record rule { destination = c }))
    else ok rule

pub parse_chain_rule_fields : LineTexts → ℕ → List String → ChainRule → Result ChainRule
unfolding parse_chain_rule_field
parse_chain_rule_fields t index [] rule = ok rule
parse_chain_rule_fields t index (field ∷ fields) rule =
    parse_chain_rule_field t index field rule >>= λ r.
    parse_chain_rule_fields t (index + 1) fields r

-- What is set by an optional field that starts with dpt, spt or flags, with how many were consumed.
pub parse_udp_optional : LineTexts → List String → ℕ → ChainRule → Result (ℕ × ChainRule)
parse_udp_optional t [] consumed rule = ok (consumed, rule)
parse_udp_optional t (value ∷ values) consumed rule =
    if not (t.has_colon value)
    then ok (consumed, rule)
    else if t.has_prefix value "dpt:"
    then (parse_port t.texts (t.texts.trim_prefix value "dpt:") >>= λ port.
        parse_udp_optional t values (consumed + 1) (record rule { destination_port = port }))
    else if t.has_prefix value "spt:"
    then (parse_port t.texts (t.texts.trim_prefix value "spt:") >>= λ port.
        parse_udp_optional t values (consumed + 1) (record rule { source_port = port }))
    else err chain_malformed

pub parse_tcp_optional : LineTexts → List String → ℕ → ChainRule → Result (ℕ × ChainRule)
unfolding parse_tcp_flags
parse_tcp_optional t [] consumed rule = ok (consumed, rule)
parse_tcp_optional t (value ∷ values) consumed rule =
    if not (t.has_colon value)
    then ok (consumed, rule)
    else if t.has_prefix value "dpt:"
    then (parse_port t.texts (t.texts.trim_prefix value "dpt:") >>= λ port.
        parse_tcp_optional t values (consumed + 1) (record rule { destination_port = port }))
    else if t.has_prefix value "spt:"
    then (parse_port t.texts (t.texts.trim_prefix value "spt:") >>= λ port.
        parse_tcp_optional t values (consumed + 1) (record rule { source_port = port }))
    else if t.has_prefix value "flags:"
    then (parse_tcp_flags t.texts value >>= λ flags.
        parse_tcp_optional t values (consumed + 1) (record rule { tcp_flags = flags }))
    else err chain_malformed

pub parse_ports_csv : Texts → String → Result (List ℕ)
unfolding parse_each
parse_ports_csv t s = if str_eq s "" then ok [] else parse_each (parse_port t) (t.split s ",")

-- parseMark: the fields are read without a check that they are there.
pub parse_mark_match : Texts → List String → Result (Mark × ℕ)
parse_mark_match t [] = panic
parse_mark_match t (value ∷ []) =
    if str_eq value "!"
    then panic
    else (value_of (t.read_uint 0 32 value) >>= λ n. ok (record { invert = false; value = n }, 2))
parse_mark_match t (value ∷ next ∷ values) =
    if str_eq value "!"
    then (value_of (t.read_uint 0 32 next) >>= λ n. ok (record { invert = true; value = n }, 3))
    else (value_of (t.read_uint 0 32 value) >>= λ n. ok (record { invert = false; value = n }, 2))

pub parse_mark : Texts → List String → Result (Mark × ℕ)
unfolding parse_mark_match
parse_mark t [] = panic
parse_mark t (mode ∷ values) =
    if str_eq mode "match" then parse_mark_match t values else err chain_malformed

-- What follows "redir": the fields are read without a check that they are there.
pub parse_redirection : Texts → List String → Result (List ℕ)
unfolding parse_ports_csv
parse_redirection t [] = panic
parse_redirection t (field ∷ []) = if str_eq field "ports" then panic else err chain_malformed
parse_redirection t (field ∷ ports ∷ values) =
    if str_eq field "ports" then parse_ports_csv t ports else err chain_malformed

abbrev pub parse_states : Texts → List String → Result (List String)
parse_states t [] = panic
parse_states t (value ∷ values) = ok (t.split value ",")

-- One round of the loop over the optional fields: how many fields follow, and the rule.
pub parse_optional_field : LineTexts → String → List String → ChainRule → Result (ℕ × ChainRule)
unfolding parse_udp_optional parse_tcp_optional parse_redirection parse_mark
parse_optional_field t field values rule =
    if str_eq field "udp"
    then parse_udp_optional t values 0 rule
    else if str_eq field "tcp"
    then parse_tcp_optional t values 0 rule
    else if str_eq field "redir"
    then (parse_redirection t.texts values >>= λ ports. ok (2, record rule { redir_ports = ports }))
    else if str_eq field "ctstate"
    then (parse_states t.texts values >>= λ states. ok (1, record rule { ctstate = states }))
    else if str_eq field "mark"
    then (parse_mark t.texts values >>= λ (m, consumed). ok (consumed, record rule { mark = m }))
    else err chain_malformed

pub optional_fields_loop : LineTexts → ℕ → List String → ChainRule → Result ChainRule
unfolding parse_optional_field
optional_fields_loop t fuel [] rule = ok rule
optional_fields_loop t zero (field ∷ values) rule = panic
optional_fields_loop t (suc fuel) (field ∷ values) rule =
    parse_optional_field t field values rule >>= λ (consumed, r).
    optional_fields_loop t fuel (drop consumed values) r

abbrev pub no_rule : ChainRule
no_rule = record {
  line_number = 0;
  packets = 0;
  bytes = 0;
  target = "";
  protocol = "";
  input_interface = "";
  output_interface = "";
  source = none;
  source_port = 0;
  destination = none;
  destination_port = 0;
  redir_ports = [];
  ctstate = [];
  tcp_flags = record { mask = []; comparison = [] };
  mark = record { invert = false; value = 0 };
}

pub parse_rule_words : LineTexts → List String → Result ChainRule
unfolding parse_chain_rule_fields optional_fields_loop
parse_rule_words t fields =
    if ltb (length fields) 10
    then err chain_malformed
    else (parse_chain_rule_fields t 0 (take 10 fields) no_rule >>= λ rule.
        optional_fields_loop t (length (drop 10 fields)) (drop 10 fields) rule)

pub parse_chain_rule_line : LineTexts → String → Result ChainRule
unfolding parse_rule_words
parse_chain_rule_line t line =
    if str_eq (t.trim_space line) ""
    then err chain_malformed
    else parse_rule_words t (t.texts.words (t.trim_space line))

-- The first line, by its eight words
pub parse_chain_general_words : LineTexts → List String → Result Chain
unfolding check_target parse_metric_size
parse_chain_general_words t (w0 ∷ name ∷ w2 ∷ policy ∷ packets_text ∷ w5 ∷ bytes_text ∷ w7 ∷ []) =
    if str_eq w0 "Chain" && (str_eq w2 "policy" && (str_eq w5 "packets" && str_eq w7 "bytes"))
    then (do
      _ ← check_target policy
      packets ← parse_metric_size t packets_text
      bytes ← parse_metric_size t bytes_text
      ok (record { name = name; policy = policy; packets = packets; bytes = bytes; rules = [] }))
    else err chain_malformed
parse_chain_general_words t _ = err chain_malformed

pub parse_chain_general_data_line : LineTexts → String → Result Chain
unfolding parse_chain_general_words
parse_chain_general_data_line t line =
    parse_chain_general_words t (t.texts.words (t.without_brackets (t.trim_space line)))

pub parse_rules : LineTexts → List String → Result (List ChainRule)
unfolding parse_chain_rule_line
parse_rules t [] = ok []
parse_rules t (line ∷ lines) = do
  rule ← parse_chain_rule_line t line
  rules ← parse_rules t lines
  ok (rule ∷ rules)

abbrev pub expected_legend_fields : List String
expected_legend_fields =
    "num" ∷ "pkts" ∷ "bytes" ∷ "target" ∷ "prot" ∷ "opt" ∷ "in" ∷ "out" ∷ "source" ∷ "destination"
    ∷ []

pub without_comments : LineTexts → List String → List String
without_comments t [] = []
without_comments t (line ∷ lines) =
    let rest = without_comments t lines in if t.has_prefix line "#" then rest else line ∷ rest

pub parse_chain_lines : LineTexts → List String → Result Chain
unfolding parse_chain_general_data_line parse_rules slices_equal
parse_chain_lines t (general ∷ legend ∷ lines) =
    parse_chain_general_data_line t general >>= λ chain.
    if not (
      slices_equal (λ a b. str_eq a b) expected_legend_fields (t.texts.words (t.trim_space legend)))
    then err chain_malformed
    else (parse_rules t lines >>= λ rules. ok (record chain { rules = rules }))
parse_chain_lines t _ = err chain_malformed

unfoldable pub parse_chain : LineTexts → String → Result Chain
unfolding parse_chain_lines without_comments
parse_chain t output =
    parse_chain_lines t (without_comments t (t.texts.split (t.trim_space output) "\n"))
