-- ===== src/Iptables/Listing/Tests.antt =====
-- A listing parsed, and the theorem at it.
use gluetun.Prelude.{◌≡◌, refl, true, none, some, List, [], ◌∷◌, String, str_eq, if◌then◌else◌}
use gluetun.Iptables.{ok, Instruction, Chain}
use gluetun.Iptables.Delete.{matching_line}
use gluetun.Iptables.Parse.{no_instruction}
use gluetun.Iptables.Listing.{LineTexts, no_rule, expected_legend_fields, parse_chain}
use gluetun.Iptables.Listing.Found.{FoundLine, parse_chain-FoundLine}

abbrev general_words : List String
general_words = "Chain" ∷ "INPUT" ∷ "policy" ∷ "DROP" ∷ "2K" ∷ "packets" ∷ "7" ∷ "bytes" ∷ []

abbrev rule_words : List String
rule_words =
    "7" ∷ "7" ∷ "7" ∷ "ACCEPT" ∷ "6" ∷ "--" ∷ "tun0" ∷ "*" ∷ "0.0.0.0/0" ∷ "0.0.0.0/0" ∷ "tcp"
    ∷ "dpt:7" ∷ "redir" ∷ "ports" ∷ "7" ∷ []

-- Texts that know one listing, whose numbers are 2000, 7 and 0.
abbrev line_texts : LineTexts
line_texts = record {
  texts = record {
    words = λ s.
        if str_eq s "general"
        then general_words
        else if str_eq s "legend"
        then expected_legend_fields
        else rule_words;
    split = λ s separator.
        if str_eq separator "\n" then "general" ∷ "# comment" ∷ "legend" ∷ "rule" ∷ [] else s ∷ [];
    trim_prefix = λ s start. if str_eq s "dpt:7" then "7" else s;
    has_slash = λ s. true;
    read_prefix =
        λ s. if str_eq s "0.0.0.0/0" then some (record { address = "0.0.0.0"; bits = 0 }) else none;
    read_address = λ s. none;
    read_uint =
        λ base bits s. if str_eq s "7" then some 7 else if str_eq s "2" then some 2 else none;
  };
  trim_space = λ s. s;
  has_prefix = λ s start. if str_eq start "#" then str_eq s "# comment" else str_eq start "dpt:";
  has_colon = λ s. str_eq s "dpt:7";
  without_brackets = λ s. s;
  last_byte = λ s. if str_eq s "2K" then some 75 else some 55;
  without_last = λ s. if str_eq s "2K" then "2" else s;
}

abbrev listed : Chain
listed = record {
  name = "INPUT";
  policy = "DROP";
  packets = 2000;
  bytes = 7;
  rules =
      record no_rule {
        line_number = 7;
        packets = 7;
        bytes = 7;
        target = "ACCEPT";
        protocol = "tcp";
        input_interface = "tun0";
        output_interface = "*";
        source = some (record { address = "0.0.0.0"; bits = 0 });
        destination = some (record { address = "0.0.0.0"; bits = 0 });
        destination_port = 7;
        redir_ports = 7 ∷ [];
      }
      ∷ [];
}

listing_run : parse_chain line_texts "listing" ≡ ok listed
unfolding parse_chain
listing_run = refl

abbrev wanted : Instruction
wanted = record no_instruction {
  table = "filter";
  chain = "INPUT";
  target = "ACCEPT";
  protocol = "tcp";
  input_interface = "tun0";
  destination_port = 7;
  to_ports = 7 ∷ [];
}

line_run : matching_line wanted "INPUT" listed.rules ≡ 7
unfolding matching_line
line_run = refl

parse_chain-FoundLine_example :
    FoundLine wanted "INPUT" listed.rules (matching_line wanted "INPUT" listed.rules)
parse_chain-FoundLine_example = parse_chain-FoundLine line_texts "listing" wanted listed listing_run

abbrev optional_words : List String
optional_words = "tcp" ∷ "dpt:7" ∷ "redir" ∷ "ports" ∷ "7" ∷ []
