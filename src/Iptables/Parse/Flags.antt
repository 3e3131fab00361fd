-- ===== src/Iptables/Parse/Flags.antt =====
-- internal/firewall/iptables/parse.go: an instruction written as flags is parsed to what they mean.
use gluetun.Prelude.{
  ℕ, zero, suc, ◌≡◌, ◌≢◌, ◌≤◌, refl, ap, ◌∙◌, ltb, Bool, true, false, some, List, [], ◌∷◌, ◌++◌,
  String, str_eq, str_append, eq_iff, if◌then◌else◌, length, drop, length-append, All, arith,
  if_cases,
}
use gluetun.Iptables.{ok, ◌>>=◌, Cidr, TcpFlags, Instruction}
use gluetun.Iptables.Parse.{
  Texts, parse_ip_prefix, parse_port, parse_to_ports, parse_tcp_flags, parse_match_mark,
  parse_match_module, parse_mark_value, parse_tcp_flags_value, pre_check_instruction_fields,
  parse_flag_value, parse_instruction_flag, flags_loop, set_defaults, no_instruction,
  parse_iptables_instruction,
}

-- A flag with its values, and with what a value that is not kept as it is is read as. The Boolean
-- says whether the long spelling is used.
pub data Flag : Type 0 where
  table_of delete_from append_to jump_to protocol_of in_interface out_interface :
      Bool → String → Flag
  match_tcp match_udp match_not_mark : Bool → Flag
  source_of destination_of : Bool → Cidr → String → Flag
  mark_of source_port_of destination_port_of : ℕ → String → Flag
  ctstate_of : String → Flag
  to_ports_of : List ℕ → String → Flag
  tcp_flags_of : TcpFlags → String → String → Flag

abbrev pub name_of : Flag → String
name_of (table_of long value) = if long then "--table" else "-t"
name_of (delete_from long value) = if long then "--delete" else "-D"
name_of (append_to long value) = if long then "--append" else "-A"
name_of (jump_to long value) = if long then "--jump" else "-j"
name_of (protocol_of long value) = if long then "--protocol" else "-p"
name_of (in_interface long value) = if long then "--in-interface" else "-i"
name_of (out_interface long value) = if long then "--out-interface" else "-o"
name_of (match_tcp long) = if long then "--match" else "-m"
name_of (match_udp long) = if long then "--match" else "-m"
name_of (match_not_mark long) = if long then "--match" else "-m"
name_of (source_of long c value) = if long then "--source" else "-s"
name_of (destination_of long c value) = if long then "--destination" else "-d"
name_of (mark_of n value) = "--mark"
name_of (source_port_of n value) = "--sport"
name_of (destination_port_of n value) = "--dport"
name_of (ctstate_of value) = "--ctstate"
name_of (to_ports_of ns value) = "--to-ports"
name_of (tcp_flags_of f mask comparison) = "--tcp-flags"

abbrev pub values_of : Flag → List String
values_of (table_of long value) = value ∷ []
values_of (delete_from long value) = value ∷ []
values_of (append_to long value) = value ∷ []
values_of (jump_to long value) = value ∷ []
values_of (protocol_of long value) = value ∷ []
values_of (in_interface long value) = value ∷ []
values_of (out_interface long value) = value ∷ []
values_of (match_tcp long) = "tcp" ∷ []
values_of (match_udp long) = "udp" ∷ []
values_of (match_not_mark long) = "mark" ∷ "!" ∷ []
values_of (source_of long c value) = value ∷ []
values_of (destination_of long c value) = value ∷ []
values_of (mark_of n value) = value ∷ []
values_of (source_port_of n value) = value ∷ []
values_of (destination_port_of n value) = value ∷ []
values_of (ctstate_of value) = value ∷ []
values_of (to_ports_of ns value) = value ∷ []
values_of (tcp_flags_of f mask comparison) = mask ∷ comparison ∷ []

-- The values are texts of what they are read as.
abbrev pub IsRead : Texts → Flag → Type 0
IsRead t (source_of long c value) = parse_ip_prefix t value ≡ ok (some c)
IsRead t (destination_of long c value) = parse_ip_prefix t value ≡ ok (some c)
IsRead t (mark_of n value) = t.read_uint 0 32 value ≡ some n
IsRead t (source_port_of n value) = parse_port t value ≡ ok n
IsRead t (destination_port_of n value) = parse_port t value ≡ ok n
IsRead t (to_ports_of ns value) = parse_to_ports t value ≡ ok ns
IsRead t (tcp_flags_of f mask comparison) =
    parse_tcp_flags t (str_append mask (str_append "/" comparison)) ≡ ok f
IsRead t _ = Unit

-- What a flag means.
abbrev pub effect : Texts → Flag → Instruction → Instruction
effect t (table_of long value) i = record i { table = value }
effect t (delete_from long value) i = record i { append = false; chain = value }
effect t (append_to long value) i = record i { append = true; chain = value }
effect t (jump_to long value) i = record i { target = value }
effect t (protocol_of long value) i = record i { protocol = value }
effect t (in_interface long value) i = record i { input_interface = value }
effect t (out_interface long value) i = record i { output_interface = value }
effect t (match_tcp long) i = i
effect t (match_udp long) i = i
effect t (match_not_mark long) i = record i {
  mark = record { invert = true; value = i.mark.value };
}
effect t (source_of long c value) i = record i { source = some c }
effect t (destination_of long c value) i = record i { destination = some c }
effect t (mark_of n value) i = record i { mark = record { invert = i.mark.invert; value = n } }
effect t (source_port_of n value) i = record i { source_port = n }
effect t (destination_port_of n value) i = record i { destination_port = n }
effect t (ctstate_of value) i = record i { ctstate = t.split value "," }
effect t (to_ports_of ns value) i = record i { to_ports = ns }
effect t (tcp_flags_of f mask comparison) i = record i { tcp_flags = f }

unfoldable pub written : List Flag → List String
written [] = []
written (f ∷ fs) = (name_of f ∷ values_of f) ++ written fs

pub effects : Texts → List Flag → Instruction → Instruction
effects t [] i = i
effects t (f ∷ fs) i = effects t fs (effect t f i)

parse_instruction_flag-two :
    (t : Texts) (flag value : String) (values : List String) (i : Instruction)
    → str_eq flag "--tcp-flags" ≡ false
    → parse_instruction_flag t (flag ∷ value ∷ values) i ≡ parse_flag_value t 2 flag value values i
unfolding parse_instruction_flag pre_check_instruction_fields
parse_instruction_flag-two t flag value values i other =
    ap (λ r. r >>= λ n. parse_flag_value t n flag value values i) two
  where
    enough : ltb (length (value ∷ values)) 1 ≡ false
    enough = ground arith

    two : pre_check_instruction_fields flag (value ∷ values) ≡ ok 2
    two = rw (pre_check_instruction_fields, other, enough) refl

parse_instruction_flag-three :
    (t : Texts) (value next : String) (values : List String) (i : Instruction)
    → parse_instruction_flag t ("--tcp-flags" ∷ value ∷ next ∷ values) i
      ≡ parse_flag_value t 3 "--tcp-flags" value (next ∷ values) i
unfolding parse_instruction_flag pre_check_instruction_fields
parse_instruction_flag-three t value next values i =
    ap (λ r. r >>= λ n. parse_flag_value t n "--tcp-flags" value (next ∷ values) i) three
  where
    enough : ltb (length (value ∷ next ∷ values)) 2 ≡ false
    enough = ground arith

    three : pre_check_instruction_fields "--tcp-flags" (value ∷ next ∷ values) ≡ ok 3
    three = rw (pre_check_instruction_fields, enough) refl

parse_instruction_flag-effect :
    (t : Texts) (f : Flag) (rest : List String) (i : Instruction)
    → IsRead t f
    → parse_instruction_flag t ((name_of f ∷ values_of f) ++ rest) i
      ≡ ok (suc (length (values_of f)), effect t f i)
unfolding parse_instruction_flag pre_check_instruction_fields parse_flag_value parse_match_module
    parse_match_mark parse_mark_value parse_tcp_flags_value
parse_instruction_flag-effect t (table_of true value) rest i h =
    parse_instruction_flag-two t "--table" value rest i refl
parse_instruction_flag-effect t (table_of false value) rest i h =
    parse_instruction_flag-two t "-t" value rest i refl
parse_instruction_flag-effect t (delete_from true value) rest i h =
    parse_instruction_flag-two t "--delete" value rest i refl
parse_instruction_flag-effect t (delete_from false value) rest i h =
    parse_instruction_flag-two t "-D" value rest i refl
parse_instruction_flag-effect t (append_to true value) rest i h =
    parse_instruction_flag-two t "--append" value rest i refl
parse_instruction_flag-effect t (append_to false value) rest i h =
    parse_instruction_flag-two t "-A" value rest i refl
parse_instruction_flag-effect t (jump_to true value) rest i h =
    parse_instruction_flag-two t "--jump" value rest i refl
parse_instruction_flag-effect t (jump_to false value) rest i h =
    parse_instruction_flag-two t "-j" value rest i refl
parse_instruction_flag-effect t (protocol_of true value) rest i h =
    parse_instruction_flag-two t "--protocol" value rest i refl
parse_instruction_flag-effect t (protocol_of false value) rest i h =
    parse_instruction_flag-two t "-p" value rest i refl
parse_instruction_flag-effect t (in_interface true value) rest i h =
    parse_instruction_flag-two t "--in-interface" value rest i refl
parse_instruction_flag-effect t (in_interface false value) rest i h =
    parse_instruction_flag-two t "-i" value rest i refl
parse_instruction_flag-effect t (out_interface true value) rest i h =
    parse_instruction_flag-two t "--out-interface" value rest i refl
parse_instruction_flag-effect t (out_interface false value) rest i h =
    parse_instruction_flag-two t "-o" value rest i refl
parse_instruction_flag-effect t (match_tcp true) rest i h =
    parse_instruction_flag-two t "--match" "tcp" rest i refl
parse_instruction_flag-effect t (match_tcp false) rest i h =
    parse_instruction_flag-two t "-m" "tcp" rest i refl
parse_instruction_flag-effect t (match_udp true) rest i h =
    parse_instruction_flag-two t "--match" "udp" rest i refl
parse_instruction_flag-effect t (match_udp false) rest i h =
    parse_instruction_flag-two t "-m" "udp" rest i refl
parse_instruction_flag-effect t (match_not_mark true) rest i h =
    parse_instruction_flag-two t "--match" "mark" ("!" ∷ rest) i refl
parse_instruction_flag-effect t (match_not_mark false) rest i h =
    parse_instruction_flag-two t "-m" "mark" ("!" ∷ rest) i refl
parse_instruction_flag-effect t (source_of true c value) rest i h =
    parse_instruction_flag-two t "--source" value rest i refl ∙ rw h refl
parse_instruction_flag-effect t (source_of false c value) rest i h =
    parse_instruction_flag-two t "-s" value rest i refl ∙ rw h refl
parse_instruction_flag-effect t (destination_of true c value) rest i h =
    parse_instruction_flag-two t "--destination" value rest i refl ∙ rw h refl
parse_instruction_flag-effect t (destination_of false c value) rest i h =
    parse_instruction_flag-two t "-d" value rest i refl ∙ rw h refl
parse_instruction_flag-effect t (mark_of n value) rest i h =
    parse_instruction_flag-two t "--mark" value rest i refl ∙ rw h refl
parse_instruction_flag-effect t (source_port_of n value) rest i h =
    parse_instruction_flag-two t "--sport" value rest i refl ∙ rw h refl
parse_instruction_flag-effect t (destination_port_of n value) rest i h =
    parse_instruction_flag-two t "--dport" value rest i refl ∙ rw h refl
parse_instruction_flag-effect t (ctstate_of value) rest i h =
    parse_instruction_flag-two t "--ctstate" value rest i refl
parse_instruction_flag-effect t (to_ports_of ns value) rest i h =
    parse_instruction_flag-two t "--to-ports" value rest i refl ∙ rw h refl
parse_instruction_flag-effect t (tcp_flags_of f mask comparison) rest i h =
    parse_instruction_flag-three t mask comparison rest i ∙ rw h refl

drop-append : (xs ys : List String) → drop (length xs) (xs ++ ys) ≡ ys
drop-append [] ys = refl
drop-append (x ∷ xs) ys = drop-append xs ys

flags_loop-written :
    (t : Texts) (fs : List Flag) (fuel : ℕ) (i : Instruction)
    → All (IsRead t) fs
    → length (written fs) ≤ fuel
    → flags_loop t fuel (written fs) i ≡ ok (effects t fs i)
unfolding flags_loop written effects
flags_loop-written t [] fuel i read enough = refl
flags_loop-written t (f ∷ fs) zero i read enough = absurd (omega (arith, enough))
flags_loop-written t (f ∷ fs) (suc fuel) i (read, reads) enough =
    ap
      (λ r. r >>= λ (consumed, j).
        flags_loop t fuel (drop consumed ((name_of f ∷ values_of f) ++ written fs)) j)
      (parse_instruction_flag-effect t f (written fs) i read)
    ∙ ap (λ fields. flags_loop t fuel fields (effect t f i))
        (drop-append (values_of f) (written fs))
    ∙ flags_loop-written t fs fuel (effect t f i) reads
        (omega (arith, enough, length-append (values_of f) (written fs)))

-- An instruction that is not empty and whose words are flags, in any order and spelling, with
-- values that can be read, is parsed to what its flags mean, the later ones over the earlier, with
-- the filter table where no table is given.
pub parse_iptables_instruction-written :
    (t : Texts) (s : String) (fs : List Flag)
    → s ≢ ""
    → t.words s ≡ written fs
    → All (IsRead t) fs
    → parse_iptables_instruction t s ≡ ok (set_defaults (effects t fs no_instruction))
unfolding parse_iptables_instruction
parse_iptables_instruction-written t s fs some_text words read =
    if_cases (λ r. r ≡ ok (set_defaults (effects t fs no_instruction))) (str_eq s "") _ _
      (λ e. absurd (some_text ((eq_iff s "").0 e)))
      (λ _.
        ap
          (λ fields.
            flags_loop t (length fields) fields no_instruction >>= λ i. ok (set_defaults i))
          words
        ∙ ap (λ r. r >>= λ i. ok (set_defaults i))
            (flags_loop-written t fs (length (written fs)) no_instruction read (omega arith)))
