-- ===== src/Pmtud/Tcp/Header.antt =====
-- internal/pmtud/tcp/tcpheader.go: the header of a TCP packet. A packet is the list of its bytes.
pub mod RoundTrip
pub mod Returns
use gluetun.Bytes.{Bytes, put_uint16, put_uint32, uint16_of, uint32_of}
use gluetun.Prelude.{
  ℕ, zero, suc, ◌+◌, ◌-◌, ◌*◌, ◌/◌, ◌%◌, ◌==◌, ltb, ◌||◌, Bool, true, false, Option, none, some,
  List, [], ◌∷◌, ◌++◌, length, take, drop, if◌then◌else◌,
}

-- makeTCPHeader: the data offset, the flags, the window of 5840, no checksum, no urgent pointer
unfoldable pub make_tcp_header : ℕ → ℕ → ℕ → ℕ → ℕ → Bytes
make_tcp_header src_port dst_port seq ack flags =
    put_uint16 src_port
    ++ (put_uint16 dst_port
        ++ (put_uint32 seq
            ++ (put_uint32 ack ++ (80 ∷ flags ∷ (put_uint16 5840 ++ (0 ∷ 0 ∷ 0 ∷ 0 ∷ []))))))

pub data PacketType : Type 0 where
  syn syn_ack fin fin_ack rst rst_ack psh_ack ack_only : PacketType

pub data HeaderError : Type 0 where
  header_too_short header_data_offset packet_type_unknown : HeaderError
  option_length_truncated option_length_invalid option_mss_invalid : HeaderError
  option_window_scale_invalid option_timestamps_invalid option_type_unknown : HeaderError

pub data Parsed (A : Type 0) : Type 0 where
  parsed : A → Parsed A
  refused : HeaderError → Parsed A
  out_of_fuel : Parsed A

pub record Options : Type 0 where
  pub mss : ℕ
  pub window_scale : Option ℕ
  pub sack_permitted : Bool
  pub timestamps : Option (ℕ × ℕ)

pub record TcpHeader : Type 0 where
  pub typ : PacketType
  pub src_port : ℕ
  pub dst_port : ℕ
  pub seq : ℕ
  pub ack : ℕ
  pub data_offset : ℕ
  pub flags : ℕ
  pub window_size : ℕ
  pub checksum : ℕ
  pub urgent_ptr : ℕ
  pub options : Options

abbrev pub no_options : Options
no_options = record { mss = 0; window_scale = none; sack_permitted = false; timestamps = none }

-- `flags & flag != 0` for the flag of weight `w`
abbrev pub has_flag : ℕ → ℕ → Bool
has_flag flags w = flags / w % 2 == 1

unfoldable pub packet_type : ℕ → Option PacketType
packet_type flags =
    let with_ack : PacketType → PacketType → PacketType =
      λ plain acked. if has_flag flags 16 then acked else plain in
    if has_flag flags 2
    then some (with_ack syn syn_ack)
    else if has_flag flags 4
    then some (with_ack rst rst_ack)
    else if has_flag flags 1
    then some (with_ack fin fin_ack)
    else if has_flag flags 8
    then some psh_ack
    else if has_flag flags 16
    then some ack_only
    else none

pub mss_option : Bytes → Options → Parsed Options
unfolding uint16_of
mss_option (a ∷ b ∷ []) o = parsed (record o { mss = uint16_of a b })
mss_option _ o = refused option_mss_invalid

pub window_scale_option : Bytes → Options → Parsed Options
window_scale_option (a ∷ []) o = parsed (record o { window_scale = some a })
window_scale_option _ o = refused option_window_scale_invalid

pub timestamps_option : Bytes → Options → Parsed Options
unfolding uint32_of
timestamps_option (a ∷ b ∷ c ∷ d ∷ e ∷ f ∷ g ∷ h ∷ []) o =
    parsed (record o { timestamps = some (uint32_of a b c d, uint32_of e f g h) })
timestamps_option _ o = refused option_timestamps_invalid

-- The switch on the type of an option; the test of its length is one of its data's length.
pub read_option : ℕ → Bytes → Options → Parsed Options
unfolding mss_option window_scale_option timestamps_option
read_option t body o =
    if t == 2
    then mss_option body o
    else if t == 3
    then window_scale_option body o
    else if t == 4
    then parsed (record o { sack_permitted = true })
    else if t == 8
    then timestamps_option body o
    else refused option_type_unknown

-- The loop of parseTCPOptions, by the rounds left.
pub options_loop : ℕ → Bytes → Options → Parsed Options
unfolding read_option
options_loop zero b o = out_of_fuel
options_loop (suc fuel) [] o = parsed o
options_loop (suc fuel) (t ∷ []) o =
    let padded = options_loop fuel [] o in
    if t == 0 then parsed o else if t == 1 then padded else refused option_length_truncated
options_loop (suc fuel) (t ∷ l ∷ rest) o =
    let padded = options_loop fuel (l ∷ rest) o in
    let next : Parsed Options = elim (read_option t (take (l - 2) rest) o) [
      | parsed o' ↦ options_loop fuel (drop (l - 2) rest) o'
      | refused e ↦ refused e
      | out_of_fuel ↦ out_of_fuel
    ] in
    if t == 0
    then parsed o
    else if t == 1
    then padded
    else if ltb l 2 || ltb (suc (suc (length rest))) l
    then refused option_length_invalid
    else next

pub parse_tcp_options : Bytes → Parsed Options
unfolding options_loop
parse_tcp_options b = options_loop (suc (length b)) b no_options

-- parseTCPHeader after its options
abbrev pub typed_header : Option PacketType → TcpHeader → Parsed TcpHeader
typed_header none h = refused packet_type_unknown
typed_header (some t) h = parsed (record h { typ = t })

abbrev pub with_options : Parsed Options → TcpHeader → Parsed TcpHeader
with_options (parsed o) h = typed_header (packet_type h.flags) (record h { options = o })
with_options (refused e) h = refused e
with_options out_of_fuel h = out_of_fuel

-- The header whose fixed fields are read, with the bytes that follow them.
pub check_header : Bytes → TcpHeader → Parsed TcpHeader
unfolding parse_tcp_options packet_type
check_header rest h =
    if ltb h.data_offset 20 || ltb (length rest + 20) h.data_offset
    then refused header_data_offset
    else if ltb 20 h.data_offset
    then with_options (parse_tcp_options (take (h.data_offset - 20) rest)) h
    else with_options (parsed no_options) h

unfoldable pub parse_tcp_header : Bytes → Parsed TcpHeader
unfolding check_header uint16_of uint32_of
parse_tcp_header
      (s1 ∷ s0 ∷ d1 ∷ d0 ∷ q3 ∷ q2 ∷ q1 ∷ q0 ∷ a3 ∷ a2 ∷ a1 ∷ a0 ∷ offset ∷ flags ∷ w1 ∷ w0 ∷ c1
        ∷ c0 ∷ u1 ∷ u0 ∷ rest) =
    check_header rest (record {
      typ = syn;
      src_port = uint16_of s1 s0;
      dst_port = uint16_of d1 d0;
      seq = uint32_of q3 q2 q1 q0;
      ack = uint32_of a3 a2 a1 a0;
      data_offset = offset / 16 * 4;
      flags = flags;
      window_size = uint16_of w1 w0;
      checksum = uint16_of c1 c0;
      urgent_ptr = uint16_of u1 u0;
      options = no_options;
    })
parse_tcp_header _ = refused header_too_short
