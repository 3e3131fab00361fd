-- ===== src/Pmtud/Tcp/Header/RoundTrip.antt =====
-- internal/pmtud/tcp/tcpheader.go: a header that is made is parsed back.
use gluetun.Bytes.{Bytes, uint16_of-bytes, uint32_of-bytes, uint16_of}
use gluetun.Prelude.{ℕ, ◌<◌, ◌≡◌, refl, some, ◌++◌, arith}
use gluetun.Pmtud.Tcp.Header.{
  make_tcp_header, PacketType, syn, parsed, TcpHeader, no_options, packet_type, check_header,
  parse_tcp_header,
}

check_header-plain :
    (rest : Bytes) (h : TcpHeader) (t : PacketType)
    → h.data_offset ≡ 20
    → packet_type h.flags ≡ some t
    → check_header rest h ≡ parsed (record h { typ = t; options = no_options })
unfolding check_header
check_header-plain rest h t e known = ground (arith, e, known)

-- A header that makeTCPHeader makes from ports and numbers within their widths, with flags of a
-- known type, is parsed, with any payload after it, to the fields that it was made of, with no
-- options and the type of its flags.
pub parse_tcp_header-make_tcp_header :
    (src_port dst_port seq ack flags : ℕ) (t : PacketType) (payload : Bytes)
    → src_port < 65536
    → dst_port < 65536
    → seq < 4294967296
    → ack < 4294967296
    → packet_type flags ≡ some t
    → parse_tcp_header (make_tcp_header src_port dst_port seq ack flags ++ payload)
      ≡ parsed (record {
        typ = t;
        src_port = src_port;
        dst_port = dst_port;
        seq = seq;
        ack = ack;
        data_offset = 20;
        flags = flags;
        window_size = 5840;
        checksum = 0;
        urgent_ptr = 0;
        options = no_options;
      })
unfolding parse_tcp_header make_tcp_header check_header uint16_of
parse_tcp_header-make_tcp_header src_port dst_port seq ack flags t payload hs hd hq ha known =
    rw
      (
        uint16_of-bytes src_port hs,
        uint16_of-bytes dst_port hd,
        uint32_of-bytes seq hq,
        uint32_of-bytes ack ha,
      )
      (check_header-plain payload
        (record {
          typ = syn;
          src_port = src_port;
          dst_port = dst_port;
          seq = seq;
          ack = ack;
          data_offset = 20;
          flags = flags;
          window_size = 5840;
          checksum = 0;
          urgent_ptr = 0;
          options = no_options;
        })
        t refl known)
