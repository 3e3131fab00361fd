-- ===== src/Servers/Connect.antt =====
-- internal/provider/utils: connection.go, pick.go, port.go and protocol.go. `random n` is the
-- number below `n` that rand.Intn returns; of the connection, an address is its text.
pub mod Reachable
pub mod Picked
use gluetun.Prelude.{
  ℕ, zero, suc, ltb, Bool, true, false, not, ◌&&◌, ◌||◌, Option, none, some, List, [], ◌∷◌, ◌++◌,
  String, str_eq, if◌then◌else◌, length, get_elem?,
}
use gluetun.Firewall.{Connection}
use gluetun.Servers.{
  Address, is_unspecified, Server, Selection, wireguard_type, openvpn_type, amneziawg_type,
  tcp_protocol, udp_protocol, Result, ok, err, panic, ◌>>=◌, no_connection_to_pick_from,
  target_ip_not_found,
}

pub get_protocol : Selection → String
get_protocol selection =
    if str_eq selection.vpn openvpn_type && str_eq selection.openvpn.protocol tcp_protocol
    then tcp_protocol
    else udp_protocol

pub record ConnectionDefaults : Type 0 where
  pub openvpn_tcp_port : ℕ
  pub openvpn_udp_port : ℕ
  pub wireguard_port : ℕ

-- A default port with checkDefined
pub defined_port : ℕ → Result ℕ
defined_port port = if ltb 0 port then ok port else panic

pub get_port : Selection → ConnectionDefaults → Result ℕ
unfolding defined_port
get_port selection defaults =
    if str_eq selection.vpn wireguard_type
    then (if ltb 0 selection.wireguard.endpoint_port
        then ok selection.wireguard.endpoint_port
        else defined_port defaults.wireguard_port)
    else if ltb 0 selection.openvpn.custom_port
    then ok selection.openvpn.custom_port
    else if str_eq selection.openvpn.protocol tcp_protocol
    then defined_port defaults.openvpn_tcp_port
    else defined_port defaults.openvpn_udp_port

-- The connection to a server at one of its addresses.
pub connection_to : Selection → ℕ → Server → Address → Connection
unfolding get_protocol
connection_to selection port server ip = record {
  type = selection.vpn;
  ip = some ip.text;
  port = port;
  protocol = get_protocol selection;
  hostname =
      if str_eq selection.vpn openvpn_type && not (str_eq server.ovpn_x509 "")
      then server.ovpn_x509
      else server.hostname;
  pub_key = server.wg_pub_key;
  server_name = server.server_name;
  port_forward = server.port_forward;
}

-- The inner loop of GetConnection
pub server_connections : Selection → Bool → ℕ → Server → List Address → List Connection
unfolding connection_to
server_connections selection ipv6_supported port server [] = []
server_connections selection ipv6_supported port server (ip ∷ ips) =
    let rest = server_connections selection ipv6_supported port server ips in
    if not ipv6_supported && ip.is_6 then rest else connection_to selection port server ip ∷ rest

pub all_connections : Selection → Bool → ℕ → List Server → List Connection
unfolding server_connections
all_connections selection ipv6_supported port [] = []
all_connections selection ipv6_supported port (s ∷ ss) =
    server_connections selection ipv6_supported port s s.ips
    ++ all_connections selection ipv6_supported port ss

-- The target address of the VPN type, without one that is not set.
abbrev pub set_address : Option Address → Option Address
set_address none = none
set_address (some a) = if is_unspecified a then none else some a

unfoldable pub target_ip : Selection → Result (Option Address)
target_ip selection =
    if str_eq selection.vpn openvpn_type
    then ok (set_address selection.openvpn.endpoint_ip)
    else if str_eq selection.vpn wireguard_type || str_eq selection.vpn amneziawg_type
    then ok (set_address selection.wireguard.endpoint_ip)
    else panic

abbrev pub has_ip : Connection → Address → Bool
has_ip c target = elim c.ip [ none ↦ false | some text ↦ str_eq target.text text ]

pub get_target_ip_connection : List Connection → Address → Result Connection
get_target_ip_connection [] target = err target_ip_not_found
get_target_ip_connection (c ∷ cs) target =
    if has_ip c target then ok c else get_target_ip_connection cs target

pub pick_random_connection : List Connection → (ℕ → ℕ) → Result Connection
pick_random_connection cs random = elim (get_elem? cs (random (length cs))) [
  | none ↦ panic
  | some c ↦ ok c
]

abbrev pub with_target : Option Address → Connection → Connection
with_target none c = c
with_target (some target) c = record c { ip = some target.text }

pub pick_at : String → Option Address → List Connection → (ℕ → ℕ) → Result Connection
unfolding get_target_ip_connection pick_random_connection
pick_at vpn none cs random = pick_random_connection cs random >>= λ c. ok (with_target none c)
pick_at vpn (some target) cs random =
    if str_eq vpn wireguard_type
    then get_target_ip_connection cs target
    else (pick_random_connection cs random >>= λ c. ok (with_target (some target) c))

pub pick_connection : List Connection → Selection → (ℕ → ℕ) → Result Connection
unfolding target_ip pick_at
pick_connection [] selection random = err no_connection_to_pick_from
pick_connection (c ∷ cs) selection random =
    target_ip selection >>= λ target. pick_at selection.vpn target (c ∷ cs) random

-- GetConnection, from the result of FilterServers
unfoldable pub get_connection :
    Result (List Server) → Selection → ConnectionDefaults → Bool → (ℕ → ℕ) → Result Connection
unfolding get_port all_connections pick_connection
get_connection filtered selection defaults ipv6_supported random = do
  servers ← filtered
  port ← get_port selection defaults
  pick_connection (all_connections selection ipv6_supported port servers) selection random
