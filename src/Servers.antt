-- ===== src/Servers.antt =====
-- internal/models/server.go and the parts of internal/configuration/settings that choose a server:
-- the data that internal/storage and internal/provider/utils work on. An address is its text and
-- whether it is an IPv6 one; an address that is not valid is `none`.
pub mod Filter
pub mod Connect
pub mod Merge
mod Tests
use gluetun.Prelude.{
  ℕ, Bool, true, false, ◌||◌, ◌&&◌, Option, none, some, List, [], ◌∷◌, ◌++◌, String, str_eq,
  if◌then◌else◌,
}

pub record Address : Type 0 where
  pub text : String
  pub is_6 : Bool

-- netip.Addr.IsUnspecified
abbrev pub is_unspecified : Address → Bool
is_unspecified a = str_eq a.text "0.0.0.0" || str_eq a.text "::"

pub record Server : Type 0 where
  pub vpn : String
  pub country : String
  pub region : String
  pub city : String
  pub isp : String
  pub categories : List String
  pub owned : Bool
  pub number : ℕ
  pub server_name : String
  pub hostname : String
  pub tcp : Bool
  pub udp : Bool
  pub ovpn_x509 : String
  pub multi_hop : Bool
  pub wg_pub_key : String
  pub free : Bool
  pub premium : Bool
  pub stream : Bool
  pub secure_core : Bool
  pub tor : Bool
  pub port_forward : Bool
  pub keep : Bool
  pub ips : List Address

-- OpenVPNSelection and WireguardSelection, as far as a connection depends on them
pub record OpenvpnSelection : Type 0 where
  pub protocol : String
  pub endpoint_ip : Option Address
  pub custom_port : ℕ

pub record WireguardSelection : Type 0 where
  pub endpoint_ip : Option Address
  pub endpoint_port : ℕ

-- ServerSelection, with the pointers set, as after its defaults
pub record Selection : Type 0 where
  pub vpn : String
  pub countries : List String
  pub categories : List String
  pub regions : List String
  pub cities : List String
  pub isps : List String
  pub names : List String
  pub numbers : List ℕ
  pub hostnames : List String
  pub owned_only : Bool
  pub free_only : Bool
  pub premium_only : Bool
  pub stream_only : Bool
  pub multi_hop_only : Bool
  pub port_forward_only : Bool
  pub secure_core_only : Bool
  pub tor_only : Bool
  pub openvpn : OpenvpnSelection
  pub wireguard : WireguardSelection

-- internal/constants/vpn and internal/constants
abbrev pub wireguard_type : String
wireguard_type = "wireguard"

abbrev pub openvpn_type : String
openvpn_type = "openvpn"

abbrev pub amneziawg_type : String
amneziawg_type = "amneziawg"

abbrev pub tcp_protocol : String
tcp_protocol = "tcp"

abbrev pub udp_protocol : String
udp_protocol = "udp"

pub data Error : Type 0 where
  no_server_found no_connection_to_pick_from target_ip_not_found : Error

pub data Result (A : Type 0) : Type 0 where
  ok : A → Result A
  err : Error → Result A
  panic : Result A

infixl 5 ◌>>=◌
abbrev pub ◌>>=◌ : {A B : Type 0} → Result A → (A → Result B) → Result B
ok a >>= f = f a
err e >>= f = err e
panic >>= f = panic
