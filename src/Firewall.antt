-- ===== src/Firewall.antt =====
-- internal/firewall: the state of Config, the operations that it asks of its implementation
-- (interfaces.go), and the monad of its methods. Messages, logging and the mutex, which every
-- method holds from its first to its last statement, are left out.
pub mod Rules
pub mod Kernel
pub mod Ports
pub mod Redirect
pub mod Subnets
pub mod Vpn
pub mod Enable
mod Tests
use gluetun.Prelude.{
  ℕ, Bool, true, false, ◌&&◌, Option, none, some, List, [], ◌∷◌, String, str_eq, ◌==◌,
}
use gluetun.Subnet.{Prefix}

-- internal/models/connection.go. An address that is not valid is `none`.
pub record Connection : Type 0 where
  pub type : String
  pub ip : Option String
  pub port : ℕ
  pub protocol : String
  pub hostname : String
  pub pub_key : String
  pub server_name : String
  pub port_forward : Bool

-- `IP.Compare(other.IP) == 0`
abbrev pub same_ip : Option String → Option String → Bool
same_ip none none = true
same_ip (some a) (some b) = str_eq a b
same_ip _ _ = false

abbrev pub same_bool : Bool → Bool → Bool
same_bool true b = b
same_bool false true = false
same_bool false false = true

-- Connection.Equal, which leaves out the type
unfoldable pub connection_equal : Connection → Connection → Bool
connection_equal c other =
    same_ip c.ip other.ip
    && c.port == other.port
    && str_eq c.protocol other.protocol
    && str_eq c.hostname other.hostname
    && str_eq c.pub_key other.pub_key
    && str_eq c.server_name other.server_name
    && same_bool c.port_forward other.port_forward

abbrev pub no_connection : Connection
no_connection = record {
  type = "";
  ip = none;
  port = 0;
  protocol = "";
  hostname = "";
  pub_key = "";
  server_name = "";
  port_forward = false;
}

-- routing.DefaultRoute and routing.LocalNetwork
pub record DefaultRoute : Type 0 where
  pub net_interface : String
  pub assigned_ip : String
  pub is_6 : Bool

pub record LocalNetwork : Type 0 where
  pub interface_name : String
  pub ip : String
  pub ip_net : Prefix

-- What the Accept… and RedirectPort operations of firewallImpl append or delete.
pub data Rule : Type 0 where
  accept_input_through_interface : String → Rule
  accept_input_to_port : String → ℕ → Rule
  accept_input_to_subnet : String → Prefix → Rule
  accept_established_related_traffic : Rule
  accept_ipv6_multicast_output : String → Rule
  accept_output_from_ip_to_subnet : String → String → Prefix → Rule
  accept_output_through_interface : String → Rule
  accept_output_traffic_to_vpn : String → Connection → Rule
  redirect_port : String → ℕ → ℕ → Rule

-- The calls of firewallImpl other than SaveAndRestore; a `change` has its `remove` argument.
pub data Call : Type 0 where
  set_ipv4_all_policies : String → Call
  set_ipv6_all_policies : String → Call
  change : Rule → Bool → Call
  run_user_post_rules : String → Call

-- SaveAndRestore returns a function that restores, or an error.
pub data Saved (W E : Type 0) : Type 0 where
  saved : (W → W) → Saved W E
  save_failed : E → Saved W E

-- firewallImpl over the state `W` of the system, with errors `E`; `none` is the nil error.
pub record FirewallImpl (W E : Type 0) : Type 0 where
  pub save_and_restore : W → W × Saved W E
  pub call : Call → W → W × Option E

pub record PortRedirection : Type 0 where
  pub interface_name : String
  pub source_port : ℕ
  pub destination_port : ℕ

-- Config, with the maps as association lists. `restore` is `none` while it is the nil function.
pub record Config (W : Type 0) : Type 0 where
  pub default_routes : List DefaultRoute
  pub local_networks : List LocalNetwork
  pub custom_rules_path : String
  pub enabled : Bool
  pub restore : Option (W → W)
  pub vpn_connection : Connection
  pub vpn_intf : String
  pub outbound_subnets : List Prefix
  pub allowed_input_ports : List (ℕ × List String)
  pub port_redirections : List PortRedirection

pub data Result (E A : Type 0) : Type 0 where
  ok : A → Result E A
  err : E → Result E A
  panic : Result E A

-- The receiver and the system that it acts on.
pub record State (W : Type 0) : Type 0 where
  pub config : Config W
  pub world : W

abbrev pub M : Type 0 → Type 0 → Type 0 → Type 0
M W E A = State W → Result E A × State W

module _ {W E : Type 0} where
  infixl 5 ◌>>=◌ ◌>>◌
  abbrev pub ◌>>=◌ : {A B : Type 0} → M W E A → (A → M W E B) → M W E B
  ◌>>=◌ m f s =
      let (r, s') = m s in elim r [ ok a ↦ f a s' | err e ↦ (err e, s') | panic ↦ (panic, s') ]

  abbrev pub ◌>>◌ : M W E (Unit {0}) → M W E (Unit {0}) → M W E (Unit {0})
  ◌>>◌ m k = m >>= λ _. k

  abbrev pub done : M W E (Unit {0})
  done s = (ok tt, s)

  abbrev pub crash : M W E (Unit {0})
  crash s = (panic, s)

  -- An assignment to fields of the receiver.
  abbrev pub update : (Config W → Config W) → M W E (Unit {0})
  update f s = (ok tt, record s { config = f s.config })

  abbrev pub config_of : M W E (Config W)
  config_of s = (ok s.config, s)

  abbrev pub outcome : W × Option E → Config W → Result E (Unit {0}) × State W
  outcome (w, none) c = (ok tt, record { config = c; world = w })
  outcome (w, some e) c = (err e, record { config = c; world = w })

  -- A call of the implementation whose error the caller returns.
  pub impl_call : FirewallImpl W E → Call → M W E (Unit {0})
  impl_call impl c s = outcome (impl.call c s.world) s.config

  -- A call whose error is only logged.
  pub impl_call_logged : FirewallImpl W E → Call → M W E (Unit {0})
  impl_call_logged impl c s = (ok tt, record s { world = (impl.call c s.world).0 })
