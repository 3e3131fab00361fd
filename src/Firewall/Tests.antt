-- ===== src/Firewall/Tests.antt =====
-- internal/firewall: iptables with its rules as a text, and the theorems at inputs.
use gluetun.Prelude.{
  ◌≡◌, refl, Bool, true, false, Option, none, some, [], ◌∷◌, String, str_append, if◌then◌else◌,
  arith,
}
use gluetun.Firewall.{
  FirewallImpl, Config, State, Call, Connection, no_connection, change, run_user_post_rules, ok,
  err, impl_call, PortRedirection, connection_equal,
}
use gluetun.Firewall.Kernel.{IsSaving, iptables_firewall, managed, iptables-IsSaving}
use gluetun.Iptables.{Error, command_failed}
use gluetun.Iptables
use gluetun.Iptables.Run.{Binary}
use gluetun.Firewall.Ports.{set_allowed_port, remove_allowed_port}
use gluetun.Firewall.Ports.Allows.{allows, no_ports-IsPortMap}
use gluetun.Firewall.Ports.Synced.{
  Ledger, recorded, Synced, set_allowed_port-Synced, remove_allowed_port-Synced,
}
use gluetun.Firewall.Enable.{set_enabled}
use gluetun.Firewall.Enable.Rollback.{SameRules, set_enabled-rollback, set_enabled-restores}
use gluetun.Firewall.Redirect.{is_removed, remove, check, request_redirection}
use gluetun.Firewall.Redirect.Removal.{remove_panics}
use gluetun.Firewall.Redirect.Request.{request_redirection-stores}
use gluetun.Firewall.Vpn.{set_vpn_connection}
use gluetun.Firewall.Vpn.Connect.{Settled, set_vpn_connection-Settled}
use gluetun.Subnet.{Prefix, found}
use gluetun.Firewall.Subnets.{has_family, set_outbound_subnets}
use gluetun.Firewall.Subnets.Updated.{Updated, set_outbound_subnets-Updated}

-- iptables that keeps its rules as a text, with no ip6tables: each change appends a letter, and the
-- user's post rules fail where the flag says so.
abbrev text_binary : Binary String
text_binary = record {
  program = record {
    list = λ rules table chain. Iptables.err command_failed;
    delete_line = λ rules table chain line. (Iptables.ok tt, rules);
  };
  run = λ words rules. (Iptables.ok tt, rules);
  save = λ rules. Iptables.ok rules;
  restore = λ saved rules. saved;
}

abbrev System : Type 0
System = String × Unit {0}

abbrev text_call : Bool → Call → System → System × Option Error
text_call failing (change r removes) (w, u) =
    ((str_append w (if removes then "-" else "+"), u), none)
text_call failing (run_user_post_rules path) w = (w, if failing then some command_failed else none)
text_call failing other w = (w, none)

abbrev texts : Bool → FirewallImpl System Error
texts failing = iptables_firewall text_binary none (text_call failing)

texts-IsSaving : (failing : Bool) → IsSaving (texts failing) (managed none)
texts-IsSaving failing =
    iptables-IsSaving text_binary none (text_call failing) (λ rules now saved e. ground (arith, e))
      tt

abbrev config : {W : Type 0} → Bool → Config W
config on = record {
  default_routes = record { net_interface = "eth0"; assigned_ip = "10.0.0.2"; is_6 = false } ∷ [];
  local_networks = [];
  custom_rules_path = "/iptables/post-rules.txt";
  enabled = on;
  restore = none;
  vpn_connection = no_connection;
  vpn_intf = "";
  outbound_subnets = [];
  allowed_input_ports = [];
  port_redirections = [];
}

abbrev start : Bool → State System
start on = record { config = config on; world = ("", tt) }

abbrev recorded_start : State (System × Ledger)
recorded_start = record {
  config = config true;
  world = (("", tt), record { appended = λ j q. 0; deleted = λ j q. 0 });
}

start-Synced : Synced (texts false) recorded_start
unfolding allows
start-Synced = ((λ j q. refl), no_ports-IsPortMap)

set_allowed_port-Synced_example :
    Synced (texts false) (set_allowed_port (recorded (texts false)) 8080 "tun0" recorded_start).1
set_allowed_port-Synced_example =
    set_allowed_port-Synced (texts false) 8080 "tun0" recorded_start refl start-Synced

still_enabled :
    (set_allowed_port (recorded (texts false)) 8080 "tun0" recorded_start).1.config.enabled ≡ true
unfolding set_allowed_port
still_enabled = refl

remove_allowed_port-Synced_example :
    Synced
      (texts false)
      (remove_allowed_port
        (recorded (texts false))
        8080
        (set_allowed_port (recorded (texts false)) 8080 "tun0" recorded_start).1).1
remove_allowed_port-Synced_example =
    remove_allowed_port-Synced (texts false) 8080
      (set_allowed_port (recorded (texts false)) 8080 "tun0" recorded_start).1 still_enabled
      set_allowed_port-Synced_example

post_rules_fail : (set_enabled (texts true) true (start false)).0 ≡ err command_failed
unfolding set_enabled impl_call gluetun.Iptables.Run.save_and_restore
post_rules_fail = refl

post_rules_pass : (set_enabled (texts false) true (start false)).0 ≡ ok tt
unfolding set_enabled impl_call gluetun.Iptables.Run.save_and_restore
post_rules_pass = refl

now_enabled : (set_enabled (texts false) true (start false)).1.config.enabled ≡ true
unfolding set_enabled impl_call gluetun.Iptables.Run.save_and_restore
now_enabled = refl

set_enabled-rollback_example :
    ((set_enabled (texts true) true (start false)).1.config.enabled ≡ false)
    × SameRules
        (texts true)
        (managed none)
        (texts-IsSaving true)
        (start false).world
        (set_enabled (texts true) true (start false)).1.world
set_enabled-rollback_example =
    set_enabled-rollback (texts true) (managed none) (texts-IsSaving true) (start false)
      command_failed refl post_rules_fail

set_enabled-restores_example :
    let u = (set_enabled (texts false) true (start false)).1 in
    ((set_enabled (texts false) false u).0 ≡ ok tt)
    × ((set_enabled (texts false) false u).1.config.enabled ≡ false)
    × SameRules
        (texts false)
        (managed none)
        (texts-IsSaving false)
        (start false).world
        (set_enabled (texts false) false u).1.world
set_enabled-restores_example =
    set_enabled-restores (texts false) (managed none) (texts-IsSaving false) (start false)
      (set_enabled (texts false) true (start false)).1 refl post_rules_pass now_enabled refl

abbrev redirection : String → PortRedirection
redirection intf = record { interface_name = intf; source_port = 9000; destination_port = 80 }

removed_everywhere : (intf : String) → is_removed "" 9000 (redirection intf) ≡ true
unfolding is_removed
removed_everywhere intf = refl

remove_panics_example : remove "" 9000 (redirection "tun0" ∷ redirection "tun1" ∷ []) ≡ none
remove_panics_example =
    remove_panics "" 9000 (redirection "tun0" ∷ redirection "tun1" ∷ []) 0 1 (redirection "tun0")
      (redirection "tun1") refl (omega arith) refl (removed_everywhere "tun0") refl
      (removed_everywhere "tun1")

nothing_stored :
    check [] (record { interface_name = "tun0"; source_port = 9000; destination_port = 0 })
    ≡ (false, none)
unfolding check
nothing_stored = refl

request_redirection-stores_example :
    ((request_redirection (texts false) "tun0" 9000 0 (start true)).0 ≡ ok tt)
    × (check
          (request_redirection (texts false) "tun0" 9000 0 (start true)).1.config.port_redirections
          (record { interface_name = "tun0"; source_port = 9000; destination_port = 0 })
        ≡ (true, none))
request_redirection-stores_example =
    request_redirection-stores (texts false)
      (record { interface_name = "tun0"; source_port = 9000; destination_port = 0 }) (start true)
      refl (omega arith) nothing_stored refl

abbrev wireguard : Connection
wireguard = record no_connection {
  type = "wireguard";
  ip = some "1.2.3.4";
  port = 51820;
  protocol = "udp";
}

other_connection : connection_equal no_connection wireguard ≡ false
unfolding connection_equal
other_connection = refl

set_vpn_connection-Settled_example :
    Settled
      (texts false)
      wireguard
      "tun0"
      (set_vpn_connection (texts false) wireguard "tun0" (start true))
set_vpn_connection-Settled_example =
    set_vpn_connection-Settled (texts false) wireguard "tun0" (start true) refl other_connection

abbrev lan : Prefix
lan = record { text = "192.168.1.0/24"; is_6 = false }

set_outbound_subnets-Updated_example :
    Updated
      (texts false)
      lan
      (has_family false (start true).config.default_routes)
      (found lan [])
      (found lan (lan ∷ []))
      (set_outbound_subnets (texts false) (lan ∷ []) (start true))
set_outbound_subnets-Updated_example =
    set_outbound_subnets-Updated (texts false) (lan ∷ []) (start true) lan refl tt ((λ _. refl), tt)
