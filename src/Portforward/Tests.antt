-- ===== src/Portforward/Tests.antt =====
-- internal/portforward/service: a service over the firewall, and the theorems at inputs.
use mathlib.Core.List.{Permᴰ}
use mathlib.Core.List.Permᴰ
use mathlib.Core.List.Permᴰ.{nil, cons, swap, trans}
use gluetun.Prelude.{
  ℕ, ◌≡◌, ◌≢◌, refl, true, false, none, some, get_elem?, List, [], ◌∷◌, String, All, if◌then◌else◌,
  arith, ltb, Bool-cases, inl, inr,
}
use gluetun.Firewall.{FirewallImpl, State, saved, Result, ok, no_connection}
use gluetun.Portforward.{
  Outside, Settings, Service, ◌>>◌, keys, cleanup, on_new_ports, ports_equal, start_service,
  stop_service, set_ports_forwarded, user_redirection,
}
use gluetun.Portforward.Allower.{
  IsPortAllower, firewall_allower, firewall_open, firewall-IsPortAllower,
}
use gluetun.Portforward.Closed.{port_in}
use gluetun.Portforward.Validate.{FullSettings, validate}
use gluetun.Portforward.Validate.Ready.{validate-get_elem?}
use gluetun.Portforward.Cycle.{Cycled, Changed, start_stop-Cycled, set_ports_forwarded-Changed}
use gluetun.Portforward.Pairs.{externals}
use gluetun.Firewall.Ports.{set_allowed_port, remove_allowed_port}
use gluetun.Firewall.Redirect.{request_redirection}

-- Rules that are always written
abbrev quiet : FirewallImpl (Unit {0}) String
quiet = record { save_and_restore = λ w. (w, saved (λ _. w)); call = λ c w. (w, none) }

-- The port file is the outside.
abbrev outside : Outside (List ℕ) String
outside = record {
  write_file = λ ports file. (ok tt, ports);
  run_command = λ template ports interface file. file;
}

abbrev settings : Settings
settings = record {
  enabled = true;
  up_command = "";
  down_command = "";
  interface = "tun0";
  listening_ports = 0 ∷ [];
}

abbrev service : Service (State (Unit {0})) (List ℕ)
service = record {
  ports = [];
  keeps = false;
  firewall = record {
    config = record {
      default_routes =
          record { net_interface = "eth0"; assigned_ip = "10.0.0.2"; is_6 = false } ∷ [];
      local_networks = [];
      custom_rules_path = "/iptables/post-rules.txt";
      enabled = true;
      restore = none;
      vpn_connection = no_connection;
      vpn_intf = "";
      outbound_subnets = [];
      allowed_input_ports = [];
      port_redirections = [];
    };
    world = tt;
  };
  outside = [];
}

abbrev running : Service (State (Unit {0})) (List ℕ)
running = record service { ports = 7000 ∷ 8000 ∷ [] }

-- Sorting by insertion
abbrev insert : ℕ → List ℕ → List ℕ
insert p [] = p ∷ []
insert p (q ∷ qs) = let rest = insert p qs in if ltb q p then q ∷ rest else p ∷ q ∷ qs

abbrev sort : List ℕ → List ℕ
sort [] = []
sort (p ∷ ps) = insert p (sort ps)

insert-Permᴰ : (p : ℕ) (ps : List ℕ) → Permᴰ (p ∷ ps) (insert p ps)
insert-Permᴰ p [] = cons refl nil
insert-Permᴰ p (q ∷ qs) = elim (Bool-cases (ltb q p)) [
  | inl less ↦ rw less (trans (swap refl refl) (cons refl (insert-Permᴰ p qs)))
  | inr other ↦ rw other (Permᴰ.refl (p ∷ q ∷ qs))
]

sort-Permᴰ : (ps : List ℕ) → Permᴰ ps (sort ps)
sort-Permᴰ [] = nil
sort-Permᴰ (p ∷ ps) = trans (cons refl (sort-Permᴰ ps)) (insert-Permᴰ p (sort ps))

some_ports : All (λ (p : ℕ). p ≢ 0) (7000 ∷ 8000 ∷ [])
some_ports = ((λ e. omega (arith, e)), ((λ e. omega (arith, e)), tt))

cleaned : (cleanup (firewall_allower quiet) outside settings running).0 ≡ ok tt
unfolding cleanup user_redirection remove_allowed_port
cleaned = refl

cycle_ok :
    ((start_service (firewall_allower quiet) outside settings sort (ok ((7000, 8000) ∷ []))
        >> stop_service (firewall_allower quiet) outside settings)
      service).0
    ≡ ok tt
unfolding start_service stop_service set_allowed_port remove_allowed_port request_redirection
cycle_ok = refl

eight_seven : All (λ (p : ℕ). p ≢ 0) (8000 ∷ 7000 ∷ [])
eight_seven = ((λ e. omega (arith, e)), ((λ e. omega (arith, e)), tt))

nine : All (λ (p : ℕ). p ≢ 0) (9000 ∷ [])
nine = ((λ e. omega (arith, e)), tt)

-- Two forwarded ports, after a start
abbrev two_ports : List (ℕ × ℕ)
two_ports = (8000, 8000) ∷ (7000, 7000) ∷ []

abbrev opened : Result String (Unit {0}) × Service (State (Unit {0})) (List ℕ)
opened = on_new_ports (firewall_allower quiet) outside settings sort two_ports service

opened_ok : opened.0 ≡ ok tt
unfolding on_new_ports set_allowed_port
opened_ok = refl

changed :
    (set_ports_forwarded (firewall_allower quiet) outside settings sort (9000 ∷ []) running).0
    ≡ ok tt
unfolding set_ports_forwarded set_allowed_port remove_allowed_port
changed = refl

start_stop-Cycled_example :
    Cycled
      (firewall_allower quiet)
      (firewall_open quiet)
      (firewall-IsPortAllower quiet)
      outside
      settings
      ((7000, 8000) ∷ [])
      service.firewall
      "tun0"
      8000
      ((start_service (firewall_allower quiet) outside settings sort (ok ((7000, 8000) ∷ []))
          >> stop_service (firewall_allower quiet) outside settings)
        service).1
unfolding keys externals port_in
start_stop-Cycled_example =
    start_stop-Cycled (firewall_allower quiet) (firewall_open quiet) (firewall-IsPortAllower quiet)
      outside settings sort ((7000, 8000) ∷ []) service "tun0" 8000 sort-Permᴰ refl (refl, tt)
      (some_ports.0, tt) (some_ports.1.0, tt) cycle_ok

set_ports_forwarded-Changed_example :
    Changed
      (firewall_allower quiet)
      (firewall_open quiet)
      (firewall-IsPortAllower quiet)
      outside
      settings
      sort
      sort-Permᴰ
      (9000 ∷ [])
      running
      9000
      (set_ports_forwarded (firewall_allower quiet) outside settings sort (9000 ∷ []) running).1
unfolding keys externals port_in
set_ports_forwarded-Changed_example =
    set_ports_forwarded-Changed (firewall_allower quiet) (firewall_open quiet)
      (firewall-IsPortAllower quiet) outside settings sort sort-Permᴰ (9000 ∷ []) running 9000
      (refl, tt) nine some_ports (λ e. absurd (ground (arith, e))) changed

firewall-IsPortAllower_example : IsPortAllower (firewall_allower quiet) (firewall_open quiet)
firewall-IsPortAllower_example = firewall-IsPortAllower quiet

abbrev two_listening : FullSettings
two_listening = record {
  filepath = "/tmp/gluetun/forwarded_port";
  port_forwarder = some "protonvpn";
  interface = "tun0";
  ports_count = 2;
  server_name = "";
  username = "";
  password = "";
  listening_ports = 6881 ∷ 6882 ∷ [];
}

two_listening_valid : validate true two_listening ≡ none
unfolding validate
two_listening_valid = refl

validate-get_elem?_example : (p : ℕ) × (get_elem? (6881 ∷ 6882 ∷ []) 1 ≡ some p) × (p ≢ 0)
unfolding ports_equal
validate-get_elem?_example =
    validate-get_elem? two_listening 1 two_listening_valid refl (omega arith)
