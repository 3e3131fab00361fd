-- ===== src/Servers/Tests.antt =====
-- Runs of the filter, the choice of a connection and the merge, and the theorems there.
use gluetun.Prelude.{ℕ, ◌≡◌, refl, true, false, none, some, List, [], ◌∷◌, str_eq, eq_iff, arith}
use gluetun.Servers.{Address, Server, Selection, ok}
use gluetun.Servers.Filter.{filter_servers}
use gluetun.Servers.Filter.Matches.{IsFiltered, IgnoresPremiumOnly, filter_servers-IsFiltered}
use gluetun.Servers.Connect.{ConnectionDefaults, target_ip, get_connection}
use gluetun.Servers.Connect.Picked.{IsPicked, get_connection-IsPicked}
use gluetun.Servers.Merge.{ServerList, merge_provider_servers}
use gluetun.Servers.Merge.Merged.{IsNewer, IsMerged, merge_provider_servers-IsMerged}

abbrev first_ip : Address
first_ip = record { text = "1.2.3.4"; is_6 = false }

abbrev second_ip : Address
second_ip = record { text = "2001:db8::1"; is_6 = true }

abbrev first_server : Server
first_server = record {
  vpn = "openvpn";
  country = "France";
  region = "";
  city = "Paris";
  isp = "";
  categories = [];
  owned = false;
  number = 1;
  server_name = "fr1";
  hostname = "fr1.example";
  tcp = false;
  udp = true;
  ovpn_x509 = "x509";
  multi_hop = false;
  wg_pub_key = "";
  free = true;
  premium = false;
  stream = false;
  secure_core = false;
  tor = false;
  port_forward = true;
  keep = false;
  ips = first_ip ∷ second_ip ∷ [];
}

abbrev second_server : Server
second_server = record first_server { city = "Lyon"; tcp = true; keep = true }

abbrev two_servers : List Server
two_servers = first_server ∷ second_server ∷ []

abbrev selection : Selection
selection = record {
  vpn = "openvpn";
  countries = "Spain" ∷ "France" ∷ [];
  categories = [];
  regions = [];
  cities = "Lyon" ∷ [];
  isps = [];
  names = [];
  numbers = 1 ∷ [];
  hostnames = [];
  owned_only = false;
  free_only = true;
  premium_only = false;
  stream_only = false;
  multi_hop_only = false;
  port_forward_only = true;
  secure_core_only = false;
  tor_only = false;
  openvpn = record { protocol = "tcp"; endpoint_ip = none; custom_port = 0 };
  wireguard = record { endpoint_ip = none; endpoint_port = 0 };
}

abbrev defaults : ConnectionDefaults
defaults = record { openvpn_tcp_port = 443; openvpn_udp_port = 1194; wireguard_port = 51820 }

filter_run : filter_servers str_eq "airvpn" two_servers selection ≡ ok (second_server ∷ [])
unfolding filter_servers
filter_run = refl

filter_servers-IsFiltered_example :
    IsFiltered str_eq two_servers selection (filter_servers str_eq "airvpn" two_servers selection)
    × IgnoresPremiumOnly str_eq "airvpn" two_servers selection
filter_servers-IsFiltered_example =
    filter_servers-IsFiltered str_eq "airvpn" two_servers selection
      (λ e. absurd (ground (arith, (eq_iff "airvpn" "custom").1 e)))

abbrev first : ℕ → ℕ
first n = 0

get_connection_run :
    get_connection
      (filter_servers str_eq "airvpn" two_servers selection)
      selection
      defaults
      false
      first
    ≡ ok (record {
      type = "openvpn";
      ip = some "1.2.3.4";
      port = 443;
      protocol = "tcp";
      hostname = "x509";
      pub_key = "";
      server_name = "fr1";
      port_forward = true;
    })
unfolding filter_servers get_connection
get_connection_run = refl

target_run : target_ip selection ≡ ok none
unfolding target_ip
target_run = refl

get_connection-IsPicked_example :
    IsPicked selection defaults false two_servers none
      (get_connection (ok two_servers) selection defaults false first)
get_connection-IsPicked_example =
    get_connection-IsPicked two_servers selection defaults false first none
      (λ n h. omega (arith, h)) target_run (omega arith) (omega arith) (omega arith)

abbrev hardcoded : ServerList
hardcoded = record { timestamp = 20; servers = first_server ∷ [] }

abbrev persisted : ServerList
persisted = record { timestamp = 10; servers = two_servers }

merge_run :
    (merge_provider_servers (λ xs. xs) 30 hardcoded persisted).servers
    ≡ first_server ∷ second_server ∷ []
unfolding merge_provider_servers
merge_run = refl

merge_provider_servers-IsMerged_example :
    (IsNewer 30 hardcoded persisted
      → merge_provider_servers (λ xs. xs) 30 hardcoded persisted ≡ persisted)
    × (¬ IsNewer 30 hardcoded persisted
        → ((merge_provider_servers (λ xs. xs) 30 hardcoded persisted).timestamp
            ≡ hardcoded.timestamp)
          × IsMerged hardcoded.servers persisted.servers
              (merge_provider_servers (λ xs. xs) 30 hardcoded persisted).servers)
merge_provider_servers-IsMerged_example =
    merge_provider_servers-IsMerged (λ xs. xs) 30 hardcoded persisted (λ x xs. ((λ m. m), (λ m. m)))
