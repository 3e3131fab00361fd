-- ===== src/Servers/Filter.antt =====
-- internal/storage/filter.go. `equal_fold` is strings.EqualFold.
pub mod Matches
use gluetun.Prelude.{
  ℕ, ◌==◌, Bool, true, false, not, ◌&&◌, ◌||◌, List, [], ◌∷◌, String, str_eq, if◌then◌else◌,
}
use gluetun.Servers.{
  Server, Selection, wireguard_type, tcp_protocol, Result, ok, err, no_server_found,
}

-- filterByPossibilities, by the test of two values that it makes
pub none_of : {A : Type 0} → (A → A → Bool) → A → List A → Bool
none_of same value [] = true
none_of same value (p ∷ ps) = if same value p then false else none_of same value ps

pub filter_by_possibilities : {A : Type 0} → (A → A → Bool) → A → List A → Bool
unfolding none_of
filter_by_possibilities same value [] = false
filter_by_possibilities same value (p ∷ ps) = none_of same value (p ∷ ps)

-- The loop of filterAnyByPossibilities
pub none_valid : (String → String → Bool) → List String → List String → Bool
unfolding filter_by_possibilities
none_valid same [] possibilities = true
none_valid same (v ∷ vs) possibilities =
    if not (filter_by_possibilities same v possibilities)
    then false
    else none_valid same vs possibilities

pub filter_any_by_possibilities : (String → String → Bool) → List String → List String → Bool
unfolding none_valid
filter_any_by_possibilities same values [] = false
filter_any_by_possibilities same values (p ∷ ps) = none_valid same values (p ∷ ps)

pub filter_by_protocol : Selection → Bool → Bool → Bool
filter_by_protocol selection server_tcp server_udp =
    let want_tcp = str_eq selection.openvpn.protocol tcp_protocol in
    let want_udp = not want_tcp in
    if str_eq selection.vpn wireguard_type
    then not server_udp
    else (want_tcp && not server_tcp) || (want_udp && not server_udp)

-- Two numbers print the same exactly where they are equal.
abbrev pub same_number : ℕ → ℕ → Bool
same_number a b = a == b

pub filter_server : (String → String → Bool) → Server → Selection → Bool
unfolding filter_by_possibilities filter_any_by_possibilities filter_by_protocol
filter_server equal_fold server selection =
    if not (str_eq server.vpn selection.vpn)
    then true
    else if not (str_eq server.vpn wireguard_type)
        && filter_by_protocol selection server.tcp server.udp
    then true
    else if selection.multi_hop_only && not server.multi_hop
    then true
    else if selection.free_only && not server.free
    then true
    else if selection.stream_only && not server.stream
    then true
    else if selection.owned_only && not server.owned
    then true
    else if selection.port_forward_only && not server.port_forward
    then true
    else if selection.secure_core_only && not server.secure_core
    then true
    else if selection.tor_only && not server.tor
    then true
    else if filter_by_possibilities equal_fold server.country selection.countries
    then true
    else if filter_any_by_possibilities equal_fold server.categories selection.categories
    then true
    else if filter_by_possibilities equal_fold server.region selection.regions
    then true
    else if filter_by_possibilities equal_fold server.city selection.cities
    then true
    else if filter_by_possibilities equal_fold server.isp selection.isps
    then true
    else if filter_by_possibilities same_number server.number selection.numbers
    then true
    else if filter_by_possibilities equal_fold server.server_name selection.names
    then true
    else filter_by_possibilities equal_fold server.hostname selection.hostnames

-- The loop of FilterServers
pub kept_servers : (String → String → Bool) → Selection → List Server → List Server
unfolding filter_server
kept_servers equal_fold selection [] = []
kept_servers equal_fold selection (s ∷ ss) =
    if filter_server equal_fold s selection
    then kept_servers equal_fold selection ss
    else s ∷ kept_servers equal_fold selection ss

abbrev pub found_some : List Server → Result (List Server)
found_some [] = err no_server_found
found_some (s ∷ ss) = ok (s ∷ ss)

-- FilterServers, from the servers of the provider. Its two errors are one here.
unfoldable pub filter_servers :
    (String → String → Bool) → String → List Server → Selection → Result (List Server)
unfolding kept_servers
filter_servers equal_fold provider all_servers selection =
    if str_eq provider "custom"
    then ok []
    else found_some (kept_servers equal_fold selection all_servers)
