-- ===== src/Firewall/Ports.antt =====
-- internal/firewall/ports.go
pub mod Allows
pub mod Synced
pub mod Opens
use gluetun.Prelude.{
  ℕ, ◌==◌, ◌||◌, not, Bool, true, false, Option, none, some, List, [], ◌∷◌, ◌++◌, String, str_eq,
  if◌then◌else◌,
}
use gluetun.Firewall.{
  FirewallImpl, Config, M, ◌>>=◌, ◌>>◌, done, update, config_of, change, accept_input_to_port,
  impl_call,
}

-- A set of interfaces is the list of its members, in the order of Go's iteration.
pub has_interface : String → List String → Bool
has_interface intf [] = false
has_interface intf (i ∷ is) = if str_eq i intf then true else has_interface intf is

-- `set[intf] = struct{}{}`
pub add_interface : String → List String → List String
unfolding has_interface
add_interface intf is = if has_interface intf is then is else intf ∷ is

-- `delete(set, intf)`
pub delete_interface : String → List String → List String
delete_interface intf [] = []
delete_interface intf (i ∷ is) =
    if str_eq i intf then delete_interface intf is else i ∷ delete_interface intf is

abbrev pub PortMap : Type 0
PortMap = List (ℕ × List String)

-- `interfaces, ok := ports[port]`
pub interfaces_of : ℕ → PortMap → Option (List String)
interfaces_of port [] = none
interfaces_of port ((p, is) ∷ ports) = if p == port then some is else interfaces_of port ports

-- `ports[port] = interfaces`
pub set_port : ℕ → List String → PortMap → PortMap
set_port port is [] = (port, is) ∷ []
set_port port is ((p, js) ∷ ports) =
    if p == port then (port, is) ∷ ports else (p, js) ∷ set_port port is ports

-- `delete(ports, port)`
pub delete_port : ℕ → PortMap → PortMap
delete_port port [] = []
delete_port port ((p, is) ∷ ports) =
    if p == port then delete_port port ports else (p, is) ∷ delete_port port ports

-- the set of a port, made where there is none
pub interfaces_or_empty : Option (List String) → List String
interfaces_or_empty none = []
interfaces_or_empty (some is) = is

pub allow_interface : ℕ → String → PortMap → PortMap
unfolding add_interface interfaces_or_empty interfaces_of set_port
allow_interface port intf ports =
    set_port port (add_interface intf (interfaces_or_empty (interfaces_of port ports))) ports

-- The sets of the map are shared: a deletion from the set of a port is seen through the map.
pub forget_interface : ℕ → String → PortMap → PortMap
unfolding delete_interface interfaces_or_empty interfaces_of set_port
forget_interface port intf ports =
    set_port port (delete_interface intf (interfaces_or_empty (interfaces_of port ports))) ports

module _ {W E : Type 0} (impl : FirewallImpl W E) where
  unfoldable pub set_allowed_port : ℕ → String → M W E (Unit {0})
  unfolding allow_interface impl_call
  set_allowed_port port intf = do
    c ← config_of
    let ports = c.allowed_input_ports
    let record_it = update λ d. record d { allowed_input_ports = allow_interface port intf ports }
    if port == 0
        then done
        else if not c.enabled
        then record_it
        else if has_interface intf (interfaces_or_empty (interfaces_of port ports))
        then done
        else impl_call impl (change (accept_input_to_port intf port) false) >> record_it

  -- `for netInterface := range interfacesSet`
  pub remove_interfaces : ℕ → List String → M W E (Unit {0})
  unfolding forget_interface impl_call
  remove_interfaces port [] = done
  remove_interfaces port (i ∷ is) = do
    impl_call impl (change (accept_input_to_port i port) true)
    update λ c. record c { allowed_input_ports = forget_interface port i c.allowed_input_ports }
    remove_interfaces port is

  -- The loop, and the removal of the entry once all its interfaces are removed.
  pub remove_port_entry : ℕ → Option (List String) → M W E (Unit {0})
  unfolding remove_interfaces delete_port
  remove_port_entry port none = done
  remove_port_entry port (some is) = do
    remove_interfaces port is
    update λ c. record c { allowed_input_ports = delete_port port c.allowed_input_ports }

  unfoldable pub remove_allowed_port : ℕ → M W E (Unit {0})
  unfolding remove_port_entry
  remove_allowed_port port = do
    c ← config_of
    if port == 0
        then done
        else if not c.enabled
        then update (λ d. record d { allowed_input_ports = delete_port port d.allowed_input_ports })
        else remove_port_entry port (interfaces_of port c.allowed_input_ports)
