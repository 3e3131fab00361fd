-- ===== src/Portforward/Allower.antt =====
-- What the service relies on of the firewall (internal/portforward/service/interfaces.go), and that
-- the methods of internal/firewall keep to it.
use gluetun.Prelude.{ℕ, ◌==◌, ◌≡◌, ◌≢◌, ap, Bool, true, false, String, str_eq, if◌then◌else◌}
use gluetun.Firewall.{FirewallImpl, State, ok}
use gluetun.Firewall.Ports.{set_allowed_port, remove_allowed_port}
use gluetun.Firewall.Ports.Allows.{allows}
use gluetun.Firewall.Ports.Opens.{set_allowed_port-Opens, remove_allowed_port-Closes}
use gluetun.Firewall.Redirect.{request_redirection}
use gluetun.Firewall.Redirect.SamePorts.{request_redirection-SamePorts}
use gluetun.Portforward.{PortAllower}

-- `open f intf port` is whether input to the port is allowed through the interface. Port 0 is no
-- port.
pub record IsPortAllower {F E : Type 0} (allower : PortAllower F E)
    (is_open : F → String → ℕ → Bool) : Type 0 where
  pub opened :
      (p : ℕ) (i : String) (f : F) (j : String) (q : ℕ)
      → p ≢ 0
      → (allower.set_allowed_port p i f).0 ≡ ok tt
      → is_open (allower.set_allowed_port p i f).1 j q
        ≡ (if p == q then (if str_eq i j then true else is_open f j q) else is_open f j q)
  pub closed :
      (p : ℕ) (f : F) (j : String) (q : ℕ)
      → p ≢ 0
      → (allower.remove_allowed_port p f).0 ≡ ok tt
      → is_open (allower.remove_allowed_port p f).1 j q ≡ (if p == q then false else is_open f j q)
  pub redirected :
      (i : String) (p r : ℕ) (f : F) (j : String) (q : ℕ)
      → is_open (allower.redirect_port i p r f).1 j q ≡ is_open f j q

module _ {W E : Type 0} (impl : FirewallImpl W E) where
  -- The firewall as the service sees it
  abbrev pub firewall_allower : PortAllower (State W) E
  firewall_allower = record {
    set_allowed_port = λ p i s. set_allowed_port impl p i s;
    remove_allowed_port = λ p s. remove_allowed_port impl p s;
    redirect_port = λ i p r s. request_redirection impl i p r s;
  }

  abbrev pub firewall_open : State W → String → ℕ → Bool
  firewall_open s j q = allows s.config.allowed_input_ports j q

  -- The firewall keeps the contract of the port allower, with any implementation: after
  -- SetAllowedPort or RemoveAllowedPort of a port other than 0 with no error, the map allows
  -- that port on the interface, or on none, and any other port as before; RedirectPort
  -- changes nothing of it.
  pub firewall-IsPortAllower : IsPortAllower firewall_allower firewall_open
  firewall-IsPortAllower = record {
    opened = λ p i f j q some_port success. set_allowed_port-Opens impl p i f j q some_port success;
    closed = λ p f j q some_port success. remove_allowed_port-Closes impl p f j q some_port success;
    redirected =
        λ i p r f j q. ap (λ ports. allows ports j q) (request_redirection-SamePorts impl i p r f);
  }
