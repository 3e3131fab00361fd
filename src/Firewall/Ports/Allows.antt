-- ===== src/Firewall/Ports/Allows.antt =====
-- internal/firewall/ports.go: what the map of allowed input ports allows after its changes.
use gluetun.Prelude.{
  ℕ, ◌==◌, ◌≡◌, refl, inl, inr, Bool, true, false, none, some, List, [], ◌∷◌, String, str_eq,
  eq_iff, if◌then◌else◌, arith, Bool-cases,
}
use gluetun.Firewall.Ports.{
  has_interface, add_interface, delete_interface, PortMap, interfaces_of, set_port, delete_port,
  interfaces_or_empty, allow_interface, forget_interface,
}

-- Whether the map allows input to the port through the interface.
unfoldable pub allows : PortMap → String → ℕ → Bool
unfolding interfaces_of interfaces_or_empty has_interface
allows ports intf port = has_interface intf (interfaces_or_empty (interfaces_of port ports))

pub allows_lem :
    (ports : PortMap) (i : String) (p : ℕ)
    → allows ports i p ≡ has_interface i (interfaces_or_empty (interfaces_of p ports))
unfolding allows
allows_lem ports i p = refl

interfaces_of-set_port :
    (p q : ℕ) (is : List String) (ports : PortMap)
    → interfaces_of q (set_port p is ports) ≡ (if p == q then some is else interfaces_of q ports)
unfolding interfaces_of set_port
interfaces_of-set_port p q is [] = refl
interfaces_of-set_port p q is ((r, js) ∷ ports) =
    ground (arith, interfaces_of-set_port p q is ports)

interfaces_of-delete_port :
    (p q : ℕ) (ports : PortMap)
    → interfaces_of q (delete_port p ports) ≡ (if p == q then none else interfaces_of q ports)
unfolding interfaces_of delete_port
interfaces_of-delete_port p q [] = ground arith
interfaces_of-delete_port p q ((r, js) ∷ ports) =
    ground (arith, interfaces_of-delete_port p q ports)

pub has-add :
    (i j : String) (is : List String)
    → has_interface j (add_interface i is) ≡ (if str_eq i j then true else has_interface j is)
unfolding add_interface has_interface
has-add i j is = elim (Bool-cases (has_interface i is)) [
  | inl e ↦ rw e (ground (arith, e, eq_iff i j))
  | inr e ↦ rw e refl
]

pub has-delete :
    (i j : String) (is : List String)
    → has_interface j (delete_interface i is) ≡ (if str_eq i j then false else has_interface j is)
unfolding delete_interface has_interface
has-delete i j [] = ground arith
has-delete i j (k ∷ is) = ground (arith, has-delete i j is, eq_iff i j, eq_iff k i, eq_iff k j)

pub allows-allow_interface :
    (p q : ℕ) (i j : String) (ports : PortMap)
    → allows (allow_interface p i ports) j q
      ≡ (if p == q then (if str_eq i j then true else allows ports j q) else allows ports j q)
unfolding allows allow_interface
allows-allow_interface p q i j ports = ground (
  arith,
  interfaces_of-set_port p q (add_interface i (interfaces_or_empty (interfaces_of p ports))) ports,
  has-add i j (interfaces_or_empty (interfaces_of p ports)),
)

pub allows-forget_interface :
    (p q : ℕ) (i j : String) (ports : PortMap)
    → allows (forget_interface p i ports) j q
      ≡ (if p == q then (if str_eq i j then false else allows ports j q) else allows ports j q)
unfolding allows forget_interface
allows-forget_interface p q i j ports = ground (
  arith,
  interfaces_of-set_port p q (delete_interface i (interfaces_or_empty (interfaces_of p ports)))
      ports,
  has-delete i j (interfaces_or_empty (interfaces_of p ports)),
)

pub allows-delete_port :
    (p q : ℕ) (j : String) (ports : PortMap)
    → allows (delete_port p ports) j q ≡ (if p == q then false else allows ports j q)
unfolding allows
allows-delete_port p q j ports = ground (arith, interfaces_of-delete_port p q ports)

-- An interface stands once in the list, as in a set of Go.
abbrev pub NoRepeats : List String → Type 0
NoRepeats [] = Unit
NoRepeats (i ∷ is) = (has_interface i is ≡ false) × NoRepeats is

NoRepeats-add : (i : String) (is : List String) → NoRepeats is → NoRepeats (add_interface i is)
unfolding add_interface
NoRepeats-add i is n = elim (Bool-cases (has_interface i is)) [
  | inl e ↦ rw e n
  | inr e ↦ rw e (e, n)
]

NoRepeats-delete :
    (i : String) (is : List String) → NoRepeats is → NoRepeats (delete_interface i is)
unfolding delete_interface
NoRepeats-delete i [] n = tt
NoRepeats-delete i (k ∷ is) (e, n) = elim (Bool-cases (str_eq k i)) [
  | inl same ↦ rw same (NoRepeats-delete i is n)
  | inr other ↦ rw other (ground (arith, has-delete i k is, e), NoRepeats-delete i is n)
]

-- The lists of the map stand for sets.
abbrev pub IsPortMap : PortMap → Type 0
IsPortMap ports = (p : ℕ) → NoRepeats (interfaces_or_empty (interfaces_of p ports))

IsPortMap-set_port :
    (p : ℕ) (is : List String) (ports : PortMap)
    → NoRepeats is
    → IsPortMap ports
    → IsPortMap (set_port p is ports)
unfolding interfaces_or_empty
IsPortMap-set_port p is ports n all q = elim (Bool-cases (p == q)) [
  | inl e ↦ rw (interfaces_of-set_port p q is ports, e) n
  | inr e ↦ rw (interfaces_of-set_port p q is ports, e) (all q)
]

pub allow_interface-IsPortMap :
    (p : ℕ) (i : String) (ports : PortMap) → IsPortMap ports → IsPortMap (allow_interface p i ports)
unfolding allow_interface
allow_interface-IsPortMap p i ports all =
    IsPortMap-set_port p (add_interface i (interfaces_or_empty (interfaces_of p ports))) ports
      (NoRepeats-add i (interfaces_or_empty (interfaces_of p ports)) (all p)) all

pub forget_interface-IsPortMap :
    (p : ℕ) (i : String) (ports : PortMap)
    → IsPortMap ports
    → IsPortMap (forget_interface p i ports)
unfolding forget_interface
forget_interface-IsPortMap p i ports all =
    IsPortMap-set_port p (delete_interface i (interfaces_or_empty (interfaces_of p ports))) ports
      (NoRepeats-delete i (interfaces_or_empty (interfaces_of p ports)) (all p)) all

pub delete_port-IsPortMap :
    (p : ℕ) (ports : PortMap) → IsPortMap ports → IsPortMap (delete_port p ports)
unfolding interfaces_or_empty
delete_port-IsPortMap p ports all q = elim (Bool-cases (p == q)) [
  | inl e ↦ rw (interfaces_of-delete_port p q ports, e) tt
  | inr e ↦ rw (interfaces_of-delete_port p q ports, e) (all q)
]

pub no_ports-IsPortMap : IsPortMap []
unfolding interfaces_of interfaces_or_empty
no_ports-IsPortMap p = tt
