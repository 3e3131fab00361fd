-- ===== src/Iptables.antt =====
-- internal/firewall/iptables: parse.go, delete.go, tcp.go and the data of list.go. The functions of
-- the packages strings, strconv and netip are parameters.
pub mod Parse
pub mod Delete
pub mod Equal
pub mod Run
pub mod Listing
mod Tests
use gluetun.Prelude.{
  ℕ, ◌==◌, Bool, true, false, not, ◌&&◌, ◌||◌, Option, none, some, List, [], ◌∷◌, String, str_eq,
  if◌then◌else◌,
}

pub data Error : Type 0 where
  command_malformed value_malformed tcp_flags_malformed tcp_flag_unknown chain_malformed
        command_failed :
      Error

pub data Result (A : Type 0) : Type 0 where
  ok : A → Result A
  err : Error → Result A
  panic : Result A

infixl 5 ◌>>=◌
abbrev pub ◌>>=◌ : {A B : Type 0} → Result A → (A → Result B) → Result B
ok a >>= f = f a
err e >>= f = err e
panic >>= f = panic

-- A valid netip.Prefix; one that is not valid is `none`.
pub record Cidr : Type 0 where
  pub address : String
  pub bits : ℕ

pub record TcpFlags : Type 0 where
  pub mask : List ℕ
  pub comparison : List ℕ

pub record Mark : Type 0 where
  pub invert : Bool
  pub value : ℕ

pub record Instruction : Type 0 where
  pub table : String
  pub append : Bool
  pub chain : String
  pub target : String
  pub protocol : String
  pub input_interface : String
  pub output_interface : String
  pub source : Option Cidr
  pub source_port : ℕ
  pub destination : Option Cidr
  pub destination_port : ℕ
  pub to_ports : List ℕ
  pub ctstate : List String
  pub tcp_flags : TcpFlags
  pub mark : Mark

pub record ChainRule : Type 0 where
  pub line_number : ℕ
  pub packets : ℕ
  pub bytes : ℕ
  pub target : String
  pub protocol : String
  pub input_interface : String
  pub output_interface : String
  pub source : Option Cidr
  pub source_port : ℕ
  pub destination : Option Cidr
  pub destination_port : ℕ
  pub redir_ports : List ℕ
  pub ctstate : List String
  pub tcp_flags : TcpFlags
  pub mark : Mark

pub record Chain : Type 0 where
  pub name : String
  pub policy : String
  pub packets : ℕ
  pub bytes : ℕ
  pub rules : List ChainRule

-- slices.Equal
unfoldable pub slices_equal : {A : Type 0} → (A → A → Bool) → List A → List A → Bool
slices_equal same [] [] = true
slices_equal same (x ∷ xs) (y ∷ ys) = same x y && slices_equal same xs ys
slices_equal same _ _ = false

abbrev pub same_port : ℕ → ℕ → Bool
same_port a b = a == b

-- `==` of netip.Prefix
pub same_prefix : Option Cidr → Option Cidr → Bool
same_prefix none none = true
same_prefix (some a) (some b) = str_eq a.address b.address && (a.bits == b.bits)
same_prefix _ _ = false

pub network_interfaces_equal : String → String → Bool
network_interfaces_equal instruction chain_rule =
    str_eq instruction chain_rule || (str_eq instruction "" && str_eq chain_rule "*")

-- `chainRule.Bits() == 0 && chainRule.Addr().IsUnspecified()`
pub is_any_prefix : Option Cidr → Bool
is_any_prefix none = false
is_any_prefix (some c) = (c.bits == 0) && (str_eq c.address "0.0.0.0" || str_eq c.address "::")

abbrev pub is_none : Option Cidr → Bool
is_none none = true
is_none (some c) = false

pub ip_prefixes_equal : Option Cidr → Option Cidr → Bool
unfolding same_prefix is_any_prefix
ip_prefixes_equal instruction chain_rule =
    same_prefix instruction chain_rule || (is_none instruction && is_any_prefix chain_rule)

abbrev pub same_mark : Mark → Mark → Bool
same_mark a b = (if a.invert then b.invert else not b.invert) && (a.value == b.value)

unfoldable pub equal_to_rule : Instruction → String → String → ChainRule → Bool
unfolding slices_equal network_interfaces_equal ip_prefixes_equal
equal_to_rule i table chain rule =
    if not (str_eq i.table table)
    then false
    else if not (str_eq i.chain chain)
    then false
    else if not (str_eq i.target rule.target)
    then false
    else if not (str_eq i.protocol rule.protocol)
    then false
    else if not (i.destination_port == rule.destination_port)
    then false
    else if not (i.source_port == rule.source_port)
    then false
    else if not (slices_equal same_port i.to_ports rule.redir_ports)
    then false
    else if not (slices_equal (λ a b. str_eq a b) i.ctstate rule.ctstate)
    then false
    else if not (network_interfaces_equal i.input_interface rule.input_interface)
    then false
    else if not (network_interfaces_equal i.output_interface rule.output_interface)
    then false
    else if not (ip_prefixes_equal i.source rule.source)
    then false
    else if not (ip_prefixes_equal i.destination rule.destination)
    then false
    else if not (slices_equal same_port i.tcp_flags.mask rule.tcp_flags.mask)
        || not (slices_equal same_port i.tcp_flags.comparison rule.tcp_flags.comparison)
    then false
    else if not (same_mark i.mark rule.mark)
    then false
    else true
