-- ===== src/Firewall/Redirect.antt =====
-- internal/firewall/redirect.go
pub mod Removal
pub mod Request
pub mod SamePorts
use gluetun.Prelude.{
  ℕ, zero, suc, ◌+◌, ◌-◌, ◌==◌, ltb, ◌||◌, ◌&&◌, not, Bool, true, false, Option, none, some, List,
  [], ◌∷◌, ◌++◌, String, str_eq, if◌then◌else◌, length, get_elem?, set, take,
}
use gluetun.Firewall.{
  FirewallImpl, Config, State, PortRedirection, M, ◌>>=◌, ◌>>◌, done, crash, update, config_of,
  change, redirect_port, impl_call,
}

-- The test of portRedirections.remove.
unfoldable pub is_removed : String → ℕ → PortRedirection → Bool
is_removed intf source_port r =
    r.source_port == source_port && (str_eq intf "" || str_eq intf r.interface_name)

abbrev pub or_else : Option PortRedirection → PortRedirection → PortRedirection
or_else none r = r
or_else (some q) r = q

-- The loop of portRedirections.remove over the indices from `i`, of which there are `rounds`. The
-- slice is the first `n` elements of its array, which the range reads to its first length. An
-- index out of the slice is a panic, `none`.
pub remove_loop : ℕ → ℕ → String → ℕ → List PortRedirection → ℕ → Option (List PortRedirection)
unfolding is_removed
remove_loop zero i intf source_port array n = some (take n array)
remove_loop (suc rounds) i intf source_port array n = elim (get_elem? array i) [
  | none ↦ none
  | some r ↦
      let last = or_else (get_elem? array (n - 1)) r in
      let removed = remove_loop rounds (i + 1) intf source_port (set array i last) (n - 1) in
      let kept = remove_loop rounds (i + 1) intf source_port array n in
      if is_removed intf source_port r then (if ltb i n then removed else none) else kept
]

pub remove : String → ℕ → List PortRedirection → Option (List PortRedirection)
unfolding remove_loop
remove intf source_port ps = remove_loop (length ps) 0 intf source_port ps (length ps)

-- portRedirections.check: whether the redirection exists already, and one that conflicts.
unfoldable pub check : List PortRedirection → PortRedirection → Bool × Option PortRedirection
check [] dry_run = (false, none)
check (r ∷ ps) dry_run =
    let interface_match =
      str_eq r.interface_name "" || str_eq r.interface_name dry_run.interface_name in
    if r.source_port == dry_run.source_port
      && (r.destination_port == dry_run.destination_port && interface_match)
    then (true, none)
    else if r.source_port == dry_run.source_port && interface_match
    then (false, some r)
    else check ps dry_run

module _ {W E : Type 0} (impl : FirewallImpl W E) where
  -- `c.portRedirections.remove(intf, sourcePort)`
  pub remove_stored : String → ℕ → M W E (Unit {0})
  unfolding remove
  remove_stored intf source_port s = elim (remove intf source_port s.config.port_redirections) [
    | none ↦ crash s
    | some ps ↦ update (λ c. record c { port_redirections = ps }) s
  ]

  pub append_stored : PortRedirection → M W E (Unit {0})
  append_stored r = update λ c. record c { port_redirections = c.port_redirections ++ r ∷ [] }

  -- With the firewall disabled a conflicting redirection is only removed from the state.
  pub redirect_disabled : Bool × Option PortRedirection → PortRedirection → M W E (Unit {0})
  unfolding remove_stored append_stored
  redirect_disabled (true, conflict) r = done
  redirect_disabled (false, none) r = append_stored r
  redirect_disabled (false, some c) r =
      remove_stored c.interface_name c.source_port >> append_stored r

  pub add_redirection : PortRedirection → M W E (Unit {0})
  unfolding append_stored
  add_redirection r =
      impl_call impl
        (change (redirect_port r.interface_name r.source_port r.destination_port) false)
      >> append_stored r

  pub redirect_enabled : Bool × Option PortRedirection → PortRedirection → M W E (Unit {0})
  unfolding remove_stored add_redirection
  redirect_enabled (true, conflict) r = done
  redirect_enabled (false, none) r = add_redirection r
  redirect_enabled (false, some c) r =
      impl_call impl (change (redirect_port c.interface_name c.source_port c.destination_port) true)
      >> (remove_stored c.interface_name c.source_port >> add_redirection r)

  -- Config.RedirectPort
  unfoldable pub request_redirection : String → ℕ → ℕ → M W E (Unit {0})
  unfolding remove_stored redirect_disabled redirect_enabled check
  request_redirection intf source_port destination_port = do
    c ← config_of
    let r : PortRedirection = record {
      interface_name = intf;
      source_port = source_port;
      destination_port = destination_port;
    }
    if source_port == 0
        then crash
        else if c.enabled
        then redirect_enabled (check c.port_redirections r) r
        else if destination_port == 0
        then remove_stored intf source_port
        else redirect_disabled (check c.port_redirections r) r
