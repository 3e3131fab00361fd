-- ===== src/Portforward.antt =====
-- internal/portforward/service: the ports that the service forwards, over the firewall that it
-- asks for them. Routing, the provider's port forwarder, the port file and the commands of the
-- user are parameters. startStopMutex is held for the whole of Start, Stop and SetPortsForwarded.
pub mod Allower
pub mod Closed
pub mod Opened
pub mod Pairs
pub mod Cycle
pub mod Validate
mod Tests
use gluetun.Prelude.{
  ℕ, zero, suc, ◌+◌, ◌-◌, ◌==◌, Bool, true, false, not, ◌||◌, ◌&&◌, Option, none, some, List, [],
  ◌∷◌, ◌++◌, String, str_eq, if◌then◌else◌, length, get_elem?,
}
use gluetun.Firewall.{Result, ok, err, panic}

-- PortAllower (interfaces.go), over the state `F` of the firewall.
pub record PortAllower (F E : Type 0) : Type 0 where
  pub set_allowed_port : ℕ → String → F → Result E (Unit {0}) × F
  pub remove_allowed_port : ℕ → F → Result E (Unit {0}) × F
  pub redirect_port : String → ℕ → ℕ → F → Result E (Unit {0}) × F

-- The port file with its owner, and a command of the user, run with its placeholders replaced. An
-- error of a command is only logged.
pub record Outside (S E : Type 0) : Type 0 where
  pub write_file : List ℕ → S → Result E (Unit {0}) × S
  pub run_command : String → List ℕ → String → S → S

-- Settings, as far as the ports depend on them
pub record Settings : Type 0 where
  pub enabled : Bool
  pub up_command : String
  pub down_command : String
  pub interface : String
  pub listening_ports : List ℕ

-- slices.Equal on ports
pub ports_equal : List ℕ → List ℕ → Bool
ports_equal [] [] = true
ports_equal (p ∷ ps) (q ∷ qs) = (p == q) && ports_equal ps qs
ports_equal _ _ = false

-- The test of cleanup and of onNewPorts
abbrev pub user_redirection : Settings → Bool
unfolding ports_equal
user_redirection settings = not (ports_equal settings.listening_ports (0 ∷ []))

-- Service: `keeps` is whether keepPortCancel is set, which it stays once the service has started.
pub record Service (F S : Type 0) : Type 0 where
  pub ports : List ℕ
  pub keeps : Bool
  pub firewall : F
  pub outside : S

-- A map from port to port, as an association list in the order of an iteration
abbrev pub PortPairs : Type 0
PortPairs = List (ℕ × ℕ)

pub internal_of : ℕ → PortPairs → ℕ
internal_of external [] = 0
internal_of external ((e, i) ∷ pairs) = if e == external then i else internal_of external pairs

pub put_internal : ℕ → ℕ → PortPairs → PortPairs
put_internal external internal [] = (external, internal) ∷ []
put_internal external internal ((e, i) ∷ pairs) =
    if e == external
    then (external, internal) ∷ pairs
    else (e, i) ∷ put_internal external internal pairs

-- The loop that turns the map round, and its test
pub turned : PortPairs → PortPairs → PortPairs
unfolding put_internal
turned [] pairs = pairs
turned ((internal, external) ∷ rest) pairs = turned rest (put_internal external internal pairs)

pub redirection_needed : PortPairs → Bool
redirection_needed [] = false
redirection_needed ((internal, external) ∷ rest) =
    not (internal == external) || redirection_needed rest

pub keys : PortPairs → List ℕ
keys [] = []
keys ((e, i) ∷ pairs) = e ∷ keys pairs

pub identity_pairs : List ℕ → PortPairs → PortPairs
unfolding put_internal
identity_pairs [] pairs = pairs
identity_pairs (p ∷ ps) pairs = identity_pairs ps (put_internal p p pairs)

-- `make([]uint16, n)` with `xs` copied into it
pub copied : ℕ → List ℕ → List ℕ
copied zero xs = []
copied (suc n) [] = 0 ∷ copied n []
copied (suc n) (x ∷ xs) = x ∷ copied n xs

abbrev pub Run : Type 0 → Type 0 → Type 0 → Type 0
Run F S E = Service F S → Result E (Unit {0}) × Service F S

module _ {F S E : Type 0} where
  abbrev pub and_then :
      Result E (Unit {0}) × Service F S → Run F S E → Result E (Unit {0}) × Service F S
  and_then (ok u, s) next = next s
  and_then (err e, s) next = (err e, s)
  and_then (panic, s) next = (panic, s)

  infixl 5 ◌>>◌
  abbrev pub ◌>>◌ : Run F S E → Run F S E → Run F S E
  ◌>>◌ first next s = and_then (first s) next

  abbrev pub done : Run F S E
  done s = (ok tt, s)

  abbrev pub crash : Run F S E
  crash s = (panic, s)

  abbrev pub assign_ports : List ℕ → Run F S E
  assign_ports ports s = (ok tt, record s { ports = ports })

  -- A call of the firewall, and one of what is outside
  abbrev pub on_firewall : (F → Result E (Unit {0}) × F) → Run F S E
  on_firewall f s = let (r, after) = f s.firewall in (r, record s { firewall = after })

  abbrev pub on_outside : (S → Result E (Unit {0}) × S) → Run F S E
  on_outside f s = let (r, after) = f s.outside in (r, record s { outside = after })

module _ {F S E : Type 0} (allower : PortAllower F E) (outside : Outside S E)
    (settings : Settings) where
  -- runCommand takes the first port also where there is none. Its error is only logged.
  pub run_command : String → List ℕ → Run F S E
  run_command template [] = crash
  run_command template (p ∷ ps) =
      on_outside (λ s. (ok tt, outside.run_command template (p ∷ ps) settings.interface s))

  pub run_if_set : String → List ℕ → Run F S E
  unfolding run_command
  run_if_set command ports = if str_eq command "" then done else run_command command ports

  -- The loop of cleanup
  pub close_ports : List ℕ → Run F S E
  close_ports [] = done
  close_ports (p ∷ ps) =
      on_firewall (allower.remove_allowed_port p)
      >> ((if user_redirection settings
            then on_firewall (allower.redirect_port settings.interface p 0)
            else done)
          >> close_ports ps)

  unfoldable pub cleanup : Run F S E
  unfolding run_if_set close_ports ports_equal
  cleanup s =
      (run_if_set settings.down_command s.ports
          >> (close_ports s.ports >> (assign_ports [] >> on_outside (outside.write_file []))))
        s

  -- What follows the allowing of a port, at an index of the loop: the index may be out of range.
  pub redirect_at : Bool → ℕ → ℕ → ℕ → Run F S E
  redirect_at needed index internal external =
      if user_redirection settings
      then (elim (get_elem? settings.listening_ports index) [
        | none ↦ crash
        | some listening ↦ on_firewall (allower.redirect_port settings.interface internal listening)
      ])
      else if needed
      then on_firewall (allower.redirect_port settings.interface internal external)
      else done

  -- The loop of onNewPorts over the external ports
  pub open_ports : Bool → PortPairs → ℕ → List ℕ → Run F S E
  unfolding redirect_at internal_of
  open_ports needed pairs index [] = done
  open_ports needed pairs index (external ∷ rest) =
      on_firewall (allower.set_allowed_port (internal_of external pairs) settings.interface)
      >> (redirect_at needed index (internal_of external pairs) external
          >> open_ports needed pairs (index + 1) rest)

  -- A failed write is cleaned up, whether this fails or not, unless it panics.
  abbrev pub after_write : Result E (Unit {0}) × Service F S → Result E (Unit {0}) × Service F S
  after_write (ok u, s) = (ok u, s)
  after_write (panic, s) = (panic, s)
  after_write (err e, s) =
      let (r, after) = cleanup s in
      elim r [ ok _ ↦ (err e, after) | err _ ↦ (err e, after) | panic ↦ (panic, after) ]

  -- onNewPorts, of a map from internal to external ports. `sort` is slices.Sort.
  unfoldable pub on_new_ports : (List ℕ → List ℕ) → PortPairs → Run F S E
  unfolding open_ports turned redirection_needed keys copied run_if_set ports_equal
  on_new_ports sort pairs =
      let internals = turned pairs [] in
      let externals = sort (keys internals) in
      open_ports (redirection_needed pairs) internals 0 externals
      >> ((λ s. after_write (on_outside (outside.write_file externals) s))
          >> (assign_ports (copied (length pairs) externals)
              >> run_if_set settings.up_command externals))

  -- Start, from what routing and the port forwarder give.
  pub start_given : (List ℕ → List ℕ) → Result E PortPairs → Run F S E
  unfolding on_new_ports
  start_given sort (ok pairs) = on_new_ports sort pairs >> λ s. (ok tt, record s { keeps = true })
  start_given sort (err e) = λ s. (err e, s)
  start_given sort panic = crash

  unfoldable pub start_service : (List ℕ → List ℕ) → Result E PortPairs → Run F S E
  unfolding start_given
  start_service sort given = if not settings.enabled then done else start_given sort given

  -- Stop calls keepPortCancel, which is the nil function in a service that has not started.
  pub stop_ports : List ℕ → Run F S E
  unfolding cleanup
  stop_ports [] s = done s
  stop_ports (p ∷ ps) s = (if s.keeps then cleanup else crash) s

  unfoldable pub stop_service : Run F S E
  unfolding stop_ports
  stop_service s = stop_ports s.ports s

  unfoldable pub set_ports_forwarded : (List ℕ → List ℕ) → List ℕ → Run F S E
  unfolding cleanup on_new_ports ports_equal identity_pairs
  set_ports_forwarded sort ports s =
      (if ports_equal s.ports (sort ports)
          then done
          else (cleanup >> on_new_ports sort (identity_pairs (sort ports) [])))
        s

  -- What the goroutine of Start does where KeepPortForward returns by itself.
  unfoldable pub keep_port_ended : Run F S E
  unfolding cleanup
  keep_port_ended s =
      let (r, after) = cleanup s in
      elim r [ ok _ ↦ (ok tt, after) | err _ ↦ (ok tt, after) | panic ↦ (panic, after) ]
