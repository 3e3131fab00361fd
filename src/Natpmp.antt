-- ===== src/Natpmp.antt =====
-- internal/natpmp: the checks of its messages (checks.go), and the retries of a call (rpc.go). A
-- message is the list of its bytes.
pub mod Rpc
pub mod Answer
pub mod Mapping
pub mod Attempts
mod Tests
use gluetun.Prelude.{
  ℕ, zero, suc, ◌+◌, ◌*◌, ◌==◌, ltb, not, Bool, true, false, Option, none, some, List, [], ◌∷◌,
  String, str_eq, length, take, if◌then◌else◌,
}
use gluetun.Bytes.{Bytes, uint16_of}

pub data Error : Type 0 where
  gateway_ip_unspecified connection_timeout request_size_too_small : Error
  response_size_too_small response_size_unexpected protocol_version_unknown : Error
  operation_code_unexpected version_not_supported not_authorized network_failure : Error
  out_of_resources operation_code_not_supported result_code_unknown : Error
  lifetime_too_long network_protocol_unknown : Error
  socket_failed context_done : Error

pub data Result (A : Type 0) : Type 0 where
  ok : A → Result A
  err : Error → Result A

infixl 5 ◌>>=◌
abbrev pub ◌>>=◌ : {A B : Type 0} → Result A → (A → Result B) → Result B
ok a >>= f = f a
err e >>= f = err e

unfoldable pub check_request : Bytes → Result (Unit {0})
check_request request = if ltb (length request) 2 then err request_size_too_small else ok tt

pub check_result_code : ℕ → Result (Unit {0})
check_result_code code =
    if code == 0
    then ok tt
    else if code == 1
    then err version_not_supported
    else if code == 2
    then err not_authorized
    else if code == 3
    then err network_failure
    else if code == 4
    then err out_of_resources
    else if code == 5
    then err operation_code_not_supported
    else err result_code_unknown

pub check_response : Bytes → ℕ → ℕ → Result (Unit {0})
unfolding check_result_code uint16_of
check_response (version ∷ code ∷ r1 ∷ r0 ∷ rest) expected_code expected_size =
    if not (suc (suc (suc (suc (length rest)))) == expected_size)
    then err response_size_unexpected
    else if not (version == 0)
    then err protocol_version_unknown
    else if not (code == expected_code)
    then err operation_code_unexpected
    else check_result_code (uint16_of r1 r0)
check_response _ expected_code expected_size = err response_size_too_small

-- `request[1] | 128` for a byte
pub response_code : Bytes → ℕ
response_code (version ∷ code ∷ rest) = if ltb code 128 then code + 128 else code
response_code _ = 128

pub record Client : Type 0 where
  pub initial_connection_duration : ℕ
  pub max_retries : ℕ

-- What one round of the loop of rpc meets: a failure of SetDeadline, Write or ReadFromUDP, the
-- end of the context, a timeout, or a datagram with its source.
pub data Attempt : Type 0 where
  failed : Attempt
  cancelled : Attempt
  timed_out : Attempt
  received : String → Bytes → Attempt

-- By the number of the round, its timeout in nanoseconds, and the request that is written.
abbrev pub Network : Type 0
Network = ℕ → ℕ → Bytes → Attempt

-- The timeouts of the rounds, and the result.
abbrev pub Run : Type 0
Run = List ℕ × Result Bytes

abbrev pub after : ℕ → Run → Run
after duration (durations, r) = (duration ∷ durations, r)

-- One round, with what follows it after a timeout and after a datagram from elsewhere. The
-- response is read into a buffer of 16 bytes.
pub round : String → ℕ → Attempt → Run → Run → Run
round gateway duration failed doubled same = (duration ∷ [], err socket_failed)
round gateway duration cancelled doubled same = (duration ∷ [], err context_done)
round gateway duration timed_out doubled same = after duration doubled
round gateway duration (received from datagram) doubled same =
    if str_eq from gateway then (duration ∷ [], ok (take 16 datagram)) else after duration same

-- The loop of rpc, by the rounds left. The timeouts stay far below the range of time.Duration.
pub rpc_loop : Network → String → Bytes → ℕ → ℕ → ℕ → Run
unfolding round
rpc_loop network gateway request zero attempt duration = ([], err connection_timeout)
rpc_loop network gateway request (suc rounds) attempt duration =
    round gateway duration (network attempt duration request)
      (rpc_loop network gateway request rounds (suc attempt) (duration * 2))
      (rpc_loop network gateway request rounds (suc attempt) duration)

abbrev pub checked : Bytes → ℕ → Result Bytes → Result Bytes
checked request size answer = do
  response ← answer
  _ ← check_response response (response_code request) size
  ok response

-- rpc, once the dial has succeeded, and with a closing that does. The gateway is `none` where its
-- address is not valid or unspecified.
unfoldable pub rpc : Client → Network → Option String → Bytes → ℕ → Run
unfolding check_request rpc_loop check_response response_code
rpc client network none request size = ([], err gateway_ip_unspecified)
rpc client network (some gateway) request size = elim (check_request request) [
  | err e ↦ ([], err e)
  | ok _ ↦
      let (durations, answer) =
        rpc_loop network gateway request client.max_retries 0 client.initial_connection_duration in
      (durations, checked request size answer)
]
