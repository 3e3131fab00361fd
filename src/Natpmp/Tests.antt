-- ===== src/Natpmp/Tests.antt =====
-- internal/natpmp: calls evaluated, and the theorems at inputs.
use gluetun.Prelude.{◌≡◌, refl, ltb, some, [], ◌∷◌, if◌then◌else◌, arith}
use gluetun.Bytes.{Bytes}
use gluetun.Natpmp.{ok, Client, timed_out, received, Network, rpc, check_request}
use gluetun.Natpmp.Answer.{IsAnswer, rpc-IsAnswer}
use gluetun.Natpmp.Mapping.{operation_of, add_port_mapping}
use gluetun.Natpmp.Mapping.Granted.{grant, add_port_mapping-granted}

-- The client of New, with its 250 milliseconds.
abbrev new_client : Client
new_client = record { initial_connection_duration = 250000000; max_retries = 9 }

abbrev silent : Network
silent i t request = timed_out

-- A gateway that grants mappings from its second round on.
abbrev slow : Network
slow i t request = if ltb i 1 then timed_out else received "10.2.0.1" (grant 1000 request)

request_accepted : check_request (0 ∷ 0 ∷ []) ≡ ok tt
unfolding check_request
request_accepted = refl

abbrev udp_request : Bytes
udp_request = 0 ∷ 1 ∷ 0 ∷ 0 ∷ 0 ∷ 80 ∷ 0 ∷ 80 ∷ 0 ∷ 0 ∷ 0 ∷ 60 ∷ []

udp_response :
    (rpc new_client slow (some "10.2.0.1") udp_request 16).1
    ≡ ok (0 ∷ 129 ∷ 0 ∷ 0 ∷ 0 ∷ 0 ∷ 3 ∷ 232 ∷ 0 ∷ 80 ∷ 0 ∷ 80 ∷ 0 ∷ 0 ∷ 0 ∷ 60 ∷ [])
unfolding rpc grant
udp_response = refl

abbrev udp_answer : Bytes
udp_answer = 0 ∷ 129 ∷ 0 ∷ 0 ∷ 0 ∷ 0 ∷ 3 ∷ 232 ∷ 0 ∷ 80 ∷ 0 ∷ 80 ∷ 0 ∷ 0 ∷ 0 ∷ 60 ∷ []

rpc-IsAnswer_example : IsAnswer new_client slow (some "10.2.0.1") udp_request 16 udp_answer
rpc-IsAnswer_example =
    rpc-IsAnswer new_client slow (some "10.2.0.1") udp_request 16 udp_answer udp_response

udp_operation : operation_of "udp" ≡ some 1
unfolding operation_of
udp_operation = refl

add_port_mapping-granted_example :
    add_port_mapping new_client slow (some "10.2.0.1") "udp" 8080 8080 60
    ≡ ok (record { since_epoch = 1000; internal_port = 8080; external_port = 8080; lifetime = 60 })
add_port_mapping-granted_example =
    add_port_mapping-granted new_client slow "10.2.0.1" "udp" 1 8080 8080 60 1000 1 udp_operation
      (omega arith) (omega arith) (omega arith) (omega arith) (omega arith)
      (λ i t request h. ground (arith, h)) (λ t request. refl)
