-- ===== src/Natpmp/Rpc.antt =====
-- internal/natpmp/rpc.go: the retries of a call and the responses that it returns.
use gluetun.Prelude.{ℕ, zero, suc, ◌+◌, ◌*◌, ◌≡◌, refl, some, List, [], ◌∷◌, String, arith}
use gluetun.Bytes.{Bytes}
use gluetun.Natpmp.{
  connection_timeout, ok, err, check_request, Client, timed_out, Network, round, rpc_loop, rpc,
}

-- `d`, twice `d`, four times `d`, and so on
pub doublings : ℕ → ℕ → List ℕ
doublings zero d = []
doublings (suc n) d = d ∷ doublings n (d * 2)

pub sum : List ℕ → ℕ
sum [] = 0
sum (d ∷ ds) = d + sum ds

pub doubled : ℕ → ℕ → ℕ
doubled zero d = d
doubled (suc n) d = doubled n (d * 2)

sum-doublings : (n d : ℕ) → sum (doublings n d) + d ≡ doubled n d
unfolding sum doublings doubled
sum-doublings zero d = omega arith
sum-doublings (suc n) d = omega (arith, sum-doublings n (d * 2))

timeouts :
    (network : Network) (gateway : String) (request : Bytes) (rounds k d : ℕ)
    → ((i t : ℕ) → network i t request ≡ timed_out)
    → rpc_loop network gateway request rounds k d ≡ (doublings rounds d, err connection_timeout)
unfolding rpc_loop round doublings
timeouts network gateway request zero k d silent = refl
timeouts network gateway request (suc rounds) k d silent =
    rw (silent k d, timeouts network gateway request rounds (suc k) (d * 2) silent) refl

-- A gateway that never answers is asked as often as the client says, with a timeout that doubles
-- from round to round; in all they make the last doubling less the first timeout, and the call
-- ends with the timeout error.
pub rpc-silent :
    (client : Client) (network : Network) (gateway : String) (request : Bytes) (size : ℕ)
    → check_request request ≡ ok tt
    → ((i t : ℕ) → network i t request ≡ timed_out)
    → (rpc client network (some gateway) request size
        ≡ (doublings client.max_retries client.initial_connection_duration, err connection_timeout))
      × (sum (rpc client network (some gateway) request size).0 + client.initial_connection_duration
          ≡ doubled client.max_retries client.initial_connection_duration)
unfolding rpc
rpc-silent client network gateway request size accepted silent =
    (ends, rw ends (sum-doublings client.max_retries client.initial_connection_duration))
  where
    ends :
        rpc client network (some gateway) request size
        ≡ (doublings client.max_retries client.initial_connection_duration, err connection_timeout)
    ends =
        rw
          (
            rpc,
            accepted,
            timeouts network gateway request client.max_retries 0 client.initial_connection_duration
                silent,
          )
          refl
