-- ===== src/Natpmp/Answer.antt =====
-- internal/natpmp/rpc.go: which responses a call returns, and when it returns one.
use native.Mathlib.Nat.{add-zero, zero-add}
use mathlib.Core.Path.{subst}
use gluetun.Prelude.{
  ℕ, zero, suc, ◌+◌, ◌*◌, ◌≤◌, ◌<◌, ◌≡◌, refl, ap, ◌∙◌, true, Option, none, some, [], ◌∷◌, String,
  str_eq, eq_iff, length, take, arith, ◌⊎◌, if_cases, get_elem?, inl, inr,
}
use gluetun.Bytes.{Bytes, uint16_of}
use gluetun.Natpmp.{
  Error, Result, ok, err, check_request, check_result_code, check_response, response_code, Client,
  Attempt, failed, cancelled, timed_out, received, Network, Run, after, round, rpc_loop, checked,
  rpc,
}

-- The response comes from a round of those that are left.
abbrev Answered : Network → String → Bytes → ℕ → ℕ → Bytes → Type 0
Answered network gateway request k rounds response =
    (i : ℕ) × (t : ℕ) × (from : String) × (datagram : Bytes) × (k ≤ i)
    × (i < k + rounds)
    × (network i t request ≡ received from datagram)
    × (str_eq from gateway ≡ true)
    × (response ≡ take 16 datagram)

Answered-later :
    (network : Network) (gateway : String) (request : Bytes) (k rounds : ℕ) (response : Bytes)
    → Answered network gateway request (suc k) rounds response
    → Answered network gateway request k (suc rounds) response
Answered-later network gateway request k rounds response (i, t, from, datagram, a, b, c, d, e) =
    (i, t, from, datagram, omega (arith, a), omega (arith, b), c, d, e)

abbrev Sound : Network → String → Bytes → ℕ → ℕ → Run → Type 0
Sound network gateway request k rounds run =
    (length run.0 ≤ rounds)
    × ((response : Bytes)
        → run.1 ≡ ok response
        → Answered network gateway request k rounds response)

round-Sound :
    (network : Network) (gateway : String) (request : Bytes) (k rounds d : ℕ) (a : Attempt)
    (doubled_run same_run : Run)
    → network k d request ≡ a
    → Sound network gateway request (suc k) rounds doubled_run
    → Sound network gateway request (suc k) rounds same_run
    → Sound network gateway request k (suc rounds) (round gateway d a doubled_run same_run)
unfolding round
round-Sound network gateway request k rounds d failed p q e hp hq =
    (omega arith, (λ response h. absurd (ground (arith, h))))
round-Sound network gateway request k rounds d cancelled p q e hp hq =
    (omega arith, (λ response h. absurd (ground (arith, h))))
round-Sound network gateway request k rounds d timed_out p q e hp hq = (
  omega (arith, hp.0),
  (λ response h. Answered-later network gateway request k rounds response (hp.1 response h)),
)
round-Sound network gateway request k rounds d (received from datagram) p q e hp hq =
    if_cases (Sound network gateway request k (suc rounds)) (str_eq from gateway)
      (d ∷ [], ok (take 16 datagram)) (after d q)
      (λ from_gateway. (
        omega arith,
        (λ response h.
            (k, d, from, datagram, omega arith, omega arith, e, from_gateway, ground (arith, h))),
      ))
      (λ _. (
        omega (arith, hq.0),
        (λ response h. Answered-later network gateway request k rounds response (hq.1 response h)),
      ))

rpc_loop-Sound :
    (network : Network) (gateway : String) (request : Bytes) (rounds k d : ℕ)
    → Sound network gateway request k rounds (rpc_loop network gateway request rounds k d)
unfolding rpc_loop
rpc_loop-Sound network gateway request zero k d =
    (omega arith, (λ response h. absurd (ground (arith, h))))
rpc_loop-Sound network gateway request (suc rounds) k d =
    round-Sound network gateway request k rounds d (network k d request)
      (rpc_loop network gateway request rounds (suc k) (d * 2))
      (rpc_loop network gateway request rounds (suc k) d) refl
      (rpc_loop-Sound network gateway request rounds (suc k) (d * 2))
      (rpc_loop-Sound network gateway request rounds (suc k) d)

-- A successful response of RFC 6886: of the size, with version 0, the code, and result code 0.
abbrev pub IsResponse : Bytes → ℕ → ℕ → Type 0
IsResponse response code size =
    (length response ≡ size)
    × (4 ≤ size)
    × (get_elem? response 0 ≡ some 0)
    × (get_elem? response 1 ≡ some code)
    × (get_elem? response 2 ≡ some 0)
    × (get_elem? response 3 ≡ some 0)

-- The check of a response accepts exactly the successful ones of the code and the size.
pub check_response-IsResponse :
    (response : Bytes) (code size : ℕ)
    → (check_response response code size ≡ ok tt → IsResponse response code size)
      × (IsResponse response code size → check_response response code size ≡ ok tt)
unfolding check_response check_result_code uint16_of
check_response-IsResponse [] code size =
    ((λ h. absurd (ground (arith, h))), (λ h. absurd (ground (arith, h))))
check_response-IsResponse (a ∷ []) code size =
    ((λ h. absurd (ground (arith, h))), (λ h. absurd (ground (arith, h))))
check_response-IsResponse (a ∷ b ∷ []) code size =
    ((λ h. absurd (ground (arith, h))), (λ h. absurd (ground (arith, h))))
check_response-IsResponse (a ∷ b ∷ c ∷ []) code size =
    ((λ h. absurd (ground (arith, h))), (λ h. absurd (ground (arith, h))))
check_response-IsResponse (a ∷ b ∷ c ∷ d ∷ rest) code size =
    ((λ h. ground (arith, h)), (λ h. ground (arith, h)))

-- A response that a call returns.
abbrev pub IsAnswer : Client → Network → Option String → Bytes → ℕ → Bytes → Type 0
IsAnswer client network gateway request size response =
    (address : String) × (i : ℕ) × (t : ℕ) × (from : String) × (datagram : Bytes) × (gateway
      ≡ some address)
    × (i < client.max_retries)
    × (network i t request ≡ received from datagram)
    × (str_eq from address ≡ true)
    × (response ≡ take 16 datagram)
    × IsResponse response (response_code request) size

result_cases : {A : Type 0} (x : Result A) → ((a : A) × (x ≡ ok a)) ⊎ ((e : Error) × (x ≡ err e))
result_cases (ok a) = inl (a, refl)
result_cases (err e) = inr (e, refl)

checked-parts :
    (request : Bytes) (size : ℕ) (answer : Result Bytes) (response : Bytes)
    → checked request size answer ≡ ok response
    → (answer ≡ ok response) × (check_response response (response_code request) size ≡ ok tt)
checked-parts request size (err e) response h = absurd (ground (arith, h))
checked-parts request size (ok r) response h =
    elim (result_cases (check_response r (response_code request) size)) [
      | inr (e, c) ↦ absurd (ground (arith, h, c))
      | inl (a, c) ↦
          let same : r ≡ response = ground (arith, h, c) in
          (ap ok same, subst (λ x. check_response x (response_code request) size ≡ ok tt) same c)
    ]

called :
    (client : Client) (network : Network) (address : String) (request : Bytes) (size : ℕ)
    (u : Unit {0})
    → check_request request ≡ ok u
    → rpc client network (some address) request size ≡ (
        let run =
          rpc_loop network address request client.max_retries 0
            client.initial_connection_duration in
        (run.0, checked request size run.1))
unfolding rpc
called client network address request size u e = rw (rpc, e) refl

refused :
    (client : Client) (network : Network) (address : String) (request : Bytes) (size : ℕ)
    (e : Error)
    → check_request request ≡ err e
    → rpc client network (some address) request size ≡ ([], err e)
unfolding rpc
refused client network address request size e h = rw (rpc, h) refl

-- A response that a call returns is a successful one of the expected size and of the request's
-- operation, and its bytes were received from the gateway in one of the rounds that the client
-- allows.
pub rpc-IsAnswer :
    (client : Client) (network : Network) (gateway : Option String) (request : Bytes) (size : ℕ)
    (response : Bytes)
    → (rpc client network gateway request size).1 ≡ ok response
    → IsAnswer client network gateway request size response
unfolding rpc
rpc-IsAnswer client network none request size response h = absurd (ground (arith, h))
rpc-IsAnswer client network (some address) request size response h =
    elim (result_cases (check_request request)) [
      | inr (e, r) ↦ absurd (ground (arith, h, refused client network address request size e r))
      | inl (u, r) ↦
          let run =
            rpc_loop network address request client.max_retries 0
              client.initial_connection_duration in
          let (got, good) =
            checked-parts request size run.1 response
              (subst (λ x. x.1 ≡ ok response) (called client network address request size u r) h) in
          let (i, t, from, datagram, _, below, arrived, same, bytes) =
            (rpc_loop-Sound network address request client.max_retries 0
                client.initial_connection_duration).1
              response got in
          (
            address,
            i,
            t,
            from,
            datagram,
            refl,
            omega (arith, below),
            arrived,
            same,
            bytes,
            (check_response-IsResponse response (response_code request) size).0 good,
          )
    ]

loop_delivers :
    (network : Network) (gateway : String) (request datagram : Bytes) (rounds start wait d : ℕ)
    → wait < rounds
    → ((i t : ℕ) → i < start + wait → network i t request ≡ timed_out)
    → ((t : ℕ) → network (start + wait) t request ≡ received gateway datagram)
    → (rpc_loop network gateway request rounds start d).1 ≡ ok (take 16 datagram)
unfolding rpc_loop round
loop_delivers network gateway request datagram zero start wait d enough silent answers =
    absurd (omega (arith, enough))
loop_delivers network gateway request datagram (suc rounds) start zero d enough silent answers =
    let here : network start d request ≡ received gateway datagram =
      rw (add-zero start) at (answers d) in
    rw here (ground (arith, (eq_iff gateway gateway).1 refl))
loop_delivers network gateway request datagram (suc rounds) start (suc wait) d enough silent
      answers =
    let here : network start d request ≡ timed_out = silent start d (omega arith) in
    let same : suc start + wait ≡ start + suc wait = omega arith in
    rw here (
      loop_delivers network gateway request datagram rounds (suc start) wait (d * 2)
        (omega (arith, enough)) (λ i t h. silent i t (omega (arith, h))) (λ t. rw same (answers t)))

-- Where the gateway is silent for fewer rounds than the client allows and then answers with a
-- successful response to the request, the call returns this response.
pub rpc-delivers :
    (client : Client) (network : Network) (gateway : String) (request datagram : Bytes)
    (wait size : ℕ)
    → check_request request ≡ ok tt
    → wait < client.max_retries
    → ((i t : ℕ) → i < wait → network i t request ≡ timed_out)
    → ((t : ℕ) → network wait t request ≡ received gateway datagram)
    → IsResponse (take 16 datagram) (response_code request) size
    → (rpc client network (some gateway) request size).1 ≡ ok (take 16 datagram)
rpc-delivers client network gateway request datagram wait size accepted enough silent answers good =
    let got =
      loop_delivers network gateway request datagram client.max_retries 0 wait
        client.initial_connection_duration enough (λ i t h. silent i t (omega (arith, h)))
        (λ t. rw (zero-add wait) (answers t)) in
    let check =
      (check_response-IsResponse (take 16 datagram) (response_code request) size).1 good in
    ap (λ x. x.1) (called client network gateway request size tt accepted)
    ∙ ap (checked request size) got
    ∙ rw check refl
