-- ===== src/Natpmp/Mapping/Granted.antt =====
-- internal/natpmp/portmapping.go: a mapping asked of a gateway that keeps to RFC 6886.
use gluetun.Prelude.{ℕ, ◌+◌, ◌<◌, ◌≡◌, refl, ltb, false, some, [], ◌∷◌, ◌++◌, String, take, arith}
use gluetun.Bytes.{Bytes, put_uint32, uint16_of-bytes, uint32_of-bytes}
use gluetun.Natpmp.{ok, Client, timed_out, received, Network, check_request, response_code}
use gluetun.Natpmp.Answer.{IsResponse, rpc-delivers}
use gluetun.Natpmp.Mapping.{operation_of, mapping_message, read_mapping, add_port_mapping}

-- The response of a gateway that grants what a mapping request asks for, at a time since its
-- start: RFC 6886, section 3.3.
unfoldable pub grant : ℕ → Bytes → Bytes
grant epoch (version ∷ code ∷ _ ∷ _ ∷ i1 ∷ i0 ∷ e1 ∷ e0 ∷ l3 ∷ l2 ∷ l1 ∷ l0 ∷ []) =
    0 ∷ (code + 128) ∷ 0 ∷ 0 ∷ (put_uint32 epoch ++ (i1 ∷ i0 ∷ e1 ∷ e0 ∷ l3 ∷ l2 ∷ l1 ∷ l0 ∷ []))
grant epoch _ = []

operation_of-lt : (protocol : String) (o : ℕ) → operation_of protocol ≡ some o → o < 128
unfolding operation_of
operation_of-lt protocol o h = ground (arith, h)

accepted : (o i e l : ℕ) → check_request (mapping_message o i e l) ≡ ok tt
unfolding check_request mapping_message
accepted o i e l = refl

granted-IsResponse :
    (epoch o i e l : ℕ)
    → o < 128
    → IsResponse
        (take 16 (grant epoch (mapping_message o i e l)))
        (response_code (mapping_message o i e l))
        16
unfolding mapping_message grant response_code
granted-IsResponse epoch o i e l h = (refl, omega arith, refl, ground (arith, h), refl, refl)

read_granted :
    (epoch o i e l : ℕ)
    → epoch < 4294967296
    → i < 65536
    → e < 65536
    → l < 4294967296
    → read_mapping (take 16 (grant epoch (mapping_message o i e l)))
      ≡ ok (record { since_epoch = epoch; internal_port = i; external_port = e; lifetime = l })
unfolding mapping_message grant read_mapping
read_granted epoch o i e l he hi hx hl =
    rw (uint32_of-bytes epoch he, uint16_of-bytes i hi, uint16_of-bytes e hx, uint32_of-bytes l hl)
      refl

-- A gateway that is silent for fewer rounds than the client allows, and then grants what the
-- request asks for, has AddPortMapping return the ports and the lifetime that were asked for and
-- the gateway's time, for ports of 16 bits and a lifetime and a time of 32 bits.
pub add_port_mapping-granted :
    (client : Client) (network : Network) (gateway protocol : String)
    (operation internal_port external_port lifetime epoch wait : ℕ)
    → operation_of protocol ≡ some operation
    → internal_port < 65536
    → external_port < 65536
    → lifetime < 4294967296
    → epoch < 4294967296
    → wait < client.max_retries
    → ((i t : ℕ) (request : Bytes) → i < wait → network i t request ≡ timed_out)
    → ((t : ℕ) (request : Bytes) → network wait t request ≡ received gateway (grant epoch request))
    → add_port_mapping client network (some gateway) protocol internal_port external_port lifetime
      ≡ ok (record {
        since_epoch = epoch;
        internal_port = internal_port;
        external_port = external_port;
        lifetime = lifetime;
      })
unfolding add_port_mapping
add_port_mapping-granted client network gateway protocol o i e l epoch wait known hi he hl hp enough
      silent answers =
    let request = mapping_message o i e l in
    let got =
      rpc-delivers client network gateway request (grant epoch request) wait 16 (accepted o i e l)
        enough (λ k t b. silent k t request b) (λ t. answers t request)
        (granted-IsResponse epoch o i e l (operation_of-lt protocol o known)) in
    let short : ltb 4294967295 l ≡ false = ground (arith, hl) in
    rw (add_port_mapping, short, known, got) (read_granted epoch o i e l hp hi he hl)
