-- ===== src/Natpmp/Mapping.antt =====
-- internal/natpmp/portmapping.go and externaladdress.go. Lifetimes and times are whole seconds.
pub mod Granted
use gluetun.Prelude.{
  ℕ, ◌==◌, ltb, Bool, true, false, Option, none, some, List, [], ◌∷◌, ◌++◌, String, str_eq,
  if◌then◌else◌,
}
use gluetun.Bytes.{Bytes, put_uint16, put_uint32, uint16_of, uint32_of}
use gluetun.Natpmp.{
  Error, lifetime_too_long, network_protocol_unknown, response_size_too_small, Result, ok, err,
  ◌>>=◌, Client, Network, rpc,
}

pub record Assigned : Type 0 where
  pub since_epoch : ℕ
  pub internal_port : ℕ
  pub external_port : ℕ
  pub lifetime : ℕ

unfoldable pub operation_of : String → Option ℕ
operation_of protocol =
    if str_eq protocol "udp" then some 1 else if str_eq protocol "tcp" then some 2 else none

pub mapping_message : ℕ → ℕ → ℕ → ℕ → Bytes
mapping_message operation internal_port external_port lifetime =
    0
    ∷ operation
    ∷ 0
    ∷ 0
    ∷ (put_uint16 internal_port ++ (put_uint16 external_port ++ put_uint32 lifetime))

-- The response has the size that rpc has checked; no other one reaches the last clause.
pub read_mapping : Bytes → Result Assigned
unfolding uint16_of uint32_of
read_mapping (_ ∷ _ ∷ _ ∷ _ ∷ s3 ∷ s2 ∷ s1 ∷ s0 ∷ i1 ∷ i0 ∷ e1 ∷ e0 ∷ l3 ∷ l2 ∷ l1 ∷ l0 ∷ []) =
    ok (record {
      since_epoch = uint32_of s3 s2 s1 s0;
      internal_port = uint16_of i1 i0;
      external_port = uint16_of e1 e0;
      lifetime = uint32_of l3 l2 l1 l0;
    })
read_mapping _ = err response_size_too_small

-- AddPortMapping
unfoldable pub add_port_mapping :
    Client → Network → Option String → String → ℕ → ℕ → ℕ → Result Assigned
unfolding operation_of mapping_message read_mapping rpc
add_port_mapping client network gateway protocol internal_port external_port lifetime =
    if ltb 4294967295 lifetime then err lifetime_too_long else elim (operation_of protocol) [
      | none ↦ err network_protocol_unknown
      | some operation ↦
          (rpc client network gateway
            (mapping_message operation internal_port external_port lifetime) 16).1
          >>= read_mapping
    ]

-- The seconds since the start of the epoch, and the bytes of the IPv4 address.
pub read_address : Bytes → Result (ℕ × Bytes)
unfolding uint32_of
read_address (_ ∷ _ ∷ _ ∷ _ ∷ s3 ∷ s2 ∷ s1 ∷ s0 ∷ a3 ∷ a2 ∷ a1 ∷ a0 ∷ []) =
    ok (uint32_of s3 s2 s1 s0, a3 ∷ a2 ∷ a1 ∷ a0 ∷ [])
read_address _ = err response_size_too_small

-- ExternalAddress
unfoldable pub external_address : Client → Network → Option String → Result (ℕ × Bytes)
unfolding rpc read_address
external_address client network gateway =
    (rpc client network gateway (0 ∷ 0 ∷ []) 12).1 >>= read_address
