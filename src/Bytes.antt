-- ===== src/Bytes.antt =====
-- Numbers in messages: the encoding of encoding/binary that the packages of internal/ use, in
-- internal/pmtud/tcp/tcpheader.go and in internal/natpmp.
use gluetun.Prelude.{ℕ, ◌+◌, ◌*◌, ◌/◌, ◌%◌, ◌<◌, ◌≡◌, List, [], ◌∷◌, arith}

abbrev pub Bytes : Type 0
Bytes = List ℕ

-- binary.BigEndian
abbrev pub put_uint16 : ℕ → Bytes
put_uint16 v = v / 256 % 256 ∷ v % 256 ∷ []

abbrev pub put_uint32 : ℕ → Bytes
put_uint32 v = v / 16777216 % 256 ∷ v / 65536 % 256 ∷ v / 256 % 256 ∷ v % 256 ∷ []

unfoldable pub uint16_of : ℕ → ℕ → ℕ
uint16_of a b = a * 256 + b

unfoldable pub uint32_of : ℕ → ℕ → ℕ → ℕ → ℕ
uint32_of a b c d = a * 16777216 + b * 65536 + c * 256 + d

pub uint16_of-bytes : (v : ℕ) → v < 65536 → uint16_of (v / 256 % 256) (v % 256) ≡ v
unfolding uint16_of
uint16_of-bytes v h = omega arith

pub uint32_of-bytes :
    (v : ℕ)
    → v < 4294967296
    → uint32_of (v / 16777216 % 256) (v / 65536 % 256) (v / 256 % 256) (v % 256) ≡ v
unfolding uint32_of
uint32_of-bytes v h = omega arith
