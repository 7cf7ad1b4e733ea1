-- ===== src/Packet.antt =====
-- The datagram: `struct UBUF` of include/common_def.h, the big-endian fields of include/tweak.h,
-- and the two checksum rules of server/server.c and client/lib.c.
pub mod Fields
pub mod Checksum
mod Tests
use fsp.Base.{
  ℕ, ◌+◌, ◌*◌, ◌/◌, ◌%◌, ◌^◌, Bool, List, [], ◌∷◌, length, leb, ltb, ◌==◌, if◌then◌else◌, Option,
  none, some,
}

-- UBUF_HSIZE, UBUF_SPACE and UBUF_MAXSPACE.
abbrev pub header_size : ℕ
header_size = 12

abbrev pub space : ℕ
space = 1024

abbrev pub max_space : ℕ
max_space = 4380

-- A `u_int16_t` and a `u_int32_t` as the bytes that BB_WRITE2 and BB_WRITE4 store.
abbrev pub Pair : Type 0
Pair = record { hi : ℕ; lo : ℕ }

abbrev pub Quad : Type 0
Quad = record { b3 : ℕ; b2 : ℕ; b1 : ℕ; b0 : ℕ }

unfoldable pub read2 : Pair → ℕ
read2 v = v.hi * 256 + v.lo

unfoldable pub write2 : ℕ → Pair
write2 a = record { hi = a / 256 % 256; lo = a % 256 }

unfoldable pub read4 : Quad → ℕ
read4 v = ((v.b3 * 256 + v.b2) * 256 + v.b1) * 256 + v.b0

unfoldable pub write4 : ℕ → Quad
write4 a = record {
  b3 = a / 16777216 % 256;
  b2 = a / 65536 % 256;
  b1 = a / 256 % 256;
  b0 = a % 256;
}

-- A message: the header's fields, and the bytes of `buf` that are sent.
pub record Packet : Type 0 where
  pub cmd : ℕ
  pub sum : ℕ
  pub key : Pair
  pub seq : Pair
  pub len : Pair
  pub pos : Quad
  pub body : List ℕ

-- The bytes of the message in the order of the struct.
pub bytes : Packet → List ℕ
bytes p =
    p.cmd ∷ p.sum ∷ p.key.hi ∷ p.key.lo ∷ p.seq.hi ∷ p.seq.lo ∷ p.len.hi ∷ p.len.lo ∷ p.pos.b3
    ∷ p.pos.b2 ∷ p.pos.b1 ∷ p.pos.b0 ∷ p.body

-- The header's fields at the front of what `recvfrom` stored; `none` is a datagram shorter than
-- the header.
pub decode : List ℕ → Option Packet
decode (c ∷ s ∷ k1 ∷ k0 ∷ q1 ∷ q0 ∷ l1 ∷ l0 ∷ p3 ∷ p2 ∷ p1 ∷ p0 ∷ body) = some (record {
  cmd = c;
  sum = s;
  key = record { hi = k1; lo = k0 };
  seq = record { hi = q1; lo = q0 };
  len = record { hi = l1; lo = l0 };
  pos = record { b3 = p3; b2 = p2; b1 = p1; b0 = p0 };
  body = body;
})
decode _ = none

-- The two length checks that `server_loop` and `client_interact` make before all others:
-- `bytes < UBUF_HSIZE`, and `rlen + UBUF_HSIZE > bytes`.
unfoldable pub receive : List ℕ → Option Packet
unfolding read2
receive raw = if ltb (length raw) header_size then none else elim (decode raw) [
  | none ↦ none
  | some p ↦ if ltb (length raw) (read2 p.len + header_size) then none else some p
]

-- `for(t = s, sum = n; t < d; sum += *t++)`, over an unsigned 32-bit sum.
pub sum_from : ℕ → List ℕ → ℕ
sum_from n [] = n
sum_from n (b ∷ bs) = sum_from ((n + b) % 2 ^ 32) bs

-- `sum + (sum >> 8)`, cut to eight bits.
pub fold : ℕ → ℕ
fold s = (s + s / 256) % 2 ^ 32 % 256

-- `server_reply` seals a message; `client_interact` checks it.
unfoldable pub seal_reply : Packet → Packet
seal_reply p = record p { sum = fold (sum_from 0 (bytes (record p { sum = 0 }))) }

unfoldable pub reply_passes : Packet → Bool
reply_passes p = fold (sum_from 0 (bytes (record p { sum = 0 }))) == p.sum

-- `client_interact` seals a request, where the sum starts at the length; `server_loop` checks it.
unfoldable pub seal_request : Packet → Packet
seal_request p = record p {
  sum = fold (sum_from (length (bytes p)) (bytes (record p { sum = 0 })));
}

unfoldable pub request_passes : Packet → Bool
request_passes p = fold (sum_from (length (bytes p)) (bytes (record p { sum = 0 }))) == p.sum
