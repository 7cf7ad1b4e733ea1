-- ===== src/Packet/Fields.antt =====
-- The header fields and the layout of a datagram: what is written is what is read back.
use fsp.Base.{ltb, if◌then◌else◌, ℕ, ◌+◌, ◌<◌, ◌^◌, ◌≡◌, refl, length, none, some, arith}
use fsp.Packet.{Packet, Pair, read2, write2, read4, write4, bytes, decode, receive}

-- The fields that a message can hold are read back as they were written.
pub read-write :
    (a b : ℕ) → a < 2 ^ 16 → b < 2 ^ 32 → (read2 (write2 a) ≡ a) × (read4 (write4 b) ≡ b)
unfolding read2 write2 read4 write4
read-write a b ha hb = omega arith

-- Two bytes, and four, that are read and written again are the same bytes.
pub write-read2 : (v : Pair) → v.hi < 256 → v.lo < 256 → write2 (read2 v) ≡ v
unfolding read2 write2
write-read2 v h l = ground arith

pub length-bytes : (p : Packet) → length (bytes p) ≡ length p.body + 12
unfolding bytes
length-bytes p = omega arith

pub decode-bytes : (p : Packet) → decode (bytes p) ≡ some p
unfolding decode bytes
decode-bytes p = refl

-- A message whose first data region lies in its buffer is received as it was sent; one whose
-- length field promises more than was sent is refused.
pub receive-bytes :
    (p : Packet) → receive (bytes p) ≡ (if ltb (length p.body) (read2 p.len) then none else some p)
unfolding receive
receive-bytes p = rw (decode-bytes p) (ground (arith, length-bytes p))
