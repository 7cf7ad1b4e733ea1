-- ===== src/Packet/Tests.antt =====
-- Messages of the protocol, and the theorems about them at these messages.
use fsp.Base.{
  ltb, if◌then◌else◌, length, none, some, ℕ, ◌+◌, ◌≡◌, refl, ◌↔◌, ◌≢◌, ◌%◌, true, List, [], ◌∷◌,
  arith,
}
use fsp.Packet.{
  Packet, read2, write2, read4, write4, bytes, receive, sum_from, fold, seal_reply, reply_passes,
  seal_request, request_passes,
}
use fsp.Packet.Fields.{read-write, receive-bytes}
use fsp.Packet.Checksum.{Corrupted, Swapped, total, reply_detects, request_detects, sealed_passes}

-- A reply to CC_GET_FILE with the two bytes 0x00 and 0x41.
abbrev reply : Packet
reply = record {
  cmd = 0x42;
  sum = 0x9d;
  key = record { hi = 0x12; lo = 0x06 };
  seq = record { hi = 0; lo = 0 };
  len = record { hi = 0; lo = 2 };
  pos = record { b3 = 0; b2 = 0; b1 = 0; b0 = 0 };
  body = 0x00 ∷ 0x41 ∷ [];
}

abbrev damaged : ℕ → Packet
damaged b = record reply { body = b ∷ 0x41 ∷ [] }

abbrev front : List ℕ
front = 0x42 ∷ 0 ∷ 0x12 ∷ 6 ∷ 0 ∷ 0 ∷ 0 ∷ 2 ∷ 0 ∷ 0 ∷ 0 ∷ 0 ∷ []

sealed_reply : seal_reply reply ≡ reply
unfolding seal_reply bytes sum_from fold
sealed_reply = refl

-- The byte 0x00 that arrives as 0xff is not noticed.
swap_passes : reply_passes (damaged 255) ≡ true
unfolding reply_passes bytes sum_from fold
swap_passes = refl

Corrupted-damaged : Corrupted reply (damaged 255) front (0x41 ∷ []) 0 255
unfolding bytes
Corrupted-damaged = record {
  sent = refl;
  got = refl;
  same_sum = refl;
  are_bytes = omega arith;
  is_byte = omega arith;
  fits = omega arith;
  differs = omega arith;
}

reply_damage_found :
    (reply_passes (damaged 255) ≡ true) ↔ (Swapped 0 255 × ((total front + 65) % 256 ≢ 0))
unfolding reply_passes bytes sum_from fold
reply_damage_found =
    reply_detects reply (damaged 255) front (0x41 ∷ []) 0 255 Corrupted-damaged refl

-- The same message as a request, with the sum that the client gives it.
abbrev request : Packet
request = record reply { sum = 0xab }

Corrupted-request :
    Corrupted request (record request { body = 7 ∷ 0x41 ∷ [] }) front (0x41 ∷ []) 0 7
unfolding bytes
Corrupted-request = record {
  sent = refl;
  got = refl;
  same_sum = refl;
  are_bytes = omega arith;
  is_byte = omega arith;
  fits = omega arith;
  differs = omega arith;
}

one_byte_changed :
    (request_passes (record request { body = 7 ∷ 0x41 ∷ [] }) ≡ true)
    ↔ (Swapped 0 7 × ((14 + total front + 65) % 256 ≢ 0))
unfolding request_passes bytes sum_from fold
one_byte_changed =
    request_detects request (record request { body = 7 ∷ 0x41 ∷ [] }) front (0x41 ∷ []) 0 7
      Corrupted-request refl

sealed_damaged :
    (reply_passes (seal_reply (damaged 9)) ≡ true)
    × (request_passes (seal_request (damaged 9)) ≡ true)
sealed_damaged = sealed_passes (damaged 9)

fields_kept : (read2 (write2 40000) ≡ 40000) × (read4 (write4 3000000000) ≡ 3000000000)
fields_kept = read-write 40000 3000000000 (omega arith) (omega arith)

reply_received :
    receive (bytes reply) ≡ (if ltb (length reply.body) (read2 reply.len) then none else some reply)
reply_received = receive-bytes reply
