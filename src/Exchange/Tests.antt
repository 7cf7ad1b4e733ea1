-- ===== src/Exchange/Tests.antt =====
-- A client that asks for a file, and what the network does with its request.
use fsp.Base.{
  ℕ, ◌+◌, ◌*◌, ◌≤◌, ◌<◌, ◌≡◌, ◌≢◌, ◌↔◌, ◌⊎◌, inl, refl, true, false, List, [], ◌∷◌, replicate, some,
  none, codes, arith,
}
use fsp.Packet.{Packet, bytes, read2, write2, write4, read4, seal_reply, seal_request}
use fsp.Packet.Fields.{read-write}
use fsp.Packet.Checksum.{sealed_passes}
use fsp.Hosts.{Host}
use fsp.Session.{passes, key_check}
use fsp.Dispatch.{server_reply, send_error}
use fsp.Dispatch.Keeps.{whole_reply}
use fsp.Dispatch.Process.{server_process_packet}
use fsp.Dispatch.Tests.{counted, writable, sender, delete_a, client, reply, deleted_reply, run_code}
use fsp.Exchange.{
  Client, Limits, Order, Moment, Round, sent, unsent, good, check_reply, seq_field, choose_seq,
  util_get_env, clamp, round_trip, is_positional, client_interact, message, min_delay,
}
use fsp.Exchange.Filter.{Answers, check_reply_iff, stale_reply}
use fsp.Exchange.Timers.{InRange, util_get_env-InRange, clamp-bounds, round_trip-near}
use fsp.Exchange.Run.{RunOk, message-IsCopy, client_interact-Ok}
use fsp.Exchange.Silent.{EndsWithin, client_interact-silent}
use fsp.Exchange.Peer.{server_process_packet-accepted, send_error-ignored, reply-key_check}

-- CC_GET_FILE of 5 bytes of path at position 1024.
abbrev get_file_order : Order
get_file_order = record { cmd = 66; pos = 1024; p1 = codes "a/b"; p2 = [] }

abbrev fresh : Client
fresh = record {
  myseq = 8;
  key = 0;
  busy_delay = 1340;
  idle_delay = 1340;
  stat_ok = 0;
  stat_bad = 0;
  stat_dupes = 0;
  stat_resends = 0;
  stat_iresends = 0;
}

-- What the server makes of the first copy, with the key 7.
abbrev asked : Packet
asked = record {
  cmd = 66;
  sum = 0;
  key = write2 7;
  seq = seq_field 64 0;
  len = write2 3;
  pos = write4 1024;
  body = codes "a/b";
}

abbrev the_answer : Packet
the_answer = server_reply asked (codes "hello") []

the_answer_good : check_reply get_file_order (seq_field 64 3) (bytes the_answer) ≡ good the_answer
unfolding server_reply seal_reply seq_field
the_answer_good =
    (check_reply_iff get_file_order (seq_field 64 3) (bytes the_answer) the_answer).1 (record {
      whole = whole_reply asked (codes "hello") [];
      passes = (sealed_passes (record asked { len = write2 5; body = codes "hello" })).0;
      seq_hi = refl;
      seq_lo = refl;
      cmd = inl refl;
      pos = λ w. (read-write 0 1024 (omega arith) (omega arith)).1;
    })

answer_accepted :
    (check_reply get_file_order (seq_field 64 3) (bytes the_answer) ≡ good the_answer)
    ↔ Answers get_file_order (seq_field 64 3) (bytes the_answer) the_answer
answer_accepted = check_reply_iff get_file_order (seq_field 64 3) (bytes the_answer) the_answer

stale_reply_example :
    check_reply get_file_order (seq_field (choose_seq 64 64) 0) (bytes the_answer) ≢ good the_answer
stale_reply_example =
    stale_reply get_file_order get_file_order 64 64 3 0 (bytes the_answer) the_answer the_answer
      refl (omega arith) the_answer_good

send_error-ignored_example :
    check_reply get_file_order (seq_field 64 0) (bytes (send_error asked (codes "no"))) ≢ good asked
unfolding is_positional
send_error-ignored_example =
    send_error-ignored get_file_order asked (seq_field 64 0) (codes "no") asked refl
      (λ e. absurd (omega (arith, e)))

-- FSP_DELAY is too small, and FSP_MAXDELAY smaller.
small_limits_raised : InRange (util_get_env true (some 10) (some 5) none)
small_limits_raised = util_get_env-InRange true (some 10) (some 5) none

abbrev two_seconds : Limits
two_seconds = record {
  target_delay = 1340;
  target_maxdelay = 60000;
  env_timeout = 2;
  client_timeout = true;
}

two_seconds-InRange : InRange two_seconds
two_seconds-InRange = record {
  target_low = omega arith;
  target_high = omega arith;
  max_high = omega arith;
  timeout = omega arith;
}

long_wait_cut : (min_delay ≤ clamp two_seconds 70000) × (clamp two_seconds 70000 ≤ 60000)
long_wait_cut = clamp-bounds two_seconds 70000 two_seconds-InRange

abbrev start_time : Moment
start_time = record { tv_sec = 100; tv_usec = 999000 }

abbrev stop_time : Moment
stop_time = record { tv_sec = 102; tv_usec = 500 }

measured_to_a_millisecond :
    (1000 * round_trip stop_time start_time < 1002500)
    × (1001500 < 1000 * round_trip stop_time start_time + 1000)
measured_to_a_millisecond =
    round_trip-near stop_time start_time (omega arith) (omega arith) (omega arith) (omega arith)

-- The first copy is lost, and a datagram that is too short comes before the answer.
abbrev lossy : List Round
lossy =
    sent start_time []
    ∷ unsent
    ∷ sent start_time (
        record { raw = 1 ∷ 2 ∷ []; at = stop_time; interrupted = false }
        ∷ record { raw = bytes the_answer; at = stop_time; interrupted = false }
        ∷ [])
    ∷ []

client_interact-Ok_example :
    RunOk get_file_order
      (choose_seq 64 8)
      9
      lossy
      (client_interact two_seconds get_file_order 9 64 (λ i. start_time) lossy fresh)
client_interact-Ok_example =
    client_interact-Ok two_seconds get_file_order 9 64 (λ i. start_time) lossy fresh

abbrev five_silent : List Round
five_silent = replicate 5 (sent start_time [])

client_interact-silent_example :
    EndsWithin 4 0
      (client_interact two_seconds get_file_order 9 64 (λ i. start_time) five_silent fresh)
client_interact-silent_example =
    client_interact-silent two_seconds get_file_order 9 64 (λ i. start_time) five_silent fresh
      two_seconds-InRange (omega arith) refl tt (omega arith)

abbrev delete_order : Order
delete_order = record { cmd = 69; pos = 0; p1 = 97 ∷ 0 ∷ []; p2 = [] }

abbrev after : Host
after = (server_process_packet counted writable sender false delete_a client 5).1

-- The second copy of the request, as the server gets it.
abbrev deleting : Client
deleting = record fresh { myseq = 0; key = 7 }

abbrev second_copy : Packet
second_copy = message delete_order deleting 1

abbrev second_reply : Packet
second_reply = server_reply (record second_copy { key = write2 21 }) [] []

second_replied :
    (server_process_packet counted writable sender false second_copy client 5).0.1
    ≡ some second_reply
unfolding message write2 write4 seal_request seq_field run_code
second_replied = refl

server_process_packet-accepted_example :
    (check_reply delete_order (seq_field 0 2) (bytes second_reply) ≡ good second_reply)
    ⊎ ((second_reply.cmd ≡ 64) × (is_positional 69 ≡ true) × (◌≢◌ {A = ℕ} 0 0))
server_process_packet-accepted_example =
    server_process_packet-accepted counted writable sender false second_copy client 5 delete_order 0
      7 2 second_reply (omega arith) (message-IsCopy delete_order deleting 1) second_replied

delete_reply_good : check_reply delete_order (seq_field 0 0) (bytes reply) ≡ good reply
unfolding write4 seq_field server_reply seal_reply read4
delete_reply_good = (check_reply_iff delete_order (seq_field 0 0) (bytes reply) reply).1 (record {
  whole = whole_reply (record delete_a { key = write2 21 }) [] [];
  passes = (sealed_passes (record delete_a { key = write2 21; len = write2 0; body = [] })).0;
  seq_hi = refl;
  seq_lo = refl;
  cmd = inl refl;
  pos = λ w. refl;
})

reply-key_check_example :
    key_check (record { retry = 5; session = 60 }) 10 (read2 reply.key) after
    ≡ (after, passes false)
reply-key_check_example =
    reply-key_check counted writable sender false delete_a client 5 delete_order (seq_field 0 0)
      reply reply (record { retry = 5; session = 60 }) 10 deleted_reply.0 delete_reply_good
      (omega (arith, deleted_reply.1))
