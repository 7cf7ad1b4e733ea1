-- ===== src/Exchange/Peer.antt =====
-- The exchange against the server: which replies of server/server.c the client accepts, and the key that
-- it goes on with.
use fsp.Base.{
  ℕ, ◌/◌, ◌^◌, ◌<◌, ◌≡◌, ◌≢◌, ◌⊎◌, inl, inr, refl, sym, ◌∙◌, ap, Bool, true, false, List, [], ◌∷◌,
  ◌++◌, length, ltb, ◌==◌, some, arith, Bool-cases, ==_iff,
}
use mathlib.Core.Option.{some-injective}
use fsp.Packet.{Packet, Pair, bytes, receive, read2, read4, write4, seal_reply}
use fsp.Packet.Fields.{read-write, receive-bytes}
use fsp.Hosts.{Host}
use fsp.Session.{Timeouts, passes, key_check}
use fsp.Dispatch.Process.{From, server_process_packet}
use fsp.Dispatch.Keeps.{whole_reply}
use fsp.Dispatch.Quiet.{process_header, process_answers}
use fsp.Dispatch.{Files, Settings, server_reply, send_error}
use fsp.Exchange.{Order, good, check_reply, is_positional, seq_field}
use fsp.Exchange.Filter.{check_reply-Answers, check_reply_iff}
use fsp.Exchange.Run.{IsCopy}

-- The reply to a copy of a request is accepted, whatever copy the client waits for, unless it is
-- an error: then the position of the request must count, and not be 0. The position is below 2^32.
pub server_process_packet-accepted :
    {W P D F : Type 0} (files : Files W P D F) (settings : Settings) (from : From) (old : Bool)
    (ub : Packet) (h : Host) (w : W) (o : Order) (myseq k i : ℕ) (m : Packet)
    → o.pos < 2 ^ 32
    → IsCopy o myseq k ub
    → (server_process_packet files settings from old ub h w).0.1 ≡ some m
    → (check_reply o (seq_field myseq i) (bytes m) ≡ good m)
      ⊎ ((m.cmd ≡ 64) × (is_positional o.cmd ≡ true) × (o.pos ≢ 0))
unfolding seq_field
server_process_packet-accepted files settings from old ub h w o myseq k i m small copy e =
    let a = process_answers files settings from old ub h w m e in
    let accepted : ((m.cmd ≡ o.cmd) ⊎ (m.cmd ≡ 64))
        → (is_positional o.cmd ≡ true → read4 m.pos ≡ o.pos)
        → check_reply o (seq_field myseq i) (bytes m) ≡ good m =
      λ c p. (check_reply_iff o (seq_field myseq i) (bytes m) m).1 (record {
        whole = a.whole;
        passes = a.passes;
        seq_hi = ap (λ (x : Pair). x.hi) (a.seq ∙ copy.seq);
        seq_lo = ap (λ (x : Pair). x.lo / 8) (a.seq ∙ copy.seq) ∙ omega arith;
        cmd = c;
        pos = p;
      }) in
    elim a.header [
      | inl (c, p) ↦ inl (
          accepted (inl (c ∙ copy.cmd)) (λ n.
            ap read4 (p (ap is_positional copy.cmd ∙ n) ∙ copy.pos)
            ∙ (read-write 0 o.pos (omega arith) small).1))
      | inr (c, p) ↦
          let zero : read4 m.pos ≡ 0 =
            ap read4 p ∙ (read-write 0 0 (omega arith) (omega arith)).1 in
          elim (Bool-cases (is_positional o.cmd)) [
            | inr n ↦ inl (accepted (inr c) (λ b. ground (arith, b, n)))
            | inl n ↦ elim (Bool-cases (o.pos == 0)) [
              | inl q ↦ inl (accepted (inr c) (λ b. zero ∙ sym ((==_iff o.pos 0).0 q)))
              | inr q ↦ inr (c, n, λ b. ground (arith, b, q))
            ]
          ]
    ]

-- An error is never accepted for a request of which the position counts and is not 0, since
-- `send_error` writes 0 there: the client goes on sending.
pub send_error-ignored :
    (o : Order) (ub : Packet) (seq : Pair) (text : List ℕ) (m : Packet)
    → is_positional o.cmd ≡ true
    → o.pos ≢ 0
    → check_reply o seq (bytes (send_error ub text)) ≢ good m
unfolding send_error server_reply seal_reply
send_error-ignored o ub seq text m w h q =
    let v = check_reply-Answers o seq (bytes (send_error ub text)) m q in
    let same : m ≡ send_error ub text =
      some-injective m (send_error ub text) (
        sym v.whole ∙ whole_reply (record ub { cmd = 64; pos = write4 0 }) (text ++ (0 ∷ [])) []) in
    h (
      sym (v.pos w)
      ∙ ap (λ (x : Packet). read4 x.pos) same
      ∙ (read-write 0 0 (omega arith) (omega arith)).1)

receive-same : (m p : Packet) → receive (bytes m) ≡ some p → p ≡ m
receive-same m p q = elim (Bool-cases (ltb (length m.body) (read2 m.len))) [
  | inl e ↦ absurd (ground (arith, receive-bytes m, e, q))
  | inr e ↦ some-injective p m (sym q ∙ receive-bytes m ∙ rw e refl)
]

-- When a client accepts the reply to a request that the server has processed, the key that it keeps is
-- the one that its record at the server expects: the next request with that key passes as a new one.
pub reply-key_check :
    {W P D F : Type 0} (files : Files W P D F) (settings : Settings) (from : From) (old : Bool)
    (ub : Packet) (h : Host) (w : W) (o : Order) (seq : Pair) (m p : Packet) (t : Timeouts)
    (now : ℕ)
    → (server_process_packet files settings from old ub h w).0.1 ≡ some m
    → check_reply o seq (bytes m) ≡ good p
    → (server_process_packet files settings from old ub h w).1.next_key < 2 ^ 16
    → key_check t now (read2 p.key) (server_process_packet files settings from old ub h w).1
      ≡ ((server_process_packet files settings from old ub h w).1, passes false)
unfolding key_check
reply-key_check files settings from old ub h w o seq m p t now e q k =
    let h' = (server_process_packet files settings from old ub h w).1 in
    let v = check_reply-Answers o seq (bytes m) p q in
    let same : p ≡ m = receive-same m p v.whole in
    let key : read2 p.key ≡ h'.next_key =
      ap (λ (x : Packet). read2 x.key) same
      ∙ ap read2 (process_header files settings from old ub h w m e).0
      ∙ (read-write h'.next_key 0 k (omega arith)).0 in
    let hit : (h'.next_key == read2 p.key) ≡ true = ground (arith, key) in rw (hit, key_check) refl
