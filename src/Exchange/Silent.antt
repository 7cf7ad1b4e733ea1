-- ===== src/Exchange/Silent.antt =====
-- A call that nothing answers: with CLIENT_TIMEOUT, it ends.
use fsp.Base.{
  ℕ, ◌+◌, ◌*◌, ◌%◌, ◌^◌, ◌≤◌, ◌<◌, ◌≡◌, refl, inl, inr, true, false, List, [], ◌∷◌, length, arith,
  Bool-cases,
}
use fsp.Packet.{Packet}
use fsp.Exchange.{
  Client, Limits, Order, Moment, listen, Round, sent, unsent, failed, Result, exited,
  not_responding, Turn, message, set_delay, clamp, gives_up, is_over, next_turn, stamp, and_sent,
  rounds, client_interact, choose_seq,
}
use fsp.Exchange.Timers.{InRange, clamp-bounds}

-- Rounds in which every sending goes well, and nothing arrives.
abbrev pub AreSilent : List Round → Type 0
AreSilent [] = Unit {0}
AreSilent (sent time [] ∷ rs) = AreSilent rs
AreSilent (sent time (a ∷ rest) ∷ rs) = ⊥
AreSilent (unsent ∷ rs) = ⊥
AreSilent (failed ∷ rs) = ⊥

-- The time that has been waited, a second at least for each round.
record Waited (l : Limits) (t : Turn) : Type 0 where
  pub low : 1000 * t.retry_send ≤ t.total_delay + t.w_delay
  pub high : t.total_delay + t.w_delay ≤ 300000 * t.retry_send
  pub early : t.retry_send ≤ l.env_timeout + 2

next_turn-Waited :
    (l : Limits) (t : Turn) (w : ℕ) (start : ℕ → Moment)
    → InRange l
    → l.env_timeout < 2 ^ 32
    → l.client_timeout ≡ true
    → Waited l t
    → is_over l t ≡ false
    → Waited l (next_turn t (clamp l w) start)
unfolding gives_up next_turn
next_turn-Waited l t w start v small on a e =
    let (lo, hi) = clamp-bounds l w v in
    let time : (t.total_delay + t.w_delay) % 2 ^ 64 ≡ t.total_delay + t.w_delay =
      omega (arith, a.high, a.early, small) in
    record {
      low = omega (arith, time, lo, a.low);
      high = omega (arith, time, hi, v.max_high, a.high);
      early = ground (arith, on, e, time, a.low, a.early, v.timeout);
    }

-- The call is over, and its messages were not more than that.
abbrev pub EndsWithin : ℕ → ℕ → List Packet × Result → Type 0
EndsWithin most n (ms, res) = (res ≡ exited not_responding) × (length ms + n ≤ most)

EndsWithin-and_sent :
    (most n : ℕ) (m : Packet) (run : List Packet × Result)
    → EndsWithin most (n + 1) run
    → EndsWithin most n (and_sent m run)
EndsWithin-and_sent most n m (ms, res) (e, k) = (e, omega (arith, k))

rounds-silent :
    (l : Limits) (o : Order) (rs : List Round) (t : Turn) (c : Client)
    → InRange l
    → l.env_timeout < 2 ^ 32
    → l.client_timeout ≡ true
    → AreSilent rs
    → Waited l t
    → l.env_timeout + 3 ≤ length rs + t.retry_send
    → EndsWithin (l.env_timeout + 2) t.retry_send (rounds l o rs t c)
unfolding rounds listen next_turn
rounds-silent l o [] t c v small on h a k = absurd (omega (arith, a.early, k))
rounds-silent l o (unsent ∷ rs) t c v small on h a k = absurd h
rounds-silent l o (failed ∷ rs) t c v small on h a k = absurd h
rounds-silent l o (sent time (x ∷ rest) ∷ rs) t c v small on h a k = absurd h
rounds-silent l o (sent time [] ∷ rs) t c v small on h a k =
    let d = set_delay l t.retry_send c in
    let next = next_turn t (clamp l d.1) (stamp t time) in
    elim (Bool-cases (is_over l t)) [
      | inl e ↦ rw (e, rounds) (refl, omega (arith, a.early))
      | inr e ↦
          rw (e, rounds)
            (EndsWithin-and_sent (l.env_timeout + 2) t.retry_send (message o c t.retry_send)
              (rounds l o rs next d.0)
              (rounds-silent l o rs next d.0 v small on h
                (next_turn-Waited l t d.1 (stamp t time) v small on a e) (omega (arith, k))))
    ]

-- Where CLIENT_TIMEOUT is defined and nothing arrives, a call gives up after at most `env_timeout`
-- + 2 messages, if it does not fail to send one. The limits are in their range, and `env_timeout`
-- is below 2^32.
pub client_interact-silent :
    (l : Limits) (o : Order) (stored random : ℕ) (start : ℕ → Moment) (rs : List Round) (c : Client)
    → InRange l
    → l.env_timeout < 2 ^ 32
    → l.client_timeout ≡ true
    → AreSilent rs
    → l.env_timeout + 3 ≤ length rs
    → EndsWithin (l.env_timeout + 2) 0 (client_interact l o stored random start rs c)
unfolding client_interact
client_interact-silent l o stored random start rs c v small on h k =
    rounds-silent l o rs (record { retry_send = 0; w_delay = 0; total_delay = 0; start = start })
      (record c { key = stored; myseq = choose_seq random c.myseq }) v small on h
      (record { low = omega arith; high = omega arith; early = omega arith }) (omega (arith, k))
