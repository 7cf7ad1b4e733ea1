-- ===== src/Exchange/Filter.antt =====
-- What the checks on a reply let through, and the sequence numbers that they compare.
use fsp.Base.{
  ℕ, ◌+◌, ◌*◌, ◌/◌, ◌%◌, ◌^◌, ◌<◌, ◌≡◌, ◌≢◌, ◌⊎◌, inl, inr, ◌↔◌, subst, refl, sym, ◌∙◌, ap, Bool,
  true, false, not, ◌&&◌, List, ◌==◌, if◌then◌else◌, some, arith, Bool-cases, Option-cases,
}
use mathlib.Core.Option.{some-injective}
use fsp.Packet.{Packet, Pair, receive, read4, reply_passes}
use fsp.Rights.{flip_bit}
use fsp.Exchange.{
  Order, Checked, bad, dupe, good, screen, check_reply, is_positional, choose_seq, seq_field,
}

-- A reply to the request: whole, with the right checksum, the request's sequence number up to the
-- retry bits, its command or CC_ERR, and for the commands of which it counts its position.
pub record Answers (o : Order) (seq : Pair) (raw : List ℕ) (m : Packet) : Type 0 where
  pub whole : receive raw ≡ some m
  pub passes : reply_passes m ≡ true
  pub seq_hi : m.seq.hi ≡ seq.hi
  pub seq_lo : m.seq.lo / 8 ≡ seq.lo / 8
  pub cmd : (m.cmd ≡ o.cmd) ⊎ (m.cmd ≡ 64)
  pub pos : is_positional o.cmd ≡ true → read4 m.pos ≡ o.pos

good-injective : (p m : Packet) → good p ≡ good m → p ≡ m
good-injective p m q = ap (λ (c : Checked). elim c [ bad ↦ p | dupe ↦ p | good x ↦ x ]) q

checks-passed :
    (b c d e : Bool) (p m : Packet)
    → (if b then bad else if c then dupe else if d then bad else if e then bad else good p) ≡ good m
    → (p ≡ m) × (b ≡ false) × (c ≡ false) × (d ≡ false) × (e ≡ false)
checks-passed true c d e p m q = absurd (ground (arith, q))
checks-passed false true d e p m q = absurd (ground (arith, q))
checks-passed false false true e p m q = absurd (ground (arith, q))
checks-passed false false false true p m q = absurd (ground (arith, q))
checks-passed false false false false p m q = (good-injective p m q, refl, refl, refl, refl)

screen-Answers :
    (o : Order) (seq : Pair) (raw : List ℕ) (p m : Packet)
    → receive raw ≡ some p
    → screen o seq p ≡ good m
    → Answers o seq raw m
unfolding screen
screen-Answers o seq raw p m n q =
    let (same, b, c, d, e) =
      checks-passed (not (reply_passes p)) (not (p.seq.hi == seq.hi && p.seq.lo / 8 == seq.lo / 8))
        (not (o.cmd == p.cmd) && not (p.cmd == 64))
        (not (read4 p.pos == o.pos) && is_positional o.cmd) p m q in
    subst (Answers o seq raw) same (record {
      whole = n;
      passes = ground (arith, b);
      seq_hi = ground (arith, c);
      seq_lo = ground (arith, c);
      cmd = ground (arith, d);
      pos = λ w. ground (arith, e, w);
    })

pub check_reply-Answers :
    (o : Order) (seq : Pair) (raw : List ℕ) (m : Packet)
    → check_reply o seq raw ≡ good m
    → Answers o seq raw m
unfolding check_reply
check_reply-Answers o seq raw m q = elim (Option-cases (receive raw)) [
  | inl n ↦ absurd (ground (arith, n, q))
  | inr (p, n) ↦ screen-Answers o seq raw p m n (rw (n, check_reply) at q)
]

Answers-screen :
    (o : Order) (seq : Pair) (raw : List ℕ) (m : Packet)
    → Answers o seq raw m
    → screen o seq m ≡ good m
unfolding screen
Answers-screen o seq raw m v = elim (Bool-cases (is_positional o.cmd)) [
  | inl w ↦
      let p = v.pos w in
      elim v.cmd [
        | inl c ↦ ground (arith, v.passes, v.seq_hi, v.seq_lo, w, p, c)
        | inr c ↦ ground (arith, v.passes, v.seq_hi, v.seq_lo, w, p, c)
      ]
  | inr w ↦ elim v.cmd [
    | inl c ↦ ground (arith, v.passes, v.seq_hi, v.seq_lo, w, c)
    | inr c ↦ ground (arith, v.passes, v.seq_hi, v.seq_lo, w, c)
  ]
]

-- A datagram is accepted exactly if it answers the request.
pub check_reply_iff :
    (o : Order) (seq : Pair) (raw : List ℕ) (m : Packet)
    → (check_reply o seq raw ≡ good m) ↔ Answers o seq raw m
unfolding check_reply
check_reply_iff o seq raw m =
    (check_reply-Answers o seq raw m, λ v. rw (v.whole, check_reply) (Answers-screen o seq raw m v))

twist : ℕ → ℕ
twist s = flip_bit (flip_bit s 4096) 128

twist-high : (s : ℕ) → s < 2 ^ 16 → twist s / 256 % 256 ≢ s / 256 % 256
unfolding twist flip_bit
twist-high s h e = ground (arith, h, e)

seq-apart :
    (u s i j : ℕ)
    → u % 8 ≡ 0
    → u < 2 ^ 16
    → s % 8 ≡ 0
    → s < 2 ^ 16
    → u ≢ s
    → ((u / 256 % 256 ≢ s / 256 % 256)
        ⊎ ((u / 8 % 32 * 8 + i % 8) / 8 ≢ (s / 8 % 32 * 8 + j % 8) / 8))
seq-apart u s i j a b c d ne = elim (Bool-cases (u / 256 % 256 == s / 256 % 256)) [
  | inl e ↦
      let high : u / 256 % 256 ≡ s / 256 % 256 = ground (arith, e) in
      inr (λ low. ne (omega (arith, a, b, c, d, high, low)))
  | inr e ↦ inl (ground (arith, e))
]

-- A new request has another sequence number than the one before, also up to the retry bits.
pub choose_seq-differs :
    (random myseq i j : ℕ)
    → myseq % 8 ≡ 0
    → myseq < 2 ^ 16
    → (((seq_field (choose_seq random myseq) i).hi ≢ (seq_field myseq j).hi)
        ⊎ ((seq_field (choose_seq random myseq) i).lo / 8 ≢ (seq_field myseq j).lo / 8))
unfolding choose_seq seq_field twist
choose_seq-differs random myseq i j h k = elim (Bool-cases (random / 8 % 8192 * 8 == myseq)) [
  | inl e ↦ inl (rw (e, choose_seq) (twist-high myseq k))
  | inr e ↦
      rw (e, choose_seq)
        (seq-apart (random / 8 % 8192 * 8) myseq i j (omega arith) (omega arith) h k
          (ground (arith, e)))
]

-- A reply that one request has accepted is not accepted by the next one, whatever the random number,
-- the retries and the orders are.
pub stale_reply :
    (o o' : Order) (random myseq i j : ℕ) (raw : List ℕ) (m m' : Packet)
    → myseq % 8 ≡ 0
    → myseq < 2 ^ 16
    → check_reply o (seq_field myseq i) raw ≡ good m
    → check_reply o' (seq_field (choose_seq random myseq) j) raw ≢ good m'
stale_reply o o' random myseq i j raw m m' h k q q' =
    let v = check_reply-Answers o (seq_field myseq i) raw m q in
    let v' = check_reply-Answers o' (seq_field (choose_seq random myseq) j) raw m' q' in
    let same : m ≡ m' = some-injective m m' (sym v.whole ∙ v'.whole) in
    elim (choose_seq-differs random myseq j i h k) [
      | inl ne ↦ ne (sym v'.seq_hi ∙ ap (λ (p : Packet). p.seq.hi) (sym same) ∙ v.seq_hi)
      | inr ne ↦ ne (sym v'.seq_lo ∙ ap (λ (p : Packet). p.seq.lo / 8) (sym same) ∙ v.seq_lo)
    ]

-- The numbers that `choose_seq` draws are multiples of 8 in 16 bits.
pub choose_seq-in_range :
    (random myseq : ℕ)
    → myseq % 8 ≡ 0
    → myseq < 2 ^ 16
    → (choose_seq random myseq % 8 ≡ 0) × (choose_seq random myseq < 2 ^ 16)
unfolding choose_seq flip_bit
choose_seq-in_range random myseq h k = ground (arith, h, k)
