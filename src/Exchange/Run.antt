-- ===== src/Exchange/Run.antt =====
-- A whole call of `client_interact`: what it returns, and what it sends.
use fsp.Base.{
  ℕ, zero, suc, ◌+◌, ◌≡◌, refl, sym, ◌∙◌, subst, ◌⊎◌, inl, inr, Bool, true, false, List, [], ◌∷◌,
  ◌++◌, length, if◌then◌else◌, Bool-cases,
}
use mathlib.Core.Path.{subst₂}
use fsp.Packet.{Packet, read2, write2, write4, request_passes}
use fsp.Packet.Checksum.{sealed_passes}
use fsp.Exchange.{
  Client, Limits, Order, Moment, Arrival, Heard, heard, silence, Checked, bad, dupe, good,
  check_reply, listen, sent, unsent, failed, Round, Result, answered, exited, interrupted,
  not_responding, io_error, waiting, Turn, message, set_delay, clamp, is_over, next_turn, stamp,
  and_sent, rounds, client_interact, choose_seq, seq_field,
}
use fsp.Exchange.Filter.{Answers, check_reply-Answers}

-- A datagram among those that the network delivers.
abbrev pub Delivers : List Arrival → List ℕ → Type 0
Delivers [] raw = ⊥
Delivers (a ∷ as') raw = (a.raw ≡ raw) ⊎ Delivers as' raw

abbrev pub Brings : List Round → List ℕ → Type 0
Brings [] raw = ⊥
Brings (sent time arrivals ∷ rs) raw = Delivers arrivals raw ⊎ Brings rs raw
Brings (unsent ∷ rs) raw = Brings rs raw
Brings (failed ∷ rs) raw = Brings rs raw

-- A reply that answers the call, with the key that the client keeps of it.
pub record Reply (o : Order) (myseq : ℕ) (Source : List ℕ → Type 0) (m : Packet) (c : Client)
    : Type 0 where
  pub raw : List ℕ
  pub retry : ℕ
  pub source : Source raw
  pub answers : Answers o (seq_field myseq retry) raw m
  pub key : c.key ≡ read2 m.key
  pub same_seq : c.myseq ≡ myseq

Reply-map :
    (o : Order) (s : ℕ) (Src Src' : List ℕ → Type 0) (m : Packet) (c : Client)
    → ((raw : List ℕ) → Src raw → Src' raw)
    → Reply o s Src m c
    → Reply o s Src' m c
Reply-map o s Src Src' m c f r = record {
  raw = r.raw;
  retry = r.retry;
  source = f r.raw r.source;
  answers = r.answers;
  key = r.key;
  same_seq = r.same_seq;
}

Checked-cases : (k : Checked) → (k ≡ bad) ⊎ ((k ≡ dupe) ⊎ ((m : Packet) × (k ≡ good m)))
Checked-cases bad = inl refl
Checked-cases dupe = inr (inl refl)
Checked-cases (good m) = inr (inr (m, refl))

-- What a wait may end with, if it begins with the sequence number `s` and the key `k`.
abbrev pub HeardOk : Order → ℕ → ℕ → (List ℕ → Type 0) → Heard → Type 0
HeardOk o s k Src (heard m stop c) = Reply o s Src m c
HeardOk o s k Src (silence c) = (c.myseq ≡ s) × (c.key ≡ k)

HeardOk-map :
    (o : Order) (s k : ℕ) (Src Src' : List ℕ → Type 0) (h : Heard)
    → ((raw : List ℕ) → Src raw → Src' raw)
    → HeardOk o s k Src h
    → HeardOk o s k Src' h
HeardOk-map o s k Src Src' (heard m stop c) f r = Reply-map o s Src Src' m c f r
HeardOk-map o s k Src Src' (silence c) f r = r

listen-Ok :
    (o : Order) (n : ℕ) (start : ℕ → Moment) (arrivals : List Arrival) (c : Client) (s : ℕ)
    → c.myseq ≡ s
    → HeardOk o s c.key (Delivers arrivals) (listen o (seq_field s n) start arrivals c)
unfolding listen
listen-Ok o n start [] c s h = (h, refl)
listen-Ok o n start (a ∷ rest) c s h =
    let later = λ (c' : Client) (e : c'.myseq ≡ s).
      HeardOk-map o s c'.key (Delivers rest) (Delivers (a ∷ rest))
        (listen o (seq_field s n) start rest c') (λ raw d. inr d)
        (listen-Ok o n start rest c' s e) in
    elim (Checked-cases (check_reply o (seq_field s n) a.raw)) [
      | inl q ↦ rw (q, listen) (later (record c { stat_bad = c.stat_bad + 1 }) h)
      | inr (inl q) ↦ rw (q, listen) (later (record c { stat_dupes = c.stat_dupes + 1 }) h)
      | inr (inr (m, q)) ↦
          rw (q, listen)
            (record {
              raw = a.raw;
              retry = n;
              source = inl refl;
              answers = check_reply-Answers o (seq_field s n) a.raw m q;
              key = refl;
              same_seq = h;
            })
    ]

set_delay-same :
    (l : Limits) (n : ℕ) (c : Client)
    → ((set_delay l n c).0.myseq ≡ c.myseq) × ((set_delay l n c).0.key ≡ c.key)
unfolding set_delay
set_delay-same l zero c = (refl, refl)
set_delay-same l (suc zero) c = (refl, refl)
set_delay-same l (suc (suc n)) c = (refl, refl)

-- A message of a call: the request with the call's number and key, in one of its rounds. All but the
-- retry count and the checksum is given, and the checksum is right.
pub record IsCopy (o : Order) (s k : ℕ) (m : Packet) : Type 0 where
  pub retry : ℕ
  pub seq : m.seq ≡ seq_field s retry
  pub key : m.key ≡ write2 k
  pub cmd : m.cmd ≡ o.cmd
  pub len : m.len ≡ write2 (length o.p1)
  pub pos : m.pos ≡ write4 o.pos
  pub body : m.body ≡ o.p1 ++ o.p2
  pub passes : request_passes m ≡ true

abbrev pub AreCopies : Order → ℕ → ℕ → List Packet → Type 0
AreCopies o s k [] = Unit {0}
AreCopies o s k (m ∷ ms) = IsCopy o s k m × AreCopies o s k ms

pub message-IsCopy : (o : Order) (c : Client) (n : ℕ) → IsCopy o c.myseq c.key (message o c n)
unfolding message
message-IsCopy o c n = record {
  retry = n;
  seq = refl;
  key = refl;
  cmd = refl;
  len = refl;
  pos = refl;
  body = refl;
  passes = (sealed_passes _).1;
}

abbrev pub ResultOk : Order → ℕ → List Round → Result → Type 0
ResultOk o s rs (answered m c) = Reply o s (Brings rs) m c
ResultOk o s rs (exited e) = Unit {0}
ResultOk o s rs (waiting c) = c.myseq ≡ s

ResultOk-map :
    (o : Order) (s : ℕ) (rs rs' : List Round) (r : Result)
    → ((raw : List ℕ) → Brings rs raw → Brings rs' raw)
    → ResultOk o s rs r
    → ResultOk o s rs' r
ResultOk-map o s rs rs' (answered m c) f v = Reply-map o s (Brings rs) (Brings rs') m c f v
ResultOk-map o s rs rs' (exited e) f v = tt
ResultOk-map o s rs rs' (waiting c) f v = v

-- What the rounds of a call with the number `s` and the key `k` may send and return.
abbrev pub RunOk : Order → ℕ → ℕ → List Round → List Packet × Result → Type 0
RunOk o s k rs (ms, res) = AreCopies o s k ms × ResultOk o s rs res

RunOk-and_sent :
    (o : Order) (s k : ℕ) (rs rs' : List Round) (m : Packet) (run : List Packet × Result)
    → ((raw : List ℕ) → Brings rs raw → Brings rs' raw)
    → IsCopy o s k m
    → RunOk o s k rs run
    → RunOk o s k rs' (and_sent m run)
RunOk-and_sent o s k rs rs' m (ms, res) f v (vs, r) = ((v, vs), ResultOk-map o s rs rs' res f r)

heard-Ok :
    (o : Order) (s k : ℕ) (time : Moment) (arrivals : List Arrival) (rs : List Round) (m p : Packet)
    (stop : Bool) (c : Client)
    → IsCopy o s k m
    → Reply o s (Delivers arrivals) p c
    → RunOk o s k
        (sent time arrivals ∷ rs)
        (m ∷ [], (if stop then exited interrupted else answered p c))
heard-Ok o s k time arrivals rs m p true c v r = ((v, tt), tt)
heard-Ok o s k time arrivals rs m p false c v r = (
  (v, tt),
  Reply-map o s (Delivers arrivals) (Brings (sent time arrivals ∷ rs)) p c (λ raw d. inl d) r,
)

RunOk-if :
    (o : Order) (s k : ℕ) (rs : List Round) (b : Bool) (x y : List Packet × Result)
    → RunOk o s k rs x
    → RunOk o s k rs y
    → RunOk o s k rs (if b then x else y)
RunOk-if o s k rs true x y v w = v
RunOk-if o s k rs false x y v w = w

wait-Ok :
    (o : Order) (s k : ℕ) (time : Moment) (arrivals : List Arrival) (rs : List Round) (m : Packet)
    (h : Heard) (go_on : Client → List Packet × Result)
    → IsCopy o s k m
    → HeardOk o s k (Delivers arrivals) h
    → ((c : Client) → c.myseq ≡ s → c.key ≡ k → RunOk o s k rs (go_on c))
    → RunOk o s k (sent time arrivals ∷ rs) (elim h [
      | heard p stop c ↦ (m ∷ [], (if stop then exited interrupted else answered p c))
      | silence c ↦ and_sent m (go_on c)
    ])
wait-Ok o s k time arrivals rs m (heard p stop c) go_on v r f =
    heard-Ok o s k time arrivals rs m p stop c v r
wait-Ok o s k time arrivals rs m (silence c) go_on v (a, b) f =
    RunOk-and_sent o s k rs (sent time arrivals ∷ rs) m (go_on c) (λ raw d. inr d) v (f c a b)

message-Copy :
    (o : Order) (c : Client) (n s k : ℕ) → c.myseq ≡ s → c.key ≡ k → IsCopy o s k (message o c n)
message-Copy o c n s k h g =
    subst (λ (x : ℕ). IsCopy o x k (message o c n)) h
      (subst (λ (x : ℕ). IsCopy o c.myseq x (message o c n)) g (message-IsCopy o c n))

rounds-Ok :
    (l : Limits) (o : Order) (rs : List Round) (t : Turn) (c : Client) (s k : ℕ)
    → c.myseq ≡ s
    → c.key ≡ k
    → RunOk o s k rs (rounds l o rs t c)
unfolding rounds message
rounds-Ok l o [] t c s k h g = (tt, h)
rounds-Ok l o (failed ∷ rs) t c s k h g =
    RunOk-if o s k (failed ∷ rs) (is_over l t) ([], exited not_responding)
      (message o c t.retry_send ∷ [], exited io_error) (tt, tt)
      ((message-Copy o c t.retry_send s k h g, tt), tt)
rounds-Ok l o (unsent ∷ rs) t c s k h g =
    let d = set_delay l t.retry_send c in
    let (a, b) = set_delay-same l t.retry_send c in
    let m = message o c t.retry_send in
    let rest = rounds l o rs (next_turn t d.1 t.start) d.0 in
    RunOk-if o s k (unsent ∷ rs) (is_over l t) ([], exited not_responding) (and_sent m rest)
      (tt, tt)
      (RunOk-and_sent o s k rs (unsent ∷ rs) m rest (λ raw i. i)
        (message-Copy o c t.retry_send s k h g)
        (rounds-Ok l o rs (next_turn t d.1 t.start) d.0 s k (a ∙ h) (b ∙ g)))
rounds-Ok l o (sent time arrivals ∷ rs) t c s k h g =
    let d = set_delay l t.retry_send c in
    let (a, b) = set_delay-same l t.retry_send c in
    let m = message o c t.retry_send in
    let start = stamp t time in
    elim (Bool-cases (is_over l t)) [
      | inl e ↦ rw (e, rounds) (tt, tt)
      | inr e ↦
          rw (e, rounds)
            (wait-Ok o s k time arrivals rs m (listen o m.seq start arrivals d.0)
              (λ c''. rounds l o rs (next_turn t (clamp l d.1) start) c'')
              (message-Copy o c t.retry_send s k h g)
              (subst₂
                (λ (x y : ℕ).
                  HeardOk o s y (Delivers arrivals)
                    (listen o (seq_field x t.retry_send) start arrivals d.0))
                (sym h) (b ∙ g) (listen-Ok o t.retry_send start arrivals d.0 s (a ∙ h)))
              (λ c'' a' b'. rounds-Ok l o rs (next_turn t (clamp l d.1) start) c'' s k a' b'))
    ]

-- A call sends copies of one request, with the stored key and the number that it has chosen, and
-- with the order's command, length, position and data. If it returns a reply, the network has
-- brought it, it answers one of the copies, and the client keeps its key and the number.
pub client_interact-Ok :
    (l : Limits) (o : Order) (stored random : ℕ) (start : ℕ → Moment) (rs : List Round) (c : Client)
    → RunOk o (choose_seq random c.myseq) stored rs (client_interact l o stored random start rs c)
unfolding client_interact
client_interact-Ok l o stored random start rs c =
    rounds-Ok l o rs (record { retry_send = 0; w_delay = 0; total_delay = 0; start = start })
      (record c { key = stored; myseq = choose_seq random c.myseq }) (choose_seq random c.myseq)
      stored refl refl
