-- ===== src/Exchange.antt =====
-- The exchange of client/lib.c: `client_interact`, which sends a request, sends it again with growing
-- delays, and takes the reply that answers it.
pub mod Filter
pub mod Timers
pub mod Run
pub mod Silent
pub mod Peer
mod Tests
use fsp.Base.{
  ℕ, zero, suc, ◌+◌, ◌-◌, ◌*◌, ◌/◌, ◌%◌, ◌^◌, Bool, true, false, not, ◌||◌, ◌&&◌, List, [], ◌∷◌,
  ◌++◌, length, leb, ltb, ◌==◌, if◌then◌else◌, Option, none, some,
}
use fsp.Packet.{Packet, Pair, receive, read2, read4, write2, write4, reply_passes, seal_request}
use fsp.Rights.{flip_bit}

-- MIN_DELAY, DEFAULT_DELAY and MAX_DELAY, in milliseconds.
abbrev pub min_delay : ℕ
min_delay = 1000

abbrev pub default_delay : ℕ
default_delay = 1340

abbrev pub max_delay : ℕ
max_delay = 300000

-- The variables of the module: the last sequence number, the key, the timers and the counters.
pub record Client : Type 0 where
  pub myseq : ℕ
  pub key : ℕ
  pub busy_delay : ℕ
  pub idle_delay : ℕ
  pub stat_ok : ℕ
  pub stat_bad : ℕ
  pub stat_dupes : ℕ
  pub stat_resends : ℕ
  pub stat_iresends : ℕ

-- What the environment sets, and whether CLIENT_TIMEOUT is defined.
pub record Limits : Type 0 where
  pub target_delay : ℕ
  pub target_maxdelay : ℕ
  pub env_timeout : ℕ
  pub client_timeout : Bool

-- The limits that `util_get_env` makes of three numbers. A number is the value as it is stored, so a
-- negative one is large.
unfoldable pub limits_of : Bool → ℕ → ℕ → ℕ → Limits
limits_of client_timeout wished most timeout =
    let raised = if ltb wished min_delay then min_delay else wished in
    let target = if ltb max_delay raised then max_delay else raised in
    let raised_most = if ltb most target then target else most in
    record {
      target_delay = target;
      target_maxdelay = if ltb max_delay raised_most then max_delay else raised_most;
      env_timeout = if timeout == 0 then 2147483647 else timeout;
      client_timeout = client_timeout;
    }

abbrev pub or_default : ℕ → Option ℕ → ℕ
or_default d none = d
or_default d (some n) = n

-- The numbers come from FSP_DELAY, FSP_MAXDELAY and FSP_TIMEOUT, or are the defaults.
pub util_get_env : Bool → Option ℕ → Option ℕ → Option ℕ → Limits
unfolding limits_of
util_get_env client_timeout fsp_delay fsp_maxdelay fsp_timeout =
    limits_of client_timeout (or_default default_delay fsp_delay) (or_default 60000 fsp_maxdelay)
      (or_default 360 fsp_timeout)

-- The sequence number of a new request, from a random number: `random() & 0xfff8`, and if that is the
-- last one, the last one with the bits of 0x1080 turned.
unfoldable pub choose_seq : ℕ → ℕ → ℕ
unfolding flip_bit
choose_seq random myseq =
    let u = random / 8 % 8192 * 8 in if u == myseq then flip_bit (flip_bit myseq 4096) 128 else u

-- The two bytes of the field: the retry counts in its lowest three bits.
unfoldable pub seq_field : ℕ → ℕ → Pair
seq_field myseq retry_send = record {
  hi = myseq / 256 % 256;
  lo = myseq / 8 % 32 * 8 + retry_send % 8;
}

-- The arguments of a call.
pub record Order : Type 0 where
  pub cmd : ℕ
  pub pos : ℕ
  pub p1 : List ℕ
  pub p2 : List ℕ

-- What is sent in a round.
pub message : Order → Client → ℕ → Packet
unfolding write2 write4 seq_field seal_request
message o c retry_send = seal_request (record {
  cmd = o.cmd;
  sum = 0;
  key = write2 c.key;
  seq = seq_field c.myseq retry_send;
  len = write2 (length o.p1);
  pos = write4 o.pos;
  body = o.p1 ++ o.p2;
})

-- The commands whose replies carry the position of the request.
unfoldable pub is_positional : ℕ → Bool
is_positional cmd = cmd == 65 || cmd == 66 || cmd == 67 || cmd == 17 || cmd == 75

-- What the checks make of a datagram.
pub data Checked : Type 0 where
  bad dupe : Checked
  good : Packet → Checked

-- The checks on a datagram that is not too short.
pub screen : Order → Pair → Packet → Checked
unfolding reply_passes read4 is_positional
screen o seq m =
    if not (reply_passes m)
    then bad
    else if not (m.seq.hi == seq.hi && m.seq.lo / 8 == seq.lo / 8)
    then dupe
    else if not (o.cmd == m.cmd) && not (m.cmd == 64)
    then bad
    else if not (read4 m.pos == o.pos) && is_positional o.cmd
    then bad
    else good m

pub check_reply : Order → Pair → List ℕ → Checked
unfolding receive screen
check_reply o seq raw = elim (receive raw) [ none ↦ bad | some m ↦ screen o seq m ]

-- A time of `gettimeofday`, and the difference of two, in the arithmetic of an unsigned long.
pub record Moment : Type 0 where
  pub tv_sec : ℕ
  pub tv_usec : ℕ

unfoldable pub round_trip : Moment → Moment → ℕ
round_trip stop start =
    let secs = 1000 * (stop.tv_sec + 2 ^ 64 - start.tv_sec) % 2 ^ 64 in
    let rest =
      if leb start.tv_usec stop.tv_usec
      then (stop.tv_usec - start.tv_usec) / 1000
      else 2 ^ 64 - (start.tv_usec - stop.tv_usec) / 1000 in
    (secs + rest) % 2 ^ 64

-- The delay of a round before it is brought within the limits, with the changes of the timers.
unfoldable pub set_delay : Limits → ℕ → Client → Client × ℕ
set_delay l zero c = (
  c,
  (if leb c.busy_delay l.target_delay
      then l.target_delay
      else (c.busy_delay + default_delay) % 2 ^ 64),
)
set_delay l (suc zero) c =
    let busy = c.busy_delay * 3 % 2 ^ 64 / 2 in
    (record c { busy_delay = busy; idle_delay = busy; stat_resends = c.stat_resends + 1 }, busy)
set_delay l (suc (suc n)) c =
    let more = c.idle_delay * 4 % 2 ^ 64 / 3 in
    let idle = if ltb l.target_maxdelay more then l.target_maxdelay else more in
    (record c { idle_delay = idle; stat_iresends = c.stat_iresends + 1 }, idle)

unfoldable pub clamp : Limits → ℕ → ℕ
clamp l w =
    if ltb w min_delay then min_delay else if ltb l.target_maxdelay w then l.target_maxdelay else w

-- A datagram that comes in during a wait, when it does, and whether SIGINT has come by then.
pub record Arrival : Type 0 where
  pub raw : List ℕ
  pub at : Moment
  pub interrupted : Bool

-- What a wait ends with: a reply, or the time is over.
pub data Heard : Type 0 where
  heard : Packet → Bool → Client → Heard
  silence : Client → Heard

-- The inner loop, over the datagrams that arrive before the delay is over.
pub listen : Order → Pair → (ℕ → Moment) → List Arrival → Client → Heard
unfolding check_reply read2 round_trip
listen o seq start [] c = silence c
listen o seq start (a ∷ rest) c = elim (check_reply o seq a.raw) [
  | bad ↦ listen o seq start rest (record c { stat_bad = c.stat_bad + 1 })
  | dupe ↦ listen o seq start rest (record c { stat_dupes = c.stat_dupes + 1 })
  | good m ↦ heard m a.interrupted (record c {
    key = read2 m.key;
    busy_delay = round_trip a.at (start (m.seq.lo % 8));
    stat_ok = c.stat_ok + 1;
  })
]

-- A round, as the network makes it. `sendto` goes well at some time, and some datagrams arrive before
-- the delay is over; or it fails, with an error after which the code goes on, or with another one.
pub data Round : Type 0 where
  sent : (time : Moment) → (arrivals : List Arrival) → Round
  unsent failed : Round

pub data Exit : Type 0 where
  not_responding io_error interrupted : Exit

-- What becomes of a call; `waiting` is a call that has not returned after the given rounds.
pub data Result : Type 0 where
  answered : Packet → Client → Result
  exited : Exit → Result
  waiting : Client → Result

-- The locals of the outer loop. `start` holds the times of the last eight sendings.
pub record Turn : Type 0 where
  pub retry_send : ℕ
  pub w_delay : ℕ
  pub total_delay : ℕ
  pub start : ℕ → Moment

pub gives_up : Limits → ℕ → ℕ → Bool
gives_up l retry_send total =
    l.client_timeout && (leb 2 retry_send && leb l.env_timeout (total / 1000))

-- The locals of the next round, from the delay that has been set and the times.
pub next_turn : Turn → ℕ → (ℕ → Moment) → Turn
next_turn t w start = record {
  retry_send = t.retry_send + 1;
  w_delay = w;
  total_delay = (t.total_delay + t.w_delay) % 2 ^ 64;
  start = start;
}

-- `start[retry_send & 7] = ...`.
pub stamp : Turn → Moment → ℕ → Moment
stamp t time i = if i == t.retry_send % 8 then time else t.start i

abbrev pub and_sent : Packet → List Packet × Result → List Packet × Result
and_sent m (ms, res) = (m ∷ ms, res)

abbrev pub is_over : Limits → Turn → Bool
is_over l t = gives_up l t.retry_send ((t.total_delay + t.w_delay) % 2 ^ 64)

-- The outer loop, with the messages that it passes to `sendto`.
pub rounds : Limits → Order → List Round → Turn → Client → List Packet × Result
unfolding message set_delay clamp listen gives_up next_turn stamp
rounds l o [] t c = ([], waiting c)
rounds l o (failed ∷ rs) t c =
    if is_over l t
    then ([], exited not_responding)
    else (message o c t.retry_send ∷ [], exited io_error)
rounds l o (unsent ∷ rs) t c =
    let (c', w) = set_delay l t.retry_send c in
    let rest = rounds l o rs (next_turn t w t.start) c' in
    if is_over l t then ([], exited not_responding) else and_sent (message o c t.retry_send) rest
rounds l o (sent time arrivals ∷ rs) t c =
    let m = message o c t.retry_send in
    let (c', w) = set_delay l t.retry_send c in
    elim (is_over l t) [
      | true ↦ ([], exited not_responding)
      | false ↦ elim (listen o m.seq (stamp t time) arrivals c') [
        | heard p stop c'' ↦ (m ∷ [], (if stop then exited interrupted else answered p c''))
        | silence c'' ↦ and_sent m (rounds l o rs (next_turn t (clamp l w) (stamp t time)) c'')
      ]
    ]

-- A call: the key that is stored, a random number, what the array of times holds, and the rounds.
pub client_interact :
    Limits → Order → ℕ → ℕ → (ℕ → Moment) → List Round → Client → List Packet × Result
unfolding choose_seq rounds
client_interact l o stored random start rs c =
    rounds l o rs (record { retry_send = 0; w_delay = 0; total_delay = 0; start = start })
      (record c { key = stored; myseq = choose_seq random c.myseq })

-- `init_client`, of the numbers that it sets.
pub init_client : Limits → ℕ → Client
init_client l random = record {
  myseq = random / 8 % 8192 * 8;
  key = 0;
  busy_delay = l.target_delay;
  idle_delay = l.target_delay;
  stat_ok = 0;
  stat_bad = 0;
  stat_dupes = 0;
  stat_resends = 0;
  stat_iresends = 0;
}
