-- ===== src/Session.antt =====
-- The session keys of server/server.c: which request of a client `server_loop` passes on, which it
-- takes for a repetition, and how `server_process_packet` changes the keys.
pub mod Once
pub mod Lockstep
mod Tests
use fsp.Base.{ℕ, ◌+◌, Bool, true, false, not, List, [], ◌∷◌, ltb, ◌==◌, if◌then◌else◌}
use fsp.Hosts.{Host}

-- `retry_timeout` and `session_timeout`, in seconds.
pub record Timeouts : Type 0 where
  pub retry : ℕ
  pub session : ℕ

-- What the key check decides: the datagram is dropped, or goes on, as a new request or an old one.
pub data Verdict : Type 0 where
  ignored : Verdict
  passes : (old : Bool) → Verdict

-- The `if(hp->next_key != rkey)` of `server_loop`, with the changes that it makes to the record.
unfoldable pub key_check : Timeouts → ℕ → ℕ → Host → Host × Verdict
key_check t now rkey h =
    if h.next_key == rkey
    then (h, passes false)
    else if not h.active
    then (record h { next_key = rkey }, passes false)
    else if h.last_key == rkey
    then (if ltb now (h.last_acc + t.retry) then (h, ignored) else (h, passes true))
    else if ltb now (h.last_acc + t.session)
    then (h, ignored)
    else (record h { active = false; next_key = rkey }, passes false)

-- `hp->active = 1; hp->last_acc = cur_time;`
pub enter : ℕ → Host → Host
enter now h = record h { active = true; last_acc = now }

-- The `if(!old)` of `server_process_packet`, with the number that `gen_next_key` draws.
unfoldable pub draw_key : Bool → ℕ → Host → Host
draw_key old random h = if old then h else record h { last_key = h.next_key; next_key = random }

-- A request as it reaches the key check: whether its checksum is right, whether its command is CC_BYE,
-- and the next random key.
pub record Arrival : Type 0 where
  pub time : ℕ
  pub key : ℕ
  pub intact : Bool
  pub bye : Bool
  pub random : ℕ

-- `hp->active = 0` of CC_BYE, which a repetition does too.
unfoldable pub leave : Bool → Host → Host
leave bye h = if bye then record h { active = false } else h

-- What becomes of it: it is dropped, carried out, or answered as a repetition.
pub data Outcome : Type 0 where
  dropped executed repeated : Outcome

-- One round of the loop, from the key check on. The checksum is checked after the record is
-- changed; then `server_process_packet` draws the keys and carries the command out.
pub turn : Timeouts → Arrival → Host → Host × Outcome
unfolding key_check enter draw_key leave
turn t a h =
    let (h', v) = key_check t a.time a.key h in
    elim v [
      | ignored ↦ (h', dropped)
      | passes old ↦
          let entered = enter a.time h' in
          if a.intact
          then (leave a.bye (draw_key old a.random entered), (if old then repeated else executed))
          else (entered, dropped)
    ]

-- The keys of the requests that are carried out, in order.
pub executed_keys : Timeouts → Host → List Arrival → List ℕ
executed_keys t h [] = []
executed_keys t h (a ∷ more) =
    let (h', o) = turn t a h in
    let rest = executed_keys t h' more in elim o [ executed ↦ a.key ∷ rest | _ ↦ rest ]
