-- ===== src/Session/Lockstep.antt =====
-- What a client sees of its session: after a request is carried out, what the server does with the
-- next one.
use fsp.Base.{ltb, ◌==◌, if◌then◌else◌, ◌+◌, ◌≡◌, ◌≢◌, true, false, arith}
use fsp.Hosts.{Host}
use fsp.Session.{Outcome, Timeouts, Arrival, dropped, executed, repeated, turn}

-- What an intact request `b` gets after `a` was carried out: the new key is carried out at once; the
-- key of `a` is dropped until the retry timeout has passed, and is then a repetition; any other key is
-- dropped until the session timeout has passed, and then opens a new session.
abbrev pub expected : Timeouts → Arrival → Arrival → Outcome
expected t a b =
    if b.key == a.random
    then executed
    else if b.key == a.key
    then (if ltb b.time (a.time + t.retry) then dropped else repeated)
    else if ltb b.time (a.time + t.session)
    then dropped
    else executed

-- Once a request has been carried out, whose key is not the random number drawn, its key is the last
-- key and the random number the next one, if it was no CC_BYE. Then an intact request gets what `expected` says, and the
-- next key changes only if it is carried out.
pub turn_after :
    (t : Timeouts) (a b : Arrival) (h : Host)
    → (turn t a h).1 ≡ executed
    → a.random ≢ a.key
    → a.bye ≡ false
    → b.intact ≡ true
    → let h' = (turn t a h).0 in
      ((h'.last_key ≡ a.key)
        × (h'.next_key ≡ a.random)
        × (h'.active ≡ true)
        × (h'.last_acc ≡ a.time))
      × ((turn t b h').1 ≡ expected t a b)
      × ((turn t b h').0.next_key ≡ elim (expected t a b) [ executed ↦ b.random | _ ↦ a.random ])
unfolding turn
turn_after t a b h e ne stays ok = ground arith
