-- ===== src/Throttle.antt =====
-- The throughput limit of `server_reply` in server/server.c: the loop that waits until the average of
-- the last seconds is low enough. The arithmetic is that of numbers without a bound.
pub mod Waits
mod Tests
use fsp.Base.{
  ℕ, zero, suc, ◌+◌, ◌-◌, ◌*◌, ◌/◌, Bool, true, false, List, [], ◌∷◌, length, take, replicate, leb,
  ltb, ◌==◌, if◌then◌else◌, Option, none, some,
}

-- THCCOUNT.
abbrev pub thccount : ℕ
thccount = 10

-- The bytes that were sent in each of the last seconds, the newest first, and the newest second.
pub record Thc : Type 0 where
  pub thc : List ℕ
  pub thcbase : ℕ

-- At the start of `server_loop`.
pub start_thc : ℕ → Thc
start_thc now = record { thc = replicate thccount 0; thcbase = now }

-- `while (cur_time > thcbase)`, of which each round moves the entries by one place.
pub shift_thc : ℕ → Thc → Thc
shift_thc zero t = t
shift_thc (suc n) t =
    shift_thc n (record { thc = 0 ∷ take (thccount - 1) t.thc; thcbase = t.thcbase + 1 })

pub catch_up : ℕ → Thc → Thc
unfolding shift_thc
catch_up cur_time t =
    if ltb t.thcbase cur_time
    then if ltb (t.thcbase + thccount) cur_time
      then record { thc = replicate thccount 0; thcbase = cur_time }
      else shift_thc (cur_time - t.thcbase) t
    else t

abbrev pub sum : List ℕ → ℕ
sum [] = 0
sum (n ∷ ns) = n + sum ns

pub average : Thc → ℕ
average t = sum t.thc / thccount

-- `thc[0] += len1 + len2 + UBUF_HSIZE`.
pub count_bytes : ℕ → Thc → Thc
count_bytes n t = record t { thc = elim t.thc [ [] ↦ [] | now ∷ before ↦ (now + n) ∷ before ] }

-- The `for(;;)`, which does not change `cur_time`; `none` is a loop that has not ended in its fuel.
pub wait_turn : ℕ → ℕ → ℕ → ℕ → Thc → Option Thc
unfolding catch_up average count_bytes
wait_turn zero cur_time maxthcallowed n t = none
wait_turn (suc fuel) cur_time maxthcallowed n t =
    let t' = catch_up cur_time t in
    elim (leb (average t') maxthcallowed) [
      | true ↦ some (count_bytes n t')
      | false ↦ wait_turn fuel cur_time maxthcallowed n t'
    ]
