-- ===== src/Throttle/Tests.antt =====
-- Replies of 1036 bytes under a limit of 100 bytes in a second.
use fsp.Base.{◌≡◌, refl, [], ◌∷◌, ◌++◌, take, replicate, leb, if◌then◌else◌, none, some}
use fsp.Throttle.{Thc, catch_up, average, count_bytes, wait_turn}
use fsp.Throttle.Waits.{wait_turn-once, catch_up-thc}

-- Five thousand bytes a second ago.
abbrev burst : Thc
burst = record { thc = 5000 ∷ 0 ∷ 0 ∷ 0 ∷ 0 ∷ 0 ∷ 0 ∷ 0 ∷ 0 ∷ 7 ∷ []; thcbase = 100 }

wait_turn-once_example : wait_turn 4 101 100 1036 burst ≡ (
    if leb (average (catch_up 101 burst)) 100
    then some (count_bytes 1036 (catch_up 101 burst))
    else none)
wait_turn-once_example = wait_turn-once 3 101 100 1036 burst

-- So that this reply is never sent.
burst_stuck : wait_turn 4 101 100 1036 burst ≡ none
unfolding wait_turn
burst_stuck = refl

three_seconds_later : (catch_up 103 burst).thc ≡ take 10 (replicate 3 0 ++ burst.thc)
three_seconds_later = catch_up-thc 103 burst refl
