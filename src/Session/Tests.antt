-- ===== src/Session/Tests.antt =====
-- A session with a lost reply, and the theorems about it.
use fsp.Base.{ℕ, ◌≡◌, refl, true, false, List, [], ◌∷◌, arith}
use fsp.Hosts.{Host, hzero}
use fsp.Session.{
  Timeouts, Arrival, key_check, enter, draw_key, leave, turn, executed, executed_keys,
}
use fsp.Session.Lockstep.{turn_after, expected}
use fsp.Session.Once.{AreDistinct, AreTimely, Keeps-AreTimely, executed_keys-AreDistinct, randoms}

abbrev limits : Timeouts
limits = record { retry = 3; session = 60 }

abbrev client : Host
client = record hzero { inet_num = 16777226; next_key = 7; active = true; last_acc = 100 }

abbrev arrival : ℕ → ℕ → ℕ → Arrival
arrival now key random = record {
  time = now;
  key = key;
  intact = true;
  bye = false;
  random = random;
}

-- The request 7 is sent again twice, too early and late enough; then 11 follows, and 7 once more.
abbrev datagrams : List Arrival
datagrams =
    arrival 101 7 11
    ∷ arrival 102 7 12
    ∷ arrival 105 7 13
    ∷ arrival 106 11 14
    ∷ arrival 107 7 15
    ∷ []

executed_datagrams : executed_keys limits client datagrams ≡ 7 ∷ 11 ∷ []
unfolding executed_keys turn key_check enter draw_key leave
executed_datagrams = refl

timely : AreTimely limits client datagrams
unfolding turn key_check enter draw_key leave
timely = Keeps-AreTimely limits client datagrams refl (
  refl,
  omega arith,
  (refl, omega arith, (refl, omega arith, (refl, omega arith, (refl, omega arith, tt)))),
)

executed_keys-AreDistinct_example : AreDistinct (executed_keys limits client datagrams)
unfolding randoms
executed_keys-AreDistinct_example =
    executed_keys-AreDistinct limits client datagrams timely distinct
  where
    distinct : AreDistinct (7 ∷ 11 ∷ 12 ∷ 13 ∷ 14 ∷ 15 ∷ [])
    distinct = omega arith

-- A CC_BYE with the expected key ends the session; then the key 7 is carried out once more.
abbrev left_early : List Arrival
left_early = arrival 101 7 11 ∷ record (arrival 102 11 12) { bye = true } ∷ arrival 103 7 13 ∷ []

executed_left_early : executed_keys limits client left_early ≡ 7 ∷ 11 ∷ 7 ∷ []
unfolding executed_keys turn key_check enter draw_key leave
executed_left_early = refl

first_executed : (turn limits (arrival 101 7 11) client).1 ≡ executed
unfolding turn key_check enter draw_key leave
first_executed = refl

second_arrival-expected :
    let h' = (turn limits (arrival 101 7 11) client).0 in
    ((h'.last_key ≡ 7) × (h'.next_key ≡ 11) × (h'.active ≡ true) × (h'.last_acc ≡ 101))
    × ((turn limits (arrival 102 11 12) h').1
        ≡ expected limits (arrival 101 7 11) (arrival 102 11 12))
    × ((turn limits (arrival 102 11 12) h').0.next_key
        ≡ elim (expected limits (arrival 101 7 11) (arrival 102 11 12)) [ executed ↦ 12 | _ ↦ 11 ])
second_arrival-expected =
    turn_after limits (arrival 101 7 11) (arrival 102 11 12) client first_executed (omega arith)
      refl refl
