-- ===== src/Throttle/Waits.antt =====
-- When the loop of the throughput limit ends.
use fsp.Base.{
  ℕ, zero, suc, ◌+◌, ◌-◌, ◌≤◌, ◌≡◌, List, [], ◌∷◌, ◌++◌, length, take, replicate, take-all,
  length-take_le, refl, sym, ◌∙◌, ap, false, inl, inr, ltb, leb, if◌then◌else◌, none, some, arith,
  Bool-cases,
}
use fsp.Throttle.{Thc, shift_thc, catch_up, average, count_bytes, wait_turn}

shift_thc-base : (n : ℕ) (t : Thc) → (shift_thc n t).thcbase ≡ t.thcbase + n
unfolding shift_thc
shift_thc-base zero t = omega arith
shift_thc-base (suc n) t = shift_thc-base n _ ∙ omega arith

catch_up-base : (cur_time : ℕ) (t : Thc) → cur_time ≤ (catch_up cur_time t).thcbase
unfolding catch_up
catch_up-base cur_time t = ground (arith, shift_thc-base (cur_time - t.thcbase) t)

catch_up-again : (cur_time : ℕ) (t : Thc) → cur_time ≤ t.thcbase → catch_up cur_time t ≡ t
unfolding catch_up
catch_up-again cur_time t h =
    let done_already : ltb t.thcbase cur_time ≡ false = ground (arith, h) in
    rw (done_already, catch_up) refl

stuck :
    (fuel cur_time maxthcallowed n : ℕ) (t : Thc)
    → cur_time ≤ t.thcbase
    → leb (average t) maxthcallowed ≡ false
    → wait_turn fuel cur_time maxthcallowed n t ≡ none
unfolding wait_turn
stuck zero cur_time maxthcallowed n t h k = refl
stuck (suc fuel) cur_time maxthcallowed n t h k =
    rw (wait_turn, catch_up-again cur_time t h, k, catch_up-again cur_time t h)
      (stuck fuel cur_time maxthcallowed n t h k)

-- The wait of `server_reply` either ends in its first round, or never, since nothing in it reads the
-- clock: it ends exactly if the average is within the limit when the entries have been moved up to the
-- time at which the request came in.
pub wait_turn-once :
    (fuel cur_time maxthcallowed n : ℕ) (t : Thc)
    → wait_turn (suc fuel) cur_time maxthcallowed n t ≡ (
        if leb (average (catch_up cur_time t)) maxthcallowed
        then some (count_bytes n (catch_up cur_time t))
        else none)
unfolding wait_turn
wait_turn-once fuel cur_time maxthcallowed n t =
    elim (Bool-cases (leb (average (catch_up cur_time t)) maxthcallowed)) [
      | inl e ↦ rw (e, wait_turn) refl
      | inr e ↦
          rw (e, wait_turn)
            (stuck fuel cur_time maxthcallowed n (catch_up cur_time t) (catch_up-base cur_time t) e)
    ]

take-take_le : (k j : ℕ) (ys : List ℕ) → k ≤ j → take k (take j ys) ≡ take k ys
take-take_le zero j ys h = refl
take-take_le (suc k) zero ys h = absurd (omega (arith, h))
take-take_le (suc k) (suc j) [] h = refl
take-take_le (suc k) (suc j) (y ∷ ys) h =
    ap (λ (l : List ℕ). y ∷ l) (take-take_le k j ys (omega (arith, h)))

take-append-take : (k j : ℕ) (xs ys : List ℕ) → k ≤ j → take k (xs ++ take j ys) ≡ take k (xs ++ ys)
take-append-take zero j xs ys h = refl
take-append-take (suc k) j [] ys h = take-take_le (suc k) j ys h
take-append-take (suc k) j (x ∷ xs) ys h =
    ap (λ (l : List ℕ). x ∷ l) (take-append-take k j xs ys (omega (arith, h)))

zeros-cons : (n : ℕ) (xs : List ℕ) → replicate n 0 ++ (0 ∷ xs) ≡ 0 ∷ (replicate n 0 ++ xs)
zeros-cons zero xs = refl
zeros-cons (suc n) xs = ap (λ (l : List ℕ). 0 ∷ l) (zeros-cons n xs)

shift_thc-thc :
    (n : ℕ) (t : Thc) → length t.thc ≡ 10 → (shift_thc n t).thc ≡ take 10 (replicate n 0 ++ t.thc)
unfolding shift_thc
shift_thc-thc zero t h = sym (take-all 10 t.thc (omega (arith, h)))
shift_thc-thc (suc n) t h =
    shift_thc-thc n (record { thc = 0 ∷ take 9 t.thc; thcbase = t.thcbase + 1 })
      (omega (arith, length-take_le 9 t.thc (omega (arith, h))))
    ∙ ap (take 10) (zeros-cons n (take 9 t.thc))
    ∙ ap (λ (l : List ℕ). 0 ∷ l) (take-append-take 9 9 (replicate n 0) t.thc (omega arith))

take-zeros : (n k : ℕ) (xs : List ℕ) → k ≤ n → take k (replicate n 0 ++ xs) ≡ replicate k 0
take-zeros n zero xs h = refl
take-zeros zero (suc k) xs h = absurd (omega (arith, h))
take-zeros (suc n) (suc k) xs h = ap (λ (l : List ℕ). 0 ∷ l) (take-zeros n k xs (omega (arith, h)))

-- However much time has passed, the entries move back by one place for each second, with zeros in front
-- and the oldest ones lost: the shortcut for a long pause agrees with the loop.
pub catch_up-thc :
    (cur_time : ℕ) (t : Thc)
    → length t.thc ≡ 10
    → (catch_up cur_time t).thc ≡ take 10 (replicate (cur_time - t.thcbase) 0 ++ t.thc)
unfolding catch_up
catch_up-thc cur_time t h = elim (Bool-cases (ltb t.thcbase cur_time)) [
  | inr now ↦
      rw (now, catch_up)
        (sym (take-all 10 t.thc (omega (arith, h)))
          ∙ ap (λ (n : ℕ). take 10 (replicate n 0 ++ t.thc)) {x = 0} (ground (arith, now)))
  | inl later ↦ elim (Bool-cases (ltb (t.thcbase + 10) cur_time)) [
    | inl long ↦
        rw (later, catch_up, long)
          (sym (take-zeros (cur_time - t.thcbase) 10 t.thc (ground (arith, long))))
    | inr short ↦ rw (later, catch_up, short) (shift_thc-thc (cur_time - t.thcbase) t h)
  ]
]
