-- ===== src/Session/Once.antt =====
-- What the keys of a session are worth, until it is left or times out.
use fsp.Base.{
  ℕ, ◌+◌, ◌<◌, ◌≡◌, ◌≢◌, ◌⊎◌, inl, inr, true, false, List, [], ◌∷◌, arith, sym, ◌∙◌, subst,
}
use fsp.Hosts.{Host}
use fsp.Session.{Timeouts, Arrival, executed, turn, leave, executed_keys}

-- The number is not in the list.
abbrev pub Avoids : ℕ → List ℕ → Type 0
Avoids x [] = Unit {0}
Avoids x (y ∷ ys) = (x ≢ y) × Avoids x ys

abbrev pub AreDistinct : List ℕ → Type 0
AreDistinct [] = Unit {0}
AreDistinct (x ∷ xs) = Avoids x xs × AreDistinct xs

-- Every request comes while the session lasts: no CC_BYE has ended it before, and it has not timed out.
abbrev pub AreTimely : Timeouts → Host → List Arrival → Type 0
AreTimely t h [] = Unit {0}
AreTimely t h (a ∷ more) =
    (h.active ≡ true) × (a.time < h.last_acc + t.session) × AreTimely t (turn t a h).0 more

unfoldable pub randoms : List Arrival → List ℕ
randoms [] = []
randoms (a ∷ more) = a.random ∷ randoms more

-- A turn in a session that lasts: it carries out the expected key and no other.
turn_timely :
    (t : Timeouts) (a : Arrival) (h : Host)
    → h.active ≡ true
    → a.time < h.last_acc + t.session
    → let (h', o) = turn t a h in
      ((o ≡ executed) × (a.key ≡ h.next_key) × (h'.next_key ≡ a.random))
      ⊎ ((o ≢ executed) × (h'.next_key ≡ h.next_key))
unfolding turn
turn_timely t a h on soon = ground arith

-- Only CC_BYE ends the session.
turn_lasts :
    (t : Timeouts) (a : Arrival) (h : Host)
    → h.active ≡ true
    → a.time < h.last_acc + t.session
    → a.bye ≡ false
    → (turn t a h).0.active ≡ true
unfolding turn leave
turn_lasts t a h on soon stays = ground arith

-- Without CC_BYE, a session lasts for as long as its datagrams are in time.
abbrev pub Keeps : Timeouts → Host → List Arrival → Type 0
Keeps t h [] = Unit {0}
Keeps t h (a ∷ more) =
    (a.bye ≡ false) × (a.time < h.last_acc + t.session) × Keeps t (turn t a h).0 more

pub Keeps-AreTimely :
    (t : Timeouts) (h : Host) (arrivals : List Arrival)
    → h.active ≡ true
    → Keeps t h arrivals
    → AreTimely t h arrivals
Keeps-AreTimely t h [] on k = tt
Keeps-AreTimely t h (a ∷ more) on k =
    (on, k.1, Keeps-AreTimely t (turn t a h).0 more (turn_lasts t a h on k.1 k.0) k.2)

executed_keys_cases :
    (t : Timeouts) (h : Host) (a : Arrival) (more : List Arrival)
    → let (h', o) = turn t a h in
      ((o ≡ executed) → executed_keys t h (a ∷ more) ≡ a.key ∷ executed_keys t h' more)
      × ((o ≢ executed) → executed_keys t h (a ∷ more) ≡ executed_keys t h' more)
unfolding executed_keys
executed_keys_cases t h a more = (λ e. ground (arith, e), λ e. ground (arith, e))

-- A key that neither is expected nor will be drawn is not carried out.
executed_keys-Avoids :
    (t : Timeouts) (h : Host) (more : List Arrival) (x : ℕ)
    → AreTimely t h more
    → Avoids x (h.next_key ∷ randoms more)
    → Avoids x (executed_keys t h more)
unfolding randoms
executed_keys-Avoids t h [] x soon av = unfold executed_keys in tt
executed_keys-Avoids t h (a ∷ more) x soon av =
    let what = turn_timely t a h soon.0 soon.1 in
    let (took, left) = executed_keys_cases t h a more in
    let h' = (turn t a h).0 in
    elim what [
      | inl (o, key, next) ↦
          rw (took o)
            (rw key av.0, executed_keys-Avoids t h' more x soon.2 (rw next (av.1.0, av.1.1)))
      | inr (o, next) ↦
          rw (left o) (executed_keys-Avoids t h' more x soon.2 (rw next (av.0, av.1.1)))
    ]

-- As long as the session of a client lasts, to the CC_BYE that ends it or a timeout, and the expected
-- key and the random keys are all different, no key is carried out twice, whatever datagrams arrive
-- and in whatever order.
pub executed_keys-AreDistinct :
    (t : Timeouts) (h : Host) (arrivals : List Arrival)
    → AreTimely t h arrivals
    → AreDistinct (h.next_key ∷ randoms arrivals)
    → AreDistinct (executed_keys t h arrivals)
unfolding randoms
executed_keys-AreDistinct t h [] soon d = unfold executed_keys in tt
executed_keys-AreDistinct t h (a ∷ more) soon d =
    let what = turn_timely t a h soon.0 soon.1 in
    let (took, left) = executed_keys_cases t h a more in
    let h' = (turn t a h).0 in
    elim what [
      | inl (o, key, next) ↦ rw (took o) (
        executed_keys-Avoids t h' more a.key soon.2 (
          (λ p. d.0.0 (sym key ∙ p ∙ next)),
          subst (λ k. Avoids k (randoms more)) (sym key) d.0.1,
        ),
        executed_keys-AreDistinct t h' more soon.2 (rw next d.1),
      )
      | inr (o, next) ↦
          rw (left o) (executed_keys-AreDistinct t h' more soon.2 (rw next (d.0.1, d.1.1)))
    ]
