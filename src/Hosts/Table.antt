-- ===== src/Hosts/Table.antt =====
-- The client table as a map from addresses to records: `find_host` of server/host.c.
use fsp.Base.{
  ℕ, ◌+◌, ◌-◌, ◌%◌, ◌<◌, ◌^◌, ◌≡◌, refl, sym, ◌∙◌, ◌≢◌, ◌↔◌, List, get_elem?, get_elem?-in_range,
  set, some, arith, inl, inr, ==_iff, ◌⊎◌, subst, lt→ltb,
}
use fsp.Hosts.{
  Host, Htab, Env, Probe, hit, miss, lost, touched, newcomer, reserve, shift, insert, entry, settle,
  find_host,
}
use fsp.Hosts.Search.{inet_at, Located, search-Located}
use fsp.Hosts.Insert.{Grows, Reserved, reserve-Reserved}
use fsp.Hosts.Inv.{Inv, Holds, inet_at-eq, max_inet, over-Inv, over-others, get_elem?-over}
use fsp.Hosts.Place.{placed, placed-Inv, placed-others, get_elem?-placed}

-- What a call for the client `n` does to the table `t`: the client's own record, at the index that
-- is returned, is the old one touched or a new one, and every other client's record is as it was.
pub record Serves (env : Env) (t : Htab) (n : ℕ) (t' : Htab) (i : ℕ) : Type 0 where
  pub inv : Inv t'
  pub index : i < t'.hcnt
  pub own :
      ((e : Host) × (e.inet_num ≡ n)
        × (get_elem? t.cells i ≡ some e)
        × (get_elem? t'.cells i ≡ some (touched env e))
        × (t'.hcnt ≡ t.hcnt))
      ⊎ (((e : Host) → Holds t e → e.inet_num ≢ n)
          × (get_elem? t'.cells i ≡ some (newcomer env n))
          × (t'.hcnt ≡ t.hcnt + 1))
  pub others : (h : Host) → h.inet_num ≢ n → Holds t' h ↔ Holds t h

touched-inet : (env : Env) (e : Host) → (touched env e).inet_num ≡ e.inet_num
unfolding touched
touched-inet env e = refl

module _ (env : Env) (t : Htab) (n : ℕ) (v : Inv t) where
  serves_hit :
      (m : ℕ)
      → m < t.hcnt
      → inet_at t.cells m ≡ n
      → (e : Host) → get_elem? t.cells m ≡ some e
      → Serves env t n (record t { cells = set t.cells m (touched env e) }) m
  serves_hit m hm is e at =
      let own : e.inet_num ≡ n = sym (inet_at-eq t.cells m {e = e} at) ∙ is in
      let same = touched-inet env e in
      record {
        inv = over-Inv t v m hm e at (touched env e) same;
        index = hm;
        own = inl (
          e,
          own,
          at,
          get_elem?-over t v m hm e at (touched env e) same m ∙ rw ((==_iff m m).1 refl) refl,
          refl,
        );
        others = λ h ne. over-others t v m hm e at (touched env e) same h (λ p. ne (p ∙ own));
      }

  module _ (m : ℕ) (hm : m + 1 < t.hcnt) (above : inet_at t.cells m < n)
      (below : n < inet_at t.cells (m + 1)) where
    -- No record of the client lies between two neighbours.
    absent : (e : Host) → Holds t e → e.inet_num ≢ n
    absent e (j, hj, p) eq =
        grind (
          arith,
          inet_at-eq t.cells j {e = e} p,
          v.sorted j m,
          v.sorted (m + 1) j,
          above,
          below,
          eq,
        )

    module _ (c : List Host) (r : Reserved t c) (room : t.hcnt + 1 < 2 ^ 31) where
      before : inet_at t.cells (m + 1 - 1) < n
      before = subst (λ k. inet_at t.cells k < n) (omega arith) above

      abbrev new : Htab
      new = placed t v c r (m + 1) (newcomer env n) (omega arith) hm room before below

      serves_miss : Serves env t n new (m + 1)
      serves_miss = record {
        inv = placed-Inv t v c r (m + 1) (newcomer env n) (omega arith) hm room before below;
        index = omega arith;
        own = inr (
          absent,
          get_elem?-placed t v c r (m + 1) (newcomer env n) (omega arith) hm room before below
                (m + 1) (omega arith)
              ∙ rw ((==_iff (m + 1) (m + 1)).1 refl) refl,
          refl,
        );
        others = placed-others t v c r (m + 1) (newcomer env n) (omega arith) hm room before below;
      }

  settle-hit :
      (m : ℕ) (e : Host)
      → get_elem? t.cells m ≡ some e
      → settle env t n (hit m) ≡ entry (record t { cells = set t.cells m (touched env e) }) m
  unfolding settle
  settle-hit m e p = rw (p, settle) refl

  settle-miss :
      (m : ℕ) (e : Host) (c : List Host)
      → get_elem? t.cells m ≡ some e
      → e.inet_num < n
      → reserve env t ≡ some c
      → settle env t n (miss m)
        ≡ entry
            (record {
              cells = set (shift (t.hcnt - (m + 1)) t.hcnt c) (m + 1) (newcomer env n);
              hcnt = t.hcnt + 1;
            })
            (m + 1)
  unfolding settle insert
  settle-miss m e c p less got = rw (p, settle) (rw (lt→ltb _ _ less) (rw (got, insert) refl))

  -- Whatever the loop found, the call serves the client.
  settle-Serves :
      {more : List Host} (p : Probe)
      → Grows env more
      → t.hcnt + 1 < 2 ^ 31
      → Located t.cells n 0 (t.hcnt - 1) p
      → (t' : Htab) × (i : ℕ) × (settle env t n p ≡ entry t' i) × Serves env t n t' i
  settle-Serves (hit m) g room d =
      let (e, at) = get_elem?-in_range t.cells m (omega (arith, v.fits)) in
      (
        record t { cells = set t.cells m (touched env e) },
        m,
        settle-hit m e at,
        serves_hit m (omega arith) d.2 e at,
      )
  settle-Serves (miss m) g room d =
      let (e, at) = get_elem?-in_range t.cells m (omega (arith, v.fits)) in
      let (c, got, r) = reserve-Reserved env t v.fits g in
      let less : e.inet_num < n = rw (inet_at-eq t.cells m {e = e} at) at d.2 in
      (
        new m (omega arith) d.2 d.3 c r room,
        m + 1,
        settle-miss m e c at less got,
        serves_miss m (omega arith) d.2 d.3 c r room,
      )
  settle-Serves lost g room d = absurd d

-- The returned index holds a record of the client.
own_record :
    (env : Env) (t t' : Htab) (n i : ℕ)
    → Serves env t n t' i
    → (e : Host) × (get_elem? t'.cells i ≡ some e) × (e.inet_num ≡ n)
own_record env t t' n i s = elim s.own [
  | inl (e, is, _, at, _) ↦ (touched env e, at, touched-inet env e ∙ is)
  | inr (_, at, _) ↦ (newcomer env n, at, refl)
]

-- In a sorted table a client has one index.
one_index :
    (t : Htab) (n : ℕ)
    → Inv t
    → (i j : ℕ) (e e' : Host) → i < t.hcnt
    → j < t.hcnt
    → get_elem? t.cells i ≡ some e
    → get_elem? t.cells j ≡ some e'
    → e.inet_num ≡ n
    → e'.inet_num ≡ n
    → i ≡ j
one_index t n v i j e e' hi hj p q is is' = grind (
  arith,
  inet_at-eq t.cells i {e = e} p,
  inet_at-eq t.cells j {e = e'} q,
  v.sorted i j,
  v.sorted j i,
)

-- On a well-formed table, for any address between the end marks, `find_host` returns: it finds the
-- client's record or makes one, keeps the table sorted, and leaves the other clients alone.
pub find_host-Serves :
    (env : Env) (t : Htab) (n : ℕ) {more : List Host}
    → Inv t
    → Grows env more
    → 0 < n
    → n < max_inet
    → t.hcnt + 1 < 2 ^ 31
    → (t' : Htab) × (i : ℕ) × (find_host env t n ≡ entry t' i) × Serves env t n t' i
unfolding find_host
find_host-Serves env t n v g low high room =
    let top : (t.hcnt + 2 ^ 32 - 1) % 2 ^ 32 ≡ t.hcnt - 1 = omega (arith, v.marks) in
    rw top (
      settle-Serves env t n v _ g room (
        search-Located (t.hcnt + 1) t.cells n 0 (t.hcnt - 1) (omega (arith, v.marks))
          (omega (arith, v.marks, v.fits)) (omega arith) (omega arith) (rw v.first low)
          (rw v.last high)))

-- The record that a call returned is found again by the next call for the same client, at the same
-- index, and no second one is made.
pub find_host_again :
    (env : Env) (t t' : Htab) (n i : ℕ) {more : List Host}
    → Grows env more
    → 0 < n
    → n < max_inet
    → t'.hcnt + 1 < 2 ^ 31
    → Serves env t n t' i
    → (t'' : Htab) × (find_host env t' n ≡ entry t'' i) × (t''.hcnt ≡ t'.hcnt)
find_host_again env t t' n i g low high room s =
    let (t'', j, called, s') = find_host-Serves env t' n s.inv g low high room in
    let (e, at, is) = own_record env t t' n i s in
    elim s'.own [
      | inl (e', is', at', _, same) ↦ (
        t'',
        rw (one_index t' n s.inv i j e e' s.index (rw same at s'.index) at at' is is') called,
        same,
      )
      | inr (none_yet, _, _) ↦ absurd (none_yet e (i, s.index, at) is)
    ]
