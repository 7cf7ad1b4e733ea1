-- ===== src/FifoCache/Ledger.antt =====
-- Ownership: where the keys and the entries that are put end up.
use native.Mathlib.Nat.{div-lt_iff_lt-mul}
use fsp.Base.{
  ℕ, zero, suc, ◌+◌, ◌*◌, ◌/◌, ◌<◌, ◌≡◌, refl, sym, ◌∙◌, ap, inl, inr, Bool, true, false, List, [],
  ◌∷◌, length, get_elem?, set, ◌==◌, Option, none, some, arith, Bool-cases, Option-cases,
}
use fsp.FifoCache.Count.{tally, count, count_at, count-set, count-replicate, count_from, count_to}
use fsp.FifoCache.{
  Cache, Ops, free_key, free_entry, write, advance, f_cache_put, f_cache_find, free_all,
  f_cache_clear, index_of, erase_at, f_cache_delete_entry, delete_match, delete_matches,
  f_cache_delete_by_key, Call, put, find, clear, delete_entry, delete_by_key, apply, run,
}
use fsp.FifoCache.Inv.{
  Inv, f_cache_put-Put, delete_match-Shaped, Shaped-Inv, free_key-Same, free_both-Same, apply-Inv,
}

module _ {K E : Type 0} (ops : Ops K E) (p : K → Bool) (q : E → Bool)
    (frees_keys : ops.k_destroy ≡ true) (frees_entries : ops.e_destroy ≡ true)
    (key_zero : p ops.k_zero ≡ false) (entry_zero : q ops.e_zero ≡ false) where
  -- The keys and entries of a kind that the cache holds or has destroyed.
  abbrev pub holdings : Cache K E → ℕ
  holdings c =
      (count p c.keys + count p c.freed_keys) + (count q c.entries + count q c.freed_entries)

  free_key-count :
      (i : ℕ) (c : Cache K E)
      → let d = free_key ops i c in
        (count p d.freed_keys ≡ count_at p c.keys i + count p c.freed_keys)
        × (d.freed_entries ≡ c.freed_entries)
  unfolding free_key
  free_key-count i c = elim (Option-cases (get_elem? c.keys i)) [
    | inl e ↦ ground (arith, e)
    | inr (k, e) ↦ ground (arith, e)
  ]

  free_entry-count :
      (i : ℕ) (c : Cache K E)
      → let d = free_entry ops i c in
        (count q d.freed_entries ≡ count_at q c.entries i + count q c.freed_entries)
        × (d.freed_keys ≡ c.freed_keys)
  unfolding free_entry
  free_entry-count i c = elim (Option-cases (get_elem? c.entries i)) [
    | inl e ↦ ground (arith, e)
    | inr (k, e) ↦ ground (arith, e)
  ]

  free_both-count :
      (i j : ℕ) (c : Cache K E)
      → let d = free_entry ops j (free_key ops i c) in
        (count p d.freed_keys ≡ count_at p c.keys i + count p c.freed_keys)
        × (count q d.freed_entries ≡ count_at q c.entries j + count q c.freed_entries)
  free_both-count i j c =
      let d = free_key ops i c in
      let (a, b) = free_key-count i c in
      let (a', b') = free_entry-count j d in
      let s = free_key-Same ops i c in
      (
        ap (count p) b' ∙ a,
        a'
            ∙ ap (λ (l : List E). count_at q l j + count q d.freed_entries) s.entries
            ∙ ap (λ (l : List E). count_at q c.entries j + count q l) b,
      )

  -- The destroyed keys and entries of a put.
  put_freed :
      (c : Cache K E) (k : K) (e : E)
      → let d = (f_cache_put ops c k e).0 in
        let f = free_entry ops c.e_next (free_key ops c.k_next c) in
        (d.freed_keys ≡ f.freed_keys) × (d.freed_entries ≡ f.freed_entries)
  unfolding f_cache_put write advance
  put_freed c k e = ground arith

  -- A put adds its key and its entry.
  pub put-holdings :
      (c : Cache K E) (k : K) (e : E)
      → Inv c
      → holdings (f_cache_put ops c k e).0 ≡ holdings c + (tally (p k) + tally (q e))
  put-holdings c k e v =
      let d = (f_cache_put ops c k e).0 in
      let w = f_cache_put-Put ops c k e v in
      let (a, b) = put_freed c k e in
      let (a', b') = free_both-count c.k_next c.e_next c in
      let i_lt : c.k_next < length c.keys = omega (arith, v.together, v.inside, v.all_keys) in
      let j_lt : c.e_next < length c.entries = omega (arith, v.inside, v.all_entries) in
      omega (
        arith,
        ap (count p) a,
        ap (count q) b,
        a',
        b',
        ap (count p) (w.keys ∙ ap (λ (i : ℕ). set c.keys i k) (sym v.together)),
        ap (count q) w.entries,
        count-set p c.keys c.k_next k i_lt,
        count-set q c.entries c.e_next e j_lt,
      )

  -- The erased record goes to the destroy functions.
  erase_at-holdings :
      (i : ℕ) (c : Cache K E) → Inv c → i < c.cachesize → holdings (erase_at ops i c) ≡ holdings c
  unfolding erase_at write
  erase_at-holdings i c v h =
      let (a, b) = free_both-count i i c in
      let s = free_both-Same ops i i c in
      let f = free_entry ops i (free_key ops i c) in
      let nk : (f.keysize == 0) ≡ false = ground (arith, s.keysize, v.key_bytes) in
      let ne : (f.entrysize == 0) ≡ false = ground (arith, s.entrysize, v.entry_bytes) in
      rw (nk, ne)
        (omega (
          arith,
          a,
          b,
          ap (λ (l : List K). count p (set l i ops.k_zero)) s.keys,
          ap (λ (l : List E). count q (set l i ops.e_zero)) s.entries,
          count-set p c.keys i ops.k_zero (omega (arith, v.all_keys)),
          count-set q c.entries i ops.e_zero (omega (arith, v.all_entries)),
          ap tally key_zero,
          ap tally entry_zero,
        ))

  find-holdings : (c : Cache K E) (k : K) → holdings (f_cache_find ops c k).0 ≡ holdings c
  unfolding f_cache_find
  find-holdings c k = ground arith

  -- The loop of `f_cache_clear` destroys the records from `i` on.
  free_all-count :
      (n i : ℕ) (c : Cache K E)
      → let d = free_all ops n i c in
        (count p d.freed_keys ≡ count_from p c.keys n i + count p c.freed_keys)
        × (count q d.freed_entries ≡ count_from q c.entries n i + count q c.freed_entries)
  unfolding free_all count_from
  free_all-count zero i c = (omega arith, omega arith)
  free_all-count (suc n) i c =
      let d = free_entry ops i (free_key ops i c) in
      let s = free_both-Same ops i i c in
      let (a, b) = free_both-count i i c in
      let (a', b') = free_all-count n (i + 1) d in
      (
        omega (arith, a, a', ap (λ (l : List K). count_from p l n (i + 1)) s.keys),
        omega (arith, b, b', ap (λ (l : List E). count_from q l n (i + 1)) s.entries),
      )

  clear-holdings : (c : Cache K E) → Inv c → holdings (f_cache_clear ops c) ≡ holdings c
  unfolding f_cache_clear
  clear-holdings c v =
      let (a, b) = free_all-count c.cachesize 0 c in
      let nk : (c.keysize == 0) ≡ false = ground (arith, v.key_bytes) in
      let ne : (c.entrysize == 0) ≡ false = ground (arith, v.entry_bytes) in
      rw (nk, ne)
        (omega (
          arith,
          a,
          b,
          count_to p c.keys c.cachesize v.all_keys,
          count_to q c.entries c.cachesize v.all_entries,
          count-replicate p c.cachesize ops.k_zero key_zero,
          count-replicate q c.cachesize ops.e_zero entry_zero,
        ))

  div_lt : (x n k : ℕ) → x < n * k → x / n < k
  div_lt x zero k h = absurd (omega arith)
  div_lt x (suc n) k h =
      (div-lt_iff_lt-mul {k = suc n} {x = x} {y = k} (omega arith)).1 (omega arith)

  index_of-in_range :
      (c : Cache K E) (x : Option ℕ) (i : ℕ) → index_of ops c x ≡ some i → i < c.cachesize
  unfolding index_of
  index_of-in_range c none i e = cc
  index_of-in_range c (some x) i e = ground (arith, div_lt x c.entrysize c.cachesize)

  delete_entry-holdings :
      (c : Cache K E) (x : Option ℕ)
      → Inv c
      → holdings (f_cache_delete_entry ops c x).0 ≡ holdings c
  unfolding f_cache_delete_entry
  delete_entry-holdings c x v = elim (Option-cases (index_of ops c x)) [
    | inl e ↦ rw (e, f_cache_delete_entry) refl
    | inr (i, e) ↦
        rw (e, f_cache_delete_entry) (erase_at-holdings i c v (index_of-in_range c x i e))
  ]

  delete_match-holdings :
      (same : K → K → Bool) (key : K) (i : ℕ) (c : Cache K E) (n : ℕ)
      → Inv c
      → holdings (delete_match ops same key i (c, n)).0 ≡ holdings c
  unfolding delete_match
  delete_match-holdings same key i c n v = elim (Option-cases (get_elem? c.keys i)) [
    | inl e ↦ rw (e, delete_match) refl
    | inr (k, e) ↦ elim (Bool-cases (same key k)) [
      | inl s ↦ rw (e, s, delete_match) (delete_entry-holdings c (some (i * c.entrysize)) v)
      | inr s ↦ rw (e, s, delete_match) refl
    ]
  ]

  delete_matches-holdings :
      (same : K → K → Bool) (key : K) (n i : ℕ) (s : Cache K E × ℕ)
      → Inv s.0
      → holdings (delete_matches ops same key n i s).0 ≡ holdings s.0
  unfolding delete_matches
  delete_matches-holdings same key zero i s v = refl
  delete_matches-holdings same key (suc n) i (c, d) v =
      delete_matches-holdings same key n (i + 1) (delete_match ops same key i (c, d))
        (Shaped-Inv ops v (delete_match-Shaped ops same key i c d v))
      ∙ delete_match-holdings same key i c d v

  delete_by_key-holdings :
      (c : Cache K E) (k : K) → Inv c → holdings (f_cache_delete_by_key ops c k).0 ≡ holdings c
  unfolding f_cache_delete_by_key
  delete_by_key-holdings c k v = elim (Option-cases ops.compare) [
    | inl e ↦ simp (e, f_cache_delete_by_key) refl
    | inr (same, e) ↦
        simp (e, f_cache_delete_by_key) (delete_matches-holdings same k c.cachesize 0 (c, 0) v)
  ]

  -- The keys and entries of the kind that a call brings in.
  abbrev pub brought : Call K E → ℕ
  brought (put k e) = tally (p k) + tally (q e)
  brought (find k) = 0
  brought clear = 0
  brought (delete_entry x) = 0
  brought (delete_by_key k) = 0

  abbrev pub all_brought : List (Call K E) → ℕ
  all_brought [] = 0
  all_brought (x ∷ xs) = brought x + all_brought xs

  apply-holdings :
      (c : Cache K E) (x : Call K E) → Inv c → holdings (apply ops c x) ≡ holdings c + brought x
  unfolding apply
  apply-holdings c (put k e) v = put-holdings c k e v
  apply-holdings c (find k) v = omega (arith, find-holdings c k)
  apply-holdings c clear v = omega (arith, clear-holdings c v)
  apply-holdings c (delete_entry x) v = omega (arith, delete_entry-holdings c x v)
  apply-holdings c (delete_by_key k) v = omega (arith, delete_by_key-holdings c k v)

  -- Under any calls on a well-formed cache, with both destroy functions given: of every kind of
  -- key and entry that zeroed memory is not of, the cache holds or has destroyed just as many as
  -- it did and those that the puts brought.
  pub run-holdings :
      (c : Cache K E) (xs : List (Call K E))
      → Inv c
      → holdings (run ops c xs) ≡ holdings c + all_brought xs
  unfolding run
  run-holdings c [] v = omega arith
  run-holdings c (x ∷ xs) v =
      omega (arith, run-holdings (apply ops c x) xs (apply-Inv ops c x v), apply-holdings c x v)
