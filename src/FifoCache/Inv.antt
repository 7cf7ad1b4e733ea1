-- ===== src/FifoCache/Inv.antt =====
-- The representation invariant of the cache, and what each function does to the blocks.
use fsp.Base.{
  ℕ, zero, suc, ◌+◌, ◌*◌, ◌<◌, ◌≡◌, refl, inl, inr, Bool, List, [], ◌∷◌, length, length-set,
  length-replicate, get_elem?, set, replicate, ◌==◌, if◌then◌else◌, Option, some, arith,
  Option-cases,
}
use fsp.FifoCache.{
  Cache, Ops, f_cache_new, free_key, free_entry, write, advance, f_cache_put, f_cache_find,
  free_all, f_cache_clear, index_of, erase_at, f_cache_delete_entry, delete_match, delete_matches,
  f_cache_delete_by_key, Call, put, find, clear, delete_entry, delete_by_key, apply, run,
}

-- Both blocks hold `cachesize` records, and both positions are at the same record.
pub record Inv {K E : Type 0} (c : Cache K E) : Type 0 where
  pub some_records : 0 < c.cachesize
  pub key_bytes : 0 < c.keysize
  pub entry_bytes : 0 < c.entrysize
  pub all_keys : length c.keys ≡ c.cachesize
  pub all_entries : length c.entries ≡ c.cachesize
  pub together : c.k_next ≡ c.e_next
  pub inside : c.e_next < c.cachesize

module _ {K E : Type 0} (ops : Ops K E) where
  -- Two caches with the same blocks and positions.
  pub record Same (c d : Cache K E) : Type 0 where
    pub cachesize : d.cachesize ≡ c.cachesize
    pub keysize : d.keysize ≡ c.keysize
    pub entrysize : d.entrysize ≡ c.entrysize
    pub keys : d.keys ≡ c.keys
    pub entries : d.entries ≡ c.entries
    pub k_next : d.k_next ≡ c.k_next
    pub e_next : d.e_next ≡ c.e_next

  pub free_key-Same : (i : ℕ) (c : Cache K E) → Same c (free_key ops i c)
  unfolding free_key
  free_key-Same i c = elim (Option-cases (get_elem? c.keys i)) [
    | inl e ↦ ground (arith, e)
    | inr (k, e) ↦ ground (arith, e)
  ]

  pub free_entry-Same : (i : ℕ) (c : Cache K E) → Same c (free_entry ops i c)
  unfolding free_entry
  free_entry-Same i c = elim (Option-cases (get_elem? c.entries i)) [
    | inl e ↦ ground (arith, e)
    | inr (k, e) ↦ ground (arith, e)
  ]

  pub Same-trans : {c d f : Cache K E} → Same c d → Same d f → Same c f
  Same-trans s t = ground arith

  pub free_both-Same : (i j : ℕ) (c : Cache K E) → Same c (free_entry ops j (free_key ops i c))
  free_both-Same i j c = Same-trans (free_key-Same i c) (free_entry-Same j (free_key ops i c))

  -- What a call leaves of the shape of the cache.
  pub record Shaped (c d : Cache K E) : Type 0 where
    pub cachesize : d.cachesize ≡ c.cachesize
    pub keysize : d.keysize ≡ c.keysize
    pub entrysize : d.entrysize ≡ c.entrysize
    pub all_keys : length d.keys ≡ length c.keys
    pub all_entries : length d.entries ≡ length c.entries
    pub together : d.k_next ≡ d.e_next
    pub inside : d.e_next < c.cachesize

  pub Shaped-Inv : {c d : Cache K E} → Inv c → Shaped c d → Inv d
  Shaped-Inv v s = ground arith

  -- The next record, round the end of the block.
  abbrev pub after : ℕ → ℕ → ℕ
  after n i = if i + 1 == n then 0 else i + 1

  -- A put writes one record of each block, and moves to the next.
  pub record Put (c d : Cache K E) (k : K) (e : E) : Type 0 where
    pub cachesize : d.cachesize ≡ c.cachesize
    pub keysize : d.keysize ≡ c.keysize
    pub entrysize : d.entrysize ≡ c.entrysize
    pub keys : d.keys ≡ set c.keys c.e_next k
    pub entries : d.entries ≡ set c.entries c.e_next e
    pub k_next : d.k_next ≡ after c.cachesize c.e_next
    pub e_next : d.e_next ≡ after c.cachesize c.e_next

  pub f_cache_put-Put :
      (c : Cache K E) (k : K) (e : E) → Inv c → Put c (f_cache_put ops c k e).0 k e
  unfolding f_cache_put write advance
  f_cache_put-Put c k e v = ground (arith, free_both-Same c.k_next c.e_next c)

  pub Put-Shaped : (c d : Cache K E) (k : K) (e : E) → Inv c → Put c d k e → Shaped c d
  Put-Shaped c d k e v p =
      ground (arith, length-set c.keys c.e_next k, length-set c.entries c.e_next e)

  pub find-Shaped : (c : Cache K E) (k : K) → Inv c → Shaped c (f_cache_find ops c k).0
  unfolding f_cache_find
  find-Shaped c k v = ground arith

  free_all-Same : (n i : ℕ) (c : Cache K E) → Same c (free_all ops n i c)
  unfolding free_all
  free_all-Same zero i c = ground arith
  free_all-Same (suc n) i c =
      Same-trans (free_both-Same i i c)
        (free_all-Same n (i + 1) (free_entry ops i (free_key ops i c)))

  clear-Shaped : (c : Cache K E) → Inv c → Shaped c (f_cache_clear ops c)
  unfolding f_cache_clear
  clear-Shaped c v = ground (
    arith,
    free_all-Same c.cachesize 0 c,
    length-replicate c.cachesize ops.k_zero,
    length-replicate c.cachesize ops.e_zero,
  )

  erase_at-Shaped : (i : ℕ) (c : Cache K E) → Inv c → Shaped c (erase_at ops i c)
  unfolding erase_at write
  erase_at-Shaped i c v = ground (
    arith,
    free_both-Same i i c,
    length-set c.keys i ops.k_zero,
    length-set c.entries i ops.e_zero,
  )

  pub delete_entry-Shaped :
      (c : Cache K E) (p : Option ℕ) → Inv c → Shaped c (f_cache_delete_entry ops c p).0
  unfolding f_cache_delete_entry
  delete_entry-Shaped c p v = elim (Option-cases (index_of ops c p)) [
    | inl e ↦ ground (arith, e)
    | inr (i, e) ↦ ground (arith, e, erase_at-Shaped i c v)
  ]

  pub delete_match-Shaped :
      (same : K → K → Bool) (key : K) (i : ℕ) (c : Cache K E) (n : ℕ)
      → Inv c
      → Shaped c (delete_match ops same key i (c, n)).0
  unfolding delete_match
  delete_match-Shaped same key i c n v = elim (Option-cases (get_elem? c.keys i)) [
    | inl e ↦ ground (arith, e)
    | inr (k, e) ↦ ground (arith, e, delete_entry-Shaped c (some (i * c.entrysize)) v)
  ]

  delete_matches-Inv :
      (same : K → K → Bool) (key : K) (n i : ℕ) (s : Cache K E × ℕ)
      → Inv s.0
      → Inv (delete_matches ops same key n i s).0
  unfolding delete_matches
  delete_matches-Inv same key zero i s v = v
  delete_matches-Inv same key (suc n) i (c, d) v =
      delete_matches-Inv same key n (i + 1) (delete_match ops same key i (c, d))
        (Shaped-Inv v (delete_match-Shaped same key i c d v))

  delete_by_key-Inv : (c : Cache K E) (k : K) → Inv c → Inv (f_cache_delete_by_key ops c k).0
  unfolding f_cache_delete_by_key
  delete_by_key-Inv c k v = elim (Option-cases ops.compare) [
    | inl e ↦ rw (e, f_cache_delete_by_key) v
    | inr (same, e) ↦
        rw (e, f_cache_delete_by_key) (delete_matches-Inv same k c.cachesize 0 (c, 0) v)
  ]

  -- Every call keeps the invariant.
  pub apply-Inv : (c : Cache K E) (x : Call K E) → Inv c → Inv (apply ops c x)
  unfolding apply
  apply-Inv c (put k e) v = Shaped-Inv v (Put-Shaped c _ k e v (f_cache_put-Put c k e v))
  apply-Inv c (find k) v = Shaped-Inv v (find-Shaped c k v)
  apply-Inv c clear v = Shaped-Inv v (clear-Shaped c v)
  apply-Inv c (delete_entry p) v = Shaped-Inv v (delete_entry-Shaped c p v)
  apply-Inv c (delete_by_key k) v = delete_by_key-Inv c k v

  pub run-Inv : (c : Cache K E) (xs : List (Call K E)) → Inv c → Inv (run ops c xs)
  unfolding run
  run-Inv c [] v = v
  run-Inv c (x ∷ xs) v = run-Inv (apply ops c x) xs (apply-Inv c x v)

  abbrev pub blank : ℕ → ℕ → ℕ → Cache K E
  blank n es ks = record {
    cachesize = n;
    keysize = ks;
    entrysize = es;
    keys = replicate n ops.k_zero;
    entries = replicate n ops.e_zero;
    k_next = 0;
    e_next = 0;
    hit = 0;
    miss = 0;
    freed_keys = [];
    freed_entries = [];
  }

  pub f_cache_new-blank :
      (n es ks : ℕ) → 0 < n → 0 < es → 0 < ks → f_cache_new ops n es ks ≡ some (blank n es ks)
  unfolding f_cache_new
  f_cache_new-blank n es ks hn he hk = ground arith

  pub blank-Inv : (n es ks : ℕ) → 0 < n → 0 < es → 0 < ks → Inv (blank n es ks)
  blank-Inv n es ks hn he hk = record {
    some_records = hn;
    key_bytes = hk;
    entry_bytes = he;
    all_keys = length-replicate n ops.k_zero;
    all_entries = length-replicate n ops.e_zero;
    together = refl;
    inside = hn;
  }

  -- A new cache of at least one record, with keys and entries of some size, is well formed, and
  -- stays so under any calls.
  pub run-new-Inv :
      (n entrysize keysize : ℕ) (xs : List (Call K E))
      → 0 < n
      → 0 < entrysize
      → 0 < keysize
      → (c : Cache K E) × (f_cache_new ops n entrysize keysize ≡ some c) × Inv (run ops c xs)
  run-new-Inv n es ks xs hn he hk = (
    blank n es ks,
    f_cache_new-blank n es ks hn he hk,
    run-Inv (blank n es ks) xs (blank-Inv n es ks hn he hk),
  )
