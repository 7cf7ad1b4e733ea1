-- ===== src/FifoCache.antt =====
-- The generic cache of server/fifocache.c. Keys and entries are values of two types; a block of
-- `cachesize` records is the list of its values, and `k_next`, `e_next` count records. The calls
-- of the destroy functions are logged in `freed_keys` and `freed_entries`.
pub mod Count
pub mod Each
pub mod Inv
pub mod Ledger
pub mod Order
mod Tests
use fsp.Base.{
  ℕ, zero, suc, ◌+◌, ◌*◌, ◌/◌, ◌%◌, ◌^◌, Bool, true, false, ◌||◌, ◌&&◌, List, [], ◌∷◌, length,
  get_elem?, set, replicate, ltb, leb, ◌==◌, if◌then◌else◌, Option, none, some,
}

pub record Cache (K E : Type 0) : Type 0 where
  pub cachesize : ℕ
  pub keysize : ℕ
  pub entrysize : ℕ
  pub keys : List K
  pub entries : List E
  pub k_next : ℕ
  pub e_next : ℕ
  pub hit : ℕ
  pub miss : ℕ
  pub freed_keys : List K
  pub freed_entries : List E

-- The functions given to `f_cache_new`, and the values of zeroed memory. `same` says that
-- `k_compare_func` returns 0.
pub record Ops (K E : Type 0) : Type 0 where
  pub k_destroy : Bool
  pub e_destroy : Bool
  pub compare : Option (K → K → Bool)
  pub k_zero : K
  pub e_zero : E

module _ {K E : Type 0} (ops : Ops K E) where
  -- `f_cache_new`; `calloc` succeeds.
  pub f_cache_new : ℕ → ℕ → ℕ → Option (Cache K E)
  f_cache_new cachesize entrysize keysize =
      if cachesize == 0
      then none
      else if entrysize == 0 && keysize == 0
      then none
      else some (record {
        cachesize = cachesize;
        keysize = keysize;
        entrysize = entrysize;
        keys = if keysize == 0 then [] else replicate cachesize ops.k_zero;
        entries = if entrysize == 0 then [] else replicate cachesize ops.e_zero;
        k_next = 0;
        e_next = 0;
        hit = 0;
        miss = 0;
        freed_keys = [];
        freed_entries = [];
      })

  -- `if(cache->k_destroy_func) cache->k_destroy_func(...)`, and the same for an entry.
  pub free_key : ℕ → Cache K E → Cache K E
  free_key i c =
      if ops.k_destroy
      then elim (get_elem? c.keys i) [
        | none ↦ c
        | some k ↦ record c { freed_keys = k ∷ c.freed_keys }
      ]
      else c

  pub free_entry : ℕ → Cache K E → Cache K E
  free_entry i c =
      if ops.e_destroy
      then elim (get_elem? c.entries i) [
        | none ↦ c
        | some e ↦ record c { freed_entries = e ∷ c.freed_entries }
      ]
      else c

  -- `memcpy` of a record, which copies nothing where the size is 0.
  pub write : ℕ → ℕ → K → E → Cache K E → Cache K E
  write i j k e c = record c {
    keys = if c.keysize == 0 then c.keys else set c.keys i k;
    entries = if c.entrysize == 0 then c.entries else set c.entries j e;
  }

  abbrev pub step : ℕ → ℕ → ℕ
  step size i = if size == 0 then i else i + 1

  -- A stop mark is NULL where the size is 0, and is then never reached.
  abbrev pub at_stop : ℕ → ℕ → ℕ → Bool
  at_stop size count i = if size == 0 then false else i == count

  -- The next position, with the roll over.
  pub advance : Cache K E → Cache K E
  advance c =
      let e = step c.entrysize c.e_next in
      let k = step c.keysize c.k_next in
      if at_stop c.entrysize c.cachesize e || at_stop c.keysize c.cachesize k
      then record c { k_next = 0; e_next = 0 }
      else record c { k_next = k; e_next = e }

  -- `f_cache_put`: the cache, and the index of the entry that is returned.
  pub f_cache_put : Cache K E → K → E → Cache K E × ℕ
  unfolding write advance
  f_cache_put c k e =
      let freed = free_entry c.e_next (free_key c.k_next c) in
      (advance (write c.k_next c.e_next k e freed), c.e_next)

  -- The loop of `f_cache_find`.
  pub first_match : (K → K → Bool) → K → List K → ℕ → Option ℕ
  first_match same key [] i = none
  first_match same key (k ∷ ks) i =
      let later = first_match same key ks (i + 1) in if same key k then some i else later

  pub f_cache_find : Cache K E → K → Cache K E × Option ℕ
  f_cache_find c key = elim ops.compare [
    | none ↦ (c, none)
    | some same ↦ if c.keysize == 0 then (c, none) else elim (first_match same key c.keys 0) [
      | some i ↦ (record c { hit = (c.hit + 1) % 2 ^ 32 }, some i)
      | none ↦ (record c { miss = (c.miss + 1) % 2 ^ 32 }, none)
    ]
  ]

  -- The first loop of `f_cache_clear`, over the indices from `i` on.
  pub free_all : ℕ → ℕ → Cache K E → Cache K E
  free_all zero i c = c
  free_all (suc n) i c = free_all n (i + 1) (free_entry i (free_key i c))

  pub f_cache_clear : Cache K E → Cache K E
  f_cache_clear c = record (free_all c.cachesize 0 c) {
    keys = if c.keysize == 0 then c.keys else replicate c.cachesize ops.k_zero;
    entries = if c.entrysize == 0 then c.entries else replicate c.cachesize ops.e_zero;
    k_next = 0;
    e_next = 0;
    hit = 0;
    miss = 0;
  }

  -- A pointer to the start of an entry is its distance in bytes from `e_head`; `none` is one that lies before.
  -- The index that it stands for, if it is good.
  pub index_of : Cache K E → Option ℕ → Option ℕ
  index_of c none = none
  index_of c (some p) =
      if c.entrysize == 0
      then none
      else if leb (c.entrysize * c.cachesize) p
      then none
      else some (p / c.entrysize)

  -- `f_cache_get_key`: the index of the key.
  pub f_cache_get_key : Cache K E → Option ℕ → Option ℕ
  f_cache_get_key c p = if c.keysize == 0 then none else index_of c p

  pub erase_at : ℕ → Cache K E → Cache K E
  erase_at i c = write i i ops.k_zero ops.e_zero (free_entry i (free_key i c))

  -- `f_cache_delete_entry`: the cache, and whether an object was deleted.
  pub f_cache_delete_entry : Cache K E → Option ℕ → Cache K E × ℕ
  f_cache_delete_entry c p = elim (index_of c p) [ none ↦ (c, 0) | some i ↦ (erase_at i c, 1) ]

  -- The loop of `f_cache_delete_by_key`: one round, and the `n` rounds from the index `i` on.
  pub delete_match : (K → K → Bool) → K → ℕ → Cache K E × ℕ → Cache K E × ℕ
  delete_match same key i (c, deleted) = elim (get_elem? c.keys i) [
    | none ↦ (c, deleted)
    | some k ↦
        if same key k
        then (let (c', d) = f_cache_delete_entry c (some (i * c.entrysize)) in (c', deleted + d))
        else (c, deleted)
  ]

  pub delete_matches : (K → K → Bool) → K → ℕ → ℕ → Cache K E × ℕ → Cache K E × ℕ
  delete_matches same key zero i s = s
  delete_matches same key (suc n) i s =
      delete_matches same key n (i + 1) (delete_match same key i s)

  pub f_cache_delete_by_key : Cache K E → K → Cache K E × ℕ
  f_cache_delete_by_key c key = elim ops.compare [
    | none ↦ (c, 0)
    | some same ↦ delete_matches same key c.cachesize 0 (c, 0)
  ]

-- The calls of the other modules.
pub data Call (K E : Type 0) : Type 0 where
  put : K → E → Call K E
  find : K → Call K E
  clear : Call K E
  delete_entry : Option ℕ → Call K E
  delete_by_key : K → Call K E

pub apply : {K E : Type 0} → Ops K E → Cache K E → Call K E → Cache K E
apply ops c (put k e) = (f_cache_put ops c k e).0
apply ops c (find k) = (f_cache_find ops c k).0
apply ops c clear = f_cache_clear ops c
apply ops c (delete_entry p) = (f_cache_delete_entry ops c p).0
apply ops c (delete_by_key k) = (f_cache_delete_by_key ops c k).0

pub run : {K E : Type 0} → Ops K E → Cache K E → List (Call K E) → Cache K E
run ops c [] = c
run ops c (x ∷ xs) = run ops (apply ops c x) xs
