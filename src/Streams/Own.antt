-- ===== src/Streams/Own.antt =====
-- A client is given streams that have been opened for it, and are still open.
use fsp.Base.{
  ℕ, zero, suc, ◌+◌, ◌%◌, ◌^◌, ◌≤◌, ◌≡◌, refl, sym, ap, ◌∙◌, subst, Bool, true, false, ◌&&◌, List,
  [], ◌∷◌, ◌++◌, get_elem?, ◌==◌, Option, none, some, arith, Bool-cases, Option-cases, inl, inr,
  ◌⊎◌, ==_iff,
}
use fsp.Listing.{is_directory, is_regular, is_other}
use fsp.FifoCache.{f_cache_put}
use fsp.FifoCache.Count.{tally, count}
use fsp.FifoCache.Inv.{Inv}
use fsp.FifoCache.Each.{Each, put-at, put-Inv, put-Each}
use fsp.FifoCache.Ledger.{put-holdings}
use fsp.Validate.{string_compare}
use fsp.Validate.Confined.{string_compare-eq}
use fsp.Streams.{
  Stream, Streams, fp_ops, search_from, search_fpcache, Calls, Got, failed, got, open_new,
  serve_stream, server_get_file,
}

-- A stream that has been opened for a client, under a name.
pub record Grant : Type 0 where
  pub inet_num : ℕ
  pub port_num : ℕ
  pub realfn : List ℕ
  pub fp : ℕ

abbrev pub is_stream : ℕ → Stream → Bool
is_stream x e = elim e.fp [ none ↦ false | some y ↦ y == x ]

abbrev pub has_fp : ℕ → Grant → Bool
has_fp x g = g.fp == x

abbrev pub Granted : List Grant → Grant → Type 0
Granted log g = (n : ℕ) × (get_elem? log n ≡ some g)

-- The stream of a record with a key has been opened for its client under that key.
abbrev pub Own : List Grant → Option (List ℕ) → Stream → Type 0
Own log none e = Unit
Own log (some k) e =
    (x : ℕ) × (e.fp ≡ some x)
    × Granted log (record { inet_num = e.inet_num; port_num = e.port_num; realfn = k; fp = x })

-- The cache, with the list of all streams that have been opened so far, the last first. Each is in the cache
-- or has been closed, and no two have the same number.
pub record Kept (log : List Grant) (c : Streams) : Type 0 where
  pub inv : Inv c
  pub own : Each (Own log) c
  pub ledger :
      (x : ℕ)
      → count (is_stream x) c.entries + count (is_stream x) c.freed_entries ≡ count (has_fp x) log
  pub once : (x : ℕ) → count (has_fp x) log ≤ 1

-- What a client gets: nothing, or a stream that has been opened for it under that name and has not been
-- closed.
abbrev pub Given : List Grant → ℕ → ℕ → List ℕ → Streams × Got → Type 0
Given log inet_num port_num realfn (c, failed text) = Unit
Given log inet_num port_num realfn (c, got fp) =
    (x : ℕ) × (fp ≡ some x)
    × Granted log (record { inet_num = inet_num; port_num = port_num; realfn = realfn; fp = x })
    × (count (is_stream x) c.freed_entries ≡ 0)

some-injective : {A : Type 0} (a b : A) → some a ≡ some b → a ≡ b
some-injective a b e = cc

search_from-at :
    (inet_num port_num : ℕ) (fname : List ℕ) (ks : List (Option (List ℕ))) (es : List Stream)
    (j i : ℕ)
    → search_from inet_num port_num fname ks es j ≡ some i
    → (n : ℕ) × (k : Option (List ℕ)) × (e : Stream) × (i ≡ j + n)
      × (get_elem? ks n ≡ some k)
      × (get_elem? es n ≡ some e)
      × (port_num ≡ e.port_num)
      × (inet_num ≡ e.inet_num)
      × (string_compare (some fname) k ≡ true)
unfolding search_from
search_from-at inet port fname [] es j i h = cc
search_from-at inet port fname (k ∷ ks) [] j i h = cc
search_from-at inet port fname (k ∷ ks) (e ∷ es) j i h =
    elim (Bool-cases
      (port == e.port_num && (inet == e.inet_num && string_compare (some fname) k))) [
        | inl s ↦ (
          0,
          k,
          e,
          ground (arith, s, h),
          refl,
          refl,
          ground (arith, s),
          ground (arith, s),
          ground (arith, s),
        )
        | inr s ↦
            let (n, k', e', a, b, d, p, q, r) =
              search_from-at inet port fname ks es (j + 1) i (ground (arith, s, h)) in
            (suc n, k', e', omega (arith, a), b, d, p, q, r)
      ]

count-pos :
    {A : Type 0} (p : A → Bool) (xs : List A) (i : ℕ) (a : A)
    → get_elem? xs i ≡ some a
    → p a ≡ true
    → 1 ≤ count p xs
count-pos p [] i a e h = cc
count-pos p (x ∷ xs) zero a e h =
    let s : p x ≡ true = ap p (some-injective x a e) ∙ h in ground (arith, s)
count-pos p (x ∷ xs) (suc i) a e h = omega (arith, count-pos p xs i a e h)

-- The counters of hits and misses do not matter.
counted-Kept :
    (log : List Grant) (c : Streams) (hit miss : ℕ)
    → Kept log c
    → Kept log (record c { hit = hit; miss = miss })
counted-Kept log c hit miss v = record {
  inv =
      (let w = v.inv in
        record {
          some_records = w.some_records;
          key_bytes = w.key_bytes;
          entry_bytes = w.entry_bytes;
          all_keys = w.all_keys;
          all_entries = w.all_entries;
          together = w.together;
          inside = w.inside;
        });
  own = v.own;
  ledger = v.ledger;
  once = v.once;
}

Own-more :
    (log : List Grant) (g : Grant) (k : Option (List ℕ)) (e : Stream)
    → Own log k e
    → Own (g ∷ log) k e
Own-more log g none e h = tt
Own-more log g (some k) e (x, f, (n, at)) = (x, f, (suc n, at))

no_keys : (c : List (Option (List ℕ))) → count (λ k. false) c ≡ 0
no_keys [] = refl
no_keys (k ∷ c) = omega (arith, no_keys c)

-- The ledger of a put, for the streams with one number.
put-ledger :
    (x : ℕ) (c : Streams) (k : Option (List ℕ)) (e : Stream)
    → Inv c
    → let d = (f_cache_put fp_ops c k e).0 in
      count (is_stream x) d.entries + count (is_stream x) d.freed_entries
      ≡ count (is_stream x) c.entries + count (is_stream x) c.freed_entries + tally (is_stream x e)
put-ledger x c k e v =
    let d = (f_cache_put fp_ops c k e).0 in
    omega (
      arith,
      put-holdings fp_ops (λ k. false) (is_stream x) refl refl refl refl c k e v,
      no_keys c.keys,
      no_keys c.freed_keys,
      no_keys d.keys,
      no_keys d.freed_keys,
    )

-- A new stream.
put-Kept :
    (log : List Grant) (c : Streams) (inet_num port_num fp : ℕ) (realfn : List ℕ)
    → Kept log c
    → count (has_fp fp) log ≡ 0
    → Kept
        (record { inet_num = inet_num; port_num = port_num; realfn = realfn; fp = fp } ∷ log)
        (f_cache_put fp_ops c
          (some realfn)
          (record { inet_num = inet_num; port_num = port_num; fp = some fp })).0
put-Kept log c inet port fp realfn v new =
    let e : Stream = record { inet_num = inet; port_num = port; fp = some fp } in
    let g : Grant = record { inet_num = inet; port_num = port; realfn = realfn; fp = fp } in
    record {
      inv = put-Inv fp_ops c (some realfn) e v.inv;
      own =
          put-Each fp_ops (Own (g ∷ log)) c (some realfn) e v.inv
            (λ i k e' ek ee. Own-more log g k e' (v.own i k e' ek ee)) (fp, refl, (0, refl));
      ledger = λ x. omega (arith, put-ledger x c (some realfn) e v.inv, v.ledger x);
      once = λ x. elim (Bool-cases (fp == x)) [
        | inl s ↦
            (let same : fp ≡ x = (==_iff fp x).0 s in
              let z : count (has_fp x) log ≡ 0 = ap (λ y. count (has_fp y) log) (sym same) ∙ new in
              rw s (omega (arith, z)))
        | inr s ↦ rw s (omega (arith, v.once x))
      ];
    }

-- A stream that is in the cache has not been closed.
still_open :
    (log : List Grant) (c : Streams) (x i : ℕ) (e : Stream)
    → Kept log c
    → get_elem? c.entries i ≡ some e
    → is_stream x e ≡ true
    → count (is_stream x) c.freed_entries ≡ 0
still_open log c x i e v at s =
    omega (arith, count-pos (is_stream x) c.entries i e at s, v.ledger x, v.once x)

-- How the list of opened streams goes on.
abbrev pub Extends : Calls → ℕ → ℕ → List ℕ → List ℕ → List Grant → List Grant → Type 0
Extends sys inet_num port_num realfn fullp log log' =
    (log' ≡ log)
    ⊎ ((x : ℕ) × (sys.fopen fullp ≡ some x)
        × (log'
            ≡ record { inet_num = inet_num; port_num = port_num; realfn = realfn; fp = x } ∷ log))

module _ (sys : Calls) (realname f_ptr fullp : List ℕ) (inet_num port_num : ℕ) where
  abbrev realfn : List ℕ
  realfn = realname ++ b'/' ∷ f_ptr

  abbrev Keeps : List Grant → Streams × Got → Type 0
  Keeps log out =
      (log' : List Grant) × Kept log' out.0
      × Given log' inet_num port_num realfn out
      × Extends sys inet_num port_num realfn fullp log log'

  open_new-Keeps :
      (log : List Grant) (c : Streams)
      → Kept log c
      → ((x : ℕ) → sys.fopen fullp ≡ some x → count (has_fp x) log ≡ 0)
      → Keeps log (open_new sys realfn fullp inet_num port_num c)
  unfolding open_new
  open_new-Keeps log c v fresh = elim (Option-cases (sys.fopen fullp)) [
    | inl e ↦ rw (e, open_new) (log, v, tt, inl refl)
    | inr (x, e) ↦
        let g : Grant = record {
          inet_num = inet_num;
          port_num = port_num;
          realfn = realfn;
          fp = x;
        } in
        let k = put-Kept log c inet_num port_num x realfn v (fresh x e) in
        rw (e, open_new)
          (
            g ∷ log,
            k,
            (
              x,
              refl,
              (0, refl),
              (let at =
                    (put-at fp_ops c (some realfn)
                      (record { inet_num = inet_num; port_num = port_num; fp = some x }) v.inv).1 in
                  still_open (g ∷ log) _ x c.e_next _ k at ((==_iff x x).1 refl)),
            ),
            inr (x, refl, refl),
          )
  ]

  -- A record that the search has found.
  hit-Keeps :
      (log : List Grant) (c : Streams) (i : ℕ) (k : Option (List ℕ)) (e : Stream)
      → Kept log c
      → get_elem? c.keys i ≡ some k
      → get_elem? c.entries i ≡ some e
      → port_num ≡ e.port_num
      → inet_num ≡ e.inet_num
      → string_compare (some realfn) k ≡ true
      → Keeps log (c, got e.fp)
  hit-Keeps log c i k e v ek ee port inet same =
      let key = string_compare-eq realfn k same in
      let (x, f, (n, at)) = v.own i (some realfn) e (ek ∙ ap some key) ee in
      (
        log,
        v,
        (
          x,
          f,
          (
            n,
            at ∙ (λ j.
                some (record {
                  inet_num = sym inet j;
                  port_num = sym port j;
                  realfn = realfn;
                  fp = x;
                })),
          ),
          still_open log c x i e v ee
              (ap (λ o. elim o [ none ↦ false | some y ↦ y == x ]) f ∙ (==_iff x x).1 refl),
        ),
        inl refl,
      )

  found_file :
      (log : List Grant) (c : Streams) (i : ℕ) (k : Option (List ℕ)) (e : Stream)
      → Kept log c
      → get_elem? c.keys i ≡ some k
      → get_elem? c.entries i ≡ some e
      → port_num ≡ e.port_num
      → inet_num ≡ e.inet_num
      → string_compare (some realfn) k ≡ true
      → Keeps log (serve_stream sys realfn fullp inet_num port_num (c, some i))
  unfolding serve_stream
  found_file log c i k e v ek ee port inet same =
      rw (ee, serve_stream) (hit-Keeps log c i k e v ek ee port inet same)

  new_file :
      (log : List Grant) (c : Streams)
      → Kept log c
      → ((x : ℕ) → sys.fopen fullp ≡ some x → count (has_fp x) log ≡ 0)
      → Keeps log (serve_stream sys realfn fullp inet_num port_num (c, none))
  unfolding serve_stream
  new_file log c v fresh = elim (Option-cases (sys.stat realfn)) [
    | inl e ↦ rw (e, serve_stream) (log, v, tt, inl refl)
    | inr (is_directory, e) ↦ rw (e, serve_stream) (log, v, tt, inl refl)
    | inr (is_other, e) ↦ rw (e, serve_stream) (log, v, tt, inl refl)
    | inr (is_regular, e) ↦ rw (e, serve_stream) (open_new-Keeps log c v fresh)
  ]

  searched :
      (cache : Streams) (o : Option ℕ)
      → search_from inet_num port_num realfn cache.keys cache.entries 0 ≡ o
      → search_fpcache inet_num port_num realfn cache ≡ (elim o [
        | some i ↦ (record cache { hit = (cache.hit + 1) % 2 ^ 32 }, some i)
        | none ↦ (record cache { miss = (cache.miss + 1) % 2 ^ 32 }, none)
      ])
  unfolding search_fpcache
  searched cache o e = rw (e, search_fpcache) refl

  -- On a well-kept cache, where fopen gives a number that no stream has had: server_get_file keeps the cache,
  -- and a stream that it gives to a client has been opened for that client under the real name of the
  -- file, now or before, and has not been closed since.
  pub server_get_file-Given :
      (log : List Grant) (cache : Streams)
      → Kept log cache
      → ((x : ℕ) → sys.fopen fullp ≡ some x → count (has_fp x) log ≡ 0)
      → let out = server_get_file sys realname f_ptr fullp inet_num port_num cache in
        (log' : List Grant) × Kept log' out.0
        × Given log' inet_num port_num (realname ++ b'/' ∷ f_ptr) out
        × Extends sys inet_num port_num (realname ++ b'/' ∷ f_ptr) fullp log log'
  unfolding server_get_file
  server_get_file-Given log cache v fresh =
      elim (Option-cases (search_from inet_num port_num realfn cache.keys cache.entries 0)) [
        | inr (i, s) ↦
            let (n, k, e, a, ek, ee, port, inet, same) =
              search_from-at inet_num port_num realfn cache.keys cache.entries 0 i s in
            let at : n ≡ i = omega (arith, a) in
            let c : Streams = record cache { hit = (cache.hit + 1) % 2 ^ 32 } in
            subst
              (λ (o : Streams × Option ℕ).
                Keeps log (serve_stream sys realfn fullp inet_num port_num o))
              (sym (searched cache (some i) s))
              (found_file log c i k e
                (counted-Kept log cache ((cache.hit + 1) % 2 ^ 32) cache.miss v)
                (ap (get_elem? cache.keys) (sym at) ∙ ek)
                (ap (get_elem? cache.entries) (sym at) ∙ ee) port inet same)
        | inl s ↦
            subst
              (λ (o : Streams × Option ℕ).
                Keeps log (serve_stream sys realfn fullp inet_num port_num o))
              (sym (searched cache none s))
              (new_file log (record cache { miss = (cache.miss + 1) % 2 ^ 32 })
                (counted-Kept log cache cache.hit ((cache.miss + 1) % 2 ^ 32) v) fresh)
      ]
