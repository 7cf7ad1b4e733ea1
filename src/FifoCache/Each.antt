-- ===== src/FifoCache/Each.antt =====
-- Statements about every record of a cache, and what a search finds.
use fsp.Base.{
  ℕ, zero, suc, ◌+◌, ◌<◌, ◌≡◌, refl, sym, ap, ◌∙◌, subst, Bool, true, false, List, [], ◌∷◌, length,
  get_elem?, set, replicate, ◌==◌, Option, some, arith, Bool-cases, Option-cases, inl, inr,
  get_elem?-set_ne, get_elem?-lt, get_elem?-set_self, length-set, ==_iff,
}
use fsp.FifoCache.{
  Cache, Ops, f_cache_put, f_cache_find, first_match, index_of, write, erase_at,
  f_cache_delete_entry,
}
use fsp.FifoCache.Inv.{
  blank, Inv, f_cache_put-Put, Put-Shaped, Shaped-Inv, delete_entry-Shaped, find-Shaped,
  free_both-Same,
}

-- Every key with its entry.
abbrev pub Each : {K E : Type 0} → (K → E → Type 0) → Cache K E → Type 0
Each {K} {E} P c =
    (i : ℕ) (k : K) (e : E) → get_elem? c.keys i ≡ some k → get_elem? c.entries i ≡ some e → P k e

some-injective : {A : Type 0} (a b : A) → some a ≡ some b → a ≡ b
some-injective a b e = cc

-- What is found after a write.
pub set-cases :
    {A : Type 0} (xs : List A) (i j : ℕ) (v a : A)
    → get_elem? (set xs j v) i ≡ some a
    → ((i == j) ≡ true → v ≡ a) × ((i == j) ≡ false → get_elem? xs i ≡ some a)
set-cases xs i j v a e =
    let inside : i < length (set xs j v) = get_elem?-lt (set xs j v) i e in
    (
      (λ s.
          let same = (==_iff i j).0 s in
          let h : j < length xs = omega (arith, inside, length-set xs j v, same) in
          some-injective v a
            (sym (get_elem?-set_self xs j v h) ∙ ap (get_elem? (set xs j v)) (sym same) ∙ e)),
      (λ n. sym (get_elem?-set_ne xs {i = j} {j = i} v (λ q. cc ((==_iff i j).1 (sym q)))) ∙ e),
    )

pub Each-set :
    {K E : Type 0} (P : K → E → Type 0) (keys : List K) (entries : List E) (j : ℕ) (k : K) (e : E)
    → ((i : ℕ) (k : K) (e : E) → get_elem? keys i ≡ some k → get_elem? entries i ≡ some e → P k e)
    → P k e
    → (i : ℕ) (k' : K) (e' : E) → get_elem? (set keys j k) i ≡ some k'
    → get_elem? (set entries j e) i ≡ some e'
    → P k' e'
Each-set P keys entries j k e all here i k' e' ek ee =
    let on_keys = set-cases keys i j k k' ek in
    let on_entries = set-cases entries i j e e' ee in
    elim (Bool-cases (i == j)) [
      | inl s ↦ subst (λ x. P x e') (on_keys.0 s) (subst (P k) (on_entries.0 s) here)
      | inr n ↦ all i k' e' (on_keys.1 n) (on_entries.1 n)
    ]

replicate-at : {A : Type 0} (n i : ℕ) (a b : A) → get_elem? (replicate n a) i ≡ some b → a ≡ b
replicate-at zero i a b e = cc
replicate-at (suc n) zero a b e = some-injective a b e
replicate-at (suc n) (suc i) a b e = replicate-at n i a b e

module _ {K E : Type 0} (ops : Ops K E) where
  pub put-at :
      (c : Cache K E) (k : K) (e : E)
      → Inv c
      → (get_elem? (f_cache_put ops c k e).0.keys c.e_next ≡ some k)
        × (get_elem? (f_cache_put ops c k e).0.entries c.e_next ≡ some e)
  put-at c k e v =
      let p = f_cache_put-Put ops c k e v in
      (
        ap (λ l. get_elem? l c.e_next) p.keys
            ∙ get_elem?-set_self c.keys c.e_next k (omega (arith, v.inside, v.all_keys)),
        ap (λ l. get_elem? l c.e_next) p.entries
            ∙ get_elem?-set_self c.entries c.e_next e (omega (arith, v.inside, v.all_entries)),
      )

  pub put-index : (c : Cache K E) (k : K) (e : E) → (f_cache_put ops c k e).1 ≡ c.e_next
  unfolding f_cache_put
  put-index c k e = refl

  pub put-Inv : (c : Cache K E) (k : K) (e : E) → Inv c → Inv (f_cache_put ops c k e).0
  put-Inv c k e v = Shaped-Inv ops v (Put-Shaped ops c _ k e v (f_cache_put-Put ops c k e v))

  pub put-Each :
      (P : K → E → Type 0) (c : Cache K E) (k : K) (e : E)
      → Inv c
      → Each P c
      → P k e
      → Each P (f_cache_put ops c k e).0
  put-Each P c k e v all here i k' e' ek ee =
      let p = f_cache_put-Put ops c k e v in
      Each-set P c.keys c.entries c.e_next k e all here i k' e'
        (ap (λ l. get_elem? l i) (sym p.keys) ∙ ek) (ap (λ l. get_elem? l i) (sym p.entries) ∙ ee)

  -- A search leaves the records alone.
  pub find-Same :
      (c : Cache K E) (k : K)
      → ((f_cache_find ops c k).0.keys ≡ c.keys) × ((f_cache_find ops c k).0.entries ≡ c.entries)
  unfolding f_cache_find
  find-Same c k = ground arith

  pub find-Inv : (c : Cache K E) (k : K) → Inv c → Inv (f_cache_find ops c k).0
  find-Inv c k v = Shaped-Inv ops v (find-Shaped ops c k v)

  pub find-Each :
      (P : K → E → Type 0) (c : Cache K E) (k : K) → Each P c → Each P (f_cache_find ops c k).0
  find-Each P c k all i k' e ek ee =
      let (s, t) = find-Same c k in
      all i k' e (ap (λ l. get_elem? l i) (sym s) ∙ ek) (ap (λ l. get_elem? l i) (sym t) ∙ ee)

  first_match-at :
      (same : K → K → Bool) (key : K) (ks : List K) (j i : ℕ)
      → first_match ops same key ks j ≡ some i
      → (n : ℕ) × (k : K) × (i ≡ j + n) × (get_elem? ks n ≡ some k) × (same key k ≡ true)
  unfolding first_match
  first_match-at same key [] j i e = cc
  first_match-at same key (k ∷ ks) j i e = elim (Bool-cases (same key k)) [
    | inl s ↦ (0, k, ground (arith, s, e), refl, s)
    | inr s ↦
        let (n, k', p, q, r) = first_match-at same key ks (j + 1) i (ground (arith, s, e)) in
        (suc n, k', omega (arith, p), q, r)
  ]

  pub find-at :
      (c : Cache K E) (same : K → K → Bool) (key : K) (i : ℕ)
      → ops.compare ≡ some same
      → (f_cache_find ops c key).1 ≡ some i
      → (k : K) × (get_elem? c.keys i ≡ some k) × (same key k ≡ true)
  unfolding f_cache_find
  find-at c same key i s e =
      let q : first_match ops same key c.keys 0 ≡ some i = ground (arith, s, e) in
      let (n, k, at, here, meets) = first_match-at same key c.keys 0 i q in
      (k, ap (get_elem? c.keys) (omega (arith, at)) ∙ here, meets)

  erase_at-set :
      (i : ℕ) (c : Cache K E)
      → Inv c
      → ((erase_at ops i c).keys ≡ set c.keys i ops.k_zero)
        × ((erase_at ops i c).entries ≡ set c.entries i ops.e_zero)
  unfolding erase_at write
  erase_at-set i c v = ground (arith, free_both-Same ops i i c)

  pub delete-Each :
      (P : K → E → Type 0) (c : Cache K E) (p : Option ℕ)
      → Inv c
      → Each P c
      → P ops.k_zero ops.e_zero
      → Each P (f_cache_delete_entry ops c p).0
  unfolding f_cache_delete_entry
  delete-Each P c p v all blank = elim (Option-cases (index_of ops c p)) [
    | inl e ↦ rw (e, f_cache_delete_entry) all
    | inr (j, e) ↦
        let (s, t) = erase_at-set j c v in
        rw (e, f_cache_delete_entry)
          (λ i k' e' ek ee.
            Each-set P c.keys c.entries j ops.k_zero ops.e_zero all blank i k' e'
              (ap (λ l. get_elem? l i) (sym s) ∙ ek) (ap (λ l. get_elem? l i) (sym t) ∙ ee))
  ]

  pub delete-Inv : (c : Cache K E) (p : Option ℕ) → Inv c → Inv (f_cache_delete_entry ops c p).0
  delete-Inv c p v = Shaped-Inv ops v (delete_entry-Shaped ops c p v)

  -- A new cache holds zeroed memory.
  pub blank-Each :
      (P : K → E → Type 0) (n entrysize keysize : ℕ)
      → P ops.k_zero ops.e_zero
      → Each P (blank ops n entrysize keysize)
  blank-Each P n es ks h i k e ek ee =
      subst (λ x. P x e) (replicate-at n i ops.k_zero k ek)
        (subst (P ops.k_zero) (replicate-at n i ops.e_zero e ee) h)
