-- ===== src/FifoCache/Order.antt =====
-- First in, first out: what the cache holds after a sequence of puts.
use Prim.Native.Nat.{◌%◌}
use native.Mathlib.Nat.{mod-eq_of_lt, mod-eq-sub-mod, mod-add-mod}
use fsp.Base.{
  ℕ, zero, suc, ◌+◌, ◌-◌, ◌<◌, ◌≤◌, ◌≡◌, refl, sym, ◌∙◌, ap, ◌≢◌, inl, inr, List, [], ◌∷◌, length,
  get_elem?, get_elem?-set_self, get_elem?-set_ne, ◌==◌, if◌then◌else◌, some, arith, Bool-cases,
  dec_lt, ==_iff, subst,
}
use fsp.FifoCache.{Cache, Ops, f_cache_put}
use fsp.FifoCache.Inv.{Inv, f_cache_put-Put, Put-Shaped, Shaped-Inv}

-- `k` steps round a block of `n` do not come back before `n` steps.
step_mod : (n s : ℕ) → s < n → (s + 1) % n ≡ (if s + 1 == n then 0 else s + 1)
step_mod n s h = elim (Bool-cases (s + 1 == n)) [
  | inl e ↦
      let full = (==_iff (s + 1) n).0 e in
      rw e (
        omega (
          arith,
          mod-eq-sub-mod {n = s + 1} {m = n} (omega arith),
          mod-eq_of_lt {n = s + 1 - n} {m = n} (omega arith),
        ))
  | inr e ↦ rw e (mod-eq_of_lt (ground arith))
]

-- The position after one put and `j` more.
after_add :
    (n s t j : ℕ) → s < n → t ≡ (if s + 1 == n then 0 else s + 1) → (t + j) % n ≡ (s + suc j) % n
after_add n s t j h e =
    rw (e ∙ sym (step_mod n s h), mod-add-mod) (ap (λ (k : ℕ). k % n) (omega arith))

no_return : (n s k : ℕ) → s < n → suc k < n → (s + suc k) % n ≢ s
no_return n s k hs hk = elim (dec_lt (s + suc k) n) [
  | yes p ↦ omega (arith, mod-eq_of_lt p)
  | no p ↦ omega (
    arith,
    mod-eq-sub-mod {n = s + suc k} {m = n} (omega arith),
    mod-eq_of_lt {n = s + suc k - n} {m = n} (omega arith),
  )
]

module _ {K E : Type 0} (ops : Ops K E) where
  pub puts : Cache K E → List (K × E) → Cache K E
  puts c [] = c
  puts c ((k, e) ∷ more) = puts (f_cache_put ops c k e).0 more

  -- A record that no put reaches is left alone.
  puts-others :
      (more : List (K × E)) (c : Cache K E) (i : ℕ)
      → Inv c
      → ((j : ℕ) → j < length more → (c.e_next + j) % c.cachesize ≢ i)
      → (get_elem? (puts c more).keys i ≡ get_elem? c.keys i)
        × (get_elem? (puts c more).entries i ≡ get_elem? c.entries i)
  unfolding puts
  puts-others [] c i v far = (refl, refl)
  puts-others ((k, e) ∷ more) c i v far =
      let d = (f_cache_put ops c k e).0 in
      let p = f_cache_put-Put ops c k e v in
      let v' = Shaped-Inv ops v (Put-Shaped ops c d k e v p) in
      let ne : c.e_next ≢ i = λ q. far 0 (omega arith) (
        mod-eq_of_lt {n = c.e_next + 0} {m = c.cachesize} (omega (arith, v.inside))
        ∙ omega (arith, q)) in
      let next : (j : ℕ) → (d.e_next + j) % d.cachesize ≡ (c.e_next + suc j) % c.cachesize =
        λ j. rw p.cachesize (after_add c.cachesize c.e_next d.e_next j v.inside p.e_next) in
      let (a, b) = puts-others more d i v' (λ j hj. rw (next j) (far (suc j) (omega arith))) in
      (
        a ∙ ap (λ (l : List K). get_elem? l i) p.keys ∙ get_elem?-set_ne c.keys k ne,
        b ∙ ap (λ (l : List E). get_elem? l i) p.entries ∙ get_elem?-set_ne c.entries e ne,
      )

  -- Of any sequence of puts on a well-formed cache it holds the last `cachesize`, in the order of
  -- the records.
  pub puts_lem :
      (more : List (K × E)) (c : Cache K E) (j : ℕ) (k : K) (e : E)
      → Inv c
      → get_elem? more j ≡ some (k, e)
      → length more ≤ j + c.cachesize
      → let i = (c.e_next + j) % c.cachesize in
        (get_elem? (puts c more).keys i ≡ some k) × (get_elem? (puts c more).entries i ≡ some e)
  unfolding puts
  puts_lem [] c j k e v at_j late = cc
  puts_lem ((k', e') ∷ more) c zero k e v at_j late =
      let d = (f_cache_put ops c k' e').0 in
      let p = f_cache_put-Put ops c k' e' v in
      let v' = Shaped-Inv ops v (Put-Shaped ops c d k' e' v p) in
      let here : (c.e_next + 0) % c.cachesize ≡ c.e_next =
        mod-eq_of_lt {n = c.e_next + 0} {m = c.cachesize} (omega (arith, v.inside)) ∙ omega arith in
      let far : (j : ℕ) → j < length more → (d.e_next + j) % d.cachesize ≢ c.e_next = λ j hj.
        rw (p.cachesize, after_add c.cachesize c.e_next d.e_next j v.inside p.e_next)
          (no_return c.cachesize c.e_next j v.inside (omega arith)) in
      let (a, b) = puts-others more d c.e_next v' far in
      let ek : k' ≡ k = cc in
      let ee : e' ≡ e = cc in
      rw here (
        a
            ∙ ap (λ (l : List K). get_elem? l c.e_next) p.keys
            ∙ get_elem?-set_self c.keys c.e_next k' (omega (arith, v.inside, v.all_keys))
            ∙ ap some ek,
        b
            ∙ ap (λ (l : List E). get_elem? l c.e_next) p.entries
            ∙ get_elem?-set_self c.entries c.e_next e' (omega (arith, v.inside, v.all_entries))
            ∙ ap some ee,
      )
  puts_lem ((k', e') ∷ more) c (suc j) k e v at_j late =
      let d = (f_cache_put ops c k' e').0 in
      let p = f_cache_put-Put ops c k' e' v in
      let v' = Shaped-Inv ops v (Put-Shaped ops c d k' e' v p) in
      let same : (d.e_next + j) % d.cachesize ≡ (c.e_next + suc j) % c.cachesize =
        rw p.cachesize (after_add c.cachesize c.e_next d.e_next j v.inside p.e_next) in
      subst
        (λ i.
          (get_elem? (puts d more).keys i ≡ some k) × (get_elem? (puts d more).entries i ≡ some e))
        same (puts_lem more d j k e v' at_j (omega (arith, p.cachesize)))
