-- ===== src/Hosts/Search.antt =====
-- The halving search of `find_host`: it ends, it stays in the array, and its answer is right.
use fsp.Base.{
  ℕ, zero, suc, ◌+◌, ◌-◌, ◌≤◌, ◌<◌, ◌^◌, ◌≡◌, ◌∙◌, List, length, get_elem?, get_elem?-in_range, ltb,
  ◌==◌, if◌then◌else◌, none, some, arith, inl, inr, Bool-cases, ==_iff,
}
use fsp.Hosts.{Host, Probe, hit, miss, lost, mid, search}

abbrev pub inet_at : List Host → ℕ → ℕ
inet_at cells i = elim (get_elem? cells i) [ none ↦ 0 | some e ↦ e.inet_num ]

-- What an answer says of the entries strictly between two bounds.
abbrev pub Located : List Host → ℕ → ℕ → ℕ → Probe → Type 0
Located cells n l h (hit m) = (l < m) × (m < h) × (inet_at cells m ≡ n)
Located cells n l h (miss m) =
    (l ≤ m) × (m < h) × (inet_at cells m < n) × (n < inet_at cells (m + 1))
Located cells n l h lost = ⊥

widen :
    (cells : List Host) (n l h l' h' : ℕ) (p : Probe)
    → l ≤ l'
    → h' ≤ h
    → Located cells n l' h' p
    → Located cells n l h p
widen cells n l h l' h' (hit m) hl hh d = omega arith
widen cells n l h l' h' (miss m) hl hh d = omega arith
widen cells n l h l' h' lost hl hh d = d

-- The three ways of a comparison.
pub pick {ℓ κ} :
    {A : Type ℓ} (P : A → Type κ) (n x : ℕ) (p q r : A)
    → (n < x → P p)
    → (x < n → P q)
    → (x ≡ n → P r)
    → P (if ltb n x then p else (if ltb x n then q else r))
pick P n x p q r f g k = elim (Bool-cases (ltb n x)) [
  | inl e ↦ rw e (f (ground arith))
  | inr e ↦ rw e (elim (Bool-cases (ltb x n)) [
    | inl e' ↦ rw e' (g (ground arith))
    | inr e' ↦ rw e' (k (ground arith))
  ])
]

-- Between an entry below the number and one above it the loop ends within `h - l` rounds.
pub search-Located :
    (f : ℕ) (cells : List Host) (n l h : ℕ)
    → l < h
    → h < length cells
    → h ≤ 2 ^ 31
    → h - l < f
    → inet_at cells l < n
    → n < inet_at cells h
    → Located cells n l h (search f cells n l h)
unfolding search
search-Located zero cells n l h lh hc hs hf a b = absurd (omega arith)
search-Located (suc f) cells n l h lh hc hs hf a b = elim (Bool-cases (mid l h == l)) [
  | inl e ↦
      let same : h ≡ l + 1 = omega (arith, (==_iff (mid l h) l).0 e) in
      rw (e, (==_iff (mid l h) l).0 e) (omega arith, omega arith, a, rw (← same) b)
  | inr e ↦
      let m = mid l h in
      let above : l < m = ground arith in
      let below : m < h = omega arith in
      let (x, ex) = get_elem?-in_range cells m (omega arith) in
      let at : inet_at cells m ≡ x.inet_num = rw (ex, inet_at) in
      rw (e, ex)
        (pick (Located cells n l h) n x.inet_num (search f cells n l m) (search f cells n m h)
          (hit m)
          (λ lt. widen cells n l h l m _ (omega arith) (omega arith) (
            search-Located f cells n l m above (omega arith) (omega arith) (omega arith) a
              (rw at lt)))
          (λ gt.
            widen cells n l h m h _ (omega arith) (omega arith)
              (search-Located f cells n m h below hc hs (omega arith) (rw at gt) b))
          (λ eq. (above, below, at ∙ eq)))
]
