-- ===== src/PathName/Split.antt =====
-- The account that the loop of `parse_path` keeps of the directory and the file name read so far.
use fsp.Base.{
  ℕ, suc, ◌+◌, ◌-◌, ◌≤◌, ◌≡◌, refl, ap, ◌∙◌, ◌≢◌, ◌⊎◌, inl, inr, List, [], ◌∷◌, ◌++◌, length,
  length-append, take, ◌==◌, arith, Bool-cases, subst, append-nil, append_assoc, ==_iff,
}
use fsp.PathName.{Scan, round, next, slash, scan}
use fsp.PathName.Clean.{Stopped, scan_cases}

abbrev pub AllSlash : List ℕ → Type 0
AllSlash [] = Unit {0}
AllSlash (c ∷ cs) = (c ≡ b'/') × AllSlash cs

abbrev pub NoSlash : List ℕ → Type 0
NoSlash [] = Unit {0}
NoSlash (c ∷ cs) = (c ≢ b'/') × NoSlash cs

-- The last byte is there and is no slash.
abbrev pub EndsPlain : List ℕ → Type 0
EndsPlain l = (p : List ℕ) × (c : ℕ) × (l ≡ p ++ (c ∷ [])) × (c ≢ b'/')

-- A directory, slashes and a file name; with no slashes there is no directory.
pub record Parts (l dir gap file : List ℕ) : Type 0 where
  pub whole : l ≡ dir ++ (gap ++ file)
  pub slashes : AllSlash gap
  pub plain : NoSlash file
  pub divided : ((dir ≡ []) × (gap ≡ [])) ⊎ EndsPlain dir

-- What the loop's variables say of the path `l` read so far.
pub record Splits (l : List ℕ) (x : Scan) (s : ℕ) : Type 0 where
  pub dir : List ℕ
  pub gap : List ℕ
  pub file : List ℕ
  pub parts : Parts l dir gap file
  pub here : s ≡ x.fullp + length l
  pub d_ptr : x.d_ptr ≡ x.fullp
  pub d_len : x.d_len ≡ length dir
  pub f_ptr : x.f_ptr ≡ x.fullp + length dir + length gap
  pub state :
      ((x.state ≡ 0) × (l ≡ []))
      ⊎ ((x.state ≡ 1) × EndsPlain l)
      ⊎ ((x.state ≡ 2) × (file ≡ []) × EndsPlain dir)

AllSlash-snoc : (l : List ℕ) → AllSlash l → AllSlash (l ++ (b'/' ∷ []))
AllSlash-snoc [] h = (refl, tt)
AllSlash-snoc (c ∷ l) h = (h.0, AllSlash-snoc l h.1)

NoSlash-snoc : (l : List ℕ) (c : ℕ) → NoSlash l → c ≢ b'/' → NoSlash (l ++ (c ∷ []))
NoSlash-snoc [] c h n = (n, tt)
NoSlash-snoc (d ∷ l) c h n = (h.0, NoSlash-snoc l c h.1 n)

-- A round of the loop, by the state that it starts in.
pub round_slash :
    (s : ℕ) (x y : Scan)
    → round b'/' s x ≡ next y
    → ((x.state ≡ 0)
        → y ≡ record { fullp = s + 1; f_ptr = s + 1; d_ptr = s + 1; d_len = 0; state = 0 })
      × ((x.state ≡ 1) → y ≡ record x { f_ptr = s + 1; d_len = s - x.fullp; state = 2 })
      × ((x.state ≡ 2) → y ≡ record x { f_ptr = s + 1 })
unfolding round slash
round_slash s x y r = ground arith

round_plain : (c s : ℕ) (x y : Scan) → c ≢ b'/' → round c s x ≡ next y → y ≡ record x { state = 1 }
unfolding round
round_plain c s x y n r = ground arith

snoc_parts :
    (l dir gap file : List ℕ) (c : ℕ)
    → l ≡ dir ++ (gap ++ file)
    → l ++ (c ∷ []) ≡ dir ++ (gap ++ (file ++ (c ∷ [])))
snoc_parts l dir gap file c e = simp (e, append_assoc)

step_plain :
    (c s : ℕ) (x y : Scan) (l : List ℕ)
    → c ≢ b'/'
    → Splits l x s
    → round c s x ≡ next y
    → Splits (l ++ (c ∷ [])) y (s + 1)
step_plain c s x y l n h r = rw (round_plain c s x y n r) (record {
  dir = h.dir;
  gap = h.gap;
  file = h.file ++ (c ∷ []);
  parts = record {
    whole = snoc_parts l h.dir h.gap h.file c h.parts.whole;
    slashes = h.parts.slashes;
    plain = NoSlash-snoc h.file c h.parts.plain n;
    divided = h.parts.divided;
  };
  here = omega (arith, length-append l (c ∷ []), h.here);
  d_ptr = h.d_ptr;
  d_len = h.d_len;
  f_ptr = h.f_ptr;
  state = inr (inl (refl, (l, c, refl, n)));
})

step_first_slash :
    (s : ℕ) (x y : Scan) (l : List ℕ)
    → x.state ≡ 1
    → EndsPlain l
    → Splits l x s
    → round b'/' s x ≡ next y
    → Splits (l ++ (b'/' ∷ [])) y (s + 1)
step_first_slash s x y l st ends h r = rw ((round_slash s x y r).1 st) (record {
  dir = l;
  gap = b'/' ∷ [];
  file = [];
  parts = record { whole = refl; slashes = (refl, tt); plain = tt; divided = inr ends };
  here = omega (arith, length-append l (b'/' ∷ []), h.here);
  d_ptr = h.d_ptr;
  d_len = omega (arith, h.here);
  f_ptr = omega (arith, h.here);
  state = inr (inr (refl, refl, ends));
})

pub length_whole :
    (l dir gap file : List ℕ)
    → l ≡ dir ++ (gap ++ file)
    → length l ≡ length dir + length gap + length file
length_whole l dir gap file e =
    omega (arith, ap length e, length-append dir (gap ++ file), length-append gap file)

step_next_slash :
    (s : ℕ) (x y : Scan) (l : List ℕ)
    → x.state ≡ 2
    → (h : Splits l x s) → h.file ≡ []
    → EndsPlain h.dir
    → round b'/' s x ≡ next y
    → Splits (l ++ (b'/' ∷ [])) y (s + 1)
step_next_slash s x y l st h none_yet ends r = rw ((round_slash s x y r).2 st) (record {
  dir = h.dir;
  gap = h.gap ++ (b'/' ∷ []);
  file = [];
  parts = record {
    whole =
        ap (λ (k : List ℕ). k ++ (b'/' ∷ [])) h.parts.whole
        ∙ simp (none_yet, append-nil, append_assoc);
    slashes = AllSlash-snoc h.gap h.parts.slashes;
    plain = tt;
    divided = inr ends;
  };
  here = omega (arith, length-append l (b'/' ∷ []), h.here);
  d_ptr = h.d_ptr;
  d_len = h.d_len;
  f_ptr = omega (
    arith,
    h.here,
    length_whole l h.dir h.gap h.file h.parts.whole,
    ap length none_yet,
    length-append h.gap (b'/' ∷ []),
  );
  state = inr (inr (st, refl, ends));
})

-- A round on a byte inside the path keeps the account, and does not fall back to the front.
pub step-Splits :
    (c s : ℕ) (x y : Scan) (l : List ℕ)
    → (x.state ≢ 0) ⊎ (c ≢ b'/')
    → Splits l x s
    → round c s x ≡ next y
    → Splits (l ++ (c ∷ [])) y (s + 1) × (y.fullp ≡ x.fullp) × (y.state ≢ 0)
step-Splits c s x y l inside h r = elim (Bool-cases (c == b'/')) [
  | inr e ↦
      let n : c ≢ b'/' = ground arith in
      (
        step_plain c s x y l n h r,
        ground (arith, round_plain c s x y n r),
        ground (arith, round_plain c s x y n r),
      )
  | inl e ↦
      let c_slash = (==_iff c b'/').0 e in
      let r' : round b'/' s x ≡ next y = rw c_slash at r in
      rw c_slash (elim h.state [
        | inl (zero_state, _) ↦ absurd (elim inside [ inl a ↦ a zero_state | inr b ↦ b c_slash ])
        | inr (inl (st, ends)) ↦ (
          step_first_slash s x y l st ends h r',
          ground (arith, (round_slash s x y r').1 st),
          ground (arith, (round_slash s x y r').1 st),
        )
        | inr (inr (st, none_yet, ends)) ↦ (
          step_next_slash s x y l st h none_yet ends r',
          ground (arith, (round_slash s x y r').2 st, st),
          ground (arith, (round_slash s x y r').2 st, st),
        )
      ])
]

regroup :
    (cs l : List ℕ) {x' : Scan} {s' n k : ℕ}
    → n ≡ k
    → Splits (l ++ take k cs) x' s'
    → Splits (l ++ take n cs) x' s'
regroup cs l p h = rw p h

pub scan-Splits :
    (cs : List ℕ) (s : ℕ) (l : List ℕ) (x x' : Scan) (s' : ℕ)
    → x.state ≢ 0
    → Splits l x s
    → Stopped (scan cs s x) x' s'
    → (s ≤ s') × Splits (l ++ take (s' - s) cs) x' s' × (x'.fullp ≡ x.fullp)
unfolding scan
scan-Splits [] s l x x' s' st h r = ground arith
scan-Splits (c ∷ cs) s l x x' s' st h r = elim (scan_cases c cs s x x' s' r) [
  | inl (_, ex, es) ↦ (
    omega arith,
    regroup (c ∷ cs) l {k = 0} (omega arith) (rw (append-nil, ex, es) h),
    ap (λ (z : Scan). z.fullp) ex,
  )
  | inr (y, e, r') ↦
      let (h', same, st') = step-Splits c s x y l (inl st) h e in
      let (le, done, keep) = scan-Splits cs (s + 1) (l ++ (c ∷ [])) y x' s' st' h' r' in
      (
        omega arith,
        regroup (c ∷ cs) l {k = suc (s' - (s + 1))} (omega arith)
            (subst (λ m. Splits m x' s') (append_assoc l (c ∷ []) (take (s' - (s + 1)) cs)) done),
        keep ∙ same,
      )
]
