-- ===== src/PathName/Parts.antt =====
-- The two parts of an accepted path: what `d_ptr`, `d_len`, `f_ptr` and `f_len` stand for.
use fsp.Base.{
  ℕ, suc, ◌+◌, ◌-◌, ◌≤◌, ◌≡◌, refl, sym, ap, ◌∙◌, ◌≢◌, inl, inr, List, [], ◌∷◌, length, drop, take,
  get_elem?, ◌==◌, Option, some, zero, arith, Bool-cases, subst, ==_iff,
}
use fsp.PathName.{at, dot, PPath, Scan, round, next, scan, start, finish, parsed, parse_path}
use fsp.PathName.Split.{
  AllSlash, Splits, Parts, round_slash, length_whole, step-Splits, scan-Splits,
}
use fsp.PathName.Clean.{Stopped, scan_cases}
use fsp.PathName.Accept.{parse_path-Read, c_string}

recount :
    (l : List ℕ) {x' : Scan} {s' a b i k : ℕ}
    → a ≡ i
    → b ≡ k
    → Splits (take k (drop i l)) x' s'
    → Splits (take b (drop a l)) x' s'
recount l p q h = rw (p, q) h

-- Nothing has been read yet, and the pointers stand at the front.
record AtFront (x : Scan) (s : ℕ) : Type 0 where
  fullp : x.fullp ≡ s
  d_ptr : x.d_ptr ≡ s
  f_ptr : x.f_ptr ≡ s
  d_len : x.d_len ≡ 0
  state : x.state ≡ 0

AtFront-Splits : {x : Scan} {s : ℕ} → AtFront x s → Splits [] x s
AtFront-Splits h = record {
  dir = [];
  gap = [];
  file = [];
  parts = record { whole = refl; slashes = tt; plain = tt; divided = inl (refl, refl) };
  here = omega (arith, h.fullp);
  d_ptr = h.d_ptr ∙ sym h.fullp;
  d_len = h.d_len;
  f_ptr = omega (arith, h.f_ptr, h.fullp);
  state = inl (h.state, refl);
}

front_slash : (s : ℕ) (x y : Scan) → AtFront x s → round b'/' s x ≡ next y → AtFront y (s + 1)
front_slash s x y h r =
    rw ((round_slash s x y r).0 h.state)
      (record { fullp = refl; d_ptr = refl; f_ptr = refl; d_len = refl; state = refl })

scan_front-Splits :
    (cs : List ℕ) (s : ℕ) (x x' : Scan) (s' : ℕ)
    → AtFront x s
    → Stopped (scan cs s x) x' s'
    → (s ≤ x'.fullp)
      × (x'.fullp ≤ s')
      × Splits (take (s' - x'.fullp) (drop (x'.fullp - s) cs)) x' s'
unfolding scan
scan_front-Splits [] s x x' s' h r = ground arith
scan_front-Splits (c ∷ cs) s x x' s' h r = elim (scan_cases c cs s x x' s' r) [
  | inl (_, ex, es) ↦
      let e : x'.fullp ≡ s = ap (λ (z : Scan). z.fullp) ex ∙ h.fullp in
      (
        omega arith,
        omega arith,
        recount (c ∷ cs) {i = 0} {k = 0} (omega arith) (omega arith)
            (rw (ex, es) (AtFront-Splits h)),
      )
  | inr (y, e, r') ↦ elim (Bool-cases (c == b'/')) [
    | inl p ↦
        let h' = front_slash s x y h (rw ((==_iff c b'/').0 p) at e) in
        let (a, b, done) = scan_front-Splits cs (s + 1) y x' s' h' r' in
        (
          omega arith,
          b,
          recount (c ∷ cs) {i = suc (x'.fullp - (s + 1))} {k = s' - x'.fullp} (omega arith) refl
              done,
        )
    | inr p ↦
        let (h', same, st') = step-Splits c s x y [] (inr (ground arith)) (AtFront-Splits h) e in
        let (a, done, keep) = scan-Splits cs (s + 1) (c ∷ []) y x' s' st' h' r' in
        let start_at : x'.fullp ≡ s = keep ∙ same ∙ h.fullp in
        (
          omega arith,
          omega arith,
          recount (c ∷ cs) {i = 0} {k = suc (s' - (s + 1))} (omega arith) (omega arith) done,
        )
  ]
]

-- The pointers and lengths that stand for the parts of a path that starts at index `i`.
pub record Describes (pp : PPath) (i : ℕ) (dir gap file : List ℕ) : Type 0 where
  pub no_directory : dir ≡ [] → (pp.d_ptr ≡ dot) × (pp.d_len ≡ 1)
  pub directory : dir ≢ [] → (pp.d_ptr ≡ at i) × (pp.d_len ≡ length dir)
  pub no_file : file ≡ [] → (pp.f_ptr ≡ dot) × (pp.f_len ≡ 1)
  pub file_name :
      file ≢ [] → (pp.f_ptr ≡ at (i + length dir + length gap)) × (pp.f_len ≡ length file)

length-zero : (l : List ℕ) → length l ≡ 0 → l ≡ []
length-zero [] e = refl
length-zero (c ∷ l) e = absurd (omega arith)

finish-Describes :
    (l : List ℕ) (x : Scan) (s : ℕ) (pw : Option ℕ) (c : ℕ) (h : Splits l x s)
    → Describes (finish x s pw c) x.fullp h.dir h.gap h.file
unfolding finish
finish-Describes l x s pw c h =
    let f_len : s - x.f_ptr ≡ length h.file =
      omega (arith, h.here, h.f_ptr, length_whole l h.dir h.gap h.file h.parts.whole) in
    record {
      no_directory = λ e. ground (arith, h.d_len, ap length e);
      directory = λ n. ground (arith, h.d_len, h.d_ptr, n, length-zero h.dir);
      no_file = λ e. ground (arith, f_len, ap length e);
      file_name = λ n. ground (arith, f_len, h.f_ptr, n, length-zero h.file);
    }

-- Slashes at the front are passed over.
scan_front-AllSlash :
    (cs : List ℕ) (s : ℕ) (x x' : Scan) (s' : ℕ)
    → AtFront x s
    → Stopped (scan cs s x) x' s'
    → AllSlash (take (x'.fullp - s) cs)
unfolding scan
scan_front-AllSlash [] s x x' s' h r = ground arith
scan_front-AllSlash (c ∷ cs) s x x' s' h r = elim (scan_cases c cs s x x' s' r) [
  | inl (_, ex, es) ↦
      subst (λ k. AllSlash (take k (c ∷ cs))) {x = 0}
        (omega (arith, ap (λ (z : Scan). z.fullp) ex, h.fullp)) tt
  | inr (y, e, r') ↦ elim (Bool-cases (c == b'/')) [
    | inl p ↦
        let slash : c ≡ b'/' = (==_iff c b'/').0 p in
        let h' = front_slash s x y h (rw slash at e) in
        let (a, _, _) = scan_front-Splits cs (s + 1) y x' s' h' r' in
        subst (λ k. AllSlash (take k (c ∷ cs))) {x = suc (x'.fullp - (s + 1))} (omega arith)
          (slash, scan_front-AllSlash cs (s + 1) y x' s' h' r')
    | inr p ↦
        let (h', same, st') = step-Splits c s x y [] (inr (ground arith)) (AtFront-Splits h) e in
        let (_, _, keep) = scan-Splits cs (s + 1) (c ∷ []) y x' s' st' h' r' in
        let start_at : x'.fullp ≡ s = keep ∙ same ∙ h.fullp in
        subst (λ k. AllSlash (take k (c ∷ cs))) {x = 0} (omega arith) tt
  ]
]

-- The first byte of a string tells whether it is empty.
first_byte :
    (l : List ℕ) (i c : ℕ)
    → get_elem? l i ≡ some c
    → (c_string (drop i l) ≡ [] → c ≡ 0) × (c_string (drop i l) ≢ [] → c ≢ 0)
first_byte [] i c e = cc
first_byte (b ∷ l) zero c e = (λ q. ground arith, λ q. ground arith)
first_byte (b ∷ l) (suc i) c e = first_byte l i c e

finish-empty :
    (x : Scan) (s : ℕ) (pw : Option ℕ) (c : ℕ)
    → (c ≡ 0 → (finish x s pw c).fullp ≡ dot) × (c ≢ 0 → (finish x s pw c).fullp ≡ at x.fullp)
unfolding finish
finish-empty x s pw c = (λ e. ground (arith, e), λ n. ground (arith, n))

-- An accepted path starts behind the slashes at the front. Its directory is all before the last run of
-- slashes, and its file name all behind it; where the directory, the name or the whole path is empty,
-- and only there, it stands for the current directory.
pub parse_path-Parts :
    (buf out : List ℕ) (len : ℕ) (pp : PPath)
    → parse_path buf len ≡ parsed out pp
    → (i : ℕ) × (dir : List ℕ) × (gap : List ℕ) × (file : List ℕ) × AllSlash (take i buf)
      × Parts (c_string (drop i out)) dir gap file
      × Describes pp i dir gap file
      × (c_string (drop i out) ≡ [] → pp.fullp ≡ dot)
      × (c_string (drop i out) ≢ [] → pp.fullp ≡ at i)
parse_path-Parts buf out len pp r =
    let (x, s, pw, read) = parse_path-Read buf out len pp r in
    let front : AtFront start 0 = record {
      fullp = refl;
      d_ptr = refl;
      f_ptr = refl;
      d_len = refl;
      state = refl;
    } in
    let (_, _, h) = scan_front-Splits buf 0 start x s front read.stopped in
    let (empty, some_byte) = first_byte out x.fullp read.byte read.first in
    let (to_dot, to_path) = finish-empty x s pw read.byte in
    let fullp : pp.fullp ≡ (finish x s pw read.byte).fullp =
      ap (λ (p : PPath). p.fullp) read.made in
    (
      x.fullp,
      h.dir,
      h.gap,
      h.file,
      subst (λ k. AllSlash (take k buf)) (omega arith)
          (scan_front-AllSlash buf 0 start x s front read.stopped),
      rw read.text (
          subst (λ k. Parts (take (s - x.fullp) (drop k buf)) h.dir h.gap h.file) (omega arith)
            h.parts),
      rw read.made (finish-Describes _ x s pw read.byte h),
      λ e. fullp ∙ to_dot (empty e),
      λ e. fullp ∙ to_path (some_byte e),
    )
