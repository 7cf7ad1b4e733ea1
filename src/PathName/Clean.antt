-- ===== src/PathName/Clean.antt =====
-- What the parser of server/path.c lets through: no part of an accepted path starts with a dot.
use fsp.Base.{
  ℕ, suc, ◌+◌, ◌-◌, ◌≤◌, ◌<◌, ◌≡◌, refl, ◌∙◌, ◌≢◌, ◌⊎◌, inl, inr, List, [], ◌∷◌, get_elem?, drop,
  take, Option, some, arith, subst, ap,
}
use fsp.PathName.{Scan, next, round, Stop, ended, newline, scan, slash}

-- Every byte is a printable one below '~', and a dot or a backslash follows no slash; `prev` is
-- the byte before.
abbrev pub IsClean : ℕ → List ℕ → Type 0
IsClean prev [] = Unit {0}
IsClean prev (c ∷ cs) =
    (b' ' ≤ c) × (c < b'~') × (((c ≡ b'.') ⊎ (c ≡ b'\\')) → prev ≢ b'/') × IsClean c cs

-- The loop stopped at index `s'`, at the end of the path proper.
abbrev pub Stopped : Stop → Scan → ℕ → Type 0
Stopped r x s = (r ≡ ended x s) ⊎ (r ≡ newline x s)

abbrev pub IsEnd : ℕ → Type 0
IsEnd c = (c ≡ 0) ⊎ (c ≡ b'\n')

-- A loop that stopped did so at this byte, or after a round that went on.
pub scan_cases :
    (c : ℕ) (cs : List ℕ) (s : ℕ) (x x' : Scan) (s' : ℕ)
    → Stopped (scan (c ∷ cs) s x) x' s'
    → (IsEnd c × (x' ≡ x) × (s' ≡ s))
      ⊎ ((y : Scan) × (round c s x ≡ next y) × Stopped (scan cs (s + 1) y) x' s')
unfolding scan
scan_cases c cs s x x' s' r = ground arith

-- A round inside the path keeps its start, and knows a slash from another byte.
pub round_inside :
    (c s : ℕ) (x y : Scan)
    → (x.state ≡ 1) ⊎ (x.state ≡ 2)
    → round c s x ≡ next y
    → (b' ' ≤ c)
      × (c < b'~')
      × (((c ≡ b'.') ⊎ (c ≡ b'\\')) → x.state ≢ 2)
      × (y.fullp ≡ x.fullp)
      × (((c ≡ b'/') × (y.state ≡ 2)) ⊎ ((c ≢ b'/') × (y.state ≡ 1)))
unfolding round
round_inside c s x y st r = ground arith

-- A round at the front slashes: another one moves the start, and any other byte is the first.
pub round_front :
    (c s : ℕ) (x y : Scan)
    → x.state ≡ 0
    → x.fullp ≡ s
    → round c s x ≡ next y
    → (b' ' ≤ c)
      × (c < b'~')
      × (((c ≡ b'/') × (y.fullp ≡ s + 1) × (y.state ≡ 0))
          ⊎ ((c ≢ b'/') × (c ≢ b'.') × (c ≢ b'\\') × (y.fullp ≡ s) × (y.state ≡ 1)))
unfolding round
round_front c s x y st at r = ground arith

-- Inside the path, where `prev` is the byte before.
scan-IsClean :
    (cs : List ℕ) (s prev : ℕ) (x x' : Scan) (s' : ℕ)
    → ((x.state ≡ 1) × (prev ≢ b'/')) ⊎ (x.state ≡ 2)
    → Stopped (scan cs s x) x' s'
    → (s ≤ s') × (x'.fullp ≡ x.fullp) × IsClean prev (take (s' - s) cs)
unfolding scan
scan-IsClean [] s prev x x' s' st r = ground arith
scan-IsClean (c ∷ cs) s prev x x' s' st r = elim (scan_cases c cs s x x' s' r) [
  | inl (_, ex, es) ↦
      rw (es, ex)
        (omega arith, refl, subst (λ k. IsClean prev (take k (c ∷ cs))) {x = 0} (omega arith) tt)
  | inr (y, e, r') ↦
      let (lo, hi, nodot, same, st') = round_inside c s x y (ground arith) e in
      let (le, keep, clean) = scan-IsClean cs (s + 1) c y x' s' (ground arith) r' in
      (
        omega arith,
        keep ∙ same,
        subst (λ k. IsClean prev (take k (c ∷ cs))) {x = suc (s' - (s + 1))} (omega arith)
            (lo, hi, λ d. elim st [ inl h ↦ h.1 | inr h ↦ absurd (nodot d h) ], clean),
      )
]

-- A relative path of such bytes, whose parts start with no dot.
abbrev pub IsPath : List ℕ → Type 0
IsPath l = IsClean b'/' l × (get_elem? l 0 ≢ some b'/')

recount :
    (l : List ℕ) {a b i k : ℕ}
    → a ≡ i
    → b ≡ k
    → IsPath (take k (drop i l))
    → IsPath (take b (drop a l))
recount l p q h = rw (p, q) h

-- The whole path: its start lies after the front slashes.
pub scan_front-IsPath :
    (cs : List ℕ) (s : ℕ) (x x' : Scan) (s' : ℕ)
    → x.state ≡ 0
    → x.fullp ≡ s
    → Stopped (scan cs s x) x' s'
    → (s ≤ x'.fullp) × (x'.fullp ≤ s') × IsPath (take (s' - x'.fullp) (drop (x'.fullp - s) cs))
unfolding scan
scan_front-IsPath [] s x x' s' st at r = ground arith
scan_front-IsPath (c ∷ cs) s x x' s' st at r = elim (scan_cases c cs s x x' s' r) [
  | inl (_, ex, es) ↦
      let e : x'.fullp ≡ s = ap (λ (z : Scan). z.fullp) ex ∙ at in
      (
        omega arith,
        omega arith,
        recount (c ∷ cs) {i = 0} {k = 0} (omega arith) (omega arith) (tt, λ p. cc),
      )
  | inr (y, e, r') ↦
      let (lo, hi, which) = round_front c s x y st at e in
      elim which [
        | inl (_, at', st') ↦
            let (a, b, path) = scan_front-IsPath cs (s + 1) y x' s' st' at' r' in
            (
              omega arith,
              b,
              recount (c ∷ cs) {i = suc (x'.fullp - (s + 1))} {k = s' - x'.fullp} (omega arith) refl
                  path,
            )
        | inr (slash, period, back, at', st') ↦
            let (a, same, clean) = scan-IsClean cs (s + 1) c y x' s' (inl (st', slash)) r' in
            (
              omega arith,
              omega arith,
              recount (c ∷ cs) {i = 0} {k = suc (s' - (s + 1))} (omega arith) (omega arith) (
                (lo, hi, λ d. absurd (elim d [ inl h ↦ period h | inr h ↦ back h ]), clean),
                λ p. slash (cc),
              ),
            )
      ]
]

pub at_index : (l : List ℕ) {i k : ℕ} {o : Option ℕ} → i ≡ k → get_elem? l k ≡ o → get_elem? l i ≡ o
at_index l p q = rw p q

-- Where the loop stopped there is the byte that stopped it.
ended_case :
    (c : ℕ) (cs : List ℕ) (s : ℕ) (x x' : Scan) (s' : ℕ)
    → scan (c ∷ cs) s x ≡ ended x' s'
    → ((c ≡ 0) × (s' ≡ s))
      ⊎ ((y : Scan) × (round c s x ≡ next y) × (scan cs (s + 1) y ≡ ended x' s'))
unfolding scan
ended_case c cs s x x' s' r = ground arith

pub ended_at :
    (cs : List ℕ) (s : ℕ) (x x' : Scan) (s' : ℕ)
    → scan cs s x ≡ ended x' s'
    → (s ≤ s') × (get_elem? cs (s' - s) ≡ some 0)
unfolding scan
ended_at [] s x x' s' r = cc
ended_at (c ∷ cs) s x x' s' r = elim (ended_case c cs s x x' s' r) [
  | inl (ec, es) ↦ (omega arith, at_index (c ∷ cs) {k = 0} (omega arith) (ap some ec))
  | inr (y, _, r') ↦
      let (a, e) = ended_at cs (s + 1) y x' s' r' in
      (omega arith, at_index (c ∷ cs) {k = suc (s' - (s + 1))} (omega arith) e)
]

newline_case :
    (c : ℕ) (cs : List ℕ) (s : ℕ) (x x' : Scan) (s' : ℕ)
    → scan (c ∷ cs) s x ≡ newline x' s'
    → ((c ≡ b'\n') × (s' ≡ s))
      ⊎ ((y : Scan) × (round c s x ≡ next y) × (scan cs (s + 1) y ≡ newline x' s'))
unfolding scan
newline_case c cs s x x' s' r = ground arith

pub newline_at :
    (cs : List ℕ) (s : ℕ) (x x' : Scan) (s' : ℕ)
    → scan cs s x ≡ newline x' s'
    → (s ≤ s') × (get_elem? cs (s' - s) ≡ some b'\n')
unfolding scan
newline_at [] s x x' s' r = cc
newline_at (c ∷ cs) s x x' s' r = elim (newline_case c cs s x x' s' r) [
  | inl (ec, es) ↦ (omega arith, at_index (c ∷ cs) {k = 0} (omega arith) (ap some ec))
  | inr (y, _, r') ↦
      let (a, e) = newline_at cs (s + 1) y x' s' r' in
      (omega arith, at_index (c ∷ cs) {k = suc (s' - (s + 1))} (omega arith) e)
]
