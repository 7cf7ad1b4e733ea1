-- ===== src/AbsPath/Parts/Run.antt =====
-- Runs of the loop of `util_abs_path` over one part.
use fsp.Base.{
  ℕ, suc, ◌+◌, ◌-◌, ◌≤◌, ◌≡◌, ◌≢◌, refl, sym, ap, ◌∙◌, Bool, true, not, ◌&&◌, List, [], ◌∷◌, ◌++◌,
  length, drop, ◌==◌, arith, some, append_assoc,
}
use mathlib.Core.List.{reverse, reverse-append}
use fsp.AbsPath.{back_to_slash, pass, normalise, ends_part, go_on, append_password, plain}
use fsp.AbsPath.Parts.{Lacks, AllLack, is_dot, is_parent, backwards}

reverse-cons {ℓ} :
    {A : Type ℓ} (x : A) (xs ys : List A) → reverse (x ∷ xs) ++ ys ≡ reverse xs ++ x ∷ ys
reverse-cons x xs ys = rw (reverse-append (x ∷ []) xs) (append_assoc (reverse xs) (x ∷ []) ys)

-- A round of the loop, by what it comes to.
module _ (fuel : ℕ) (suffix before : List ℕ) (c : ℕ) (rest : List ℕ) where
  pub normalise_go_on :
      {before' from : List ℕ}
      → pass before c rest ≡ go_on before' from
      → normalise (suc fuel) suffix before (c ∷ rest) ≡ normalise fuel suffix before' from
  unfolding normalise
  normalise_go_on e = rw (e, normalise)

  pub normalise_append :
      {path : List ℕ}
      → pass before c rest ≡ append_password path
      → normalise (suc fuel) suffix before (c ∷ rest) ≡ some (path ++ suffix)
  unfolding normalise
  normalise_append e = rw (e, normalise)

  pub normalise_plain :
      {path : List ℕ}
      → pass before c rest ≡ plain path
      → normalise (suc fuel) suffix before (c ∷ rest) ≡ some path
  unfolding normalise
  normalise_plain e = rw (e, normalise)

-- Inside a part the loop only moves on.
pass_inside :
    (c d : ℕ) (before rest : List ℕ)
    → c ≢ b'/'
    → d ≢ b'/'
    → pass (c ∷ before) d rest ≡ go_on (d ∷ c ∷ before) rest
unfolding pass
pass_inside c d before rest hc hd = ground arith

pub run_inside :
    (fuel : ℕ) (suffix before q from : List ℕ) (c : ℕ)
    → c ≢ b'/'
    → Lacks q
    → normalise (length q + fuel) suffix (c ∷ before) (q ++ from)
      ≡ normalise fuel suffix (reverse q ++ c ∷ before) from
run_inside fuel suffix before [] from c hc h =
    ap (λ n. normalise n suffix (c ∷ before) from) {x = 0 + fuel} (omega arith)
run_inside fuel suffix before (d ∷ q) from c hc (hd, h) =
    ap (λ n. normalise n suffix (c ∷ before) (d ∷ (q ++ from))) {y = suc (length q + fuel)}
      (omega arith)
    ∙ normalise_go_on (length q + fuel) suffix (c ∷ before) d (q ++ from)
        (pass_inside c d before (q ++ from) hc hd)
    ∙ run_inside fuel suffix (c ∷ before) q from d hd h
    ∙ ap (λ l. normalise fuel suffix l from) (sym (reverse-cons d q (c ∷ before)))

-- A name, which is a part other than "", "." and "..".
abbrev pub is_name : List ℕ → Bool
is_name p = not (length p == 0) && not (is_dot p) && not (is_parent p)

pass_name :
    (c : ℕ) (q before from : List ℕ)
    → Lacks (c ∷ q)
    → is_name (c ∷ q) ≡ true
    → ends_part from ≡ true
    → pass (b'/' ∷ before) c (q ++ from) ≡ go_on (c ∷ b'/' ∷ before) (q ++ from)
unfolding pass
pass_name c [] before from h n e = ground arith
pass_name c (d ∷ []) before from h n e = ground arith
pass_name c (d ∷ x ∷ q) before from h n e = ground arith

pub run_name :
    (fuel : ℕ) (suffix before p from : List ℕ)
    → Lacks p
    → is_name p ≡ true
    → ends_part from ≡ true
    → length p ≤ fuel
    → normalise fuel suffix (b'/' ∷ before) (p ++ from)
      ≡ normalise (fuel - length p) suffix (reverse p ++ b'/' ∷ before) from
run_name fuel suffix before [] from h n e k = cc
run_name fuel suffix before (c ∷ q) from h n e k =
    ap (λ n. normalise n suffix (b'/' ∷ before) (c ∷ (q ++ from)))
      {y = suc (length q + (fuel - suc (length q)))} (omega arith)
    ∙ normalise_go_on (length q + (fuel - suc (length q))) suffix (b'/' ∷ before) c (q ++ from)
        (pass_name c q before from h n e)
    ∙ run_inside (fuel - suc (length q)) suffix (b'/' ∷ before) q from c h.0 h.1
    ∙ ap (λ l. normalise (fuel - suc (length q)) suffix l from)
        (sym (reverse-cons c q (b'/' ∷ before)))

back_over : (q before : List ℕ) → Lacks q → back_to_slash (q ++ b'/' ∷ before) ≡ before
unfolding back_to_slash
back_over [] before h = refl
back_over (c ∷ q) before (hc, h) = ground (arith, back_over q before h)

Lacks-append : (p q : List ℕ) → Lacks p → Lacks q → Lacks (p ++ q)
Lacks-append [] q hp hq = hq
Lacks-append (c ∷ p) q (hc, hp) hq = (hc, Lacks-append p q hp hq)

reverse-Lacks : (p : List ℕ) → Lacks p → Lacks (reverse p)
reverse-Lacks [] h = tt
reverse-Lacks (c ∷ p) (hc, h) =
    rw (reverse-append (c ∷ []) p) (Lacks-append (reverse p) (c ∷ []) (reverse-Lacks p h) (hc, tt))

-- Back over the last name.
pub back_to_slash-backwards :
    (st : List (List ℕ)) → AllLack st → back_to_slash (backwards st) ≡ backwards (drop 1 st)
unfolding backwards
back_to_slash-backwards [] h = unfold back_to_slash in refl
back_to_slash-backwards (p ∷ st) (hp, h) = back_over (reverse p) (backwards st) (reverse-Lacks p hp)
