-- ===== src/AbsPath/Ends.antt =====
-- The loop of `util_abs_path` ends.
use fsp.Base.{
  ℕ, zero, suc, ◌≤◌, ◌≡◌, refl, List, [], ◌∷◌, ◌++◌, length, drop, arith, some, length-drop, subst,
  ◌∙◌,
}
use mathlib.Core.List.{reverse}
use fsp.AbsPath.Parts.Run.{normalise_go_on, normalise_append, normalise_plain}
use fsp.AbsPath.{
  collapse, Pass, go_on, append_password, plain, pass, normalise, util_abs_path, merged,
  password_suffix,
}

length-collapse : (s : List ℕ) → length (collapse s) ≤ length s
unfolding collapse
length-collapse [] = omega arith
length-collapse (c ∷ s) = ground (arith, length-collapse s)

-- What is left behind the cursor after a round.
abbrev left : Pass → ℕ
left (go_on before from) = length from
left (append_password path) = 0
left (plain path) = 0

pass-shrinks : (before : List ℕ) (c : ℕ) (rest : List ℕ) → left (pass before c rest) ≤ length rest
unfolding pass
pass-shrinks before c rest =
    ground (arith, length-collapse rest, length-drop 1 rest, length-drop 1 (drop 1 rest))

abbrev Returns : ℕ → List ℕ → List ℕ → List ℕ → Type 0
Returns fuel suffix before from = (path : List ℕ) × (normalise fuel suffix before from ≡ some path)

after_pass :
    (fuel : ℕ) (suffix before : List ℕ) (c : ℕ) (rest : List ℕ) (r : Pass)
    → pass before c rest ≡ r
    → ((before' from : List ℕ) → length from ≤ length rest → Returns fuel suffix before' from)
    → Returns (suc fuel) suffix before (c ∷ rest)
after_pass fuel suffix before c rest (go_on before' from) e ih =
    let small : length from ≤ length rest =
      subst (λ r. left r ≤ length rest) e (pass-shrinks before c rest) in
    let (path, q) = ih before' from small in (path, normalise_go_on fuel suffix before c rest e ∙ q)
after_pass fuel suffix before c rest (append_password path) e ih =
    (path ++ suffix, normalise_append fuel suffix before c rest e)
after_pass fuel suffix before c rest (plain path) e ih =
    (path, normalise_plain fuel suffix before c rest e)

normalise-Returns :
    (fuel : ℕ) (suffix before from : List ℕ) → length from ≤ fuel → Returns fuel suffix before from
normalise-Returns fuel suffix before [] h = (reverse before ++ suffix, unfold normalise in refl)
normalise-Returns zero suffix before (c ∷ rest) h = absurd (omega (arith, h))
normalise-Returns (suc fuel) suffix before (c ∷ rest) h =
    after_pass fuel suffix before c rest (pass before c rest) refl
      (λ before' from k. normalise-Returns fuel suffix before' from (omega (arith, h, k)))

-- util_abs_path returns, whatever the strings are.
pub util_abs_path-returns :
    (env_dir env_passwd s2 : List ℕ)
    → (path : List ℕ) × (util_abs_path env_dir env_passwd s2 ≡ some path)
unfolding util_abs_path
util_abs_path-returns env_dir env_passwd s2 =
    let path = merged env_dir env_passwd s2 in
    normalise-Returns (length path) (password_suffix env_passwd) [] path (omega arith)
