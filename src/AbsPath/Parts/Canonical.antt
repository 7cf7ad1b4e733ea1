-- ===== src/AbsPath/Parts/Canonical.antt =====
-- `util_abs_path` is its reference.
use fsp.Base.{
  ℕ, suc, ◌≤◌, ◌≡◌, ◌≢◌, refl, sym, ap, ◌∙◌, true, ◌||◌, List, [], ◌∷◌, length, drop, arith, some,
  subst,
}
use fsp.AbsPath.{normalise, merged, util_abs_path, password_suffix}
use fsp.AbsPath.Parts.{
  Lacks, AllLack, is_dot, is_parent, push, resolve, tidy, backwards, answer, parts, joined-parts,
  parts-AllLack, parts-ne-nil,
}
use fsp.AbsPath.Parts.Loop
use fsp.AbsPath.Parts.Loop.{Behind, At, Front, by_part}

tidy_tail : (p : List ℕ) (ps : List (List ℕ)) → tidy (p ∷ ps) ≡ true → tidy ps ≡ true
unfolding tidy
tidy_tail p ps h = ground arith

tidy-Front :
    (p q : List ℕ) (ps : List (List ℕ))
    → tidy (p ∷ q ∷ ps) ≡ true
    → (is_dot p || is_parent p) ≡ true
    → Front q ps []
unfolding tidy
tidy-Front p [] [] h d e = (refl, refl)
tidy-Front p [] (x ∷ ps) h d e = absurd (ground arith)
tidy-Front p (c ∷ q) ps h d e = absurd (cc)

drop-AllLack : (st : List (List ℕ)) → AllLack st → AllLack (drop 1 st)
drop-AllLack [] h = h
drop-AllLack (p ∷ st) h = h.1

module _ (suffix : List ℕ) where
  abbrev Goal : List ℕ → List (List ℕ) → Type 0
  Goal p ps =
      (st : List (List ℕ))
      → AllLack (p ∷ ps)
      → AllLack st
      → tidy (p ∷ ps) ≡ true
      → (Front p ps st → Behind suffix st (p ∷ ps)) × At suffix st (p ∷ ps)

  -- The last part.
  Behind-last :
      (p : List ℕ) (st : List (List ℕ))
      → Lacks p
      → AllLack st
      → Front p [] st
      → Behind suffix st (p ∷ [])
  Behind-last p st h k =
      by_part (λ p. Lacks p → Front p [] st → Behind suffix st (p ∷ [])) p
        (λ _ f. rw ((f refl).1) (Loop.root_last suffix)) (λ _ _. Loop.dot_last suffix st)
        (λ _ _. Loop.parent_last suffix st k) (λ n h _. Loop.name_last suffix st p h n) h

  -- A part with more behind it.
  Behind-more :
      (p q : List ℕ) (ps : List (List ℕ)) (st : List (List ℕ))
      → Goal q ps
      → AllLack (p ∷ q ∷ ps)
      → AllLack st
      → tidy (p ∷ q ∷ ps) ≡ true
      → Front p (q ∷ ps) st
      → Behind suffix st (p ∷ q ∷ ps)
  Behind-more p q ps st goal (hp, h) k t f =
      let t' = tidy_tail p (q ∷ ps) t in
      by_part
        (λ p.
          Lacks p → tidy (p ∷ q ∷ ps) ≡ true → Front p (q ∷ ps) st → Behind suffix st (p ∷ q ∷ ps))
        p (λ _ _ f. cc ((f refl).0))
        (λ _ t _.
          Loop.At-dot suffix st q ps (λ _. (goal [] h tt t').0 (tidy-Front _ q ps t refl))
            (goal st h k t').1)
        (λ _ t _.
          Loop.At-parent suffix st q ps k (λ _. (goal [] h tt t').0 (tidy-Front _ q ps t refl))
            (goal (drop 1 st) h (drop-AllLack st k) t').1)
        (λ n hp _ _. Loop.At-name suffix st p q ps hp n (goal (p ∷ st) h (hp, k) t').1) hp t f

  At-part :
      (p : List ℕ) (ps st : List (List ℕ))
      → Lacks p
      → p ≢ []
      → (Front p ps st → Behind suffix st (p ∷ ps))
      → At suffix st (p ∷ ps)
  At-part [] ps st h ne b = absurd (ne refl)
  At-part (c ∷ p) ps st (hc, h) ne b = Loop.At-part suffix st c p ps hc (b (λ e. absurd (ne e)))

  every_path : (p : List ℕ) (ps : List (List ℕ)) → Goal p ps
  every_path [] [] st h k t = (Behind-last [] st h.0 k, Loop.At-end suffix st)
  every_path (c ∷ p) [] st h k t =
      let b = Behind-last (c ∷ p) st h.0 k in (b, At-part (c ∷ p) [] st h.0 (λ e. cc e) b)
  every_path [] (q ∷ ps) st h k t = (
    Behind-more [] q ps st (every_path q ps) h k t,
    Loop.At-double suffix st q ps (every_path q ps st h.1 k (tidy_tail [] (q ∷ ps) t)).1,
  )
  every_path (c ∷ p) (q ∷ ps) st h k t =
      let b = Behind-more (c ∷ p) q ps st (every_path q ps) h k t in
      (b, At-part (c ∷ p) (q ∷ ps) st h.0 (λ e. cc e) b)

merged-slash :
    (env_dir env_passwd s2 : List ℕ)
    → merged env_dir env_passwd s2 ≡ b'/' ∷ drop 1 (merged env_dir env_passwd s2)
unfolding merged
merged-slash env_dir env_passwd s2 = ground arith

parts-slash : (s : List ℕ) → parts (b'/' ∷ s) ≡ [] ∷ parts s
unfolding parts
parts-slash s = refl

resolved :
    (suffix : List ℕ) (ps : List (List ℕ))
    → ps ≢ []
    → answer suffix [] ([] ∷ ps) ≡ answer suffix [] ps
unfolding answer resolve push
resolved suffix [] h = absurd (h refl)
resolved suffix (p ∷ ps) h = refl

from_root :
    (suffix : List ℕ) (ps : List (List ℕ)) → ps ≢ [] → AllLack ps → tidy ps ≡ true → At suffix [] ps
from_root suffix [] h k t = absurd (h refl)
from_root suffix (p ∷ ps) h k t = (every_path suffix p ps [] k tt t).1

normalise-answer :
    (suffix s : List ℕ) (fuel : ℕ)
    → tidy (parts (b'/' ∷ s)) ≡ true
    → length s ≤ fuel
    → normalise (suc fuel) suffix [] (b'/' ∷ s) ≡ some (answer suffix [] (parts (b'/' ∷ s)))
unfolding backwards
normalise-answer suffix s fuel t k =
    let same = joined-parts s in
    let there = tidy_tail [] (parts s) (subst (λ l. tidy l ≡ true) (parts-slash s) t) in
    ap (λ l. normalise (suc fuel) suffix [] (b'/' ∷ l)) (sym same)
    ∙ from_root suffix (parts s) (parts-ne-nil s) (parts-AllLack s) there fuel
        (subst (λ l. length l ≤ fuel) (sym same) k)
    ∙ ap some
        (sym (ap (answer suffix []) (parts-slash s) ∙ resolved suffix (parts s) (parts-ne-nil s)))

-- `util_abs_path` returns, and its path is that of the directory or file that the parts of the merged
-- path lead to from the root: empty parts and "." stay, ".." goes up, and stays at the root. The
-- password is behind it, unless the merged path ends with a slash and leads below the root. No part "."
-- or ".." of the merged path has two slashes behind it.
pub util_abs_path-answer :
    (env_dir env_passwd s2 : List ℕ)
    → tidy (parts (merged env_dir env_passwd s2)) ≡ true
    → util_abs_path env_dir env_passwd s2
      ≡ some (answer (password_suffix env_passwd) [] (parts (merged env_dir env_passwd s2)))
unfolding util_abs_path
util_abs_path-answer env_dir env_passwd s2 t =
    let path = merged env_dir env_passwd s2 in
    let sfx = password_suffix env_passwd in
    let e = merged-slash env_dir env_passwd s2 in
    subst (λ l. normalise (length l) sfx [] l ≡ some (answer sfx [] (parts l))) (sym e)
      (normalise-answer sfx (drop 1 path) (length (drop 1 path))
        (subst (λ l. tidy (parts l) ≡ true) e t) (omega arith))
