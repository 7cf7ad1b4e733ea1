-- ===== src/AbsPath/Parts/Again.antt =====
-- Paths that `util_abs_path` has made are left alone by it.
use fsp.Base.{ℕ, ◌≡◌, ◌≢◌, refl, sym, ap, ◌∙◌, true, List, [], ◌∷◌, ◌++◌, arith, some}
use mathlib.Core.List.{reverse, reverse-append}
use fsp.AbsPath.{merged, util_abs_path}
use fsp.AbsPath.Parts.{Lacks, AllLack, push, resolve, tidy, parts, parts-AllLack, add_byte, render}
use fsp.AbsPath.Parts.Run.{is_name}
use fsp.AbsPath.Parts.Canonical.{util_abs_path-answer}
use fsp.AbsPath.Parts.Last.{Named, answer-render, rooted, render-cons, render-one}

is_name-ne-nil : (p : List ℕ) → is_name p ≡ true → p ≢ []
is_name-ne-nil [] n e = cc
is_name-ne-nil (c ∷ p) n e = cc

-- A directory is given by names, the nearest first.
abbrev pub Names : List (List ℕ) → Type 0
Names [] = Unit
Names (p ∷ st) = (is_name p ≡ true) × Lacks p × Names st

pub Names-Named : (st : List (List ℕ)) → Names st → Named st
Names-Named [] k = tt
Names-Named (p ∷ st) (n, h, k) = ((λ e. absurd (is_name-ne-nil p n e)), h, Names-Named st k)

push-Names : (st : List (List ℕ)) (p : List ℕ) → Names st → Lacks p → Names (push st p)
unfolding push
push-Names [] p k h = ground arith
push-Names (q ∷ st) p k h = ground arith

pub resolve-Names : (ps st : List (List ℕ)) → Names st → AllLack ps → Names (resolve st ps)
unfolding resolve
resolve-Names [] st k h = k
resolve-Names (p ∷ ps) st k (hp, h) = resolve-Names ps (push st p) (push-Names st p k hp) h

-- The parts of a path with another part behind it.
parts-Lacks : (p : List ℕ) → Lacks p → parts p ≡ p ∷ []
unfolding parts
parts-Lacks [] h = refl
parts-Lacks (c ∷ p) (hc, h) = ground (arith, parts-Lacks p h)

add_byte-append :
    (c : ℕ) (ps qs : List (List ℕ)) → ps ≢ [] → add_byte c ps ++ qs ≡ add_byte c (ps ++ qs)
add_byte-append c [] qs h = absurd (h refl)
add_byte-append c (p ∷ ps) qs h = refl

parts-ne : (s : List ℕ) → parts s ≢ []
unfolding parts
parts-ne [] e = cc
parts-ne (c ∷ s) e = ground (arith, parts-ne s)

parts-append : (s p : List ℕ) → Lacks p → parts (s ++ b'/' ∷ p) ≡ parts s ++ p ∷ []
unfolding parts
parts-append [] p h = ap (λ l. [] ∷ l) (parts-Lacks p h)
parts-append (c ∷ s) p h =
    ground (arith, parts-append s p h, add_byte-append c (parts s) (p ∷ []) (parts-ne s))

parts-render :
    (p : List ℕ) (st : List (List ℕ))
    → Names (p ∷ st)
    → parts (render (p ∷ st)) ≡ [] ∷ reverse (p ∷ st)
parts-render p [] (_, h, _) = ap parts (render-one p) ∙ parts-append [] p h ∙ unfold parts in refl
parts-render p (q ∷ st) (_, h, k) =
    ap parts (render-cons p q st)
    ∙ parts-append (render (q ∷ st)) p h
    ∙ ap (λ l. l ++ p ∷ []) (parts-render q st k)
    ∙ ap (λ l. [] ∷ l) (sym (reverse-append (p ∷ []) (q ∷ st)))

resolve-append : (ps qs st : List (List ℕ)) → resolve st (ps ++ qs) ≡ resolve (resolve st ps) qs
unfolding resolve
resolve-append [] qs st = refl
resolve-append (p ∷ ps) qs st = resolve-append ps qs (push st p)

push-name : (st : List (List ℕ)) (p : List ℕ) → is_name p ≡ true → push st p ≡ p ∷ st
unfolding push
push-name st p h = ground arith

resolve-reverse : (st : List (List ℕ)) → Names st → resolve [] (reverse st) ≡ st
resolve-reverse [] k = unfold resolve in refl
resolve-reverse (p ∷ st) (n, h, k) =
    ap (resolve []) (reverse-append (p ∷ []) st)
    ∙ resolve-append (reverse st) (p ∷ []) []
    ∙ ap (λ l. resolve l (p ∷ [])) (resolve-reverse st k)
    ∙ unfold resolve in push-name st p n

-- No dots, no doubled slashes behind them.
abbrev AllNames : List (List ℕ) → Type 0
AllNames [] = Unit
AllNames (p ∷ ps) = (is_name p ≡ true) × AllNames ps

AllNames-append : (ps qs : List (List ℕ)) → AllNames ps → AllNames qs → AllNames (ps ++ qs)
AllNames-append [] qs h k = k
AllNames-append (p ∷ ps) qs (n, h) k = (n, AllNames-append ps qs h k)

reverse-AllNames : (st : List (List ℕ)) → Names st → AllNames (reverse st)
reverse-AllNames [] k = tt
reverse-AllNames (p ∷ st) (n, h, k) =
    rw (reverse-append (p ∷ []) st)
      (AllNames-append (reverse st) (p ∷ []) (reverse-AllNames st k) (n, tt))

names-tidy : (ps : List (List ℕ)) → AllNames ps → tidy ps ≡ true
unfolding tidy
names-tidy [] h = refl
names-tidy (p ∷ ps) (n, h) = ground (arith, names-tidy ps h)

merged_abs : (env_dir r : List ℕ) → merged env_dir [] (b'/' ∷ r) ≡ b'/' ∷ b'/' ∷ r
unfolding merged
merged_abs env_dir r = refl

merged-render :
    (env_dir : List ℕ) (st : List (List ℕ)) → merged env_dir [] (render st) ≡ b'/' ∷ render st
merged-render env_dir st =
    let (r, e) = rooted st in
    ap (merged env_dir []) e ∙ merged_abs env_dir r ∙ ap (λ l. b'/' ∷ l) (sym e)

skip_empty :
    (ps : List (List ℕ)) → (tidy ([] ∷ ps) ≡ tidy ps) × (resolve [] ([] ∷ ps) ≡ resolve [] ps)
unfolding tidy resolve push
skip_empty ps = (refl, refl)

-- The merged path, with its slashes in front.
merged_parts :
    (env_dir : List ℕ) (st : List (List ℕ))
    → Names st
    → (tidy (parts (merged env_dir [] (render st))) ≡ true)
      × (resolve [] (parts (merged env_dir [] (render st))) ≡ st)
merged_parts env_dir [] k =
    rw (merged-render env_dir []) (unfold parts tidy render resolve push in (refl, refl))
merged_parts env_dir (p ∷ st) k =
    let ps = reverse (p ∷ st) in
    let e : parts (b'/' ∷ render (p ∷ st)) ≡ [] ∷ [] ∷ ps =
      unfold parts in ap (λ l. [] ∷ l) (parts-render p st k) in
    rw (merged-render env_dir (p ∷ st), e)
      (
        (skip_empty ([] ∷ ps)).0 ∙ (skip_empty ps).0 ∙ names-tidy ps (reverse-AllNames (p ∷ st) k),
        (skip_empty ([] ∷ ps)).1 ∙ (skip_empty ps).1 ∙ resolve-reverse (p ∷ st) k,
      )

-- Without a password, the path of a directory below the root is returned as it is, whatever the current
-- directory is.
pub util_abs_path-render :
    (env_dir : List ℕ) (st : List (List ℕ))
    → Names st
    → util_abs_path env_dir [] (render st) ≡ some (render st)
util_abs_path-render env_dir st k =
    let (t, r) = merged_parts env_dir st k in
    util_abs_path-answer env_dir [] (render st) t
    ∙ ap some (answer-render (parts (merged env_dir [] (render st))) ∙ ap render r)

-- The path that util_abs_path returns without a password is left as it is by another call, whatever the
-- current directory is then. No part "." or ".." of the merged path has two slashes behind it.
pub util_abs_path-again :
    (env_dir env_dir' s2 : List ℕ)
    → tidy (parts (merged env_dir [] s2)) ≡ true
    → (path : List ℕ) × (util_abs_path env_dir [] s2 ≡ some path)
      × (util_abs_path env_dir' [] path ≡ some path)
util_abs_path-again env_dir env_dir' s2 t =
    let ps = parts (merged env_dir [] s2) in
    (
      render (resolve [] ps),
      util_abs_path-answer env_dir [] s2 t ∙ ap some (answer-render ps),
      util_abs_path-render env_dir' (resolve [] ps)
          (resolve-Names ps [] tt (parts-AllLack (merged env_dir [] s2))),
    )
