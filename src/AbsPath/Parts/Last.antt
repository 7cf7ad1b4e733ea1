-- ===== src/AbsPath/Parts/Last.antt =====
-- `util_split_path` on what `util_abs_path` returns: the directory and the last name.
use fsp.Base.{
  ℕ, suc, ◌+◌, ◌≡◌, ◌≢◌, refl, sym, ap, ◌∙◌, true, false, List, [], ◌∷◌, ◌++◌, length, drop, take,
  ◌==◌, arith, Bool-cases, ==_iff, inl, inr, some, none, subst, append_assoc, append-nil,
  take-append, drop-append_add,
}
use mathlib.Core.List.{reverse, reverse-append, reverse-reverse}
use fsp.AbsPath.{
  merged, util_abs_path, last_slash, util_split_path, directory_of, file_of, directory, file, Split,
}
use fsp.AbsPath.Parts.{
  Lacks, AllLack, push, resolve, tidy, answer, parts, parts-AllLack, render, backwards,
}
use fsp.AbsPath.Parts.Canonical.{util_abs_path-answer}

nil_of_length : (l : List ℕ) → length l ≡ 0 → l ≡ []
nil_of_length [] e = refl
nil_of_length (c ∷ l) e = absurd (omega arith)

last_slash-Lacks : (p : List ℕ) (i : ℕ) (x : Split) → Lacks p → last_slash p i x ≡ x
unfolding last_slash
last_slash-Lacks [] i x h = refl
last_slash-Lacks (c ∷ p) i x (hc, h) = ground (arith, last_slash-Lacks p (i + 1) x h)

last_slash_at :
    (l p : List ℕ) (i : ℕ) (x : Split)
    → Lacks p
    → last_slash (l ++ b'/' ∷ p) i x
      ≡ record { p1 = some 0; p2 = some (i + length l); p3 = some (i + length l + 1) }
unfolding last_slash
last_slash_at [] p i x h =
    last_slash-Lacks p (i + 1) _ h
    ∙ ap (λ k. record { p1 = some 0; p2 = some k; p3 = some (k + 1) }) {x = i} {y = i + 0}
        (omega arith)
last_slash_at (c ∷ l) p i x h =
    last_slash_at l p (i + 1) _ h
    ∙ ap (λ k. record { p1 = some 0; p2 = some k; p3 = some (k + 1) }) {x = i + 1 + length l}
        {y = i + suc (length l)} (omega arith)

module _ (p : List ℕ) (h : Lacks p) (ne : p ≢ []) where
  some_name : (length p == 0) ≡ false
  some_name = elim (Bool-cases (length p == 0)) [
    | inl e ↦ absurd (ne (nil_of_length p ((==_iff (length p) 0).0 e)))
    | inr e ↦ e
  ]

  -- The file begins at an index that holds `p`, so that it is not empty.
  set_file :
      (path : List ℕ) (x : Split) (i : ℕ)
      → x.p3 ≡ some i
      → drop i path ≡ p
      → (elim x.p3 [ none ↦ false | some i ↦ length (drop i path) == 0 ]) ≡ false
  set_file path x i e d = rw (e, d) some_name

  -- A path of more names than one.
  module _ (r : List ℕ) where
    abbrev path : List ℕ
    path = b'/' ∷ (r ++ b'/' ∷ p)

    behind : drop (1 + length r + 1) path ≡ p
    behind =
        ap (λ k. drop k path) {y = suc (length r + 1)} (omega arith)
        ∙ drop-append_add r (b'/' ∷ p) 1

    before : take (1 + length r) path ≡ b'/' ∷ r
    before =
        ap (λ k. take k path) {y = suc (length r)} (omega arith)
        ∙ ap (λ l. b'/' ∷ l) (take-append r (b'/' ∷ p))

    split_deep :
        util_split_path path
        ≡ record { p1 = some 0; p2 = some (1 + length r); p3 = some (1 + length r + 1) }
    unfolding util_split_path
    split_deep =
        rw (last_slash_at r p 1 (record { p1 = none; p2 = some 0; p3 = some 1 }) h)
          (rw (behind, some_name) refl)

    deep : (directory_of path ≡ b'/' ∷ r) × (file_of path ≡ p)
    unfolding directory_of file_of directory file
    deep =
        (ap (λ x. directory x path) split_deep ∙ before, ap (λ x. file x path) split_deep ∙ behind)

  split_shallow : util_split_path (b'/' ∷ p) ≡ record { p1 = none; p2 = some 0; p3 = some 1 }
  unfolding util_split_path
  split_shallow =
      rw (last_slash-Lacks p 1 (record { p1 = none; p2 = some 0; p3 = some 1 }) h)
        (rw some_name refl)

  shallow : (directory_of (b'/' ∷ p) ≡ b'/' ∷ []) × (file_of (b'/' ∷ p) ≡ p)
  unfolding directory_of file_of directory file
  shallow =
      (ap (λ x. directory x (b'/' ∷ p)) split_shallow, ap (λ x. file x (b'/' ∷ p)) split_shallow)

pub render-one : (p : List ℕ) → render (p ∷ []) ≡ b'/' ∷ p
unfolding render backwards
render-one p = reverse-append (reverse p) (b'/' ∷ []) ∙ ap (λ l. b'/' ∷ l) (reverse-reverse p)

pub render-cons :
    (p q : List ℕ) (st : List (List ℕ)) → render (p ∷ q ∷ st) ≡ render (q ∷ st) ++ b'/' ∷ p
unfolding render
render-cons p q st =
    ap reverse {x = backwards (p ∷ q ∷ st)} {y = reverse p ++ b'/' ∷ backwards (q ∷ st)}
      (unfold backwards in refl)
    ∙ reverse-append (reverse p) (b'/' ∷ backwards (q ∷ st))
    ∙ ap (λ l. reverse (b'/' ∷ backwards (q ∷ st)) ++ l) (reverse-reverse p)
    ∙ ap (λ l. l ++ p) (reverse-append (b'/' ∷ []) (backwards (q ∷ st)))
    ∙ append_assoc (reverse (backwards (q ∷ st))) (b'/' ∷ []) p

-- The path of a directory begins with a slash.
pub rooted : (st : List (List ℕ)) → (r : List ℕ) × (render st ≡ b'/' ∷ r)
rooted [] = ([], unfold render in refl)
rooted (p ∷ []) = (p, render-one p)
rooted (p ∷ q ∷ st) =
    let (r, e) = rooted (q ∷ st) in (r ++ b'/' ∷ p, render-cons p q st ∙ ap (λ l. l ++ b'/' ∷ p) e)

-- The last name of a directory, "." for the root.
abbrev pub last_name : List (List ℕ) → List ℕ
last_name [] = b'.' ∷ []
last_name (p ∷ st) = p

abbrev pub Named : List (List ℕ) → Type 0
Named [] = Unit
Named (p ∷ st) = (p ≢ []) × Lacks p × Named st

abbrev pub Splits : List ℕ → List (List ℕ) → Type 0
Splits path st = (directory_of path ≡ render (drop 1 st)) × (file_of path ≡ last_name st)

pub split-render : (st : List (List ℕ)) → Named st → Splits (render st) st
split-render [] h =
    unfold directory_of file_of directory file util_split_path last_slash render in (refl, refl)
split-render (p ∷ []) (ne, h, _) =
    subst (λ l. Splits l (p ∷ [])) (sym (render-one p)) (unfold render in shallow p h ne)
split-render (p ∷ q ∷ st) (ne, h, _) =
    let (r, e) = rooted (q ∷ st) in
    let path_eq : render (p ∷ q ∷ st) ≡ b'/' ∷ (r ++ b'/' ∷ p) =
      render-cons p q st ∙ ap (λ l. l ++ b'/' ∷ p) e in
    subst (λ l. Splits l (p ∷ q ∷ st)) (sym path_eq) (let d = deep p h ne r in (d.0 ∙ sym e, d.1))

pub push-Named : (st : List (List ℕ)) (p : List ℕ) → Named st → Lacks p → Named (push st p)
unfolding push
push-Named [] [] k h = tt
push-Named [] (c ∷ p) k h = ground arith
push-Named (q ∷ st) [] k h = k
push-Named (q ∷ st) (c ∷ p) k h = ground arith

pub resolve-Named : (ps st : List (List ℕ)) → Named st → AllLack ps → Named (resolve st ps)
unfolding resolve
resolve-Named [] st k h = k
resolve-Named (p ∷ ps) st k (hp, h) = resolve-Named ps (push st p) (push-Named st p k hp) h

pub answer-render : (ps : List (List ℕ)) → answer [] [] ps ≡ render (resolve [] ps)
unfolding answer
answer-render ps = ground (arith, append-nil (render (resolve [] ps)))

-- Without a password, util_split_path takes what util_abs_path returns apart into the directory that
-- the last name stands in and that name; of the root, it is the root and ".". No part "." or ".." of the
-- merged path has two slashes behind it.
pub split-abs_path :
    (env_dir s2 : List ℕ)
    → tidy (parts (merged env_dir [] s2)) ≡ true
    → (path : List ℕ) × (util_abs_path env_dir [] s2 ≡ some path)
      × (directory_of path ≡ render (drop 1 (resolve [] (parts (merged env_dir [] s2)))))
      × (file_of path ≡ last_name (resolve [] (parts (merged env_dir [] s2))))
split-abs_path env_dir s2 t =
    let ps = parts (merged env_dir [] s2) in
    let st = resolve [] ps in
    let splits = split-render st (resolve-Named ps [] tt (parts-AllLack (merged env_dir [] s2))) in
    (
      render st,
      util_abs_path-answer env_dir [] s2 t ∙ ap some (answer-render ps),
      splits.0,
      splits.1,
    )
