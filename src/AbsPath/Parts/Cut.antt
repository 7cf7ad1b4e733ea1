-- ===== src/AbsPath/Parts/Cut.antt =====
-- A current directory with a newline in it.
use fsp.Base.{
  ℕ, ◌≡◌, refl, ap, ◌∙◌, Bool, true, false, ◌||◌, List, [], ◌∷◌, ◌++◌, length, get_or, ◌==◌, arith,
  some,
}
use fsp.AbsPath.{util_junk_password, merged, util_abs_path, password_suffix}
use fsp.AbsPath.Parts.{parts, tidy, answer, ends_with_slash, resolve, render}
use fsp.AbsPath.Parts.Canonical.{util_abs_path-answer}

abbrev pub has_newline : List ℕ → Bool
has_newline [] = false
has_newline (c ∷ s) = c == b'\n' || has_newline s

junk-append :
    (x y : List ℕ) → has_newline x ≡ true → util_junk_password (x ++ y) ≡ util_junk_password x
unfolding util_junk_password
junk-append [] y h = cc
junk-append (c ∷ x) y h = ground (arith, junk-append x y)

has_newline-append : (x y : List ℕ) → has_newline (x ++ b'\n' ∷ y) ≡ true
has_newline-append [] y = refl
has_newline-append (c ∷ x) y = ground (arith, has_newline-append x y)

merged_cut :
    (env_dir pw a : List ℕ)
    → (length pw == 0) ≡ false
    → has_newline env_dir ≡ true
    → (get_or a 0 0 == b'/') ≡ false
    → merged env_dir pw a ≡ util_junk_password (b'/' ∷ env_dir)
unfolding merged
merged_cut env_dir pw a n h rel =
    rw (rel, n) (junk-append (b'/' ∷ env_dir) (b'/' ∷ a) (ground (arith, h)))

-- Relative paths are lost behind the newline.
pub util_abs_path_cut :
    (env_dir pw a b : List ℕ)
    → (length pw == 0) ≡ false
    → has_newline env_dir ≡ true
    → (get_or a 0 0 == b'/') ≡ false
    → (get_or b 0 0 == b'/') ≡ false
    → util_abs_path env_dir pw a ≡ util_abs_path env_dir pw b
unfolding util_abs_path
util_abs_path_cut env_dir pw a b n h ra rb =
    rw (merged_cut env_dir pw a n h ra, merged_cut env_dir pw b n h rb) refl

-- The path with the password behind it.
pub util_abs_path-newline :
    (env_dir pw p : List ℕ)
    → (length pw == 0) ≡ false
    → tidy (parts (merged env_dir pw p)) ≡ true
    → ends_with_slash (parts (merged env_dir pw p)) ≡ false
    → (path : List ℕ) × (util_abs_path env_dir pw p ≡ some path) × (has_newline path ≡ true)
util_abs_path-newline env_dir pw p n t e =
    let ps = parts (merged env_dir pw p) in
    let with_password : answer (password_suffix pw) [] ps ≡ render (resolve [] ps) ++ b'\n' ∷ pw =
      unfold answer in rw (e, n) refl in
    (
      render (resolve [] ps) ++ b'\n' ∷ pw,
      util_abs_path-answer env_dir pw p t ∙ ap some with_password,
      has_newline-append (render (resolve [] ps)) pw,
    )
