-- ===== src/AbsPath/Tests.antt =====
-- Paths with dots and doubled slashes, and the theorems about them at these paths.
use fsp.Base.{ℕ, ◌≡◌, refl, List, some, codes, [], ◌∷◌, drop}
use fsp.AbsPath.{
  util_abs_path, util_split_path, directory, file, directory_of, file_of, merged, password_suffix,
}
use fsp.AbsPath.Ends.{util_abs_path-returns}
use fsp.AbsPath.Parts.{parts, tidy, answer, resolve, render}
use fsp.AbsPath.Parts.Again.{util_abs_path-again}
use fsp.AbsPath.Parts.Canonical.{util_abs_path-answer}
use fsp.AbsPath.Parts.Last.{last_name, split-abs_path}

up_and_down : util_abs_path (codes "/pub/a") [] (codes "../b/./c") ≡ some (codes "/pub/b/c")
unfolding util_abs_path
up_and_down = refl

above_the_root : util_abs_path (codes "/") [] (codes "../..") ≡ some (codes "/")
unfolding util_abs_path
above_the_root = refl

double_slash : util_abs_path (codes "/") [] (codes "..//a") ≡ some (codes "//a")
unfolding util_abs_path
double_slash = refl

cut_password : util_abs_path (codes "/") (codes "pw") (codes "a\nold") ≡ some (codes "/a\npw")
unfolding util_abs_path
cut_password = refl

lost_password : util_abs_path (codes "/") (codes "pw") (codes "a/") ≡ some (codes "/a")
unfolding util_abs_path
lost_password = refl

split_deep :
    directory_of (codes "/a/b/c") ∷ file_of (codes "/a/b/c") ∷ [] ≡ codes "/a/b" ∷ codes "c" ∷ []
unfolding directory_of file_of util_split_path directory file
split_deep = refl

split_root : directory_of (codes "/") ∷ file_of (codes "/") ∷ [] ≡ codes "/" ∷ codes "." ∷ []
unfolding directory_of file_of util_split_path directory file
split_root = refl

util_abs_path-answer_example :
    util_abs_path (codes "/pub/a") (codes "pw") (codes "../b/./c")
    ≡ some (
        answer
          (password_suffix (codes "pw"))
          []
          (parts (merged (codes "/pub/a") (codes "pw") (codes "../b/./c"))))
util_abs_path-answer_example =
    util_abs_path-answer (codes "/pub/a") (codes "pw") (codes "../b/./c")
      (unfold tidy parts merged in refl)

split-abs_path_example :
    (path : List ℕ) × (util_abs_path (codes "/pub") [] (codes "a/b") ≡ some path)
    × (directory_of path
        ≡ render (drop 1 (resolve [] (parts (merged (codes "/pub") [] (codes "a/b"))))))
    × (file_of path ≡ last_name (resolve [] (parts (merged (codes "/pub") [] (codes "a/b")))))
split-abs_path_example =
    split-abs_path (codes "/pub") (codes "a/b") (unfold tidy parts merged in refl)

again_elsewhere :
    (path : List ℕ) × (util_abs_path (codes "/pub") [] (codes "a/../b/") ≡ some path)
    × (util_abs_path (codes "/incoming") [] path ≡ some path)
again_elsewhere =
    util_abs_path-again (codes "/pub") (codes "/incoming") (codes "a/../b/")
      (unfold tidy parts merged in refl)

util_abs_path-returns_example :
    (path : List ℕ) × (util_abs_path (codes "/") [] (codes "..//../a") ≡ some path)
util_abs_path-returns_example = util_abs_path-returns (codes "/") [] (codes "..//../a")
