-- ===== src/DirStore/Password.antt =====
-- `util_cd` where a password is set.
use fsp.Base.{ℕ, ◌≡◌, refl, ap, ◌∙◌, true, false, List, length, get_or, ◌==◌, arith}
use fsp.AbsPath.{merged}
use fsp.AbsPath.Parts.Cut.{has_newline, util_abs_path_cut, util_abs_path-newline}
use fsp.AbsPath.Parts.{parts, tidy, ends_with_slash}
use fsp.DirStore.{Dirs, Net, abs_path, util_cd}

util_cd-env_dir :
    (net : Net) (s : Dirs) (p : List ℕ)
    → (util_cd net s p).1 ≡ true
    → ((util_cd net s p).0.env_dir ≡ abs_path s p) × ((util_cd net s p).0.env_passwd ≡ s.env_passwd)
unfolding util_cd
util_cd-env_dir net s p h = ground arith

abs_path_cut :
    (s : Dirs) (a b : List ℕ)
    → (length s.env_passwd == 0) ≡ false
    → has_newline s.env_dir ≡ true
    → (get_or a 0 0 == b'/') ≡ false
    → (get_or b 0 0 == b'/') ≡ false
    → abs_path s a ≡ abs_path s b
unfolding abs_path
abs_path_cut s a b n h ra rb =
    rw (util_abs_path_cut s.env_dir s.env_passwd a b n h ra rb, abs_path) refl

abs_path-newline :
    (s : Dirs) (p : List ℕ)
    → (length s.env_passwd == 0) ≡ false
    → tidy (parts (merged s.env_dir s.env_passwd p)) ≡ true
    → ends_with_slash (parts (merged s.env_dir s.env_passwd p)) ≡ false
    → has_newline (abs_path s p) ≡ true
unfolding abs_path
abs_path-newline s p n t e =
    let (path, q, h) = util_abs_path-newline s.env_dir s.env_passwd p n t e in
    rw (q, abs_path, has_newline) h

-- Where a password is set, a util_cd that succeeds leaves the client in a state in which all relative
-- paths are one and the same. The merged path of that directory does not
-- end with a slash, and no part "." or ".." of it has two slashes behind it.
pub util_cd-password :
    (net : Net) (s : Dirs) (p a b : List ℕ)
    → (length s.env_passwd == 0) ≡ false
    → (util_cd net s p).1 ≡ true
    → tidy (parts (merged s.env_dir s.env_passwd p)) ≡ true
    → ends_with_slash (parts (merged s.env_dir s.env_passwd p)) ≡ false
    → (get_or a 0 0 == b'/') ≡ false
    → (get_or b 0 0 == b'/') ≡ false
    → abs_path (util_cd net s p).0 a ≡ abs_path (util_cd net s p).0 b
util_cd-password net s p a b n done t e ra rb =
    let (dir, pw) = util_cd-env_dir net s p done in
    abs_path_cut (util_cd net s p).0 a b (ap (λ l. length l == 0) pw ∙ n)
      (ap has_newline dir ∙ abs_path-newline s p n t e) ra rb
