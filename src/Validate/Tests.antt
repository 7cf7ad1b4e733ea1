-- ===== src/Validate/Tests.antt =====
-- A request for a directory, on an empty cache.
use fsp.Base.{ℕ, ◌≡◌, refl, [], ◌∷◌, some, none, codes, true, ◌++◌}
use fsp.PathName.{at}
use fsp.FifoCache.Inv.{blank}
use fsp.Validate.{Setup, System, stat_ops, work_of, is_prefix}
use fsp.Validate.Confined.{Table, Confined}

abbrev pub setup : Setup
setup = record {
  home_dir = codes "/srv/fsp";
  homedir_restricted = true;
  use_directory_mtime = true;
  stat_cache_timeout = 15;
  cur_time = 1000;
}

abbrev pub sys : System ℕ
sys = record {
  stat = λ work. some (true, 900);
  chdir = λ work. true;
  getcwd = λ work. some (codes "/srv/fsp/pub");
  load_access_rights = λ work. 80;
}

abbrev pub empty : Table ℕ
empty = blank (stat_ops 0) 4 8 16

-- A prefix of the text is enough.
beside_home : is_prefix (codes "/srv/fsp") (codes "/srv/fsp-private") ≡ true
unfolding is_prefix
beside_home = refl

-- With two slashes in the path, the name of the directory is cut.
cut_name :
    work_of
      (codes "a//b" ++ 0 ∷ [])
      (record { fullp = at 0; f_ptr = at 3; f_len = 1; d_ptr = at 0; d_len = 1; passwd = none })
      true
    ≡ codes "a//"
unfolding work_of
cut_name = refl
