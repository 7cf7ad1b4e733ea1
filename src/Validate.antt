-- ===== src/Validate.antt =====
-- `validate_path` of server/file.c: the directory of a request, with the cache `dirstatcache` of
-- directories. The caches' functions for keys, `string_free` and `string_compare`, stand here too. A
-- `char *` is the bytes of its string, or NULL; `strdup` succeeds.
pub mod Confined
pub mod Tests
use fsp.Base.{
  ℕ, zero, suc, ◌+◌, ◌*◌, Bool, true, false, not, ◌||◌, ◌&&◌, List, [], ◌∷◌, get_elem?, set, take,
  drop, ltb, ◌==◌, if◌then◌else◌, Option, none, some, codes,
}
use fsp.Rights.{same_text}
use fsp.PathName.{Error, Ptr, at, dot, PPath, parsed, error, out_of_bounds, parse_path}
use fsp.FifoCache.{Cache, Ops, f_cache_put, f_cache_find, f_cache_delete_entry}

-- `string_compare` returns 0.
pub string_compare : Option (List ℕ) → Option (List ℕ) → Bool
string_compare none b = false
string_compare (some a) none = false
string_compare (some a) (some b) = same_text a b

-- `DIRINFO` of include/server_def.h, its access rights as one value.
pub record Info (R : Type 0) : Type 0 where
  pub realname : Option (List ℕ)
  pub rights : R
  pub mtime : ℕ
  pub lastcheck : ℕ

-- The settings, and the time of the request.
pub record Setup : Type 0 where
  pub home_dir : List ℕ
  pub homedir_restricted : Bool
  pub use_directory_mtime : Bool
  pub stat_cache_timeout : ℕ
  pub cur_time : ℕ

-- The calls of the system for a path below the home directory, at the time of the request: what `stat`
-- says of it (whether it is a directory, and its time), whether `chdir` goes there, and what `getcwd` and
-- `load_access_rights` give there.
pub record System (R : Type 0) : Type 0 where
  pub stat : List ℕ → Option (Bool × ℕ)
  pub chdir : List ℕ → Bool
  pub getcwd : List ℕ → Option (List ℕ)
  pub load_access_rights : List ℕ → R

-- The text of a refusal, or the index of an entry of the cache.
pub data Validated : Type 0 where
  refused : List ℕ → Validated
  accepted : ℕ → Validated

-- `!strncmp(text, prefix, strlen(prefix))`.
pub is_prefix : List ℕ → List ℕ → Bool
is_prefix [] text = true
is_prefix (c ∷ prefix) [] = false
is_prefix (c ∷ prefix) (d ∷ text) = let rest = is_prefix prefix text in c == d && rest

-- The string in `work`: a copy of `len` bytes from a pointer on, up to the first zero.
pub until_zero : List ℕ → List ℕ
until_zero [] = []
until_zero (c ∷ s) = let rest = c ∷ until_zero s in if c == 0 then [] else rest

pub copied : List ℕ → Ptr → ℕ → List ℕ
unfolding until_zero
copied buf (at i) len = until_zero (take len (drop i buf))
copied buf dot len = until_zero (take len (b'.' ∷ 0 ∷ []))

-- `pp->d_ptr` and `pp->d_len`, where everything in the path is a directory and else.
pub work_of : List ℕ → PPath → Bool → List ℕ
unfolding copied
work_of buf pp want_directory =
    if want_directory
    then copied buf pp.fullp (pp.d_len + pp.f_len + 1)
    else copied buf pp.d_ptr pp.d_len

module _ {R : Type 0} (no_rights : R) where
  -- The functions of `dirstatcache`, and zeroed memory.
  abbrev pub stat_ops : Ops (Option (List ℕ)) (Info R)
  stat_ops = record {
    k_destroy = true;
    e_destroy = true;
    compare = some string_compare;
    k_zero = none;
    e_zero = record { realname = none; rights = no_rights; mtime = 0; lastcheck = 0 };
  }

  -- A new record, from `chdir` on.
  pub new_info :
      Setup
      → System R
      → List ℕ
      → ℕ
      → Cache (Option (List ℕ)) (Info R)
      → Cache (Option (List ℕ)) (Info R) × Validated
  new_info setup sys work st_mtime cache =
      if not (sys.chdir work)
      then (cache, refused (codes "Can't change directory"))
      else elim (sys.getcwd work) [
        | none ↦ (cache, refused (codes "Can't get current directory"))
        | some realname ↦
            let newdir : Info R = record {
              realname = some realname;
              rights = sys.load_access_rights work;
              mtime = if setup.use_directory_mtime then st_mtime else setup.cur_time;
              lastcheck = setup.cur_time;
            } in
            let (cache', i) = f_cache_put stat_ops cache (some work) newdir in
            if setup.homedir_restricted && not (is_prefix setup.home_dir realname)
            then (cache, refused (codes "Not following link out of restricted area"))
            else (cache', accepted i)
      ]

  -- A directory that is in the cache, and has to be checked again.
  pub recheck :
      Setup
      → System R
      → List ℕ
      → ℕ
      → Info R
      → ℕ
      → Cache (Option (List ℕ)) (Info R)
      → Cache (Option (List ℕ)) (Info R) × Validated
  recheck setup sys work i di st_mtime cache =
      if setup.use_directory_mtime && st_mtime == di.mtime
      then (
        record cache { entries = set cache.entries i (record di { lastcheck = setup.cur_time }) },
        accepted i,
      )
      else new_info setup sys work st_mtime
          (f_cache_delete_entry stat_ops cache (some (i * cache.entrysize))).0

  -- From the call of `stat` on, with the entry that was found, if one was.
  pub check_directory :
      Setup
      → System R
      → List ℕ
      → Option (ℕ × Info R)
      → Cache (Option (List ℕ)) (Info R)
      → Cache (Option (List ℕ)) (Info R) × Validated
  check_directory setup sys work hit cache = elim (sys.stat work) [
    | none ↦ (cache, refused (codes "No such directory"))
    | some (is_directory, st_mtime) ↦
        if not is_directory then (cache, refused (codes "Not a directory")) else elim hit [
          | none ↦ new_info setup sys work st_mtime cache
          | some (i, di) ↦ recheck setup sys work i di st_mtime cache
        ]
  ]

  -- With an entry that the search has found.
  pub check_found :
      Setup
      → System R
      → List ℕ
      → ℕ
      → Cache (Option (List ℕ)) (Info R)
      → Cache (Option (List ℕ)) (Info R) × Validated
  check_found setup sys work i c = elim (get_elem? c.entries i) [
    | none ↦ (c, refused [])
    | some di ↦
        if ltb setup.cur_time (di.lastcheck + setup.stat_cache_timeout)
        then (c, accepted i)
        else check_directory setup sys work (some (i, di)) c
  ]

  -- `validate_path` from the search in the cache on.
  pub validate_directory :
      Setup
      → System R
      → List ℕ
      → Cache (Option (List ℕ)) (Info R)
      → Cache (Option (List ℕ)) (Info R) × Validated
  validate_directory setup sys work cache =
      let (c, found) = f_cache_find stat_ops cache (some work) in
      elim found [
        | none ↦ check_directory setup sys work none c
        | some i ↦ check_found setup sys work i c
      ]

  -- `validate_path`, with the texts of the parser's errors. The parser reads within its bytes.
  pub validate_path :
      (Error → List ℕ)
      → Setup
      → System R
      → List ℕ
      → ℕ
      → Bool
      → Cache (Option (List ℕ)) (Info R)
      → Cache (Option (List ℕ)) (Info R) × Validated
  validate_path parse_error setup sys fullp lenfullp want_directory cache =
      elim (parse_path fullp lenfullp) [
        | parsed buf pp ↦ validate_directory setup sys (work_of buf pp want_directory) cache
        | error e ↦ (cache, refused (parse_error e))
        | out_of_bounds ↦ (cache, refused [])
      ]
