-- ===== src/DirStore.antt =====
-- The directories that a client keeps, in client/util.c: `util_opendir`, `util_closedir`,
-- `util_readdir`, `util_stat`, `util_cd` and `util_cd2`. A pointer to a DDLIST is the path of the
-- record, which no other record has.
pub mod Again
pub mod Password
mod Tests
use fsp.Base.{
  ℕ, suc, ◌+◌, ◌-◌, ◌%◌, ◌^◌, Bool, true, false, not, ◌&&◌, List, [], ◌∷◌, length, ◌==◌,
  if◌then◌else◌, Option, none, some, codes,
}
use fsp.Rights.{same_text}
use fsp.Packet.{read4}
use fsp.Listing.{FileStat, is_directory, is_regular, rdtype_dir}
use fsp.StatQuery.{read_stat}
use fsp.DirReader.{Rdirent, Reading, finished, refused, astray, get_dir_blk}
use fsp.AbsPath.{util_abs_path, directory_of, file_of}

-- `DDLIST`; the array is the list of the entries before its NULL.
pub record Folder : Type 0 where
  pub path : List ℕ
  pub dep_root : List Rdirent
  pub ref_cnt : ℕ

-- The variables of the file.
pub record Dirs : Type 0 where
  pub ddroot : List Folder
  pub env_dir : List ℕ
  pub env_passwd : List ℕ
  pub statworks : Bool

-- `RDIR`.
pub record Rdir : Type 0 where
  pub ddp : List ℕ
  pub dep : List Rdirent

-- What the server answers at one time: to CC_GET_DIR for a path and a position, with `none` for an
-- error, and to CC_STAT for a path, with `none` for a reply of another command.
pub record Net : Type 0 where
  pub get_dir : List ℕ → ℕ → Option (List ℕ)
  pub stat : List ℕ → Option (List ℕ)

-- `util_abs_path` in the state of the client; it always returns.
pub abs_path : Dirs → List ℕ → List ℕ
abs_path s path = elim (util_abs_path s.env_dir s.env_passwd path) [
  | none ↦ []
  | some fpath ↦ fpath
]

-- The loop over `ddroot`.
pub find_folder : List ℕ → List Folder → Option Folder
find_folder path [] = none
find_folder path (f ∷ fs) =
    let rest = find_folder path fs in if same_text f.path path then some f else rest

-- A change of the record with a path.
pub change_folder : (Folder → Folder) → List ℕ → List Folder → List Folder
change_folder change path [] = []
change_folder change path (f ∷ fs) =
    let rest = f ∷ change_folder change path fs in
    if same_text f.path path then change f ∷ fs else rest

pub data Opened : Type 0 where
  handle : Dirs → Rdir → Opened
  failed lost : Opened

-- `lost` is a read astray of `get_dir_blk`, or the end of its fuel.
pub util_opendir : ℕ → Net → Dirs → List ℕ → Opened
unfolding find_folder change_folder
util_opendir fuel net s path =
    let fpath = abs_path s path in
    elim (find_folder fpath s.ddroot) [
      | some f ↦
          handle
            (record s {
              ddroot = change_folder (λ f. record f { ref_cnt = f.ref_cnt + 1 }) fpath s.ddroot;
            })
            (record { ddp = fpath; dep = f.dep_root })
      | none ↦ elim (get_dir_blk fuel (net.get_dir (abs_path s fpath))) [
        | refused ↦ failed
        | astray ↦ lost
        | finished dep ↦
            handle
              (record s {
                ddroot = record { path = fpath; dep_root = dep; ref_cnt = 1 } ∷ s.ddroot;
              })
              (record { ddp = fpath; dep = dep })
      ]
    ]

-- The record of an open directory has counted it.
pub util_closedir : Dirs → Rdir → Dirs
util_closedir s r = record s {
  ddroot = change_folder (λ f. record f { ref_cnt = f.ref_cnt - 1 }) r.ddp s.ddroot;
}

pub record Name : Type 0 where
  pub d_namlen : ℕ
  pub d_name : List ℕ

pub util_readdir : Rdir → Rdir × Option Name
util_readdir r = elim r.dep [
  | [] ↦ (r, none)
  | e ∷ rest ↦ (
    record r { dep = rest },
    some (record { d_namlen = length e.name % 2 ^ 16; d_name = e.name }),
  )
]

-- What `util_stat` takes from an entry.
pub entry_stat : List ℕ → FileStat
unfolding read4
entry_stat (t3 ∷ t2 ∷ t1 ∷ t0 ∷ s3 ∷ s2 ∷ s1 ∷ s0 ∷ type ∷ rest) = record {
  kind = if type == rdtype_dir then is_directory else is_regular;
  st_mtime = read4 (record { b3 = t3; b2 = t2; b1 = t1; b0 = t0 });
  st_size = read4 (record { b3 = s3; b2 = s2; b1 = s1; b0 = s0 });
}
entry_stat _ = record { kind = is_regular; st_mtime = 0; st_size = 0 }

pub find_entry : List ℕ → List Rdirent → Option Rdirent
find_entry name [] = none
find_entry name (e ∷ es) =
    let rest = find_entry name es in if same_text e.name name then some e else rest

-- The result of `util_stat`; `missing` is ENOENT.
pub data Statted : Type 0 where
  known : Dirs → FileStat → Statted
  missing : Dirs → Statted
  stray : Statted

-- The part of `util_stat` that reads the listing of a directory.
pub stat_listed : ℕ → Net → Dirs → List ℕ → List ℕ → Statted
unfolding find_entry entry_stat
stat_listed fuel net s ppath pfile = elim (util_opendir fuel net s ppath) [
  | failed ↦ missing s
  | lost ↦ stray
  | handle s' r ↦ elim (find_entry pfile r.dep) [
    | none ↦ missing (util_closedir s' r)
    | some e ↦ known (util_closedir s' r) (entry_stat e.header)
  ]
]

pub util_stat : ℕ → Net → Dirs → List ℕ → Statted
util_stat fuel net s path =
    let fpath = abs_path s path in
    let current = same_text fpath s.env_dir in
    let ppath = if current then fpath else directory_of fpath in
    let pfile = if current then codes "." else file_of fpath in
    let cached : Bool = elim (find_folder ppath s.ddroot) [ none ↦ false | some f ↦ true ] in
    elim (s.statworks && not cached) [
      | false ↦ stat_listed fuel net s ppath pfile
      | true ↦ elim (net.stat fpath) [
        | none ↦ stat_listed fuel net (record s { statworks = false }) ppath pfile
        | some buf ↦ elim (read_stat buf) [ none ↦ missing s | some st ↦ known s st ]
      ]
    ]

-- `util_cd`, and whether it succeeds.
pub util_cd : Net → Dirs → List ℕ → Dirs × Bool
util_cd net s p =
    let fpath = abs_path s p in
    let cached : Bool = elim (find_folder fpath s.ddroot) [ none ↦ false | some f ↦ true ] in
    elim (not cached && (not (same_text p (codes ".")) && not (same_text p (codes "..")))) [
      | false ↦ (record s { env_dir = fpath }, true)
      | true ↦ elim (net.get_dir fpath 0) [
        | none ↦ (s, false)
        | some bytes ↦ (record s { env_dir = fpath }, true)
      ]
    ]

pub util_cd2 : Dirs → List ℕ → Dirs
util_cd2 s p = record s { env_dir = abs_path s p }
