-- ===== src/AccessFiles.antt =====
-- The control files of a directory, in server/acl.c: `load_access_rights` and `save_access_rights`, with
-- `load_password`, `save_password`, and `add_ipline` of server/iprange.c. Control files hold no zero bytes,
-- and those that are there can be opened.
pub mod Saved
mod Tests
use fsp.Base.{
  ℕ, zero, suc, ◌+◌, ◌-◌, Bool, true, false, not, ◌||◌, List, [], ◌∷◌, ◌++◌, length, take, ◌==◌,
  if◌then◌else◌, Option, none, some,
}
use fsp.IpRange.{IpRange, is_space, skip_whitespace, parse_ipline, dump_line}
use fsp.Rights.{
  DirInfo, dir_del, dir_add, dir_mkdir, dir_get, dir_list, dir_rename, has_bit, set_bit, flip_bit,
}

-- The files of one directory by their names: FSP_NOGET and the other flag files, FSP_PASSWORD,
-- FSP_OWNER, FSP_OWNERPASSWORD, FSP_DIRLISTING, and the readme file.
pub record Control : Type 0 where
  pub readme : Option (List ℕ)
  pub no_get : Bool
  pub ok_del : Bool
  pub ok_add : Bool
  pub ok_mkdir : Bool
  pub ok_rename : Bool
  pub no_list : Bool
  pub password : Option (List ℕ)
  pub owner : Option (List ℕ)
  pub owner_password : Option (List ℕ)
  pub dirlisting : Option (List ℕ)

-- DIR_README of include/common_def.h.
abbrev pub dir_readme : ℕ
dir_readme = 32

-- `%79s` of fscanf, once the white space has been skipped.
pub word : ℕ → List ℕ → List ℕ
word zero s = []
word (suc n) [] = []
word (suc n) (c ∷ s) = let rest = c ∷ word n s in if is_space c then [] else rest

-- `load_password`.
pub load_password : Option (List ℕ) → Option (List ℕ)
load_password file = elim file [
  | none ↦ none
  | some content ↦
      let fsp_passwd = word 79 (skip_whitespace content) in
      if length fsp_passwd == 0 then none else some fsp_passwd
]

-- `if(sf.st_size>0)`.
pub load_nonempty : Option (List ℕ) → Option (List ℕ)
load_nonempty file = elim file [
  | none ↦ none
  | some content ↦ if length content == 0 then none else load_password (some content)
]

pub save_password : List ℕ → List ℕ
save_password password = password ++ (b'\n' ∷ [])

-- `%255[^\n\r]` of fscanf: what it stores, and what it leaves.
pub scan_line : ℕ → List ℕ → List ℕ × List ℕ
scan_line zero s = ([], s)
scan_line (suc n) [] = ([], [])
scan_line (suc n) (c ∷ s) =
    let (line, rest) = scan_line n s in
    if c == b'\n' || c == b'\r' then ([], c ∷ s) else (c ∷ line, rest)

module _ (gethostbyname : List ℕ → Option ℕ) where
  -- `add_ipline`; `none` is the write out of bounds to a table with an entry.
  pub add_ipline : List ℕ → List IpRange → Option (List IpRange)
  add_ipline text table = elim (parse_ipline gethostbyname text) [
    | none ↦ some table
    | some nl ↦ elim table [ [] ↦ some (nl ∷ []) | r ∷ rs ↦ none ]
  ]

  -- The loop over the owner file, with one line at hand and then on fuel: each round takes a byte.
  pub owner_line :
      (List ℕ → List IpRange → Option (List IpRange))
      → List ℕ × List ℕ
      → List IpRange
      → Option (List IpRange)
  owner_line next (line, rest) table = elim (length line == 0) [
    | true ↦ some table
    | false ↦ elim (add_ipline line table) [ none ↦ none | some table' ↦ next rest table' ]
  ]

  pub load_owners : ℕ → List ℕ → List IpRange → Option (List IpRange)
  load_owners zero content table = none
  load_owners (suc fuel) content table = owner_line (load_owners fuel) (scan_line 255 content) table

  -- The protection by the flag files.
  pub load_flags : Control → ℕ → ℕ
  unfolding set_bit flip_bit
  load_flags d p0 =
      let p1 = if d.no_get then flip_bit p0 dir_get else p0 in
      let p2 = if d.ok_del then set_bit p1 dir_del else p1 in
      let p3 = if d.ok_add then set_bit p2 dir_add else p2 in
      let p4 = if d.ok_mkdir then set_bit p3 dir_mkdir else p3 in
      let p5 = if d.ok_rename then set_bit p4 dir_rename else p4 in
      if d.no_list then flip_bit p5 dir_list else p5

  -- The part of `load_access_rights` from the opening of the owner file on.
  pub load_owner_file : DirInfo → Option (List ℕ) → Option (List ℕ) → Option DirInfo
  load_owner_file di owner owner_password = elim owner [
    | none ↦ some di
    | some content ↦ elim (load_owners (length content + 1) content []) [
      | none ↦ none
      | some table ↦
          some (record di { owner = table; owner_password = load_nonempty owner_password })
    ]
  ]

  -- The readme file, and what is cleared.
  pub load_readme : ℕ → Control → DirInfo → DirInfo
  load_readme packetsize d di = record di {
    owner = [];
    owner_password = none;
    public_password = none;
    protection = elim d.readme [
      | none ↦ dir_list + dir_get
      | some text ↦ dir_list + dir_get + dir_readme
    ];
    readme = elim d.readme [ none ↦ none | some text ↦ some (take (packetsize - 1 - 1) text) ];
  }

  -- `load_access_rights` with the settings `packetsize` and `use_access_files`, in a directory with the
  -- given files; `none` is the write of `add_ipline` out of bounds.
  pub load_access_rights : ℕ → Bool → Control → DirInfo → Option DirInfo
  load_access_rights packetsize use_access_files d di =
      let cleared = load_readme packetsize d di in
      let flagged = record cleared {
        protection = load_flags d cleared.protection;
        public_password = load_nonempty d.password;
      } in
      if not use_access_files
      then some cleared
      else load_owner_file flagged d.owner d.owner_password

-- `dump_iptab` to a file.
pub dump_iptab : List IpRange → List ℕ
dump_iptab [] = []
dump_iptab (r ∷ rs) = dump_line r ++ (b'\n' ∷ dump_iptab rs)

-- `save_access_rights`; every file can be written.
pub save_access_rights : Bool → DirInfo → Control → Control
unfolding save_password dump_iptab
save_access_rights use_access_files di d =
    if not use_access_files
    then record {
      readme = d.readme;
      no_get = false;
      ok_del = false;
      ok_add = false;
      ok_mkdir = false;
      ok_rename = false;
      no_list = false;
      password = none;
      owner = none;
      owner_password = none;
      dirlisting = none;
    }
    else record {
      readme = d.readme;
      no_get = not (has_bit di.protection dir_get);
      ok_del = has_bit di.protection dir_del;
      ok_add = has_bit di.protection dir_add;
      ok_mkdir = has_bit di.protection dir_mkdir;
      ok_rename = has_bit di.protection dir_rename;
      no_list = not (has_bit di.protection dir_list);
      password = elim di.public_password [ none ↦ none | some p ↦ some (save_password p) ];
      owner = elim di.owner [ [] ↦ none | r ∷ rs ↦ some (dump_iptab (r ∷ rs)) ];
      owner_password = elim di.owner_password [ none ↦ none | some p ↦ some (save_password p) ];
      dirlisting = none;
    }
