-- ===== src/FileOps/Remove.antt =====
-- `server_del_file` and `server_rename` of server/file.c, with the times that they set in the record of
-- the directory.
use fsp.Base.{
  arith, ℕ, ◌≡◌, ◌≢◌, refl, Bool, true, inl, inr, List, if◌then◌else◌, Option, none, some,
  Bool-cases, Option-cases, codes,
}
use mathlib.Core.Option.{some-ne-none}
use fsp.Listing.{FileKind, is_directory, is_regular, is_other}
use fsp.Validate.{Info}
use fsp.FileOps.{regular, special, System, Laws}

-- `di->mtime=cur_time; di->lastcheck=cur_time;`
unfoldable pub updated : {R : Type 0} → ℕ → Info R → Info R
updated cur_time di = record di { mtime = cur_time; lastcheck = cur_time }

module _ {W R : Type 0} (s : System W) where
  -- `server_del_file`; a directory is a special node.
  pub server_del_file : ℕ → List ℕ → Info R → W → (W × Info R) × Option (List ℕ)
  unfolding updated
  server_del_file cur_time fullp di w = elim (s.stat w fullp) [
    | none ↦ ((w, di), some (codes "unlink: file not accessible"))
    | some special ↦ ((w, di), some (codes "unlink: not an ordinary file"))
    | some (regular bytes) ↦
        let (w', ok) = s.unlink w fullp in
        if ok
        then ((w', updated cur_time di), none)
        else ((w', di), some (codes "unlink: cannot unlink"))
  ]

  -- A file that has been deleted is gone, the others are as they were, and the directory's record has the
  -- time of the request.
  server_del_file-gone :
      {Apart : List ℕ → List ℕ → Type 0}
      → Laws s Apart
      → (cur_time : ℕ) (fullp q : List ℕ) (di : Info R) (w : W) → Apart q fullp
      → (server_del_file cur_time fullp di w).1 ≡ none
      → let (w', di') = (server_del_file cur_time fullp di w).0 in
        (s.stat w' fullp ≡ none) × (s.stat w' q ≡ s.stat w q) × (di'.mtime ≡ cur_time)
  unfolding server_del_file updated
  server_del_file-gone laws cur_time fullp q di w ne ok = elim (Option-cases (s.stat w fullp)) [
    | inl none_there ↦ absurd (
        some-ne-none (codes "unlink: file not accessible") (rw (none_there, server_del_file) at ok))
    | inr (special, e) ↦
        absurd (some-ne-none (codes "unlink: not an ordinary file") (rw (e, server_del_file) at ok))
    | inr (regular bytes, e) ↦ elim (Bool-cases (s.unlink w fullp).1) [
      | inr kept ↦
          absurd
            (some-ne-none (codes "unlink: cannot unlink") (rw (e, server_del_file, kept) at ok))
      | inl gone ↦
          rw (e, server_del_file, gone)
            (laws.unlink_gone w fullp gone, laws.unlink_other w fullp q ne, refl)
    ]
  ]

-- What `server_rename` asks of the system.
pub record Renaming (W : Type 0) : Type 0 where
  pub stat : W → List ℕ → Option FileKind
  pub rename : W → List ℕ → List ℕ → W × Bool

module _ {W R : Type 0} (s : Renaming W) where
  -- `server_rename` from the comparison of the two directories on.
  pub rename_within : ℕ → List ℕ → List ℕ → Info R → Bool → W → (W × Info R) × Option (List ℕ)
  rename_within cur_time src dest sdir same_directory w =
      let (w', ok) = s.rename w src dest in
      if same_directory
      then if ok
        then ((w', updated cur_time sdir), none)
        else ((w', sdir), some (codes "Rename failed"))
      else ((w, sdir), some (codes "Cross-directory renames are not implemented yet."))

  -- `server_rename` from the exploring of the target on.
  pub explore_target : ℕ → List ℕ → List ℕ → Info R → Bool → W → (W × Info R) × Option (List ℕ)
  explore_target cur_time src dest sdir same_directory w = elim (s.stat w dest) [
    | none ↦ rename_within cur_time src dest sdir same_directory w
    | some is_other ↦ ((w, sdir), some (codes "Refusing to operate on special files"))
    | some is_directory ↦ rename_within cur_time src dest sdir same_directory w
    | some is_regular ↦ rename_within cur_time src dest sdir same_directory w
  ]

  -- `server_rename`, with whether the two records of directories are one.
  pub server_rename : ℕ → List ℕ → List ℕ → Info R → Bool → W → (W × Info R) × Option (List ℕ)
  server_rename cur_time src dest sdir same_directory w = elim (s.stat w src) [
    | none ↦ ((w, sdir), some (codes "can't find source file or directory"))
    | some is_other ↦ ((w, sdir), some (codes "Refusing to operate on special files"))
    | some is_directory ↦ explore_target cur_time src dest sdir same_directory w
    | some is_regular ↦ explore_target cur_time src dest sdir same_directory w
  ]

  -- A renaming that succeeds is one within a directory, of no special file and onto none; it is the
  -- system's renaming, and the directory's record has the time of the request.
  server_rename-renamed :
      (cur_time : ℕ) (src dest : List ℕ) (sdir : Info R) (same_directory : Bool) (w : W)
      → (server_rename cur_time src dest sdir same_directory w).1 ≡ none
      → (same_directory ≡ true)
        × (s.stat w src ≢ none)
        × (s.stat w src ≢ some is_other)
        × (s.stat w dest ≢ some is_other)
        × ((s.rename w src dest).1 ≡ true)
        × ((server_rename cur_time src dest sdir same_directory w).0
            ≡ ((s.rename w src dest).0, updated cur_time sdir))
  unfolding server_rename explore_target rename_within
  server_rename-renamed cur_time src dest sdir same_directory w ok = ground arith
