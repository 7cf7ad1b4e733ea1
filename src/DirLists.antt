-- ===== src/DirLists.antt =====
-- `server_get_dir` of server/file.c: the cache `dirlistcache` of listings, and the file in which a listing
-- may be kept in its directory.
pub mod Fresh
mod Tests
use fsp.Base.{
  ℕ, ◌+◌, ◌*◌, Bool, true, false, not, ◌&&◌, List, [], ◌∷◌, length, take, get_elem?, ltb, leb, ◌==◌,
  if◌then◌else◌, Option, none, some, codes,
}
use fsp.FifoCache.{Cache, Ops, f_cache_put, f_cache_find, f_cache_delete_entry}
use fsp.Validate.{string_compare}

-- `DIRLISTING` of include/server_def.h; the size is the length of the listing.
pub record DirListing : Type 0 where
  pub listing : Option (List ℕ)
  pub mtime : ℕ

abbrev pub Listings : Type 0
Listings = Cache (Option (List ℕ)) DirListing

-- `string_free`, `dirlistcache_free_entry`, `string_compare`, and zeroed memory.
abbrev pub list_ops : Ops (Option (List ℕ)) DirListing
list_ops = record {
  k_destroy = true;
  e_destroy = true;
  compare = some string_compare;
  k_zero = none;
  e_zero = record { listing = none; mtime = 0 };
}

-- What the directory is like at the time of a request: the time and size of the file FSP_DIRLISTING,
-- if `stat` finds it; its bytes, if it can be opened; what `build_dir_listing` makes; and how many bytes
-- of a listing `fwrite` brings to the file, if it can be opened for that.
pub record Directory : Type 0 where
  pub stat_list : Option (ℕ × ℕ)
  pub open_list : Option (List ℕ)
  pub build : Option (List ℕ)
  pub write_list : List ℕ → Option ℕ

-- What becomes of the file.
pub data Change : Type 0 where
  untouched unlinked : Change
  written : List ℕ → Change

-- The text of an error, or the index of the listing in the cache.
pub data Listed : Type 0 where
  failed : List ℕ → Listed
  in_cache : ℕ → Listed

-- The listing of the file, if it is not older than the directory and is read whole.
pub prebuilt : Directory → ℕ → Option DirListing
prebuilt dir di_mtime = elim dir.stat_list [
  | none ↦ none
  | some (st_mtime, st_size) ↦ elim dir.open_list [
    | none ↦ none
    | some content ↦
        if leb di_mtime st_mtime && leb st_size (length content)
        then some (record { listing = some (take st_size content); mtime = st_mtime })
        else none
  ]
]

-- The attempt to write the file; any number of bytes but 0 passes for success.
pub keep_listing : Directory → List ℕ → Change
keep_listing dir listing = elim (dir.write_list listing) [
  | none ↦ unlinked
  | some n ↦ if n == 0 then unlinked else written (take n listing)
]

pub new_listing :
    Bool → ℕ → Directory → List ℕ → Option DirListing → Listings → Listings × (Listed × Change)
unfolding keep_listing
new_listing use_prebuild_dirlists cur_time dir realname (some dlnew) c =
    let (c', i) = f_cache_put list_ops c (some realname) dlnew in (c', (in_cache i, untouched))
new_listing use_prebuild_dirlists cur_time dir realname none c = elim dir.build [
  | none ↦ (c, (failed (codes "Server can't list directory"), untouched))
  | some listing ↦
      let (c', i) =
        f_cache_put list_ops c (some realname)
          (record { listing = some listing; mtime = cur_time }) in
      (c', (in_cache i, (if use_prebuild_dirlists then keep_listing dir listing else untouched)))
]

-- `server_get_dir` after the search: a listing that is older than the directory is thrown out.
pub serve_listing :
    Bool → ℕ → Directory → List ℕ → ℕ → Listings × Option ℕ → Listings × (Listed × Change)
serve_listing use_prebuild_dirlists cur_time dir realname di_mtime (c, none) =
    new_listing use_prebuild_dirlists cur_time dir realname
      (if use_prebuild_dirlists then prebuilt dir di_mtime else none) c
serve_listing use_prebuild_dirlists cur_time dir realname di_mtime (c, some i) =
    elim (get_elem? c.entries i) [
      | none ↦ (c, (failed [], untouched))
      | some dl ↦
          if ltb dl.mtime di_mtime
          then new_listing use_prebuild_dirlists cur_time dir realname
              (if use_prebuild_dirlists then prebuilt dir di_mtime else none)
              (f_cache_delete_entry list_ops c (some (i * c.entrysize))).0
          else (c, (in_cache i, untouched))
    ]

pub server_get_dir : Bool → ℕ → Directory → List ℕ → ℕ → Listings → Listings × (Listed × Change)
server_get_dir use_prebuild_dirlists cur_time dir realname di_mtime cache =
    serve_listing use_prebuild_dirlists cur_time dir realname di_mtime
      (f_cache_find list_ops cache (some realname))
