-- ===== src/Streams.antt =====
-- The streams of open files, `fpcache` of server/file.c: `search_fpcache` and `server_get_file`.
pub mod Own
mod Tests
use fsp.Base.{
  ℕ, zero, suc, ◌+◌, ◌%◌, ◌^◌, Bool, true, false, ◌&&◌, List, [], ◌∷◌, ◌++◌, get_elem?, ◌==◌,
  if◌then◌else◌, Option, none, some, codes,
}
use fsp.Rights.{same_text}
use fsp.Listing.{FileKind, is_directory, is_regular, is_other}
use fsp.FifoCache.{Cache, Ops, f_cache_put}
use fsp.Validate.{string_compare}

-- `FPCACHE` of include/server_def.h. A stream is a number, and NULL is `none`.
pub record Stream : Type 0 where
  pub inet_num : ℕ
  pub port_num : ℕ
  pub fp : Option ℕ

abbrev pub Streams : Type 0
Streams = Cache (Option (List ℕ)) Stream

-- `string_free`, `fpcache_free_entry`, `string_compare`, and zeroed memory.
abbrev pub fp_ops : Ops (Option (List ℕ)) Stream
fp_ops = record {
  k_destroy = true;
  e_destroy = true;
  compare = some string_compare;
  k_zero = none;
  e_zero = record { inet_num = 0; port_num = 0; fp = none };
}

-- The loop of `search_fpcache` from the index `i` on. A record that has no key is passed over: only a
-- client with the address 0 and the port 0 meets one, and there the code reads through NULL.
pub search_from : ℕ → ℕ → List ℕ → List (Option (List ℕ)) → List Stream → ℕ → Option ℕ
search_from inet_num port_num fname (k ∷ ks) (e ∷ es) i =
    let later = search_from inet_num port_num fname ks es (i + 1) in
    if port_num == e.port_num && (inet_num == e.inet_num && string_compare (some fname) k)
    then some i
    else later
search_from inet_num port_num fname _ _ i = none

pub search_fpcache : ℕ → ℕ → List ℕ → Streams → Streams × Option ℕ
search_fpcache inet_num port_num fname c =
    elim (search_from inet_num port_num fname c.keys c.entries 0) [
      | some i ↦ (record c { hit = (c.hit + 1) % 2 ^ 32 }, some i)
      | none ↦ (record c { miss = (c.miss + 1) % 2 ^ 32 }, none)
    ]

-- What `stat` says of a path, and the stream that `fopen` gives, at the time of a request.
pub record Calls : Type 0 where
  pub stat : List ℕ → Option FileKind
  pub fopen : List ℕ → Option ℕ

-- An error text, or the stream.
pub data Got : Type 0 where
  failed : List ℕ → Got
  got : Option ℕ → Got

-- A file that is opened and put into the cache.
pub open_new : Calls → List ℕ → List ℕ → ℕ → ℕ → Streams → Streams × Got
open_new sys realfn fullp inet_num port_num c = elim (sys.fopen fullp) [
  | none ↦ (c, failed (codes "Can't open file"))
  | some fp ↦
      let newfile : Stream = record { inet_num = inet_num; port_num = port_num; fp = some fp } in
      ((f_cache_put fp_ops c (some realfn) newfile).0, got (some fp))
]

-- `server_get_file` after the search.
pub serve_stream : Calls → List ℕ → List ℕ → ℕ → ℕ → Streams × Option ℕ → Streams × Got
serve_stream sys realfn fullp inet_num port_num (c, some i) = elim (get_elem? c.entries i) [
  | none ↦ (c, failed [])
  | some e ↦ (c, got e.fp)
]
serve_stream sys realfn fullp inet_num port_num (c, none) = elim (sys.stat realfn) [
  | none ↦ (c, failed (codes "No such file"))
  | some is_directory ↦ (c, failed (codes "Is a directory"))
  | some is_other ↦ (c, failed (codes "Not a regular file"))
  | some is_regular ↦ open_new sys realfn fullp inet_num port_num c
]

pub server_get_file : Calls → List ℕ → List ℕ → List ℕ → ℕ → ℕ → Streams → Streams × Got
server_get_file sys realname f_ptr fullp inet_num port_num cache =
    let realfn = realname ++ b'/' ∷ f_ptr in
    serve_stream sys realfn fullp inet_num port_num (search_fpcache inet_num port_num realfn cache)
