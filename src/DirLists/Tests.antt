-- ===== src/DirLists/Tests.antt =====
-- Requests for one directory.
use fsp.Base.{ℕ, ◌≡◌, ◌<◌, refl, List, [], ◌∷◌, some, none, codes, true, arith, length}
use fsp.FifoCache.Inv.{blank, blank-Inv}
use fsp.FifoCache.Each.{blank-Each}
use fsp.DirLists.{Listings, Directory, list_ops, written, keep_listing, server_get_dir}
use fsp.DirLists.Fresh.{IsGood, AllGood, Gets, server_get_dir-Gets}

abbrev dir : Directory
dir = record {
  stat_list = none;
  open_list = none;
  build = some (1 ∷ 2 ∷ 3 ∷ []);
  write_list = λ l. some 2;
}

-- Listings that are not empty.
abbrev Some : List ℕ → List ℕ → Type 0
Some realname l = 0 < length l

abbrev empty : Listings
empty = blank list_ops 4 8 8

server_get_dir-Gets_example :
    let out = server_get_dir true 1000 dir (codes "/srv/fsp/pub") 900 empty in
    AllGood Some out.0 × Gets Some (codes "/srv/fsp/pub") 900 out.0 out.1.0
server_get_dir-Gets_example =
    server_get_dir-Gets Some true 1000 dir (codes "/srv/fsp/pub") 900
      ((λ l e. ground (arith, e)), (λ t n l e o h. cc)) (omega arith) empty
      (
        blank-Inv list_ops 4 8 8 (omega arith) (omega arith) (omega arith),
        blank-Each list_ops (IsGood Some) 4 8 8 tt,
      )

-- A file that was written in part is kept.
part_kept : keep_listing dir (1 ∷ 2 ∷ 3 ∷ []) ≡ written (1 ∷ 2 ∷ [])
unfolding keep_listing
part_kept = refl
