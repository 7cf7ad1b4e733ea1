-- ===== src/Listing/Tests.antt =====
-- A directory of two files whose entries take two blocks of 64 bytes.
use fsp.Base.{ℕ, ◌≡◌, refl, List, [], ◌∷◌, ◌++◌, replicate, some, none, codes, arith}
use fsp.Packet.{space}
use fsp.Listing.{
  is_regular, is_other, Dirent, Entry, rdtype_file, rdtype_skip, entry_bytes, build_dir_listing,
}
use fsp.Listing.Layout.{Listing}
use fsp.Listing.Build.{shown, AreNames, build_dir_listing-Listing}

abbrev first_name : List ℕ
first_name = codes "thirty-characters-of-file-name"

abbrev second_name : List ℕ
second_name = codes "another-thirty-characters.name"

abbrev file_named : List ℕ → Dirent
file_named name = record {
  d_ino = 7;
  d_name = name;
  stat = some (record { kind = is_regular; st_mtime = 1000; st_size = 5000000000 });
}

-- Two files, a pipe between them, and a hidden name.
abbrev pub two_files : List Dirent
two_files =
    file_named first_name
    ∷ record {
      d_ino = 8;
      d_name = codes "pipe";
      stat = some (record { kind = is_other; st_mtime = 0; st_size = 0 });
    }
    ∷ record { d_ino = 9; d_name = codes ".hidden"; stat = none }
    ∷ file_named second_name
    ∷ []

abbrev entry_named : List ℕ → Entry
entry_named name = record { time = 1000; size = 4294967295; type = rdtype_file; name = name }

abbrev pub zero_stack : List ℕ
zero_stack = replicate space 0

abbrev pub two_blocks : List ℕ
two_blocks =
    entry_bytes (entry_named first_name)
    ++ (replicate 24 rdtype_skip
        ++ (entry_bytes (entry_named second_name) ++ (replicate 8 rdtype_skip ++ (0 ∷ []))))

pub two_blocks_built : build_dir_listing zero_stack 64 two_files ≡ some two_blocks
unfolding build_dir_listing
two_blocks_built = refl

pub two_files-AreNames : AreNames 64 two_files
two_files-AreNames = omega arith

build_dir_listing-Listing_example :
    (l : List ℕ) × (build_dir_listing zero_stack 64 two_files ≡ some l)
    × Listing 64 l (shown two_files)
build_dir_listing-Listing_example =
    build_dir_listing-Listing zero_stack 64 two_files refl (omega arith) refl two_files-AreNames
