-- ===== src/DirReader/Tests.antt =====
-- A client that reads the directory of two blocks from the server.
use fsp.Base.{
  ℕ, ◌≡◌, refl, sym, ◌∙◌, subst, true, false, List, [], ◌∷◌, take, drop, Option, some, codes, arith,
}
use mathlib.Core.Option.{some-injective}
use fsp.Packet.{write2, write4}
use fsp.Dispatch.{Settings, Request}
use fsp.Dispatch.Tests.{counted}
use fsp.Listing.{entry_bytes}
use fsp.Listing.Layout.{Listing}
use fsp.Listing.Build.{shown, build_dir_listing-Listing}
use fsp.Listing.Tests.{two_files, zero_stack, two_blocks, two_blocks_built, two_files-AreNames}
use fsp.DirReader.{Rdirent, finished, count_entries, copy_entries, get_dir_blk}
use fsp.DirReader.Entries.{to_rdirents}
use fsp.DirReader.Passes.{copy_entries-counted}
use fsp.DirReader.Whole.{get_dir_blk-Listing}
use fsp.DirReader.Served.{ask_server, get_dir_blk-served}

abbrev small_packets : Settings
small_packets = record {
  version = codes "2.8.1";
  logging = false;
  read_only = false;
  no_unnamed = false;
  priv_mode = false;
  ver_enabled = true;
  grab_enabled = false;
  permit_passwordless_owners = false;
  maxthcallowed = 0;
  packetsize = 64;
}

abbrev get_dir_request : Request
get_dir_request = record {
  ub = record {
    cmd = 65;
    sum = 0;
    key = write2 7;
    seq = write2 8;
    len = write2 2;
    pos = write4 0;
    body = codes "a";
  };
  inet_num = 16909060;
  port_num = 5000;
  old = false;
  stale = λ i. 0;
}

get_dir_blk-served_example :
    get_dir_blk 200 (ask_server counted small_packets get_dir_request two_blocks)
    ≡ finished (to_rdirents (shown two_files))
unfolding entry_bytes
get_dir_blk-served_example =
    get_dir_blk-served counted small_packets get_dir_request zero_stack two_files two_blocks 200
      (λ e. absurd (omega (arith, e))) refl (omega arith) refl two_files-AreNames two_blocks_built
      (omega arith) (omega arith)

two_blocks-Listing : Listing 64 two_blocks (shown two_files)
two_blocks-Listing =
    let (l, q, v) =
      build_dir_listing-Listing zero_stack 64 two_files refl (omega arith) refl
        two_files-AreNames in
    subst (λ (x : List ℕ). Listing 64 x (shown two_files))
      (some-injective l two_blocks (sym q ∙ two_blocks_built)) v

abbrev ask_slices : ℕ → Option (List ℕ)
ask_slices at = some (take 64 (drop at two_blocks))

slices_read : get_dir_blk 200 ask_slices ≡ finished (to_rdirents (shown two_files))
unfolding entry_bytes
slices_read =
    get_dir_blk-Listing 64 two_blocks (shown two_files) ask_slices 200 (omega arith)
      two_blocks-Listing (record { answer = λ at i s. refl }) (omega arith)

abbrev first_rdirent : Rdirent
first_rdirent = record { header = take 9 two_blocks; name = codes "thirty-characters-of-file-name" }

first_copied : copy_entries 5 0 64 two_blocks ≡ some (first_rdirent ∷ [], false)
unfolding copy_entries entry_bytes
first_copied = refl

first_block_counted : count_entries 5 0 64 two_blocks ≡ some (1, 40)
first_block_counted = copy_entries-counted 5 0 64 two_blocks (first_rdirent ∷ []) false first_copied
