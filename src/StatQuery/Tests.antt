-- ===== src/StatQuery/Tests.antt =====
-- A query for a directory, at a server that has not looked at it yet.
use fsp.Base.{[], ◌∷◌, ◌++◌, codes}
use fsp.Packet.{Packet}
use fsp.Listing.{FileStat, is_directory}

abbrev a_directory : FileStat
a_directory = record { kind = is_directory; st_mtime = 900; st_size = 4096 }

-- CC_STAT of "pub".
abbrev query : Packet
query = record {
  cmd = 77;
  sum = 0;
  key = record { hi = 0; lo = 7 };
  seq = record { hi = 0; lo = 8 };
  len = record { hi = 0; lo = 4 };
  pos = record { b3 = 0; b2 = 0; b1 = 0; b0 = 0 };
  body = codes "pub" ++ 0 ∷ [];
}
