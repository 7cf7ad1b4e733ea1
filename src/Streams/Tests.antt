-- ===== src/Streams/Tests.antt =====
-- Two requests for a file.
use fsp.Base.{refl, List, [], some, codes, arith}
use fsp.Listing.{is_regular}
use fsp.FifoCache.Each.{blank-Each}
use fsp.FifoCache.Inv.{blank, blank-Inv}
use fsp.Streams.{Streams, Calls, fp_ops, server_get_file}
use fsp.Streams.Own.{Grant, Kept, Given, Extends, Own, server_get_file-Given}

abbrev sys : Calls
sys = record { stat = λ path. some is_regular; fopen = λ path. some 7 }

abbrev empty : Streams
empty = blank fp_ops 4 16 8

empty-Kept : Kept [] empty
empty-Kept = record {
  inv = blank-Inv fp_ops 4 16 8 (omega arith) (omega arith) (omega arith);
  own = blank-Each fp_ops (Own []) 4 16 8 tt;
  ledger = λ x. refl;
  once = λ x. omega arith;
}

server_get_file-Given_example :
    let out =
      server_get_file sys (codes "/srv/fsp/pub") (codes "f") (codes "pub/f") 16777343 2000 empty in
    (log' : List Grant) × Kept log' out.0
    × Given log' 16777343 2000 (codes "/srv/fsp/pub/f") out
    × Extends sys 16777343 2000 (codes "/srv/fsp/pub/f") (codes "pub/f") [] log'
server_get_file-Given_example =
    server_get_file-Given sys (codes "/srv/fsp/pub") (codes "f") (codes "pub/f") 16777343 2000 []
      empty empty-Kept (λ x e. refl)
