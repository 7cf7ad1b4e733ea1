-- ===== src/DirReader.antt =====
-- The directory reader of client/util.c: `get_dir_blk`, which asks for a listing piece by piece and
-- takes the entries out of its blocks.
pub mod Entries
pub mod Refill
pub mod Whole
pub mod Served
pub mod Passes
mod Tests
use fsp.Base.{
  ℕ, zero, suc, ◌+◌, ◌-◌, ◌*◌, Bool, true, false, not, ◌||◌, ◌&&◌, List, [], ◌∷◌, ◌++◌, length,
  take, drop, get_elem?, leb, ltb, ◌==◌, if◌then◌else◌, Option, none, some,
}
use fsp.Packet.{Packet, read2}
use fsp.Listing.{rdhsize, rdtype_end, rdtype_skip, padding}

-- UBUF_MAXSPACE and NBSIZE.
abbrev pub ubuf_maxspace : ℕ
ubuf_maxspace = 4380

abbrev pub nbsize : ℕ
nbsize = ubuf_maxspace + 1024

-- An RDIRENT as the reader copies it: the bytes before the name, and the name.
pub record Rdirent : Type 0 where
  pub header : List ℕ
  pub name : List ℕ

-- A C string at the front of some bytes, and the bytes after its terminator.
pub c_string : List ℕ → Option (List ℕ × List ℕ)
c_string [] = none
c_string (c ∷ cs) =
    let rest = c_string cs in
    if c == 0 then some ([], cs) else elim rest [ none ↦ none | some (s, r) ↦ some (c ∷ s, r) ]

-- The copy of the entry at the front of the bytes, which stand at `off` in the buffer: the entry, how
-- far it reaches with its padding, and the bytes after it.
pub copy_entry : ℕ → List ℕ → Option (Rdirent × (ℕ × List ℕ))
unfolding c_string
copy_entry off bytes = elim (c_string (drop rdhsize bytes)) [
  | none ↦ none
  | some (name, rest) ↦
      let n = length name + 1 + rdhsize in
      let pad = padding (off + n) in
      some (record { header = take rdhsize bytes; name = name }, (n + pad, drop pad rest))
]

-- What a step of the two loops over a block comes to: the bytes end, the block does, or the listing,
-- or there is another entry.
pub data Seen : Type 0 where
  missing end_of_block end_of_listing another : Seen

pub look : ℕ → List ℕ → Seen
look rem bytes = if ltb rem rdhsize then end_of_block else elim (get_elem? bytes 8) [
  | none ↦ missing
  | some type ↦
      if type == rdtype_skip
      then end_of_block
      else if type == rdtype_end
      then end_of_listing
      else another
]

-- The first loop: the number of entries, the END entry with them, and the bytes that they take.
pub count_entries : ℕ → ℕ → ℕ → List ℕ → Option (ℕ × ℕ)
unfolding look copy_entry
count_entries zero off rem bytes = none
count_entries (suc fuel) off rem bytes = elim (look rem bytes) [
  | missing ↦ none
  | end_of_block ↦ some (0, off)
  | end_of_listing ↦ some (1, off)
  | another ↦ elim (copy_entry off bytes) [
    | none ↦ none
    | some (e, (n, rest)) ↦ elim (count_entries fuel (off + n) (rem - n) rest) [
      | none ↦ none
      | some (k, p2) ↦ some (suc k, p2)
    ]
  ]
]

-- The second loop: the entries, and whether the END entry was met. `rem` is only compared with
-- RDHSIZE, so it stops at 0 where the code goes below.
pub copy_entries : ℕ → ℕ → ℕ → List ℕ → Option (List Rdirent × Bool)
unfolding look copy_entry
copy_entries zero off rem bytes = none
copy_entries (suc fuel) off rem bytes = elim (look rem bytes) [
  | missing ↦ none
  | end_of_block ↦ some ([], false)
  | end_of_listing ↦ some ([], true)
  | another ↦ elim (copy_entry off bytes) [
    | none ↦ none
    | some (e, (n, rest)) ↦ elim (copy_entries fuel (off + n) (rem - n) rest) [
      | none ↦ none
      | some (es, ended) ↦ some (e ∷ es, ended)
    ]
  ]
]

-- What reading comes to. `astray` is a step outside of the bytes at hand, or the end of the fuel.
pub data Reading (A : Type 0) : Type 0 where
  finished : A → Reading A
  refused astray : Reading A

-- What a reply brings, of which `none` is CC_ERR.
unfoldable pub reply_bytes : Packet → Option (List ℕ)
unfolding read2
reply_bytes ub = if ub.cmd == 64 then none else some (take (read2 ub.len) ub.body)

-- The variables of the outer loop; the buffer is given by the `acc` bytes that it holds.
pub record Reader : Type 0 where
  pub pos : ℕ
  pub held : List ℕ
  pub at_eof : Bool
  pub dirblocksize : ℕ

-- A reply: the `memcpy` and the changes of the variables.
pub receive : List ℕ → Reader → Reading Reader
receive bytes r =
    let rlen = length bytes in
    if leb (length r.held + rlen) nbsize
    then finished (record {
      pos = r.pos + rlen;
      held = r.held ++ bytes;
      at_eof =
          if r.dirblocksize == 0
          then r.at_eof
          else if ltb rlen r.dirblocksize
          then true
          else r.at_eof;
      dirblocksize = if r.dirblocksize == 0 then rlen else r.dirblocksize;
    })
    else astray

-- The inner loop of requests, with what the server answers to CC_GET_DIR at each position; `none` is
-- an error.
pub refill : ℕ → (ℕ → Option (List ℕ)) → Reader → Reading Reader
unfolding receive
refill zero ask r = astray
refill (suc fuel) ask r = elim (ltb (length r.held) ubuf_maxspace && not r.at_eof) [
  | false ↦ finished r
  | true ↦ elim (ask r.pos) [
    | none ↦ refused
    | some bytes ↦ elim (receive bytes r) [
      | finished r' ↦ refill fuel ask r'
      | refused ↦ refused
      | astray ↦ astray
    ]
  ]
]

-- Every request but one brings a byte, until the buffer has `ubuf_maxspace` of them.
abbrev pub refill_fuel : ℕ
refill_fuel = ubuf_maxspace + 3

-- How much of the buffer is the next block.
pub block_length : Reader → ℕ
block_length r = if leb r.dirblocksize (length r.held) then r.dirblocksize else length r.held

-- The outer loop.
pub read_blocks : ℕ → (ℕ → Option (List ℕ)) → Reader → Reading (List Rdirent)
unfolding refill copy_entries block_length
read_blocks zero ask r = astray
read_blocks (suc fuel) ask r = elim (refill refill_fuel ask r) [
  | refused ↦ refused
  | astray ↦ astray
  | finished r' ↦
      let len = block_length r' in
      elim (copy_entries (suc len) 0 len r'.held) [
        | none ↦ astray
        | some (es, ended) ↦ elim (ended || ltb (length r'.held) r'.dirblocksize) [
          | true ↦ finished es
          | false ↦
              elim (read_blocks fuel ask (record r' { held = drop r'.dirblocksize r'.held })) [
                | finished more ↦ finished (es ++ more)
                | refused ↦ refused
                | astray ↦ astray
              ]
        ]
      ]
]

pub get_dir_blk : ℕ → (ℕ → Option (List ℕ)) → Reading (List Rdirent)
unfolding read_blocks
get_dir_blk fuel ask =
    read_blocks fuel ask (record { pos = 0; held = []; at_eof = false; dirblocksize = 0 })
