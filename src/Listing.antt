-- ===== src/Listing.antt =====
-- Directory listings: the layout of include/common_def.h (RDIRENT), and `append_dir_listing` and
-- `build_dir_listing` of server/file.c, which cut a listing into blocks.
pub mod Layout
pub mod Build
pub mod Tests
use fsp.Base.{
  ℕ, ◌+◌, ◌-◌, ◌%◌, ◌^◌, Bool, true, false, not, ◌||◌, ◌&&◌, List, [], ◌∷◌, ◌++◌, length, take,
  drop, replicate, leb, ltb, ◌==◌, if◌then◌else◌, Option, none, some,
}
use fsp.Packet.{write4, space}

-- RDHSIZE and the types of an entry.
abbrev pub rdhsize : ℕ
rdhsize = 9

abbrev pub rdtype_end : ℕ
rdtype_end = 0

abbrev pub rdtype_file : ℕ
rdtype_file = 1

abbrev pub rdtype_dir : ℕ
rdtype_dir = 2

abbrev pub rdtype_skip : ℕ
rdtype_skip = 42

-- The kinds of file that `stat` tells apart here.
pub data FileKind : Type 0 where
  is_directory is_regular is_other : FileKind

pub record FileStat : Type 0 where
  pub kind : FileKind
  pub st_mtime : ℕ
  pub st_size : ℕ

-- What `readdir` gives, with the answer of `stat` for the name, if it has one.
pub record Dirent : Type 0 where
  pub d_ino : ℕ
  pub d_name : List ℕ
  pub stat : Option FileStat

-- An entry of the listing. Its name has no terminator here.
pub record Entry : Type 0 where
  pub time : ℕ
  pub size : ℕ
  pub type : ℕ
  pub name : List ℕ

abbrev pub four_gigs : ℕ
four_gigs = 2 ^ 32 - 1

-- A name that starts with a dot, and is not "." or "..".
pub is_hidden : List ℕ → Bool
is_hidden (c ∷ []) = false
is_hidden (c ∷ d ∷ []) = c == b'.' && not (d == b'.')
is_hidden (c ∷ d ∷ e ∷ s) = c == b'.'
is_hidden [] = false

-- The type of an entry; other files are not listed.
abbrev pub rdtype_of : FileKind → Option ℕ
rdtype_of is_directory = some rdtype_dir
rdtype_of is_regular = some rdtype_file
rdtype_of is_other = none

-- The records that `build_dir_listing` passes over, and what it lists of the others.
pub listed : Dirent → Option Entry
unfolding is_hidden
listed dp =
    let shown : Option Entry = elim dp.stat [
      | none ↦ none
      | some sb ↦ elim (rdtype_of sb.kind) [
        | none ↦ none
        | some type ↦ some (record {
          time = sb.st_mtime;
          size = if ltb four_gigs sb.st_size then four_gigs else sb.st_size;
          type = type;
          name = dp.d_name;
        })
      ]
    ] in
    if dp.d_ino == 0 then none else if is_hidden dp.d_name then none else shown

abbrev pub word_bytes : ℕ → List ℕ
word_bytes a = let q = write4 a in q.b3 ∷ q.b2 ∷ q.b1 ∷ q.b0 ∷ []

-- The bytes of an entry with the terminator of its name.
unfoldable pub entry_bytes : Entry → List ℕ
entry_bytes e = word_bytes e.time ++ (word_bytes e.size ++ (e.type ∷ (e.name ++ (0 ∷ []))))

-- The listing so far, and the block that is being built: its buffer, the position and what is left.
pub record Builder : Type 0 where
  pub listing : List ℕ
  pub buffer : List ℕ
  pub bufpos : ℕ
  pub rem : ℕ

-- A copy of bytes into the buffer; `none` is a write past its end.
pub write_at : List ℕ → ℕ → List ℕ → Option (List ℕ)
write_at buffer i bytes =
    if leb (i + length bytes) (length buffer)
    then some (take i buffer ++ (bytes ++ drop (i + length bytes) buffer))
    else none

-- An unsigned subtraction.
abbrev pub sub_u : ℕ → ℕ → ℕ
sub_u a b = (a + 2 ^ 32 - b) % 2 ^ 32

-- `memset` of the rest of the block, and `append_dir_listing` of the whole; `realloc` succeeds.
pub flush : ℕ → Builder → Option Builder
unfolding write_at
flush dirblocksize b = elim (write_at b.buffer b.bufpos (replicate b.rem rdtype_skip)) [
  | none ↦ none
  | some buffer ↦ some (record {
    listing = b.listing ++ take dirblocksize buffer;
    buffer = buffer;
    bufpos = 0;
    rem = dirblocksize;
  })
]

-- The bytes from the end of an entry of `n` bytes to the next multiple of 4.
abbrev pub padding : ℕ → ℕ
padding n = if n % 4 == 0 then 0 else 4 - n % 4

-- The copy of an entry, with the padding.
pub put_entry : Entry → Builder → Option Builder
unfolding write_at entry_bytes
put_entry e b =
    let n = length e.name + 1 + rdhsize in
    elim (write_at b.buffer b.bufpos (entry_bytes e)) [
      | none ↦ none
      | some buffer ↦ some (record b {
        buffer = buffer;
        bufpos = b.bufpos + n + padding n;
        rem = sub_u (sub_u b.rem n) (padding n);
      })
    ]

-- One round of the loop that lists an entry.
pub add_entry : ℕ → Entry → Builder → Option Builder
unfolding flush put_entry
add_entry dirblocksize e b =
    if ltb b.rem (rdhsize + (length e.name + 1))
    then elim (flush dirblocksize b) [ none ↦ none | some b' ↦ put_entry e b' ]
    else put_entry e b

pub add_all : ℕ → List Dirent → Builder → Option Builder
unfolding listed add_entry
add_all dirblocksize [] b = some b
add_all dirblocksize (dp ∷ dps) b = elim (listed dp) [
  | none ↦ add_all dirblocksize dps b
  | some e ↦ elim (add_entry dirblocksize e b) [
    | none ↦ none
    | some b' ↦ add_all dirblocksize dps b'
  ]
]

-- The END entry: only its type is written, over what is in the buffer.
pub put_end : Builder → Option (List ℕ)
unfolding write_at
put_end b = elim (write_at b.buffer (b.bufpos + 8) (rdtype_end ∷ [])) [
  | none ↦ none
  | some buffer ↦ some (b.listing ++ take (b.bufpos + 9) buffer)
]

pub finish : ℕ → Builder → Option (List ℕ)
unfolding flush put_end
finish dirblocksize b =
    if ltb b.rem rdhsize
    then elim (flush dirblocksize b) [ none ↦ none | some b' ↦ put_end b' ]
    else put_end b

-- The size of a block: the packet's, but no more than 1024.
abbrev pub dir_block_size : ℕ → ℕ
dir_block_size packetsize = if ltb space packetsize then space else packetsize

-- `build_dir_listing` of a directory that can be opened, with the 1024 bytes that the stack holds.
pub build_dir_listing : List ℕ → ℕ → List Dirent → Option (List ℕ)
unfolding add_all finish
build_dir_listing stack packetsize dps =
    let size = dir_block_size packetsize in
    elim (add_all size dps (record {
      listing = [];
      buffer = replicate size 0 ++ drop size stack;
      bufpos = 0;
      rem = size;
    })) [ none ↦ none | some b ↦ finish size b ]
