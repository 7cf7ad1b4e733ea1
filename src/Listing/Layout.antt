-- ===== src/Listing/Layout.antt =====
-- The shape of a listing: entries with their padding in blocks of one size, and the last block with
-- the END entry.
use fsp.Base.{
  ℕ, ◌+◌, ◌%◌, ◌≤◌, ◌≡◌, refl, ◌∙◌, ap, ◌≢◌, ◌⊎◌, List, [], ◌∷◌, ◌++◌, length, length-append,
  append_assoc, replicate, arith,
}
use fsp.Listing.{Entry, entry_bytes, padding, rdtype_file, rdtype_dir, rdtype_skip}

-- An entry with the bytes that pad it.
pub record Item : Type 0 where
  pub entry : Entry
  pub pad : List ℕ

unfoldable pub item_bytes : Item → List ℕ
item_bytes it = entry_bytes it.entry ++ it.pad

abbrev pub items_bytes : List Item → List ℕ
items_bytes [] = []
items_bytes (it ∷ its) = item_bytes it ++ items_bytes its

-- The bytes of a C string.
abbrev pub NoZero : List ℕ → Type 0
NoZero [] = Unit {0}
NoZero (c ∷ cs) = (c ≢ 0) × NoZero cs

pub record IsEntry (e : Entry) : Type 0 where
  pub type : (e.type ≡ rdtype_file) ⊎ (e.type ≡ rdtype_dir)
  pub name : NoZero e.name

-- How long an entry is, without and with its padding.
abbrev pub entry_size : Entry → ℕ
entry_size e = length e.name + 1 + 9

abbrev pub padded_size : Entry → ℕ
padded_size e = entry_size e + padding (entry_size e)

pub record IsItem (it : Item) : Type 0 where
  pub entry : IsEntry it.entry
  pub pad : length it.pad ≡ padding (entry_size it.entry)

abbrev pub AreItems : List Item → Type 0
AreItems [] = Unit {0}
AreItems (it ∷ its) = IsItem it × AreItems its

abbrev pub entries_of : List Item → List Entry
entries_of [] = []
entries_of (it ∷ its) = it.entry ∷ entries_of its

-- A block that is not the last, with the number of bytes that fill it.
pub record Block : Type 0 where
  pub items : List Item
  pub fill : ℕ

unfoldable pub block_bytes : Block → List ℕ
block_bytes b = items_bytes b.items ++ replicate b.fill rdtype_skip

pub record IsBlock (size : ℕ) (b : Block) : Type 0 where
  pub items : AreItems b.items
  pub total : length (items_bytes b.items) + b.fill ≡ size

abbrev pub AreBlocks : ℕ → List Block → Type 0
AreBlocks size [] = Unit {0}
AreBlocks size (b ∷ bs) = IsBlock size b × AreBlocks size bs

abbrev pub blocks_bytes : List Block → List ℕ
blocks_bytes [] = []
blocks_bytes (b ∷ bs) = block_bytes b ++ blocks_bytes bs

abbrev pub block_entries : List Block → List Entry
block_entries [] = []
block_entries (b ∷ bs) = entries_of b.items ++ block_entries bs

-- The last block: some entries, eight bytes of any kind, and the type END.
pub record Last (size : ℕ) : Type 0 where
  pub items : List Item
  pub header : List ℕ
  pub are_items : AreItems items
  pub header_size : length header ≡ 8
  pub fits : length (items_bytes items) + 9 ≤ size

unfoldable pub last_bytes : {size : ℕ} → Last size → List ℕ
last_bytes z = items_bytes z.items ++ (z.header ++ (0 ∷ []))

-- A whole listing of the given entries.
pub record Listing (size : ℕ) (bytes : List ℕ) (entries : List Entry) : Type 0 where
  pub blocks : List Block
  pub last : Last size
  pub are_blocks : AreBlocks size blocks
  pub bytes_eq : bytes ≡ blocks_bytes blocks ++ last_bytes last
  pub entries_eq : entries ≡ block_entries blocks ++ entries_of last.items

pub length-entry_bytes : (e : Entry) → length (entry_bytes e) ≡ entry_size e
unfolding entry_bytes
length-entry_bytes e = omega (arith, length-append e.name (0 ∷ []))

pub length-item_bytes : (it : Item) → IsItem it → length (item_bytes it) ≡ padded_size it.entry
unfolding item_bytes
length-item_bytes it v =
    length-append (entry_bytes it.entry) it.pad ∙ omega (arith, length-entry_bytes it.entry, v.pad)

pub padded_size_mod : (e : Entry) → padded_size e % 4 ≡ 0
padded_size_mod e = ground arith

pub length-items_bytes_mod : (its : List Item) → AreItems its → length (items_bytes its) % 4 ≡ 0
length-items_bytes_mod [] v = omega arith
length-items_bytes_mod (it ∷ its) (v, vs) = omega (
  arith,
  length-append (item_bytes it) (items_bytes its),
  length-item_bytes it v,
  padded_size_mod it.entry,
  length-items_bytes_mod its vs,
)

pub items_bytes-append :
    (xs ys : List Item) → items_bytes (xs ++ ys) ≡ items_bytes xs ++ items_bytes ys
items_bytes-append [] ys = refl
items_bytes-append (x ∷ xs) ys = simp (items_bytes-append xs ys, append_assoc)

pub AreItems-append : (xs ys : List Item) → AreItems xs → AreItems ys → AreItems (xs ++ ys)
AreItems-append [] ys v w = w
AreItems-append (x ∷ xs) ys (v, vs) w = (v, AreItems-append xs ys vs w)

pub entries_of-append : (xs ys : List Item) → entries_of (xs ++ ys) ≡ entries_of xs ++ entries_of ys
entries_of-append [] ys = refl
entries_of-append (x ∷ xs) ys = ap (λ (l : List Entry). x.entry ∷ l) (entries_of-append xs ys)

pub blocks_bytes-append :
    (xs ys : List Block) → blocks_bytes (xs ++ ys) ≡ blocks_bytes xs ++ blocks_bytes ys
blocks_bytes-append [] ys = refl
blocks_bytes-append (x ∷ xs) ys = simp (blocks_bytes-append xs ys, append_assoc)

pub AreBlocks-append :
    (size : ℕ) (xs ys : List Block)
    → AreBlocks size xs
    → AreBlocks size ys
    → AreBlocks size (xs ++ ys)
AreBlocks-append size [] ys v w = w
AreBlocks-append size (x ∷ xs) ys (v, vs) w = (v, AreBlocks-append size xs ys vs w)

pub block_entries-append :
    (xs ys : List Block) → block_entries (xs ++ ys) ≡ block_entries xs ++ block_entries ys
block_entries-append [] ys = refl
block_entries-append (x ∷ xs) ys = simp (block_entries-append xs ys, append_assoc)
