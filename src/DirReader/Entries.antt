-- ===== src/DirReader/Entries.antt =====
-- The two loops over one block, on the entries of a listing.
use fsp.Base.{
  ℕ, zero, suc, ◌+◌, ◌-◌, ◌%◌, ◌≤◌, ◌<◌, ◌≡◌, refl, sym, ◌∙◌, ap, ap₂, inl, inr, Bool, true, false,
  List, [], ◌∷◌, ◌++◌, append_assoc, length, length-append, drop, replicate, get_elem?, drop-append,
  Option, none, some, arith, ltb, Option-cases, Bool-cases, append-nil,
}
use fsp.Listing.{Entry, word_bytes, entry_bytes, padding, rdtype_skip}
use fsp.Listing.Layout.{
  Block, IsBlock, block_bytes, Last, last_bytes, Item, IsItem, AreItems, item_bytes, items_bytes,
  entries_of, NoZero, entry_size, padded_size, length-item_bytes, padded_size_mod,
}
use fsp.DirReader.{Rdirent, c_string, copy_entry, another, look, copy_entries}

-- An entry of a listing, as the reader copies it.
abbrev pub to_rdirent : Entry → Rdirent
to_rdirent e = record {
  header = word_bytes e.time ++ (word_bytes e.size ++ (e.type ∷ []));
  name = e.name;
}

abbrev pub to_rdirents : List Entry → List Rdirent
to_rdirents [] = []
to_rdirents (e ∷ es) = to_rdirent e ∷ to_rdirents es

pub to_rdirents-append :
    (xs ys : List Entry) → to_rdirents (xs ++ ys) ≡ to_rdirents xs ++ to_rdirents ys
to_rdirents-append [] ys = refl
to_rdirents-append (x ∷ xs) ys =
    ap (λ (l : List Rdirent). to_rdirent x ∷ l) (to_rdirents-append xs ys)

-- Entries in front of what the second loop finds.
abbrev pub prepend : List Rdirent → Option (List Rdirent × Bool) → Option (List Rdirent × Bool)
prepend es none = none
prepend es (some (xs, ended)) = some (es ++ xs, ended)

c_string-append :
    (name rest : List ℕ) → NoZero name → c_string (name ++ (0 ∷ rest)) ≡ some (name, rest)
unfolding c_string
c_string-append [] rest h = refl
c_string-append (c ∷ cs) rest (h, hs) = ground (arith, c_string-append cs rest hs, h)

get_elem?-append :
    (xs : List ℕ) (c : ℕ) (rest : List ℕ) → get_elem? (xs ++ (c ∷ rest)) (length xs) ≡ some c
get_elem?-append [] c rest = refl
get_elem?-append (x ∷ xs) c rest = get_elem?-append xs c rest

get_elem?-replicate :
    (n : ℕ) (a : ℕ) (rest : List ℕ) (i : ℕ) → i < n → get_elem? (replicate n a ++ rest) i ≡ some a
get_elem?-replicate zero a rest i h = absurd (omega arith)
get_elem?-replicate (suc n) a rest zero h = refl
get_elem?-replicate (suc n) a rest (suc i) h = get_elem?-replicate n a rest i (omega arith)

pub look-item :
    (it : Item) (tail : List ℕ) (rem : ℕ)
    → IsItem it
    → 9 ≤ rem
    → look rem (item_bytes it ++ tail) ≡ another
unfolding look item_bytes entry_bytes
look-item it tail rem v h = elim v.entry.type [
  | inl t ↦ ground (arith, t)
  | inr t ↦ ground (arith, t)
]

pub copy_entry-item :
    (it : Item) (tail : List ℕ) (off : ℕ)
    → IsItem it
    → off % 4 ≡ 0
    → copy_entry off (item_bytes it ++ tail)
      ≡ some (to_rdirent it.entry, (padded_size it.entry, tail))
unfolding copy_entry item_bytes entry_bytes
copy_entry-item it tail off v h =
    let e = it.entry in
    let shape : ((e.name ++ (0 ∷ [])) ++ it.pad) ++ tail ≡ e.name ++ (0 ∷ (it.pad ++ tail)) =
      ap (λ (l : List ℕ). l ++ tail) (append_assoc e.name (0 ∷ []) it.pad)
      ∙ append_assoc e.name (0 ∷ it.pad) tail in
    let c : c_string (((e.name ++ (0 ∷ [])) ++ it.pad) ++ tail) ≡ some (e.name, it.pad ++ tail) =
      ap c_string shape ∙ c_string-append e.name (it.pad ++ tail) v.entry.name in
    let p : padding (off + (length e.name + 1 + 9)) ≡ padding (entry_size e) = ground arith in
    let d : drop (padding (entry_size e)) (it.pad ++ tail) ≡ tail =
      ap (λ (k : ℕ). drop k (it.pad ++ tail)) (sym v.pad) ∙ drop-append it.pad tail in
    rw (c, copy_entry, p, d) refl

copy_entries-another :
    (fuel off rem : ℕ) (bytes : List ℕ) (e : Rdirent) (n : ℕ) (rest : List ℕ)
    → look rem bytes ≡ another
    → copy_entry off bytes ≡ some (e, (n, rest))
    → copy_entries (suc fuel) off rem bytes
      ≡ prepend (e ∷ []) (copy_entries fuel (off + n) (rem - n) rest)
unfolding copy_entries
copy_entries-another fuel off rem bytes e n rest l c =
    elim (Option-cases (copy_entries fuel (off + n) (rem - n) rest)) [
      | inl q ↦ rw (l, c, q, copy_entries) refl
      | inr ((es, ended), q) ↦ rw (l, c, q, copy_entries) refl
    ]

prepend-prepend :
    (e : Rdirent) (es : List Rdirent) (r : Option (List Rdirent × Bool))
    → prepend (e ∷ []) (prepend es r) ≡ prepend (e ∷ es) r
prepend-prepend e es none = refl
prepend-prepend e es (some (xs, ended)) = refl

prepend-nil : (r : Option (List Rdirent × Bool)) → prepend [] r ≡ r
prepend-nil none = refl
prepend-nil (some (xs, ended)) = refl

-- The second loop takes the entries of the items, and goes on after them.
pub copy_entries-items :
    (its : List Item) (fuel off rem : ℕ) (tail : List ℕ)
    → AreItems its
    → off % 4 ≡ 0
    → copy_entries
        (length its + fuel)
        off
        (length (items_bytes its) + rem)
        (items_bytes its ++ tail)
      ≡ prepend
          (to_rdirents (entries_of its))
          (copy_entries fuel (off + length (items_bytes its)) rem tail)
copy_entries-items [] fuel off rem tail v h =
    ap (λ (n : ℕ). copy_entries n off (0 + rem) tail) {x = 0 + fuel} {y = fuel} (omega arith)
    ∙ ap (λ (n : ℕ). copy_entries fuel off n tail) {x = 0 + rem} {y = rem} (omega arith)
    ∙ ap (λ (n : ℕ). copy_entries fuel n rem tail) {x = off} {y = off + 0} (omega arith)
    ∙ sym (prepend-nil (copy_entries fuel (off + 0) rem tail))
copy_entries-items (it ∷ its) fuel off rem tail (v, vs) h =
    let n = padded_size it.entry in
    let rest = items_bytes its ++ tail in
    let li = length-item_bytes it v in
    let la = length-append (item_bytes it) (items_bytes its) in
    let total = length (item_bytes it ++ items_bytes its) + rem in
    let shape : (item_bytes it ++ items_bytes its) ++ tail ≡ item_bytes it ++ rest =
      append_assoc (item_bytes it) (items_bytes its) tail in
    ap (λ (k : ℕ). copy_entries k off total ((item_bytes it ++ items_bytes its) ++ tail))
      {x = suc (length its) + fuel} {y = suc (length its + fuel)} (omega arith)
    ∙ ap (λ (l : List ℕ). copy_entries (suc (length its + fuel)) off total l) shape
    ∙ copy_entries-another (length its + fuel) off total (item_bytes it ++ rest)
        (to_rdirent it.entry) n rest (look-item it rest total v (omega (arith, li, la)))
        (copy_entry-item it rest off v h)
    ∙ ap
        (λ (k : ℕ).
          prepend (to_rdirent it.entry ∷ []) (copy_entries (length its + fuel) (off + n) k rest))
        {x = total - n} {y = length (items_bytes its) + rem} (omega (arith, li, la))
    ∙ ap (λ (r : Option (List Rdirent × Bool)). prepend (to_rdirent it.entry ∷ []) r)
        (copy_entries-items its fuel (off + n) rem tail vs
          (omega (arith, h, padded_size_mod it.entry)))
    ∙ prepend-prepend (to_rdirent it.entry) (to_rdirents (entries_of its))
        (copy_entries fuel (off + n + length (items_bytes its)) rem tail)
    ∙ ap (λ (k : ℕ). prepend (to_rdirents (entries_of (it ∷ its))) (copy_entries fuel k rem tail))
        {x = off + n + length (items_bytes its)}
        {y = off + length (item_bytes it ++ items_bytes its)} (omega (arith, li, la))

-- The bytes that fill a block end it.
copy_entries-fill :
    (fuel off n : ℕ) (rest : List ℕ)
    → copy_entries (suc fuel) off n (replicate n rdtype_skip ++ rest) ≡ some ([], false)
unfolding copy_entries look
copy_entries-fill fuel off n rest = elim (Bool-cases (ltb n 9)) [
  | inl few ↦ rw (few, copy_entries, look) refl
  | inr many ↦
      rw (many, get_elem?-replicate n rdtype_skip rest 8 (ground (arith, many)), copy_entries, look)
        refl
]

-- The END entry ends the listing.
copy_entries-end :
    (fuel off rem : ℕ) (header rest : List ℕ)
    → length header ≡ 8
    → 9 ≤ rem
    → copy_entries (suc fuel) off rem (header ++ (0 ∷ rest)) ≡ some ([], true)
unfolding copy_entries look
copy_entries-end fuel off rem header rest h k =
    let g : get_elem? (header ++ (0 ∷ rest)) 8 ≡ some 0 =
      ap (λ (i : ℕ). get_elem? (header ++ (0 ∷ rest)) i) (sym h) ∙ get_elem?-append header 0 rest in
    let few : ltb rem 9 ≡ false = ground arith in rw (few, g, copy_entries, look) refl

length-items_le : (its : List Item) → AreItems its → length its ≤ length (items_bytes its)
length-items_le [] v = omega arith
length-items_le (it ∷ its) (v, vs) = omega (
  arith,
  length-items_le its vs,
  length-item_bytes it v,
  length-append (item_bytes it) (items_bytes its),
)

-- A whole block at the front of the buffer.
pub copy_entries-block :
    (size : ℕ) (b : Block) (rest : List ℕ)
    → IsBlock size b
    → copy_entries (suc size) 0 size (block_bytes b ++ rest)
      ≡ some (to_rdirents (entries_of b.items), false)
unfolding block_bytes
copy_entries-block size b rest v =
    let n = length b.items in
    let m = length (items_bytes b.items) in
    let f = size - n in
    let le = length-items_le b.items v.items in
    let fill = replicate b.fill rdtype_skip ++ rest in
    let es = to_rdirents (entries_of b.items) in
    ap (λ (l : List ℕ). copy_entries (suc size) 0 size l)
      (append_assoc (items_bytes b.items) (replicate b.fill rdtype_skip) rest)
    ∙ ap₂ (λ (k r : ℕ). copy_entries k 0 r (items_bytes b.items ++ fill)) {x = suc size}
        {y = n + suc f} {u = size} {v = m + b.fill} (omega (arith, le, v.total)) (sym v.total)
    ∙ copy_entries-items b.items (suc f) 0 b.fill fill v.items refl
    ∙ ap (prepend es) (copy_entries-fill f (0 + m) b.fill rest)
    ∙ ap (λ (l : List Rdirent). some (l, false)) (append-nil es)

-- The last block, with nothing behind it.
pub copy_entries-final :
    {size : ℕ} (z : Last size)
    → copy_entries (suc (length (last_bytes z))) 0 (length (last_bytes z)) (last_bytes z)
      ≡ some (to_rdirents (entries_of z.items), true)
unfolding last_bytes
copy_entries-final z =
    let n = length z.items in
    let m = length (items_bytes z.items) in
    let size = length (last_bytes z) in
    let f = size - n in
    let le = length-items_le z.items z.are_items in
    let ls : size ≡ m + 9 = omega (
      arith,
      length-append (items_bytes z.items) (z.header ++ (0 ∷ [])),
      length-append z.header (0 ∷ []),
      z.header_size,
    ) in
    let es = to_rdirents (entries_of z.items) in
    ap₂ (λ (k r : ℕ). copy_entries k 0 r (last_bytes z)) {x = suc size} {y = n + suc f} {u = size}
      {v = m + 9} (omega (arith, le, ls)) ls
    ∙ copy_entries-items z.items (suc f) 0 9 (z.header ++ (0 ∷ [])) z.are_items refl
    ∙ ap (prepend es) (copy_entries-end f (0 + m) 9 z.header [] z.header_size (omega arith))
    ∙ ap (λ (l : List Rdirent). some (l, true)) (append-nil es)
