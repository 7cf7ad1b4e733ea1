-- ===== src/Listing/Build.antt =====
-- What `build_dir_listing` makes: a listing of the shape that `Layout` describes.
use fsp.Base.{
  ℕ, ◌+◌, ◌%◌, ◌≤◌, ◌≡◌, refl, sym, ◌∙◌, ap, ap₂, ◌⊎◌, inl, inr, List, [], ◌∷◌, ◌++◌, append-nil,
  append_assoc, length, length-append, length-replicate, take, drop, replicate, ltb, none, some,
  arith, Bool-cases, Option-cases, take-append_add, take_add, length-take_le, length-drop,
}
use fsp.Packet.{space}
use fsp.Listing.{
  FileKind, is_directory, is_regular, is_other, rdtype_of, rdtype_file, rdtype_dir, Dirent, Entry,
  listed, entry_bytes, Builder, write_at, sub_u, flush, padding, put_entry, add_entry, add_all,
  put_end, finish, dir_block_size, build_dir_listing, rdtype_skip,
}
use fsp.Listing.Layout.{
  Item, IsItem, item_bytes, items_bytes, NoZero, IsEntry, entry_size, padded_size, AreItems,
  entries_of, Block, block_bytes, AreBlocks, blocks_bytes, block_entries, Last, last_bytes, Listing,
  length-entry_bytes, length-item_bytes, length-items_bytes_mod, items_bytes-append,
  AreItems-append, entries_of-append, blocks_bytes-append, AreBlocks-append, block_entries-append,
}

-- The entries that a directory is listed by.
abbrev pub shown : List Dirent → List Entry
shown [] = []
shown (dp ∷ dps) = elim (listed dp) [ none ↦ shown dps | some e ↦ e ∷ shown dps ]

shown-none : (dp : Dirent) (dps : List Dirent) → listed dp ≡ none → shown (dp ∷ dps) ≡ shown dps
shown-none dp dps q = rw (q, shown) refl

shown-some :
    (dp : Dirent) (e : Entry) (dps : List Dirent)
    → listed dp ≡ some e
    → shown (dp ∷ dps) ≡ e ∷ shown dps
shown-some dp e dps q = rw (q, shown) refl

-- Names without a zero byte that fit a block.
abbrev pub AreNames : ℕ → List Dirent → Type 0
AreNames size [] = Unit {0}
AreNames size (dp ∷ dps) = NoZero dp.d_name × (length dp.d_name + 10 ≤ size) × AreNames size dps

rdtype_of-IsEntry :
    (k : FileKind) (t : ℕ) → rdtype_of k ≡ some t → (t ≡ rdtype_file) ⊎ (t ≡ rdtype_dir)
rdtype_of-IsEntry is_directory t q = inr (ground (arith, q))
rdtype_of-IsEntry is_regular t q = inl (ground (arith, q))
rdtype_of-IsEntry is_other t q = absurd (ground (arith, q))

listed-IsEntry :
    (dp : Dirent) (e : Entry)
    → NoZero dp.d_name
    → listed dp ≡ some e
    → IsEntry e × (length e.name ≡ length dp.d_name)
unfolding listed
listed-IsEntry dp e h q = elim (Option-cases dp.stat) [
  | inl n ↦ absurd (ground (arith, n, q))
  | inr (sb, n) ↦ elim (Option-cases (rdtype_of sb.kind)) [
    | inl k ↦ absurd (ground (arith, n, k, q))
    | inr (t, k) ↦
        let type : e.type ≡ t = ground (arith, n, k, q) in
        let name : e.name ≡ dp.d_name = ground (arith, n, k, q) in
        (
          record { type = rw type (rdtype_of-IsEntry sb.kind t k); name = rw name h },
          ap length name,
        )
  ]
]

-- What a write inside the buffer leaves at its front.
pub record Written (buffer : List ℕ) (i : ℕ) (bytes r : List ℕ) : Type 0 where
  pub written : write_at buffer i bytes ≡ some r
  pub same_length : length r ≡ length buffer
  pub front :
      (n : ℕ)
      → take (i + length bytes + n) r
        ≡ take i buffer ++ (bytes ++ take n (drop (i + length bytes) buffer))

pub write_at-Written :
    (buffer : List ℕ) (i : ℕ) (bytes : List ℕ)
    → i + length bytes ≤ length buffer
    → (r : List ℕ) × Written buffer i bytes r
unfolding write_at
write_at-Written buffer i bytes h =
    let before = take i buffer in
    let after = drop (i + length bytes) buffer in
    let r = before ++ (bytes ++ after) in
    let lb : length before ≡ i = length-take_le i buffer (omega arith) in
    (
      r,
      record {
        written = ground arith;
        same_length = omega (
          arith,
          length-append before (bytes ++ after),
          length-append bytes after,
          lb,
          length-drop (i + length bytes) buffer,
        );
        front = λ n.
            ap (λ (k : ℕ). take k r) {y = length before + (length bytes + n)} (omega (arith, lb))
            ∙ take-append_add before (bytes ++ after) (length bytes + n)
            ∙ ap (λ (l : List ℕ). before ++ l) (take-append_add bytes after n);
      },
    )

-- The builder holds whole blocks, and the items of the block at hand.
pub record Holds (size : ℕ) (b : Builder) (entries : List Entry) : Type 0 where
  pub blocks : List Block
  pub items : List Item
  pub are_blocks : AreBlocks size blocks
  pub are_items : AreItems items
  pub listing : b.listing ≡ blocks_bytes blocks
  pub buffer : length b.buffer ≡ space
  pub front : take b.bufpos b.buffer ≡ items_bytes items
  pub bufpos : b.bufpos ≡ length (items_bytes items)
  pub total : b.bufpos + b.rem ≡ size
  pub entries_eq : entries ≡ block_entries blocks ++ entries_of items

module _ (size : ℕ) (multiple : size % 4 ≡ 0) (small : size ≤ space) where
  flush-Holds :
      (b : Builder) (es : List Entry)
      → Holds size b es
      → (b' : Builder) × (flush size b ≡ some b') × Holds size b' es × (b'.bufpos ≡ 0)
  unfolding flush block_bytes
  flush-Holds b es v =
      let stars = replicate b.rem rdtype_skip in
      let ls : length stars ≡ b.rem = length-replicate b.rem rdtype_skip in
      let (r, w) =
        write_at-Written b.buffer b.bufpos stars (omega (arith, ls, v.total, v.buffer, small)) in
      let whole : Block = record { items = v.items; fill = b.rem } in
      let block : take size r ≡ block_bytes whole =
        ap (λ (k : ℕ). take k r) {y = b.bufpos + length stars + 0} (omega (arith, ls, v.total))
        ∙ w.front 0
        ∙ ap₂ (λ (k l : List ℕ). k ++ l) v.front (append-nil stars) in
      (
        record { listing = b.listing ++ take size r; buffer = r; bufpos = 0; rem = size },
        rw (w.written, flush) refl,
        record {
          blocks = v.blocks ++ (whole ∷ []);
          items = [];
          are_blocks =
              AreBlocks-append size v.blocks (whole ∷ []) v.are_blocks
                (record { items = v.are_items; total = omega (arith, v.bufpos, v.total) }, tt);
          are_items = tt;
          listing =
              ap₂ (λ (k l : List ℕ). k ++ l) v.listing
                (block ∙ sym (append-nil (block_bytes whole)))
              ∙ sym (blocks_bytes-append v.blocks (whole ∷ []));
          buffer = w.same_length ∙ v.buffer;
          front = refl;
          bufpos = refl;
          total = omega arith;
          entries_eq =
              v.entries_eq
              ∙ ap (λ (l : List Entry). block_entries v.blocks ++ l)
                  (sym (append-nil (entries_of v.items)))
              ∙ sym (block_entries-append v.blocks (whole ∷ []))
              ∙ sym (append-nil (block_entries (v.blocks ++ (whole ∷ []))));
        },
        refl,
      )

  put_entry-Holds :
      (e : Entry) (b : Builder) (es : List Entry)
      → IsEntry e
      → Holds size b es
      → entry_size e ≤ b.rem
      → (b' : Builder) × (put_entry e b ≡ some b') × Holds size b' (es ++ (e ∷ []))
  unfolding put_entry item_bytes
  put_entry-Holds e b es ve v h =
      let n = entry_size e in
      let le : length (entry_bytes e) ≡ n = length-entry_bytes e in
      let fits : padded_size e ≤ b.rem =
        ground (arith, length-items_bytes_mod v.items v.are_items, v.bufpos, v.total) in
      let (r, w) =
        write_at-Written b.buffer b.bufpos (entry_bytes e) (omega (arith, le, v.total, v.buffer)) in
      let pad = take (padding n) (drop (b.bufpos + length (entry_bytes e)) b.buffer) in
      let lp : length pad ≡ padding n = length-take_le (padding n) _ (
        omega (
          arith,
          length-drop (b.bufpos + length (entry_bytes e)) b.buffer,
          le,
          v.total,
          v.buffer,
        )) in
      let it : Item = record { entry = e; pad = pad } in
      let vi : IsItem it = record { entry = ve; pad = lp } in
      (
        record b {
          buffer = r;
          bufpos = b.bufpos + n + padding n;
          rem = sub_u (sub_u b.rem n) (padding n);
        },
        rw (w.written, put_entry) refl,
        record {
          blocks = v.blocks;
          items = v.items ++ (it ∷ []);
          are_blocks = v.are_blocks;
          are_items = AreItems-append v.items (it ∷ []) v.are_items (vi, tt);
          listing = v.listing;
          buffer = w.same_length ∙ v.buffer;
          front =
              ap (λ (k : ℕ). take k r) {y = b.bufpos + length (entry_bytes e) + padding n}
                (omega (arith, le))
              ∙ w.front (padding n)
              ∙ ap₂ (λ (k l : List ℕ). k ++ l) v.front (sym (append-nil (item_bytes it)))
              ∙ sym (items_bytes-append v.items (it ∷ []));
          bufpos = omega (
            arith,
            v.bufpos,
            ap length (items_bytes-append v.items (it ∷ [])),
            length-append (items_bytes v.items) (item_bytes it ++ []),
            ap length (append-nil (item_bytes it)),
            length-item_bytes it vi,
          );
          total = omega (arith, v.total);
          entries_eq =
              ap (λ (l : List Entry). l ++ (e ∷ [])) v.entries_eq
              ∙ append_assoc (block_entries v.blocks) (entries_of v.items) (e ∷ [])
              ∙ ap (λ (l : List Entry). block_entries v.blocks ++ l)
                  (sym (entries_of-append v.items (it ∷ [])));
        },
      )

  add_entry-Holds :
      (e : Entry) (b : Builder) (es : List Entry)
      → IsEntry e
      → entry_size e ≤ size
      → Holds size b es
      → (b' : Builder) × (add_entry size e b ≡ some b') × Holds size b' (es ++ (e ∷ []))
  unfolding add_entry
  add_entry-Holds e b es ve h v = elim (Bool-cases (ltb b.rem (9 + (length e.name + 1)))) [
    | inr room ↦ rw room (put_entry-Holds e b es ve v (ground (arith, room)))
    | inl full ↦
        let (b', q, v', at_0) = flush-Holds b es v in
        let (b'', q', v'') = put_entry-Holds e b' es ve v' (omega (arith, v'.total, at_0)) in
        (b'', rw (full, q) q', v'')
  ]

  add_all-Holds :
      (dps : List Dirent) (b : Builder) (es : List Entry)
      → AreNames size dps
      → Holds size b es
      → (b' : Builder) × (add_all size dps b ≡ some b') × Holds size b' (es ++ shown dps)
  unfolding add_all
  add_all-Holds [] b es names v = (b, refl, rw (append-nil es) v)
  add_all-Holds (dp ∷ dps) b es (n, fit, names) v = elim (Option-cases (listed dp)) [
    | inl q ↦ rw (q, add_all) (rw (shown-none dp dps q) (add_all-Holds dps b es names v))
    | inr (e, q) ↦
        let (ve, same) = listed-IsEntry dp e n q in
        let (b', q', v') = add_entry-Holds e b es ve (omega (arith, fit, same)) v in
        let (b'', q'', v'') = add_all-Holds dps b' (es ++ (e ∷ [])) names v' in
        (
          b'',
          rw (q, add_all, q') q'',
          rw (shown-some dp e dps q, sym (append_assoc es (e ∷ []) (shown dps))) v'',
        )
  ]

  put_end-Listing :
      (b : Builder) (es : List Entry)
      → Holds size b es
      → 9 ≤ b.rem
      → (l : List ℕ) × (put_end b ≡ some l) × Listing size l es
  unfolding put_end last_bytes
  put_end-Listing b es v h =
      let (r, w) =
        write_at-Written b.buffer (b.bufpos + 8) (0 ∷ []) (omega (arith, v.total, v.buffer)) in
      let header = take 8 (drop b.bufpos b.buffer) in
      let before : take (b.bufpos + 8) b.buffer ≡ items_bytes v.items ++ header =
        take_add b.bufpos 8 b.buffer ∙ ap (λ (l : List ℕ). l ++ header) v.front in
      let z : Last size = record {
        items = v.items;
        header = header;
        are_items = v.are_items;
        header_size =
            length-take_le 8 (drop b.bufpos b.buffer)
              (omega (arith, length-drop b.bufpos b.buffer, v.total, v.buffer));
        fits = omega (arith, v.bufpos, v.total);
      } in
      let end : take (b.bufpos + 9) r ≡ last_bytes z =
        ap (λ (k : ℕ). take k r) {y = b.bufpos + 8 + 1 + 0} (omega arith)
        ∙ w.front 0
        ∙ ap (λ (l : List ℕ). l ++ (0 ∷ [])) before
        ∙ append_assoc (items_bytes v.items) header (0 ∷ []) in
      (
        b.listing ++ take (b.bufpos + 9) r,
        rw (w.written, put_end) refl,
        record {
          blocks = v.blocks;
          last = z;
          are_blocks = v.are_blocks;
          bytes_eq = ap₂ (λ (k l : List ℕ). k ++ l) v.listing end;
          entries_eq = v.entries_eq;
        },
      )

  finish-Listing :
      (b : Builder) (es : List Entry)
      → Holds size b es
      → 9 ≤ size
      → (l : List ℕ) × (finish size b ≡ some l) × Listing size l es
  unfolding finish
  finish-Listing b es v h = elim (Bool-cases (ltb b.rem 9)) [
    | inr room ↦ rw room (put_end-Listing b es v (ground (arith, room)))
    | inl full ↦
        let (b', q, v', at_0) = flush-Holds b es v in
        let (l, q', z) = put_end-Listing b' es v' (omega (arith, v'.total, at_0)) in
        (l, rw (full, q) q', z)
  ]

-- In blocks of a multiple of 4 bytes, and of names that fit a block, `build_dir_listing` writes within
-- its buffer, and makes a listing of all the entries that it does not pass over, in their order.
pub build_dir_listing-Listing :
    (stack : List ℕ) (packetsize : ℕ) (dps : List Dirent)
    → length stack ≡ space
    → 64 ≤ packetsize
    → dir_block_size packetsize % 4 ≡ 0
    → AreNames (dir_block_size packetsize) dps
    → (l : List ℕ) × (build_dir_listing stack packetsize dps ≡ some l)
      × Listing (dir_block_size packetsize) l (shown dps)
unfolding build_dir_listing
build_dir_listing-Listing stack packetsize dps hs big multiple names =
    let size = dir_block_size packetsize in
    let small : size ≤ space = ground arith in
    let start : Builder = record {
      listing = [];
      buffer = replicate size 0 ++ drop size stack;
      bufpos = 0;
      rem = size;
    } in
    let v : Holds size start [] = record {
      blocks = [];
      items = [];
      are_blocks = tt;
      are_items = tt;
      listing = refl;
      buffer =
          length-append (replicate size 0) (drop size stack)
          ∙ omega (arith, length-replicate {A = ℕ} size 0, length-drop size stack);
      front = refl;
      bufpos = refl;
      total = omega arith;
      entries_eq = refl;
    } in
    let (b, q, vb) = add_all-Holds size multiple small dps start [] names v in
    let (l, q', z) = finish-Listing size multiple small b (shown dps) vb (ground arith) in
    (l, rw (q, build_dir_listing) q', z)
