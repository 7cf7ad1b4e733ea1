-- ===== src/DirReader/Whole.antt =====
-- `get_dir_blk` against a server that answers with the slices of a listing.
use fsp.Base.{
  ℕ, suc, ◌+◌, ◌-◌, ◌≤◌, ◌<◌, ◌≡◌, refl, sym, ◌∙◌, ap, ap₂, ◌⊎◌, inl, inr, true, false, List, min,
  subst, [], ◌∷◌, ◌++◌, append_assoc, append-nil, length, length-append, length-take,
  length-replicate, replicate, take, drop, drop-all, take-drop, drop-take, take-append, drop-append,
  take-append_le, drop-append_le, Option, some, arith, ltb, leb, Bool-cases,
}
use fsp.Listing.Layout.{
  Block, IsBlock, AreBlocks, block_bytes, blocks_bytes, block_entries, Last, last_bytes,
  items_bytes, entries_of, Listing,
}
use fsp.Listing.{Entry, rdtype_skip}
use fsp.DirReader.{
  Rdirent, Reader, finished, receive, refill, refill_fuel, block_length, copy_entries, read_blocks,
  get_dir_blk, ubuf_maxspace,
}
use fsp.DirReader.Entries.{to_rdirents, to_rdirents-append, copy_entries-block, copy_entries-final}
use fsp.DirReader.Refill.{Serves, Between, Filled, refill-Filled, refill-ask}

length-block_bytes : (size : ℕ) (b : Block) → IsBlock size b → length (block_bytes b) ≡ size
unfolding block_bytes
length-block_bytes size b v =
    length-append (items_bytes b.items) (replicate b.fill rdtype_skip)
    ∙ omega (arith, length-replicate b.fill rdtype_skip, v.total)

length-last_bytes :
    {size : ℕ} (z : Last size) → (length (last_bytes z) ≤ size) × (9 ≤ length (last_bytes z))
unfolding last_bytes
length-last_bytes z = omega (
  arith,
  length-append (items_bytes z.items) (z.header ++ (0 ∷ [])),
  length-append z.header (0 ∷ []),
  z.header_size,
  z.fits,
)

module _ (most : ℕ) (listing : List ℕ) (ask : ℕ → Option (List ℕ)) (small : most ≤ 1024)
    (serves : Serves most listing ask) where
  -- The size of a block is known, or the whole of what is left is smaller.
  abbrev Sized : List ℕ → ℕ → Type 0
  Sized left size = (size ≡ most) ⊎ ((length left ≤ size) × (length left < most))

  read_final :
      (fuel : ℕ) (z : Last most) (left : List ℕ) (size : ℕ) (r r' : Reader)
      → left ≡ last_bytes z
      → Sized left size
      → refill refill_fuel ask r ≡ finished r'
      → Filled most listing left size r'
      → read_blocks (suc fuel) ask r ≡ finished (to_rdirents (entries_of z.items))
  unfolding read_blocks block_length
  read_final fuel z left size r r' e s q f =
      let (le, nine) = length-last_bytes z in
      let total : length r'.held + length f.rest ≡ length (last_bytes z) =
        sym (length-append r'.held f.rest) ∙ ap length (f.left_eq ∙ e) in
      let none_left : f.rest ≡ [] = elim f.full [
        | inl n ↦ n
        | inr n ↦ absurd (omega (arith, n, total, le, small))
      ] in
      let held : r'.held ≡ last_bytes z =
        sym (append-nil r'.held)
        ∙ ap (λ (l : List ℕ). r'.held ++ l) (sym none_left)
        ∙ f.left_eq
        ∙ e in
      let same = f.same_size in
      let len : block_length r' ≡ length (last_bytes z) = elim s [
        | inl m ↦ ground (arith, m, same, ap length held, le)
        | inr (m, k) ↦ ground (arith, m, k, same, ap length held, ap length e)
      ] in
      let copied : copy_entries (suc (block_length r')) 0 (block_length r') r'.held
          ≡ some (to_rdirents (entries_of z.items), true) =
        ap₂ (λ (k : ℕ) (l : List ℕ). copy_entries (suc k) 0 k l) len held ∙ copy_entries-final z in
      rw (q, read_blocks, copied) refl

  -- A turn of the outer loop that takes a whole block.
  record Turned (fuel : ℕ) (es : List Rdirent) (tl : List ℕ) (r : Reader) : Type 0 where
    pub next : Reader
    pub filled : Reader
    pub refilled : refill refill_fuel ask next ≡ finished filled
    pub is_filled : Filled most listing tl most filled
    pub turned :
        (more : List Rdirent)
        → read_blocks fuel ask next ≡ finished more
        → read_blocks (suc fuel) ask r ≡ finished (es ++ more)

  read_block :
      (fuel : ℕ) (b : Block) (tl : List ℕ) (size : ℕ) (r r' : Reader)
      → IsBlock most b
      → Sized (block_bytes b ++ tl) size
      → refill refill_fuel ask r ≡ finished r'
      → Filled most listing (block_bytes b ++ tl) size r'
      → Turned fuel (to_rdirents (entries_of b.items)) tl r
  unfolding read_blocks block_length
  read_block fuel b tl size r r' v s q f =
      let lb = length-block_bytes most b v in
      let whole : r'.dirblocksize ≡ most = elim s [
        | inl m ↦ f.same_size ∙ m
        | inr (m, k) ↦ absurd (omega (arith, k, lb, length-append (block_bytes b) tl))
      ] in
      let enough : most ≤ length r'.held = elim f.full [
        | inl n ↦ omega (
          arith,
          lb,
          ap length f.left_eq,
          ap length n,
          length-append (block_bytes b) tl,
          length-append r'.held f.rest,
        )
        | inr n ↦ omega (arith, n, small)
      ] in
      let front : take most r'.held ≡ block_bytes b =
        sym (take-append_le most r'.held f.rest enough)
        ∙ ap (take most) f.left_eq
        ∙ ap (λ (k : ℕ). take k (block_bytes b ++ tl)) (sym lb)
        ∙ take-append (block_bytes b) tl in
      let back : drop most r'.held ++ f.rest ≡ tl =
        sym (drop-append_le most r'.held f.rest enough)
        ∙ ap (drop most) f.left_eq
        ∙ ap (λ (k : ℕ). drop k (block_bytes b ++ tl)) (sym lb)
        ∙ drop-append (block_bytes b) tl in
      let held : r'.held ≡ block_bytes b ++ drop most r'.held =
        sym (take-drop most r'.held) ∙ ap (λ (l : List ℕ). l ++ drop most r'.held) front in
      let len : block_length r' ≡ most = ground (arith, whole, enough) in
      let copied : copy_entries (suc (block_length r')) 0 (block_length r') r'.held
          ≡ some (to_rdirents (entries_of b.items), false) =
        ap₂ (λ (k : ℕ) (l : List ℕ). copy_entries (suc k) 0 k l) len held
        ∙ copy_entries-block most b (drop most r'.held) v in
      let go_on : ltb (length r'.held) r'.dirblocksize ≡ false = ground (arith, whole, enough) in
      let next : Reader = record r' { held = drop r'.dirblocksize r'.held } in
      let w = f.between in
      let (r'', q'', f'') =
        refill-Filled most listing ask small serves refill_fuel next f.rest
          (record {
            pos = w.pos;
            at_step = w.at_step;
            rest_eq = w.rest_eq;
            some_size = w.some_size;
            size_le = w.size_le;
            eof = w.eof;
            size = w.size;
          })
          (omega arith) (inl (omega arith)) in
      record {
        next = next;
        filled = r'';
        refilled = q'';
        is_filled = record {
          rest = f''.rest;
          between = f''.between;
          left_eq = f''.left_eq ∙ ap (λ (k : ℕ). drop k r'.held ++ f.rest) whole ∙ back;
          full = f''.full;
          same_size = f''.same_size ∙ whole;
        };
        turned = λ more p. simp (q, read_blocks, copied, go_on, p) refl;
      }

  read_all :
      (bs : List Block) (fuel : ℕ) (z : Last most) (left : List ℕ) (size : ℕ) (r r' : Reader)
      → AreBlocks most bs
      → left ≡ blocks_bytes bs ++ last_bytes z
      → Sized left size
      → refill refill_fuel ask r ≡ finished r'
      → Filled most listing left size r'
      → read_blocks (length bs + suc fuel) ask r
        ≡ finished (to_rdirents (block_entries bs ++ entries_of z.items))
  read_all [] fuel z left size r r' v e s q f =
      ap (λ (k : ℕ). read_blocks k ask r) {y = suc fuel} (omega arith)
      ∙ read_final fuel z left size r r' e s q f
  read_all (b ∷ bs) fuel z left size r r' (v, vs) e s q f =
      let tl = blocks_bytes bs ++ last_bytes z in
      let e' : left ≡ block_bytes b ++ tl =
        e ∙ append_assoc (block_bytes b) (blocks_bytes bs) (last_bytes z) in
      let t =
        read_block (length bs + suc fuel) b tl size r r' v
          (subst (λ (l : List ℕ). Sized l size) e' s) q
          (subst (λ (l : List ℕ). Filled most listing l size r') e' f) in
      let rest =
        read_all bs fuel z tl most t.next t.filled vs refl (inl refl) t.refilled t.is_filled in
      ap (λ (k : ℕ). read_blocks k ask r) {y = suc (length bs + suc fuel)} (omega arith)
      ∙ t.turned _ rest
      ∙ ap finished (
          sym (to_rdirents-append (entries_of b.items) (block_entries bs ++ entries_of z.items))
          ∙ ap to_rdirents
              (sym (append_assoc (entries_of b.items) (block_entries bs) (entries_of z.items))))

  -- The first request sets the size of a block.
  first_refill :
      9 ≤ length listing
      → 1 ≤ most
      → (size : ℕ) × (r' : Reader) × (refill refill_fuel ask
            (record { pos = 0; held = []; at_eof = false; dirblocksize = 0 })
          ≡ finished r')
        × Filled most listing listing size r'
        × Sized listing size
  unfolding receive
  first_refill h k =
      let bytes = take most listing in
      let n : ℕ = length bytes in
      let ln : n ≡ min most (length listing) = length-take most listing in
      let start : Reader = record { pos = 0; held = []; at_eof = false; dirblocksize = 0 } in
      let r : Reader = record { pos = 0 + n; held = bytes; at_eof = false; dirblocksize = n } in
      let rest = drop most listing in
      let fits : leb (0 + n) 5404 ≡ true = ground (arith, ln, small) in
      let got : receive bytes start ≡ finished r = rw (fits, receive) refl in
      let sized : (n ≡ most) ⊎ ((length listing ≤ n) × (length listing < most)) =
        elim (Bool-cases (ltb (length listing) most)) [
          | inl few ↦ inr (ground (arith, few, ln))
          | inr many ↦ inl (ground (arith, many, ln))
        ] in
      let v : Between most listing r rest = record {
        pos = omega (arith, ln);
        at_step = elim sized [
          | inl e ↦ inl (1, omega (arith, e))
          | inr (a, b) ↦ inr (omega (arith, ln, b))
        ];
        rest_eq = ap (λ (k : ℕ). drop k listing) {y = n} (omega arith) ∙ drop-take most listing;
        some_size = omega (arith, ln, h, k);
        size_le = omega (arith, ln);
        eof = λ q. absurd (ground (arith, q));
        size = elim sized [
          | inl e ↦ inl e
          | inr (a, b) ↦ inr (drop-all most listing (omega (arith, b)))
        ];
      } in
      let (r', q, f) =
        refill-Filled most listing ask small serves (ubuf_maxspace + 2) r rest v (omega arith)
          (inl (omega arith)) in
      (
        n,
        r',
        refill-ask most listing ask small serves (ubuf_maxspace + 2) start r bytes refl refl
              (serves.answer 0 (omega arith) (inl (0, omega arith))) got
            ∙ q,
        subst (λ (l : List ℕ). Filled most listing l n r') (take-drop most listing) f,
        sized,
      )

length-blocks_le :
    (size : ℕ) (bs : List Block)
    → AreBlocks size bs
    → 1 ≤ size
    → length bs ≤ length (blocks_bytes bs)
length-blocks_le size [] v h = omega arith
length-blocks_le size (b ∷ bs) (v, vs) h = omega (
  arith,
  h,
  length-block_bytes size b v,
  length-blocks_le size bs vs h,
  length-append (block_bytes b) (blocks_bytes bs),
)

-- Against a server that answers at each position with the next bytes of a listing, 1024 at most at a
-- time, `get_dir_blk` ends, with all the entries of the listing, in their order.
pub get_dir_blk-Listing :
    (most : ℕ) (listing : List ℕ) (entries : List Entry) (ask : ℕ → Option (List ℕ)) (fuel : ℕ)
    → most ≤ 1024
    → Listing most listing entries
    → Serves most listing ask
    → length listing ≤ fuel
    → get_dir_blk fuel ask ≡ finished (to_rdirents entries)
unfolding get_dir_blk
get_dir_blk-Listing most listing entries ask fuel small l serves enough =
    let (le, nine) = length-last_bytes l.last in
    let total = ap length l.bytes_eq ∙ length-append (blocks_bytes l.blocks) (last_bytes l.last) in
    let bound = length-blocks_le most l.blocks l.are_blocks (omega (arith, le, nine)) in
    let n = length l.blocks in
    let (size, r', q, f, s) =
      first_refill most listing ask small serves (omega (arith, total, nine))
        (omega (arith, le, nine)) in
    ap (λ (k : ℕ). get_dir_blk k ask) {y = n + suc (fuel - suc n)}
      (omega (arith, total, bound, nine, enough))
    ∙ read_all most listing ask small serves l.blocks (fuel - suc n) l.last listing size _ r'
        l.are_blocks l.bytes_eq s q f
    ∙ ap (λ (es : List Entry). finished (to_rdirents es)) (sym l.entries_eq)
