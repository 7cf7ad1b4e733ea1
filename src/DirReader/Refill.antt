-- ===== src/DirReader/Refill.antt =====
-- The inner loop of `get_dir_blk`: what the buffer holds when it ends.
use fsp.Base.{
  ℕ, zero, suc, ◌+◌, ◌-◌, ◌*◌, ◌≤◌, ◌<◌, ◌≡◌, refl, sym, ◌∙◌, ap, ◌⊎◌, inl, inr, true, false, List,
  [], ◌++◌, append_assoc, length, length-append, length-take, length-drop, take, drop, min,
  drop-all, take-drop, drop-take, drop_add, Option, some, arith, ltb, leb, ◌==◌, Bool-cases,
}
use fsp.DirReader.{Reader, finished, receive, refill, ubuf_maxspace, nbsize}

drop-nil : (n : ℕ) (xs : List ℕ) → xs ≡ [] → drop n xs ≡ []
drop-nil n xs e = drop-all n xs (omega (arith, ap length e))

-- Where a client that reads on is: between two blocks, or at the end.
abbrev pub AtStep : ℕ → List ℕ → ℕ → Type 0
AtStep most listing pos = ((k : ℕ) × (pos ≡ k * most)) ⊎ (pos ≡ length listing)

-- A server that answers there with the next `most` bytes of a listing.
pub record Serves (most : ℕ) (listing : List ℕ) (ask : ℕ → Option (List ℕ)) : Type 0 where
  pub answer :
      (pos : ℕ)
      → pos ≤ length listing
      → AtStep most listing pos
      → ask pos ≡ some (take most (drop pos listing))

-- The variables between two requests, with the bytes that are still to come.
pub record Between (most : ℕ) (listing : List ℕ) (r : Reader) (rest : List ℕ) : Type 0 where
  pub pos : r.pos ≤ length listing
  pub at_step : AtStep most listing r.pos
  pub rest_eq : drop r.pos listing ≡ rest
  pub some_size : 1 ≤ r.dirblocksize
  pub size_le : r.dirblocksize ≤ most
  pub eof : r.at_eof ≡ true → rest ≡ []
  pub size : (r.dirblocksize ≡ most) ⊎ (rest ≡ [])

-- What the loop leaves: the same bytes, with no more to come or a full buffer.
pub record Filled (most : ℕ) (listing : List ℕ) (left : List ℕ) (size : ℕ) (r : Reader)
    : Type 0 where
  pub rest : List ℕ
  pub between : Between most listing r rest
  pub left_eq : r.held ++ rest ≡ left
  pub full : (rest ≡ []) ⊎ (ubuf_maxspace ≤ length r.held)
  pub same_size : r.dirblocksize ≡ size

module _ (most : ℕ) (listing : List ℕ) (ask : ℕ → Option (List ℕ)) (small : most ≤ 1024)
    (serves : Serves most listing ask) where
  receive-Between :
      (r : Reader) (rest : List ℕ)
      → Between most listing r rest
      → length r.held < ubuf_maxspace
      → (r' : Reader) × (receive (take most rest) r ≡ finished r')
        × Between most listing r' (drop most rest)
        × (r'.held ++ drop most rest ≡ r.held ++ rest)
        × (r'.dirblocksize ≡ r.dirblocksize)
        × ((length r.held < length r'.held) ⊎ (r'.at_eof ≡ true))
  unfolding receive
  receive-Between r rest v h =
      let bytes = take most rest in
      let n : ℕ = length bytes in
      let ln : n ≡ min most (length rest) = length-take most rest in
      let lr : length listing - r.pos ≡ length rest =
        sym (length-drop r.pos listing) ∙ ap length v.rest_eq in
      let fits : leb (length r.held + n) nbsize ≡ true = ground (arith, ln, h, small) in
      let known : (r.dirblocksize == 0) ≡ false = ground (arith, v.some_size) in
      let later : r.pos + n ≤ length listing = omega (arith, ln, lr, v.pos) in
      let step : drop (r.pos + n) listing ≡ drop most rest =
        sym (drop_add r.pos n listing)
        ∙ ap (λ (l : List ℕ). drop n l) v.rest_eq
        ∙ drop-take most rest in
      let at_step : AtStep most listing (r.pos + n) = elim v.at_step [
        | inr e ↦ inr (omega (arith, e, ln, lr))
        | inl (k, e) ↦ elim (Bool-cases (ltb (length rest) most)) [
          | inl few ↦ inr (ground (arith, few, ln, lr, v.pos))
          | inr many ↦
              let whole : n ≡ most = ground (arith, many, ln) in
              inl (suc k, grind (arith, e, whole))
        ]
      ] in
      let size : (r.dirblocksize ≡ most) ⊎ (drop most rest ≡ []) = elim v.size [
        | inl e ↦ inl e
        | inr e ↦ inr (drop-nil most rest e)
      ] in
      let bytes_eq : (r.held ++ bytes) ++ drop most rest ≡ r.held ++ rest =
        append_assoc r.held bytes (drop most rest)
        ∙ ap (λ (l : List ℕ). r.held ++ l) (take-drop most rest) in
      elim (Bool-cases (ltb n r.dirblocksize)) [
        | inl short ↦
            let end : drop most rest ≡ [] =
              drop-all most rest (ground (arith, short, ln, v.size_le)) in
            (
              record {
                pos = r.pos + n;
                held = r.held ++ bytes;
                at_eof = true;
                dirblocksize = r.dirblocksize;
              },
              rw (fits, known, short, receive) refl,
              record {
                pos = later;
                at_step = at_step;
                rest_eq = step;
                some_size = v.some_size;
                size_le = v.size_le;
                eof = λ q. end;
                size = size;
              },
              bytes_eq,
              refl,
              inr refl,
            )
        | inr full ↦ (
          record {
            pos = r.pos + n;
            held = r.held ++ bytes;
            at_eof = r.at_eof;
            dirblocksize = r.dirblocksize;
          },
          rw (fits, known, full, receive) refl,
          record {
            pos = later;
            at_step = at_step;
            rest_eq = step;
            some_size = v.some_size;
            size_le = v.size_le;
            eof = λ q. drop-nil most rest (v.eof q);
            size = size;
          },
          bytes_eq,
          refl,
          inl (ground (arith, full, v.some_size, length-append r.held bytes)),
        )
      ]

  pub refill-Filled :
      (fuel : ℕ) (r : Reader) (rest : List ℕ)
      → Between most listing r rest
      → 1 ≤ fuel
      → (ubuf_maxspace + 2 ≤ fuel + length r.held) ⊎ (r.at_eof ≡ true)
      → (r' : Reader) × (refill fuel ask r ≡ finished r')
        × Filled most listing (r.held ++ rest) r.dirblocksize r'
  unfolding refill
  refill-Filled zero r rest v h k = absurd (omega (arith, h))
  refill-Filled (suc fuel) r rest v h k = elim (Bool-cases (ltb (length r.held) ubuf_maxspace)) [
    | inr full ↦ (
      r,
      rw (full, refill) refl,
      record {
        rest = rest;
        between = v;
        left_eq = refl;
        full = inr (ground (arith, full));
        same_size = refl;
      },
    )
    | inl room ↦ elim (Bool-cases r.at_eof) [
      | inl ended ↦ (
        r,
        simp (room, ended, refill) refl,
        record {
          rest = rest;
          between = v;
          left_eq = refl;
          full = inl (v.eof ended);
          same_size = refl;
        },
      )
      | inr going ↦
          let less : length r.held < ubuf_maxspace = ground (arith, room) in
          let (r', q, v', left', same, more) = receive-Between r rest v less in
          let answer : ask r.pos ≡ some (take most rest) =
            serves.answer r.pos v.pos v.at_step
            ∙ ap (λ (l : List ℕ). some (take most l)) v.rest_eq in
          let k' : ubuf_maxspace + 2 ≤ suc fuel + length r.held = elim k [
            | inl k ↦ k
            | inr e ↦ absurd (ground (arith, e, going))
          ] in
          let (r'', q'', f) =
            refill-Filled fuel r' (drop most rest) v' (omega (arith, k', less))
              (elim more [ inl m ↦ inl (omega (arith, m, k')) | inr e ↦ inr e ]) in
          (
            r'',
            rw (room, going, refill, answer, q) q'',
            record {
              rest = f.rest;
              between = f.between;
              left_eq = f.left_eq ∙ left';
              full = f.full;
              same_size = f.same_size ∙ same;
            },
          )
    ]
  ]

  -- A turn of the loop.
  pub refill-ask :
      (fuel : ℕ) (r r' : Reader) (bytes : List ℕ)
      → ltb (length r.held) ubuf_maxspace ≡ true
      → r.at_eof ≡ false
      → ask r.pos ≡ some bytes
      → receive bytes r ≡ finished r'
      → refill (suc fuel) ask r ≡ refill fuel ask r'
  unfolding refill
  refill-ask fuel r r' bytes room going answer q = rw (room, going, refill, answer, q) refl
