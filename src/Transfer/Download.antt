-- ===== src/Transfer/Download.antt =====
-- `util_download_main` against a server that answers with pieces of a file.
use fsp.Base.{
  ℕ, zero, suc, ◌+◌, ◌-◌, ◌≤◌, ◌<◌, ◌≡◌, ◌≢◌, refl, sym, ◌∙◌, ap, subst, Bool, true, false, ◌⊎◌,
  inl, inr, List, [], ◌++◌, append-nil, append_assoc, length, length-take, length-drop,
  take-append_add, take-append_le, drop-take, take, drop, take-drop, drop_add, take-all, drop-all,
  ltb, ◌==◌, min, Option, some, none, arith, Bool-cases,
}
use fsp.Transfer.{util_download_main, fourgigs}

-- A server that answers at each position with an error, or with some of the bytes from there on, none
-- only at the end.
pub record Sends (file : List ℕ) (ask : ℕ → Option (List ℕ)) : Type 0 where
  pub answer :
      (pos : ℕ)
      → pos ≤ length file
      → (ask pos ≡ none) ⊎ ((n : ℕ) × (1 ≤ n) × (ask pos ≡ some (take n (drop pos file))))

-- Why a download fails.
abbrev pub Reason : List ℕ → (ℕ → Option (List ℕ)) → (List ℕ → List ℕ → ℕ) → Type 0
Reason whole_file ask fwrite =
    ((pos : ℕ) × (pos ≤ length whole_file) × (ask pos ≡ none))
    ⊎ ((file : List ℕ) × (bytes : List ℕ) × (fwrite file bytes ≢ length bytes))

-- What a download from `pos` on may come to, behind the bytes `got`.
pub data Comes (ask : ℕ → Option (List ℕ)) (fwrite : List ℕ → List ℕ → ℕ) (file got : List ℕ)
    (pos : ℕ) (r : List ℕ × Option Bool) : Type 0 where
  whole : r ≡ (got ++ drop pos file, some true) → Comes ask fwrite file got pos r
  part :
      (k : ℕ)
      → r ≡ (got ++ take k (drop pos file), some false)
      → Reason file ask fwrite
      → Comes ask fwrite file got pos r

module _ (file : List ℕ) (ask : ℕ → Option (List ℕ)) (fwrite : List ℕ → List ℕ → ℕ)
    (sends : Sends file ask) (no_more : (f bytes : List ℕ) → fwrite f bytes ≤ length bytes)
    (small : length file ≤ fourgigs) where
  slice :
      (pos n : ℕ)
      → let bytes = take n (drop pos file) in
        bytes ++ drop (pos + length bytes) file ≡ drop pos file
  slice pos n =
      let bytes = take n (drop pos file) in
      ap (λ (l : List ℕ). bytes ++ l)
        (sym (drop_add pos (length bytes) file) ∙ drop-take n (drop pos file))
      ∙ take-drop n (drop pos file)

  later :
      (got bytes : List ℕ) (pos : ℕ) (r : List ℕ × Option Bool)
      → bytes ++ drop (pos + length bytes) file ≡ drop pos file
      → Comes ask fwrite file (got ++ bytes) (pos + length bytes) r
      → Comes ask fwrite file got pos r
  later got bytes pos r s (whole e) = whole (
      e
      ∙ ap (λ (l : List ℕ). (l, some true))
          (append_assoc got bytes (drop (pos + length bytes) file)
            ∙ ap (λ (l : List ℕ). got ++ l) s))
  later got bytes pos r s (part k e why) =
      part (length bytes + k)
        (e
          ∙ ap (λ (l : List ℕ). (l, some false))
              (append_assoc got bytes (take k (drop (pos + length bytes) file))
                ∙ ap (λ (l : List ℕ). got ++ l)
                    (sym (take-append_add bytes (drop (pos + length bytes) file) k)
                      ∙ ap (take (length bytes + k)) s)))
        why

  download_round :
      (fuel pos : ℕ) (got bytes : List ℕ)
      → ask pos ≡ some bytes
      → fwrite got bytes ≡ length bytes
      → ltb fourgigs (pos + length bytes) ≡ false
      → (length bytes == 0) ≡ false
      → util_download_main (suc fuel) ask fwrite pos got
        ≡ util_download_main fuel ask fwrite (pos + length bytes) (got ++ bytes)
  unfolding util_download_main
  download_round fuel pos got bytes a w low more =
      let low' : ltb fourgigs (pos + fwrite got bytes) ≡ false =
        ap (λ (k : ℕ). ltb fourgigs (pos + k)) w ∙ low in
      let equal : (length bytes == fwrite got bytes) ≡ true = ground (arith, w) in
      rw (a, util_download_main, low', more, equal, w, take-all (length bytes) bytes (omega arith))
        refl

  -- With enough fuel and a file of no more than 4 GiB, a download ends. If it succeeds, it has written
  -- the whole file from the position on; if not, an initial part of it, and the server has answered with
  -- an error, or a write has fallen short.
  pub util_download_main-Comes :
      (fuel pos : ℕ) (got : List ℕ)
      → pos ≤ length file
      → length file < pos + fuel
      → Comes ask fwrite file got pos (util_download_main fuel ask fwrite pos got)
  unfolding util_download_main
  util_download_main-Comes zero pos got inside k = absurd (omega (arith, inside, k))
  util_download_main-Comes (suc fuel) pos got inside k = elim (sends.answer pos inside) [
    | inl refused ↦
        part 0
          (rw (refused, util_download_main)
            (ap (λ (l : List ℕ). (l, some false)) (sym (append-nil got))))
          (inl (pos, inside, refused))
    | inr (n, some_bytes, a) ↦
        let bytes = take n (drop pos file) in
        let lb : length bytes ≡ min n (length file - pos) =
          length-take n (drop pos file) ∙ ap (min n) (length-drop pos file) in
        let low : ltb fourgigs (pos + fwrite got bytes) ≡ false =
          ground (arith, no_more got bytes, lb, small, inside) in
        elim (Bool-cases (length bytes == 0)) [
          | inl end ↦
              let empty : bytes ≡ [] = drop-all 0 bytes (ground (arith, end)) in
              let at_end : drop pos file ≡ [] =
                drop-all pos file (ground (arith, end, lb, some_bytes)) in
              let same : take (fwrite got bytes) bytes ≡ drop pos file =
                take-all (fwrite got bytes) bytes (ground (arith, end)) ∙ empty ∙ sym at_end in
              whole (
                rw (a, util_download_main, low, end)
                  (ap (λ (l : List ℕ). (got ++ l, some true)) same))
          | inr more ↦ elim (Bool-cases (length bytes == fwrite got bytes)) [
            | inl all ↦
                let w : fwrite got bytes ≡ length bytes = ground (arith, all) in
                let low' : ltb fourgigs (pos + length bytes) ≡ false =
                  ap (λ (j : ℕ). ltb fourgigs (pos + j)) (sym w) ∙ low in
                subst (Comes ask fwrite file got pos)
                  (sym (download_round fuel pos got bytes a w low' more))
                  (later got bytes pos
                    (util_download_main fuel ask fwrite (pos + length bytes) (got ++ bytes))
                    (slice pos n)
                    (util_download_main-Comes fuel (pos + length bytes) (got ++ bytes)
                      (omega (arith, lb, inside)) (ground (arith, k, more))))
            | inr short ↦
                part (fwrite got bytes)
                  (rw (a, util_download_main, low, more, short)
                    (ap (λ (l : List ℕ). (got ++ l, some false))
                      (sym (
                          take-append_le (fwrite got bytes) bytes (drop n (drop pos file))
                            (no_more got bytes))
                        ∙ ap (take (fwrite got bytes)) (take-drop n (drop pos file)))))
                  (inr (got, bytes, λ e. ground (arith, e, short)))
          ]
        ]
  ]

-- A download succeeds, if the server never refuses and every write is whole.
pub Comes-whole :
    (ask : ℕ → Option (List ℕ)) (fwrite : List ℕ → List ℕ → ℕ) (file got : List ℕ) (pos : ℕ)
    (r : List ℕ × Option Bool)
    → ((at : ℕ) → at ≤ length file → ask at ≢ none)
    → ((f bytes : List ℕ) → fwrite f bytes ≡ length bytes)
    → Comes ask fwrite file got pos r
    → r ≡ (got ++ drop pos file, some true)
Comes-whole ask fwrite file got pos r served room (whole e) = e
Comes-whole ask fwrite file got pos r served room (part k e (inl (at, inside, q))) =
    absurd (served at inside q)
Comes-whole ask fwrite file got pos r served room (part k e (inr (f, bytes, ne))) =
    absurd (ne (room f bytes))
