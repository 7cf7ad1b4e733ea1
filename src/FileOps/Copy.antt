-- ===== src/FileOps/Copy.antt =====
-- What a copy leaves behind.
use fsp.Base.{
  ℕ, zero, suc, ◌+◌, ◌≤◌, ◌≡◌, refl, sym, ◌∙◌, ap, true, false, inl, inr, List, [], ◌∷◌, ◌++◌,
  append-nil, append_assoc, length, take, drop, take-drop, ◌==◌, none, some, arith, Bool-cases,
  Option-cases, codes,
}
use mathlib.Core.Option.{some-ne-none}
use fsp.FileOps.{regular, System, Laws, opened, copy_loop, copy_bytes, write_copy, copy_file}

false-ne-true : false ≡ true → ⊥
false-ne-true e = cc

zero_length : (n : ℕ) → (n == 0) ≡ true → n ≡ 0
zero_length n e = ground (arith, e)

take-empty : (n : ℕ) (xs : List ℕ) → 1 ≤ n → length (take n xs) ≡ 0 → xs ≡ []
take-empty zero xs h e = absurd (omega (arith, h))
take-empty (suc n) [] h e = refl
take-empty (suc n) (x ∷ xs) h e = absurd (omega (arith, e))

module _ {W : Type 0} (s : System W) {Apart : List ℕ → List ℕ → Type 0} (laws : Laws s Apart) where
  -- The other files are as they were.
  pub copy_loop-other :
      (fuel : ℕ) (n2 rest q : List ℕ) (w : W)
      → Apart q n2
      → s.stat (copy_loop s fuel n2 rest w).0 q ≡ s.stat w q
  unfolding copy_loop
  copy_loop-other zero n2 rest q w h = refl
  copy_loop-other (suc fuel) n2 rest q w h = elim (Bool-cases (length (take 1024 rest) == 0)) [
    | inl end ↦ rw (end, copy_loop) refl
    | inr more ↦ elim (Bool-cases (s.fwrite w n2 (take 1024 rest)).1) [
      | inr short ↦ rw (more, copy_loop, short) (laws.fwrite_other w n2 (take 1024 rest) q h)
      | inl full ↦
          rw (more, copy_loop, full)
            (copy_loop-other fuel n2 (drop 1024 rest) q (s.fwrite w n2 (take 1024 rest)).0 h
              ∙ laws.fwrite_other w n2 (take 1024 rest) q h)
    ]
  ]

  -- A loop that succeeds has written all that was left.
  pub copy_loop-whole :
      (fuel : ℕ) (n2 rest held : List ℕ) (w : W)
      → laws.written w n2 ≡ some held
      → (copy_loop s fuel n2 rest w).1 ≡ true
      → laws.written (copy_loop s fuel n2 rest w).0 n2 ≡ some (held ++ rest)
  unfolding copy_loop
  copy_loop-whole zero n2 rest held w h ok = absurd (ground (arith, ok))
  copy_loop-whole (suc fuel) n2 rest held w h ok =
      elim (Bool-cases (length (take 1024 rest) == 0)) [
        | inl end ↦
            let empty : rest ≡ [] =
              take-empty 1024 rest (omega arith) (zero_length (length (take 1024 rest)) end) in
            rw (end, copy_loop)
              (h
                ∙ ap (λ (l : List ℕ). some l)
                    (sym (ap (λ (l : List ℕ). held ++ l) empty ∙ append-nil held)))
        | inr more ↦ elim (Bool-cases (s.fwrite w n2 (take 1024 rest)).1) [
          | inr short ↦ absurd (false-ne-true (rw (more, copy_loop, short) at ok))
          | inl full ↦
              rw (more, copy_loop, full)
                (copy_loop-whole fuel n2 (drop 1024 rest) (held ++ take 1024 rest)
                    (s.fwrite w n2 (take 1024 rest)).0
                    (laws.fwrite_behind w n2 (take 1024 rest) held h full)
                    (rw (more, copy_loop, full) at ok)
                  ∙ ap (λ (l : List ℕ). some l)
                      (append_assoc held (take 1024 rest) (drop 1024 rest)
                        ∙ ap (λ (l : List ℕ). held ++ l) (take-drop 1024 rest)))
        ]
      ]

  write_copy-other :
      (n2 bytes q : List ℕ) (w : W) → Apart q n2 → s.stat (write_copy s n2 bytes w).0 q ≡ s.stat w q
  unfolding write_copy copy_bytes
  write_copy-other n2 bytes q w h =
      let w1 = (s.create w n2).0 in
      let run = copy_loop s (length bytes + 1) n2 bytes w1 in
      let created = laws.create_other w n2 q h in
      let closed =
        laws.fclose_other run.0 n2 q h
        ∙ copy_loop-other (length bytes + 1) n2 bytes q w1 h
        ∙ created in
      elim (Bool-cases (s.create w n2).1) [
        | inr refused ↦ rw (refused, write_copy) created
        | inl can ↦ elim (Bool-cases run.1) [
          | inl ok ↦ rw (can, write_copy, ok) closed
          | inr broken ↦
              rw (can, write_copy, broken) (laws.unlink_other (s.fclose run.0 n2).0 n2 q h ∙ closed)
        ]
      ]

  write_copy-whole :
      (n2 bytes : List ℕ) (w : W)
      → (s.fclose (copy_bytes s n2 bytes w).0 n2).1 ≡ true
      → (write_copy s n2 bytes w).1 ≡ none
      → s.stat (write_copy s n2 bytes w).0 n2 ≡ some (regular bytes)
  unfolding write_copy copy_bytes
  write_copy-whole n2 bytes w flushed e =
      let w1 = (s.create w n2).0 in
      let run = copy_loop s (length bytes + 1) n2 bytes w1 in
      elim (Bool-cases (s.create w n2).1) [
        | inr refused ↦
            absurd
              (some-ne-none (codes "Can't open file for output") (rw (refused, write_copy) at e))
        | inl can ↦ elim (Bool-cases run.1) [
          | inl ok ↦
              rw (can, write_copy, ok)
                (laws.fclose_flush run.0 n2 bytes
                  (copy_loop-whole (length bytes + 1) n2 bytes [] w1 (laws.create_empty w n2 can)
                    ok)
                  flushed)
          | inr broken ↦
              absurd (some-ne-none (codes "Write error") (rw (can, write_copy, broken) at e))
        ]
      ]

  -- A copy touches no file but the second one.
  pub copy_file-other :
      (n1 n2 q : List ℕ) (w : W) → Apart q n2 → s.stat (copy_file s n1 n2 w).0 q ≡ s.stat w q
  unfolding copy_file
  copy_file-other n1 n2 q w h = elim (Option-cases (opened (s.stat w n1))) [
    | inl e ↦ rw (e, copy_file) refl
    | inr (bytes, e) ↦ rw (e, copy_file) (write_copy-other n2 bytes q w h)
  ]

  -- A copy that succeeds holds the bytes of the file, if closing it has succeeded.
  pub copy_file-whole :
      (n1 n2 bytes : List ℕ) (w : W)
      → s.stat w n1 ≡ some (regular bytes)
      → (s.fclose (copy_bytes s n2 bytes w).0 n2).1 ≡ true
      → (copy_file s n1 n2 w).1 ≡ none
      → s.stat (copy_file s n1 n2 w).0 n2 ≡ some (regular bytes)
  unfolding copy_file
  copy_file-whole n1 n2 bytes w h flushed ok =
      let e : opened (s.stat w n1) ≡ some bytes = ap opened h in
      rw (e, copy_file) (write_copy-whole n2 bytes w flushed (rw (e, copy_file) at ok))
