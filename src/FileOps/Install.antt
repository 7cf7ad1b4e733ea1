-- ===== src/FileOps/Install.antt =====
-- What installing and grabbing a file come to.
use fsp.Base.{
  ℕ, ◌≡◌, ◌∙◌, Bool, true, false, not, ◌&&◌, inl, inr, List, ◌==◌, none, some, Bool-cases,
  Option-cases, codes,
}
use mathlib.Core.Option.{some-ne-none}
use fsp.Rights.{same_text, dir_del, has_bit}
use fsp.IpRange.{head}
use fsp.FileOps.{
  regular, special, System, Laws, copy_bytes, copy_file, server_install, server_secure_file,
}
use fsp.FileOps.Copy.{copy_file-other, copy_file-whole}

module _ {W : Type 0} (s : System W) {Apart : List ℕ → List ℕ → Type 0} (laws : Laws s Apart) where
  -- What the right to replace comes to.
  abbrev may_replace : List ℕ → List ℕ → ℕ → W → Bool
  may_replace fullp acc protection w =
      let exists : Bool = elim (s.stat w fullp) [ none ↦ false | some n ↦ true ] in
      exists && (not (has_bit protection dir_del) && not (head acc == b'O'))

  -- An installation that succeeds under a name leaves the uploaded bytes there, as they are when the
  -- cached stream has been closed, and touches no other file but the temporary one. The new file is closed
  -- without an error, which the code does not look at.
  pub server_install-installed :
      (tname fullp acc bytes q : List ℕ) (protection : ℕ) (w : W)
      → Apart fullp tname
      → Apart q tname
      → Apart q fullp
      → s.stat (s.drop_stream w tname) tname ≡ some (regular bytes)
      → (s.fclose (copy_bytes s fullp bytes (s.unlink (s.drop_stream w tname) fullp).0).0 fullp).1
        ≡ true
      → same_text fullp (codes ".") ≡ false
      → (server_install s tname fullp acc protection w).1 ≡ none
      → (s.stat (server_install s tname fullp acc protection w).0 fullp ≡ some (regular bytes))
        × (s.stat (server_install s tname fullp acc protection w).0 q ≡ s.stat w q)
  unfolding server_install
  server_install-installed tname fullp acc bytes q protection old ne nt nf h flushed named ok =
      let w = s.drop_stream old tname in
      let w0 = (s.unlink w fullp).0 in
      let w1 = (copy_file s tname fullp w0).0 in
      let there : s.stat w0 tname ≡ some (regular bytes) =
        laws.unlink_other w fullp tname (laws.apart_sym fullp tname ne) ∙ h in
      elim (Bool-cases (may_replace fullp acc protection w)) [
        | inl refused ↦ absurd (
            some-ne-none (codes "no permission for replacing that file. Not an owner.")
              (rw (named, server_install, refused) at ok))
        | inr allowed ↦
            rw (named, server_install, allowed)
              (
                laws.unlink_other w1 tname fullp ne
                    ∙ copy_file-whole s laws tname fullp bytes w0 there flushed
                        (rw (named, server_install, allowed) at ok),
                laws.unlink_other w1 tname q nt
                    ∙ copy_file-other s laws tname fullp q w0 nf
                    ∙ laws.unlink_other w fullp q nf
                    ∙ laws.drop_other old tname q nt,
              )
      ]

  -- A file that has been secured for grabbing stands under the temporary name, with its bytes, and no
  -- longer under its own; the other files are as they were. The copy is closed without an error, which
  -- the code does not look at.
  pub server_secure_file-moved :
      (temp_p fullp q : List ℕ) (w : W)
      → Apart fullp temp_p
      → Apart q temp_p
      → Apart q fullp
      → ((bytes : List ℕ)
          → s.stat w fullp ≡ some (regular bytes)
          → (s.fclose (copy_bytes s temp_p bytes (s.unlink w temp_p).0).0 temp_p).1 ≡ true)
      → (server_secure_file s temp_p fullp w).1 ≡ none
      → (bytes : List ℕ) × (s.stat w fullp ≡ some (regular bytes))
        × (s.stat (server_secure_file s temp_p fullp w).0 temp_p ≡ some (regular bytes))
        × (s.stat (server_secure_file s temp_p fullp w).0 fullp ≡ none)
        × (s.stat (server_secure_file s temp_p fullp w).0 q ≡ s.stat w q)
  unfolding server_secure_file
  server_secure_file-moved temp_p fullp q w ne nt nf flushed ok =
      elim (Option-cases (s.stat w fullp)) [
        | inl gone ↦
            absurd (
              some-ne-none (codes "grab: file not accessible")
                (rw (gone, server_secure_file) at ok))
        | inr (special, e) ↦
            absurd
              (some-ne-none (codes "grab: not an ordinary file") (rw (e, server_secure_file) at ok))
        | inr (regular bytes, e) ↦
            let w0 = (s.unlink w temp_p).0 in
            let copy = copy_file s fullp temp_p w0 in
            let there : s.stat w0 fullp ≡ some (regular bytes) =
              laws.unlink_other w temp_p fullp ne ∙ e in
            elim (Option-cases copy.1) [
              | inr (text, c) ↦ absurd (some-ne-none text (rw (e, server_secure_file, c) at ok))
              | inl c ↦ elim (Bool-cases (s.unlink copy.0 fullp).1) [
                | inr kept ↦ absurd (
                    some-ne-none (codes "grab: cannot unlink original file")
                      (rw (e, server_secure_file, c, kept) at ok))
                | inl gone ↦ (
                  bytes,
                  e,
                  rw (e, server_secure_file, c, gone)
                      (laws.unlink_other copy.0 fullp temp_p (laws.apart_sym fullp temp_p ne)
                        ∙ copy_file-whole s laws fullp temp_p bytes w0 there (flushed bytes e) c),
                  rw (e, server_secure_file, c, gone) (laws.unlink_gone copy.0 fullp gone),
                  rw (e, server_secure_file, c, gone)
                      (laws.unlink_other copy.0 fullp q nf
                        ∙ copy_file-other s laws fullp temp_p q w0 nt
                        ∙ laws.unlink_other w temp_p q nt),
                )
              ]
            ]
      ]
