-- ===== src/FileOps.antt =====
-- The last step of an upload, and the grabbing of a file, in server/file.c: `copy_file`, `server_install`,
-- `server_secure_file` and `server_grab_done`. The calls of the system are an interface; times, the
-- umask and a read that fails are left out. Closing a stream for reading changes nothing.
pub mod Copy
pub mod Install
pub mod Remove
mod Tests
use fsp.Base.{
  ℕ, zero, suc, ◌+◌, ◌≡◌, Bool, true, false, not, ◌||◌, ◌&&◌, List, [], ◌∷◌, ◌++◌, length, take,
  drop, ltb, ◌==◌, if◌then◌else◌, Option, none, some, codes,
}
use fsp.Rights.{same_text, dir_del, has_bit}
use fsp.IpRange.{head}

-- What stands at a path.
pub data Node : Type 0 where
  regular : List ℕ → Node
  special : Node

-- The calls of the system: `stat`, `unlink`, `fopen` for writing, and `fwrite` to and `fclose` of the stream
-- that is open under a path. All but the first say whether they succeed. `drop_stream` closes the stream
-- that the cache keeps under a path, if there is one, and removes its entry.
pub record System (W : Type 0) : Type 0 where
  pub stat : W → List ℕ → Option Node
  pub unlink : W → List ℕ → W × Bool
  pub create : W → List ℕ → W × Bool
  pub fwrite : W → List ℕ → List ℕ → W × Bool
  pub fclose : W → List ℕ → W × Bool
  pub drop_stream : W → List ℕ → W

-- What they do to the files, where they succeed, and that they touch no file that is `Apart`, as two
-- paths of different files are. What has been written to a stream, its buffer included, is in the file
-- only when `fclose` has succeeded.
pub record Laws {W : Type 0} (s : System W) (Apart : List ℕ → List ℕ → Type 0) : Type 0 where
  pub written : W → List ℕ → Option (List ℕ)
  pub apart_sym : (p q : List ℕ) → Apart p q → Apart q p
  pub unlink_other : (w : W) (p q : List ℕ) → Apart q p → s.stat (s.unlink w p).0 q ≡ s.stat w q
  pub unlink_gone :
      (w : W) (p : List ℕ) → (s.unlink w p).1 ≡ true → s.stat (s.unlink w p).0 p ≡ none
  pub create_other : (w : W) (p q : List ℕ) → Apart q p → s.stat (s.create w p).0 q ≡ s.stat w q
  pub create_empty :
      (w : W) (p : List ℕ) → (s.create w p).1 ≡ true → written (s.create w p).0 p ≡ some []
  pub fwrite_other :
      (w : W) (p bytes q : List ℕ) → Apart q p → s.stat (s.fwrite w p bytes).0 q ≡ s.stat w q
  pub fwrite_behind :
      (w : W) (p bytes held : List ℕ)
      → written w p ≡ some held
      → (s.fwrite w p bytes).1 ≡ true
      → written (s.fwrite w p bytes).0 p ≡ some (held ++ bytes)
  pub fclose_other : (w : W) (p q : List ℕ) → Apart q p → s.stat (s.fclose w p).0 q ≡ s.stat w q
  pub fclose_flush :
      (w : W) (p held : List ℕ)
      → written w p ≡ some held
      → (s.fclose w p).1 ≡ true
      → s.stat (s.fclose w p).0 p ≡ some (regular held)
  pub drop_other : (w : W) (p q : List ℕ) → Apart q p → s.stat (s.drop_stream w p) q ≡ s.stat w q

-- An open temporary file, as its bytes.
abbrev pub opened : Option Node → Option (List ℕ)
opened none = none
opened (some special) = none
opened (some (regular bytes)) = some bytes

module _ {W : Type 0} (s : System W) where
  -- The loop of `copy_file`, over what is left to read.
  pub copy_loop : ℕ → List ℕ → List ℕ → W → W × Bool
  copy_loop zero n2 rest w = (w, false)
  copy_loop (suc fuel) n2 rest w =
      let buf = take 1024 rest in
      let (w', ok) = s.fwrite w n2 buf in
      elim (length buf == 0) [
        | true ↦ (w, true)
        | false ↦ elim ok [ false ↦ (w', false) | true ↦ copy_loop fuel n2 (drop 1024 rest) w' ]
      ]

  -- The loop with all its writes, on a second file that has been opened.
  pub copy_bytes : List ℕ → List ℕ → W → W × Bool
  unfolding copy_loop
  copy_bytes n2 bytes w = copy_loop (length bytes + 1) n2 bytes (s.create w n2).0

  -- `copy_file` from the opening of the second file on. What `fclose` returns is not looked at.
  pub write_copy : List ℕ → List ℕ → W → W × Option (List ℕ)
  unfolding copy_bytes
  write_copy n2 bytes w =
      let (w1, can) = s.create w n2 in
      let (w2, ok) = copy_bytes n2 bytes w in
      let w3 = (s.fclose w2 n2).0 in
      if not can
      then (w1, some (codes "Can't open file for output"))
      else if ok
      then (w3, none)
      else ((s.unlink w3 n2).0, some (codes "Write error"))

  pub copy_file : List ℕ → List ℕ → W → W × Option (List ℕ)
  unfolding write_copy
  copy_file n1 n2 w = elim (opened (s.stat w n1)) [
    | none ↦ (w, some (codes "Can't open temporary file"))
    | some bytes ↦ write_copy n2 bytes w
  ]

  -- `server_install`, with the name of the temporary file and the directory's protection.
  pub server_install : List ℕ → List ℕ → List ℕ → ℕ → W → W × Option (List ℕ)
  unfolding copy_file
  server_install tname fullp acc protection w0 =
      let w = s.drop_stream w0 tname in
      let exists : Bool = elim (s.stat w fullp) [ none ↦ false | some n ↦ true ] in
      let (w', e) = copy_file tname fullp (s.unlink w fullp).0 in
      if same_text fullp (codes ".")
      then ((s.unlink w tname).0, none)
      else if exists && (not (has_bit protection dir_del) && not (head acc == b'O'))
      then (
        (s.unlink w tname).0,
        some (codes "no permission for replacing that file. Not an owner."),
      )
      else ((s.unlink w' tname).0, e)

  -- `server_secure_file`.
  pub server_secure_file : List ℕ → List ℕ → W → W × Option (List ℕ)
  unfolding copy_file
  server_secure_file temp_p fullp w = elim (s.stat w fullp) [
    | none ↦ (w, some (codes "grab: file not accessible"))
    | some special ↦ (w, some (codes "grab: not an ordinary file"))
    | some (regular bytes) ↦
        let (w', e) = copy_file fullp temp_p (s.unlink w temp_p).0 in
        let (w'', ok) = s.unlink w' fullp in
        elim e [
          | some text ↦ (w', some text)
          | none ↦
              if ok
              then (w'', none)
              else ((s.unlink w'' temp_p).0, some (codes "grab: cannot unlink original file"))
        ]
  ]

  -- `server_grab_done`.
  pub server_grab_done : List ℕ → W → W × Option (List ℕ)
  server_grab_done temp_p w = elim (s.stat w temp_p) [
    | none ↦ (w, some (codes "grabdone: can't find temporary file"))
    | some n ↦
        let (w', ok) = s.unlink (s.drop_stream w temp_p) temp_p in
        if ok then (w', none) else (w', some (codes "grabdone: can't delete temporary file"))
  ]
