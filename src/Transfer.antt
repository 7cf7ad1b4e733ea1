-- ===== src/Transfer.antt =====
-- The transfers of files: `util_download_main` and `util_upload` of client/util.c, and the temporary file
-- of `server_up_load` in server/file.c.
pub mod Upload
pub mod Download
pub mod Served
pub mod Received
mod Tests
use fsp.Base.{
  ℕ, zero, suc, ◌+◌, ◌-◌, ◌^◌, Bool, true, false, not, ◌||◌, ◌&&◌, List, [], ◌∷◌, ◌++◌, length,
  take, drop, leb, ltb, ◌==◌, if◌then◌else◌, Option, none, some, codes,
}
use fsp.Rights.{dir_owner, dir_add, dir_del, has_bit}

-- FOURGIGS; an off_t has more than four bytes.
abbrev pub fourgigs : ℕ
fourgigs = 2 ^ 32 - 1

-- `util_download_main`, with what the server answers at each position (`none` is CC_ERR), and how many
-- bytes of a reply `fwrite` writes behind what the local file holds. The result is the file and the
-- code, of which `none` is a loop that has not ended in its fuel.
pub util_download_main :
    ℕ → (ℕ → Option (List ℕ)) → (List ℕ → List ℕ → ℕ) → ℕ → List ℕ → List ℕ × Option Bool
util_download_main zero ask fwrite pos file = (file, none)
util_download_main (suc fuel) ask fwrite pos file = elim (ask pos) [
  | none ↦ (file, some false)
  | some bytes ↦
      let rlen = length bytes in
      let wrote = fwrite file bytes in
      let file' = file ++ take wrote bytes in
      let rest = util_download_main fuel ask fwrite (pos + wrote) file' in
      if ltb fourgigs (pos + wrote)
      then (file', some true)
      else if rlen == 0
      then (file', some true)
      else if not (rlen == wrote)
      then (file', some false)
      else rest
]

-- The check of the rights before an upload, from the flags of the directory, if the server has sent
-- them, and whether the file exists.
pub may_upload : Option ℕ → Bool → Bool
may_upload none exists = true
may_upload (some flags) exists =
    let owner = has_bit flags dir_owner in
    let add = owner || has_bit flags dir_add in
    let del = owner || has_bit flags dir_del in
    if not add then false else if del then true else not exists

-- The loop of `util_upload`, over what is left to read. `send` is a CC_UP_LOAD, `install` the CC_INSTALL
-- at the end, with whether the server answers without an error.
pub upload_loop :
    {S : Type 0}
    → ℕ
    → ℕ
    → (S → ℕ → List ℕ → S × Bool)
    → (S → S × Bool)
    → List ℕ
    → ℕ
    → Bool
    → S
    → Option (S × Bool)
upload_loop zero client_buf_len send install rest pos first s = none
upload_loop (suc fuel) client_buf_len send install rest pos first s =
    let chunk = take client_buf_len rest in
    let bytes = length chunk in
    elim (first || ltb 0 bytes) [
      | false ↦ some (install s)
      | true ↦
          let (s', ok) = send s pos chunk in
          elim ok [
            | false ↦ some (s', false)
            | true ↦ elim (ltb fourgigs (pos + bytes)) [
              | true ↦ some (s', true)
              | false ↦
                  upload_loop fuel client_buf_len send install (drop client_buf_len rest)
                    (pos + bytes) false s'
            ]
          ]
    ]

-- The temporary file of one client: what it holds, and the position of the open stream in the cache.
pub record Temp : Type 0 where
  pub contents : Option (List ℕ)
  pub open_at : Option ℕ

-- Which of the calls of the system succeed.
pub record Io : Type 0 where
  pub opens : Bool
  pub regular : Bool
  pub seeks : Bool
  pub writes : Bool

abbrev pub gone : Temp
gone = record { contents = none; open_at = none }

-- The end of `server_up_load`: the bytes are written at `pos`. An `fwrite` that fails is taken to leave
-- the file as it is.
pub write_temp : Io → List ℕ → ℕ → List ℕ → Temp × Option (List ℕ)
write_temp io bytes pos file =
    if io.writes
    then (
      record {
        contents = some (take pos file ++ (bytes ++ drop (pos + length bytes) file));
        open_at = some (pos + length bytes);
      },
      none,
    )
    else (record { contents = some file; open_at = none }, some (codes "Writing to file failed"))

-- A stream that is not in the cache: the file is opened and checked. A new file is empty, so that the
-- second check never holds at position 0.
pub open_temp : Io → List ℕ → ℕ → Temp → Temp × Option (List ℕ)
unfolding write_temp
open_temp io bytes pos t =
    let file : Option (List ℕ) = if pos == 0 then some [] else t.contents in
    let closed : Temp = if pos == 0 then gone else t in
    if not io.opens
    then (record closed { open_at = none }, some (codes "Cannot open temporary file"))
    else elim file [
      | none ↦ (record t { open_at = none }, some (codes "Cannot open temporary file"))
      | some held ↦
          if not io.regular
          then (gone, some (codes "Temporary file is NOT a regular file"))
          else if ltb (length held) pos
          then (gone, some (codes "You are creating hole in file. Restart upload."))
          else if ltb (pos + length bytes) (length held)
          then (gone, some (codes "Non continuous upload detected. Restart upload please."))
          else if not io.seeks
          then (gone, some (codes "Seeking in file failed"))
          else write_temp io bytes pos held
    ]

-- `server_up_load`.
pub server_up_load : Io → List ℕ → ℕ → Temp → Temp × Option (List ℕ)
unfolding write_temp open_temp
server_up_load io bytes pos t = elim t.open_at [
  | none ↦ open_temp io bytes pos t
  | some at ↦
      let file : List ℕ = elim t.contents [ none ↦ [] | some held ↦ held ] in
      if ltb at pos
      then (gone, some (codes "You are creating hole in file. Restart upload."))
      else if ltb (pos + length bytes) at
      then if pos == 0
        then open_temp io bytes pos gone
        else (gone, some (codes "Non continuous upload detected. Restart upload please."))
      else if not (pos == at) && not io.seeks
      then (record { contents = some file; open_at = none }, some (codes "Seeking in file failed"))
      else write_temp io bytes pos file
]

-- The cache drops the stream, and with it closes the file.
pub evict : Temp → Temp
evict t = record t { open_at = none }
