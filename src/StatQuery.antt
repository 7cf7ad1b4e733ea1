-- ===== src/StatQuery.antt =====
-- CC_STAT: `server_stat` of server/file.c, and the part of `util_stat` in client/util.c that reads its
-- answer.
pub mod Answer
mod Tests
use fsp.Base.{
  ℕ, Bool, true, false, List, [], ◌∷◌, ◌++◌, drop, ltb, ◌==◌, if◌then◌else◌, Option, none, some,
}
use fsp.Packet.{Packet, read2, read4}
use fsp.PathName.{Error, Parsed, parsed, error, out_of_bounds, parse_path}
use fsp.PathName.Accept.{text_at}
use fsp.FifoCache.{Cache}
use fsp.Validate.{Info, Setup, System, Validated, accepted, refused, validate_path}
use fsp.Listing.{
  FileKind, is_directory, is_regular, is_other, FileStat, word_bytes, rdtype_file, rdtype_dir,
}

-- The type byte, where `validate_path` is asked for directories and files.
pub type_byte : FileKind → Bool → ℕ
type_byte is_directory valid = if valid then rdtype_dir else 0
type_byte is_regular valid = if valid then rdtype_file else 0
type_byte is_other valid = 0

-- What `server_stat` leaves in the buffer, from what `stat` has answered and whether the path is valid. A
-- failing `stat` is taken to leave `sb`, of which st_size is what the stack held.
pub reported : ℕ → Option (FileStat × Bool) → List ℕ
unfolding type_byte
reported stack none = word_bytes 0 ++ (word_bytes stack ++ (0 ∷ []))
reported stack (some (sb, valid)) =
    word_bytes sb.st_mtime ++ (word_bytes sb.st_size ++ (type_byte sb.kind valid ∷ []))

-- `BB_READ2(ubuf->bb_len)` and the buffer; a length below 2 is taken for an empty path.
pub stat_len : Packet → ℕ
stat_len ub = if ltb (read2 ub.len) 2 then 1 else read2 ub.len

pub stat_buf : Packet → List ℕ
stat_buf ub = if ltb (read2 ub.len) 2 then 0 ∷ drop 1 ub.body else ub.body

pub is_accepted : Validated → Bool
is_accepted (accepted i) = true
is_accepted (refused text) = false

module _ {R : Type 0} (no_rights : R) (parse_error : Error → List ℕ) (setup : Setup)
    (sys : System R) (fsp_stat : List ℕ → Option FileStat) where
  -- The check of the path, which is parsed once more from the buffer that the first parse has left.
  pub valid_at :
      List ℕ
      → ℕ
      → FileKind
      → Cache (Option (List ℕ)) (Info R)
      → Cache (Option (List ℕ)) (Info R) × Bool
  unfolding is_accepted
  valid_at buf len is_directory cache =
      let (c, v) = validate_path no_rights parse_error setup sys buf len true cache in
      (c, is_accepted v)
  valid_at buf len is_regular cache =
      let (c, v) = validate_path no_rights parse_error setup sys buf len false cache in
      (c, is_accepted v)
  valid_at buf len is_other cache = (cache, false)

  -- From the parsed path on: what `stat` answers for it, if it does, and whether the path is valid.
  pub look_up :
      Parsed
      → ℕ
      → Cache (Option (List ℕ)) (Info R)
      → Cache (Option (List ℕ)) (Info R) × Option (FileStat × Bool)
  unfolding valid_at
  look_up (parsed buf pp) len cache = elim (fsp_stat (text_at buf pp.fullp)) [
    | none ↦ (cache, none)
    | some sb ↦ let (c, valid) = valid_at buf len sb.kind cache in (c, some (sb, valid))
  ]
  look_up (error e) len cache = (cache, none)
  look_up out_of_bounds len cache = (cache, none)

  -- `server_stat`, with the cache of directories and the first nine bytes of the buffer.
  pub server_stat :
      ℕ → Packet → Cache (Option (List ℕ)) (Info R) → Cache (Option (List ℕ)) (Info R) × List ℕ
  unfolding look_up reported stat_len stat_buf
  server_stat stack ub cache =
      let (c, o) = look_up (parse_path (stat_buf ub) (stat_len ub)) (stat_len ub) cache in
      (c, reported stack o)

-- What `util_stat` finds in the first nine bytes of the answer; `none` is ENOENT.
pub read_stat : List ℕ → Option FileStat
unfolding read4
read_stat (t3 ∷ t2 ∷ t1 ∷ t0 ∷ s3 ∷ s2 ∷ s1 ∷ s0 ∷ type ∷ rest) =
    if type == 0
    then none
    else some (record {
      kind = if type == rdtype_dir then is_directory else is_regular;
      st_mtime = read4 (record { b3 = t3; b2 = t2; b1 = t1; b0 = t0 });
      st_size = read4 (record { b3 = s3; b2 = s2; b1 = s1; b0 = s0 });
    })
read_stat _ = none
