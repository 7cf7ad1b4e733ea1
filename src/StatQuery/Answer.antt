-- ===== src/StatQuery/Answer.antt =====
-- What the client learns by CC_STAT.
use fsp.Base.{ℕ, ◌≡◌, List, true, false, Option, some}
use fsp.Packet.{Packet}
use fsp.Listing.{FileKind, is_directory, is_regular, is_other, FileStat}
use fsp.PathName.{Error, Parsed, parsed, error, out_of_bounds}
use fsp.PathName.Accept.{text_at}
use fsp.FifoCache.{Cache}
use fsp.Validate.{Info, Setup, System, accepted, validate_path}

module _ {R : Type 0} (no_rights : R) (parse_error : Error → List ℕ) (setup : Setup)
    (sys : System R) (fsp_stat : List ℕ → Option FileStat) where
  -- The path stands for something of a kind, and passes `validate_path` as that.
  abbrev pub Valid : List ℕ → ℕ → Cache (Option (List ℕ)) (Info R) → FileKind → Type 0
  Valid buf len cache is_directory =
      (i : ℕ) × ((validate_path no_rights parse_error setup sys buf len true cache).1 ≡ accepted i)
  Valid buf len cache is_regular =
      (i : ℕ) × ((validate_path no_rights parse_error setup sys buf len false cache).1 ≡ accepted i)
  Valid buf len cache is_other = ⊥

  -- The path can be parsed, `stat` answers `sb` for it, and it is valid.
  abbrev pub Stands : ℕ → Cache (Option (List ℕ)) (Info R) → FileStat → Parsed → Type 0
  Stands len cache sb (parsed buf pp) =
      (fsp_stat (text_at buf pp.fullp) ≡ some sb) × Valid buf len cache sb.kind
  Stands len cache sb (error e) = ⊥
  Stands len cache sb out_of_bounds = ⊥
