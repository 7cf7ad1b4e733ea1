-- ===== src/PathName/Tests.antt =====
-- Paths that clients send, and the theorems about the parser at these paths.
use fsp.Base.{ℕ, ◌≡◌, refl, ◌≢◌, ◌⊎◌, List, [], ◌∷◌, some, none, take, drop, arith}
use fsp.PathName.{
  at, dot, PPath, slash, round, scan, last_newline, finish, conclude, settle, parsed, error,
  out_of_bounds, bad_start, dot_file, parse_path,
}
use fsp.PathName.Clean.{IsPath}
use fsp.PathName.Accept.{c_string, text_at, parse_path-IsPath, parse_path-in_bounds}
use fsp.PathName.Parts.{parse_path-Parts, Describes}
use fsp.PathName.Split.{AllSlash, Parts}

program : Unit {0}
unfolding slash round scan last_newline finish conclude settle parse_path
program = tt

-- "/a//b" and its terminator, and the same with the password "x".
abbrev nested : List ℕ
nested = b'/' ∷ b'a' ∷ b'/' ∷ b'/' ∷ b'b' ∷ 0 ∷ []

abbrev locked : List ℕ
locked = b'a' ∷ b'\n' ∷ b'x' ∷ 0 ∷ []

abbrev nested_parts : PPath
nested_parts = record {
  fullp = at 1;
  f_ptr = at 4;
  f_len = 1;
  d_ptr = at 1;
  d_len = 1;
  passwd = none;
}

parse_nested : parse_path nested 6 ≡ parsed nested nested_parts
unfolding program
parse_nested = refl

parse_locked :
    parse_path locked 4
    ≡ parsed
        (b'a' ∷ 0 ∷ b'x' ∷ 0 ∷ [])
        (record { fullp = at 0; f_ptr = at 0; f_len = 1; d_ptr = dot; d_len = 1; passwd = some 2 })
unfolding program
parse_locked = refl

-- "../a" and "a/.b" are refused.
parse_upwards : parse_path (b'.' ∷ b'.' ∷ b'/' ∷ b'a' ∷ 0 ∷ []) 5 ≡ error bad_start
unfolding program
parse_upwards = refl

parse_hidden : parse_path (b'a' ∷ b'/' ∷ b'.' ∷ b'b' ∷ 0 ∷ []) 5 ≡ error dot_file
unfolding program
parse_hidden = refl

parse_path-IsPath_example : (nested_parts.fullp ≡ dot) ⊎ IsPath (text_at nested nested_parts.fullp)
parse_path-IsPath_example = parse_path-IsPath nested nested 6 nested_parts parse_nested

parse_path-in_bounds_example : parse_path nested 6 ≢ out_of_bounds
parse_path-in_bounds_example = parse_path-in_bounds nested 6 (omega arith)

parse_path-Parts_example :
    (i : ℕ) × (dir : List ℕ) × (gap : List ℕ) × (file : List ℕ) × AllSlash (take i nested)
    × Parts (c_string (drop i nested)) dir gap file
    × Describes nested_parts i dir gap file
    × (c_string (drop i nested) ≡ [] → nested_parts.fullp ≡ dot)
    × (c_string (drop i nested) ≢ [] → nested_parts.fullp ≡ at i)
parse_path-Parts_example = parse_path-Parts nested nested 6 nested_parts parse_nested
