-- ===== src/PathName.antt =====
-- The path parser of server/path.c. A pointer into the client's string is an index into its
-- buffer; `dot` is a pointer to the literal ".".
pub mod Clean
pub mod Accept
pub mod Split
pub mod Parts
mod Tests
use fsp.Base.{
  ℕ, ◌+◌, ◌-◌, Bool, true, false, ◌||◌, List, [], ◌∷◌, get_elem?, set, drop, take, ltb, leb, ◌==◌,
  if◌then◌else◌, Option, none, some, ◌&&◌,
}

pub data Error : Type 0 where
  zero_length not_terminated control_chars high_chars bad_start dot_file : Error

pub data Ptr : Type 0 where
  at : ℕ → Ptr
  dot : Ptr

-- `PPATH` of include/server_def.h, without the two address texts, which the parser leaves alone.
pub record PPath : Type 0 where
  pub fullp : Ptr
  pub f_ptr : Ptr
  pub f_len : ℕ
  pub d_ptr : Ptr
  pub d_len : ℕ
  pub passwd : Option ℕ

-- The variables of the loop.
pub record Scan : Type 0 where
  pub fullp : ℕ
  pub f_ptr : ℕ
  pub d_ptr : ℕ
  pub d_len : ℕ
  pub state : ℕ

-- One round of the loop: it goes on or refuses the path.
pub data Round : Type 0 where
  next : Scan → Round
  refuse : Error → Round

-- `char` is signed, so that a byte from 128 on is negative and counts as a control character.
abbrev pub is_control : ℕ → Bool
is_control c = ltb c b' ' || leb 128 c

abbrev pub is_dotted : ℕ → Bool
is_dotted c = c == b'\\' || c == b'.'

pub slash : ℕ → Scan → Scan
slash s x =
    if x.state == 0
    then record { fullp = s + 1; f_ptr = s + 1; d_ptr = s + 1; d_len = 0; state = 0 }
    else if x.state == 1
    then record x { f_ptr = s + 1; d_len = s - x.fullp; state = 2 }
    else record x { f_ptr = s + 1 }

pub round : ℕ → ℕ → Scan → Round
unfolding slash
round c s x =
    if is_control c
    then refuse control_chars
    else if leb b'~' c
    then refuse high_chars
    else if is_dotted c && x.state == 0
    then refuse bad_start
    else if is_dotted c && x.state == 2
    then refuse dot_file
    else if c == b'/'
    then next (slash s x)
    else next (record x { state = 1 })

-- How the loop ends, with the index it stopped at: at the terminator, at a newline, by an error,
-- or by a read past the buffer.
pub data Stop : Type 0 where
  ended newline : Scan → ℕ → Stop
  failed : Error → Stop
  overrun : Stop

pub scan : List ℕ → ℕ → Scan → Stop
scan [] s x = overrun
scan (c ∷ cs) s x =
    let rest : Stop = elim (round c s x) [ refuse e ↦ failed e | next x' ↦ scan cs (s + 1) x' ] in
    if c == 0 then ended x s else if c == b'\n' then newline x s else rest

-- What `strrchr` finds; it may read past the buffer.
pub data Sought : Type 0 where
  past_end nowhere : Sought
  sought_at : ℕ → Sought

-- `strrchr(p, '\n')` over the string at the front of the list, which starts at index `i`.
pub last_newline : List ℕ → ℕ → Sought
last_newline [] i = past_end
last_newline (c ∷ cs) i =
    let later : Sought = elim (last_newline cs (i + 1)) [
      | past_end ↦ past_end
      | nowhere ↦ if c == b'\n' then sought_at i else nowhere
      | sought_at j ↦ sought_at j
    ] in
    if c == 0 then nowhere else later

-- The end of the function, with the byte at `fullp`: an empty directory, file or path becomes ".".
pub finish : Scan → ℕ → Option ℕ → ℕ → PPath
finish x s passwd first =
    let f_len = s - x.f_ptr in
    record {
      fullp = if first == 0 then dot else at x.fullp;
      f_ptr = if f_len == 0 then dot else at x.f_ptr;
      f_len = if f_len == 0 then 1 else f_len;
      d_ptr = if x.d_len == 0 then dot else at x.d_ptr;
      d_len = if x.d_len == 0 then 1 else x.d_len;
      passwd = passwd;
    }

-- The parsed path with the buffer, in which newlines may have been overwritten; or the error text.
pub data Parsed : Type 0 where
  parsed : List ℕ → PPath → Parsed
  error : Error → Parsed
  out_of_bounds : Parsed

abbrev pub start : Scan
start = record { fullp = 0; f_ptr = 0; d_ptr = 0; d_len = 0; state = 0 }

-- What follows the loop, with the read of `pp->fullp[0]`.
pub conclude : List ℕ → Scan → ℕ → Option ℕ → Parsed
unfolding finish
conclude buf x s passwd = elim (get_elem? buf x.fullp) [
  | none ↦ out_of_bounds
  | some first ↦ parsed buf (finish x s passwd first)
]

-- A write to where no newline was found is out of bounds too.
pub settle : List ℕ → Stop → Parsed
unfolding conclude
settle buf (ended x s) = conclude buf x s none
settle buf (newline x s) = elim (last_newline (drop x.fullp buf) x.fullp) [
  | past_end ↦ out_of_bounds
  | nowhere ↦ out_of_bounds
  | sought_at p ↦ conclude (set (set buf p 0) s 0) x s (some (p + 1))
]
settle buf (failed e) = error e
settle buf overrun = out_of_bounds

pub parse_path : List ℕ → ℕ → Parsed
unfolding settle
parse_path buf len = if len == 0 then error zero_length else elim (get_elem? buf (len - 1)) [
  | none ↦ out_of_bounds
  | some last ↦ if last == 0 then settle buf (scan buf 0 start) else error not_terminated
]
