-- ===== src/IpRange.antt =====
-- The address tables of server/iprange.c: parsing a line, matching an address, and the dump. A C
-- string is the list of its bytes without the terminator, whose place is the end of the list.
pub mod Match
pub mod Number
pub mod Line
mod Tests
use fsp.Base.{
  ℕ, zero, suc, ◌+◌, ◌-◌, ◌*◌, ◌/◌, ◌%◌, ◌^◌, Bool, true, false, ◌&&◌, ◌||◌, List, [], ◌∷◌, ◌++◌,
  ltb, leb, ◌==◌, if◌then◌else◌, Option, none, some,
}

-- `lo[j]` and `hi[j]` for one j.
pub record Span : Type 0 where
  pub lo : ℕ
  pub hi : ℕ

-- `IPrange` of include/server_def.h: the spans for j = 3, 2, 1, 0, and the text, type first.
pub record IpRange : Type 0 where
  pub spans : List Span
  pub text : List ℕ

-- The byte order of the network, as a little-endian machine reads it.
unfoldable pub ntohl : ℕ → ℕ
ntohl n = n % 256 * 2 ^ 24 + n / 2 ^ 8 % 256 * 2 ^ 16 + n / 2 ^ 16 % 256 * 2 ^ 8 + n / 2 ^ 24 % 256

-- The bytes of a word, the highest first: val[3], val[2], val[1], val[0].
unfoldable pub octets : ℕ → List ℕ
octets n = n / 2 ^ 24 % 256 ∷ n / 2 ^ 16 % 256 ∷ n / 2 ^ 8 % 256 ∷ n % 256 ∷ []

-- The loop of `check_ip`.
unfoldable pub within : List Span → List ℕ → Bool
within (s ∷ ss) (v ∷ vs) = leb s.lo v && leb v s.hi && within ss vs
within _ _ = true

unfoldable pub check_ip : ℕ → IpRange → Option (List ℕ)
check_ip n r = if within r.spans (octets (ntohl n)) then some r.text else none

-- `check_ip_table`: the text of the first entry that matches.
unfoldable pub check_ip_table : ℕ → List IpRange → Option (List ℕ)
check_ip_table n [] = none
check_ip_table n (r ∷ rs) = elim (check_ip n r) [
  | some text ↦ some text
  | none ↦ check_ip_table n rs
]

-- `*text`.
abbrev pub head : List ℕ → ℕ
head [] = 0
head (c ∷ cs) = c

abbrev pub tail : List ℕ → List ℕ
tail [] = []
tail (c ∷ cs) = cs

-- `isspace` and `isdigit` in the C locale.
abbrev pub is_space : ℕ → Bool
is_space c = c == 32 || (leb 9 c && leb c 13)

abbrev pub is_digit : ℕ → Bool
is_digit c = leb b'0' c && leb c b'9'

-- The loop of `parse_ipcomponentnum` over an unsigned long: the value, and what is left.
pub digits : List ℕ → ℕ → ℕ × List ℕ
digits [] val = (val, [])
digits (c ∷ cs) val =
    let more : ℕ × List ℕ = digits cs ((10 * val + (c - b'0')) % 2 ^ 64) in
    if is_digit c then more else (val, c ∷ cs)

pub parse_ipcomponentnum : List ℕ → Option (ℕ × List ℕ)
unfolding digits
parse_ipcomponentnum text =
    let (val, rest) = digits text 0 in
    if is_digit (head text) then (if ltb 255 val then none else some (val, rest)) else none

-- One field of an address: a number, two numbers with a dash between, or a star.
pub parse_ipcomponent : List ℕ → Option (Span × List ℕ)
parse_ipcomponent text =
    if head text == b'*'
    then some (record { lo = 0; hi = 255 }, tail text)
    else elim (parse_ipcomponentnum text) [
      | none ↦ none
      | some (lo, rest) ↦
          if head rest == b'-'
          then elim (parse_ipcomponentnum (tail rest)) [
            | none ↦ none
            | some (hi, rest') ↦ some (record { lo = lo; hi = hi }, rest')
          ]
          else some (record { lo = lo; hi = lo }, rest)
    ]

abbrev pub any : Span
any = record { lo = 0; hi = 255 }

-- The second loop of `parse_ipnumber`.
pub fill : ℕ → List Span
fill zero = []
fill (suc i) = any ∷ fill i

-- The first loop, with `i` fields to come: a space ends it, and a dot stands between two fields.
pub fields : ℕ → Bool → List ℕ → Option (List Span)
fields zero first text = some []
fields (suc i) first text =
    let text' = if first then text else tail text in
    let go : Option (List Span) = elim (parse_ipcomponent text') [
      | none ↦ none
      | some (s, rest) ↦ elim (fields i false rest) [ none ↦ none | some ss ↦ some (s ∷ ss) ]
    ] in
    if is_space (head text)
    then some (fill (suc i))
    else if first || head text == b'.'
    then go
    else none

pub parse_ipnumber : List ℕ → Option (List Span)
unfolding fill parse_ipcomponentnum parse_ipcomponent fields
parse_ipnumber text = fields 4 true text

abbrev pub point : ℕ → Span
point v = record { lo = v; hi = v }

-- `gethostbyname` is a parameter; the bytes of its answer are taken as the machine reads them.
pub parse_hostname : (List ℕ → Option ℕ) → List ℕ → Option (List Span)
parse_hostname gethostbyname name = elim (gethostbyname name) [
  | none ↦ none
  | some n ↦ some (
      point (n / 2 ^ 24 % 256)
      ∷ point (n / 2 ^ 16 % 256)
      ∷ point (n / 2 ^ 8 % 256)
      ∷ point (n % 256)
      ∷ [])
]

unfoldable pub skip_whitespace : List ℕ → List ℕ
skip_whitespace [] = []
skip_whitespace (c ∷ cs) = let rest = skip_whitespace cs in if is_space c then rest else c ∷ cs

-- Up to the next space: the address, and what is behind it.
pub address : List ℕ → List ℕ
address [] = []
address (c ∷ cs) = let rest = address cs in if is_space c then [] else c ∷ rest

pub behind_address : List ℕ → List ℕ
behind_address [] = []
behind_address (c ∷ cs) = let rest = behind_address cs in if is_space c then c ∷ cs else rest

-- The message without the spaces at its end.
unfoldable pub trim_end : List ℕ → List ℕ
trim_end [] = []
trim_end (c ∷ cs) = elim (trim_end cs) [
  | [] ↦ if is_space c then [] else c ∷ []
  | d ∷ ds ↦ c ∷ d ∷ ds
]

abbrev is_blank : List ℕ → Bool
is_blank text = head text == 0 || head text == b'#'

pub parse_ipline : (List ℕ → Option ℕ) → List ℕ → Option IpRange
parse_ipline gethostbyname line =
    let text = skip_whitespace line in
    let message = skip_whitespace (behind_address text) in
    let reply : Option (List Span) =
      if head text == b'*' || is_digit (head text)
      then parse_ipnumber text
      else parse_hostname gethostbyname (address text) in
    let entry : Option IpRange = elim reply [
      | none ↦ none
      | some ss ↦
          some
            (record { spans = ss; text = head message ∷ trim_end (skip_whitespace (tail message)) })
    ] in
    if is_blank text then none else if is_blank message then none else entry

-- `%d` of a byte.
unfoldable pub decimal : ℕ → List ℕ
decimal n =
    if ltb n 10
    then (48 + n) ∷ []
    else if ltb n 100
    then (48 + n / 10) ∷ (48 + n % 10) ∷ []
    else (48 + n / 100) ∷ (48 + n / 10 % 10) ∷ (48 + n % 10) ∷ []

unfoldable pub span_text : Span → List ℕ
span_text s = decimal s.lo ++ (b'-' ∷ decimal s.hi)

unfoldable pub spans_text : List Span → List ℕ
spans_text [] = []
spans_text (s ∷ []) = span_text s
spans_text (s ∷ s' ∷ ss) = span_text s ++ (b'.' ∷ spans_text (s' ∷ ss))

-- A line of `dump_iptab`, without its newline: the spans, the type and the message.
unfoldable pub dump_line : IpRange → List ℕ
dump_line r = spans_text r.spans ++ (32 ∷ 32 ∷ head r.text ∷ 32 ∷ 32 ∷ tail r.text)
