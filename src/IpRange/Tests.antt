-- ===== src/IpRange/Tests.antt =====
-- Lines and addresses of host tables, and the theorems about them at these.
use fsp.Base.{◌⊎◌, ◌++◌, ℕ, ◌≡◌, refl, ◌↔◌, List, [], ◌∷◌, Option, some, none, arith}
use fsp.IpRange.{
  Span, IpRange, check_ip, check_ip_table, parse_ipline, dump_line, point, parse_hostname,
  skip_whitespace, address, behind_address, trim_end, parse_ipnumber, fields, parse_ipcomponent,
  parse_ipcomponentnum, digits, fill, within, octets, ntohl,
}
use fsp.IpRange.Match.{
  address_of, In, check_ip_iff, hostname_reversed, check_ip_table_first, NoneMatch,
}
use fsp.IpRange.Line.{IsEntry, parse_ipline-dump_line}

parser : Unit {0}
unfolding parse_ipline skip_whitespace address behind_address trim_end parse_ipnumber fields
    parse_ipcomponent parse_ipcomponentnum digits fill parse_hostname
parser = tt

-- "127.0.0.1 O Creator"
abbrev owner_line : List ℕ
owner_line =
    b'1' ∷ b'2' ∷ b'7' ∷ b'.' ∷ b'0' ∷ b'.' ∷ b'0' ∷ b'.' ∷ b'1' ∷ b' ' ∷ b'O' ∷ b' ' ∷ b'M' ∷ b'e'
    ∷ b' ' ∷ []

abbrev owner : IpRange
owner = record {
  spans = point 127 ∷ point 0 ∷ point 0 ∷ point 1 ∷ [];
  text = b'O' ∷ b'M' ∷ b'e' ∷ [];
}

abbrev unresolved : List ℕ → Option ℕ
unresolved name = none

parse_owner_line : parse_ipline unresolved owner_line ≡ some owner
unfolding parser
parse_owner_line = refl

check_owner : check_ip_table (address_of 127 0 0 1) (owner ∷ []) ≡ some owner.text
unfolding check_ip_table check_ip within octets ntohl
check_owner = refl

owner-IsEntry : IsEntry owner (point 127) (point 0 ∷ point 0 ∷ point 1 ∷ []) b'O' (b'M' ∷ b'e' ∷ [])
unfolding trim_end
owner-IsEntry = record {
  spans = refl;
  four = refl;
  byte_spans = omega arith;
  text = refl;
  typed = (refl, omega arith);
  no_front = refl;
  no_back = refl;
}

parse_ipline-dump_line_example : parse_ipline unresolved (dump_line owner) ≡ some owner
parse_ipline-dump_line_example =
    parse_ipline-dump_line unresolved owner (point 127) (point 0 ∷ point 0 ∷ point 1 ∷ []) b'O'
      (b'M' ∷ b'e' ∷ []) owner-IsEntry

check_ip_iff_example :
    (check_ip (address_of 127 0 0 1) owner ≡ some owner.text)
    ↔ (In (point 127) 127 × In (point 0) 0 × In (point 0) 0 × In (point 1) 1)
check_ip_iff_example =
    check_ip_iff 127 0 0 1 owner (point 127) (point 0) (point 0) (point 1) (omega arith)
      (omega arith) (omega arith) (omega arith) refl

-- The table entry for a host with the address 10.1.2.3 matches 3.2.1.10.
abbrev resolved : List ℕ → Option ℕ
resolved name = some (address_of 10 1 2 3)

abbrev reversed : List Span
reversed = point 3 ∷ point 2 ∷ point 1 ∷ point 10 ∷ []

name_read_backwards :
    (check_ip (address_of 10 1 2 3) (record { spans = reversed; text = b'N' ∷ [] })
      ≡ some (b'N' ∷ []))
    ↔ (◌≡◌ {A = ℕ} 10 3 × ◌≡◌ {A = ℕ} 1 2 × ◌≡◌ {A = ℕ} 2 1 × ◌≡◌ {A = ℕ} 3 10)
unfolding parse_hostname
name_read_backwards =
    hostname_reversed resolved (b'h' ∷ []) (b'N' ∷ []) 10 1 2 3 reversed (omega arith) (omega arith)
      (omega arith) (omega arith) refl refl 10 1 2 3 (omega arith) (omega arith) (omega arith)
      (omega arith)

second_entry_found :
    (NoneMatch 7 (owner ∷ []) × (check_ip_table 7 (owner ∷ []) ≡ none))
    ⊎ ((before : List IpRange) × (r : IpRange) × (after : List IpRange) × (owner ∷ []
          ≡ before ++ (r ∷ after))
        × NoneMatch 7 before
        × (check_ip 7 r ≡ some r.text)
        × (check_ip_table 7 (owner ∷ []) ≡ some r.text))
second_entry_found = check_ip_table_first 7 (owner ∷ [])
