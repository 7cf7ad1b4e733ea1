-- ===== src/IpRange/Match.antt =====
-- Matching an address against a host table: `check_ip` and `check_ip_table` of server/iprange.c.
use fsp.Base.{
  ℕ, ◌+◌, ◌*◌, ◌≤◌, ◌<◌, ◌≡◌, refl, sym, ap, ◌∙◌, ◌↔◌, ◌⊎◌, inl, inr, List, [], ◌∷◌, ◌++◌, Option,
  none, some, arith, true, ap₂,
}
use fsp.IpRange.{
  Span, IpRange, ntohl, octets, within, check_ip, check_ip_table, parse_hostname, point,
}

-- The address a.b.c.d as the server reads it from the socket: the bytes in the order of the
-- network, on a little-endian machine.
abbrev pub address_of : ℕ → ℕ → ℕ → ℕ → ℕ
address_of a b c d = a + 256 * b + 65536 * c + 16777216 * d

abbrev pub In : Span → ℕ → Type 0
In s v = (s.lo ≤ v) × (v ≤ s.hi)

octets-address :
    (a b c d : ℕ)
    → a < 256
    → b < 256
    → c < 256
    → d < 256
    → octets (ntohl (address_of a b c d)) ≡ a ∷ b ∷ c ∷ d ∷ []
unfolding octets ntohl
octets-address a b c d ha hb hc hd = ground arith

within-four :
    (s3 s2 s1 s0 : Span) (a b c d : ℕ)
    → (within (s3 ∷ s2 ∷ s1 ∷ s0 ∷ []) (a ∷ b ∷ c ∷ d ∷ []) ≡ true)
      ↔ (In s3 a × In s2 b × In s1 c × In s0 d)
unfolding within
within-four s3 s2 s1 s0 a b c d = ground arith

check_ip-within :
    (n : ℕ) (r : IpRange)
    → (check_ip n r ≡ some r.text) ↔ (within r.spans (octets (ntohl n)) ≡ true)
unfolding check_ip
check_ip-within n r = ground arith

-- An entry with the spans s3, s2, s1 and s0 matches a.b.c.d exactly if each number lies in its
-- span, and then gives its text.
pub check_ip_iff :
    (a b c d : ℕ) (r : IpRange) (s3 s2 s1 s0 : Span)
    → a < 256
    → b < 256
    → c < 256
    → d < 256
    → r.spans ≡ s3 ∷ s2 ∷ s1 ∷ s0 ∷ []
    → (check_ip (address_of a b c d) r ≡ some r.text) ↔ (In s3 a × In s2 b × In s1 c × In s0 d)
check_ip_iff a b c d r s3 s2 s1 s0 ha hb hc hd e =
    let same : within r.spans (octets (ntohl (address_of a b c d)))
        ≡ within (s3 ∷ s2 ∷ s1 ∷ s0 ∷ []) (a ∷ b ∷ c ∷ d ∷ []) =
      ap₂ within e (octets-address a b c d ha hb hc hd) in
    let (to, from) = check_ip-within (address_of a b c d) r in
    let (there, back) = within-four s3 s2 s1 s0 a b c d in
    (λ h. there (sym same ∙ to h), λ h. from (same ∙ back h))

check_ip_cases : (n : ℕ) (r : IpRange) → (check_ip n r ≡ none) ⊎ (check_ip n r ≡ some r.text)
unfolding check_ip
check_ip_cases n r = ground arith

abbrev pub NoneMatch : ℕ → List IpRange → Type 0
NoneMatch n [] = Unit {0}
NoneMatch n (r ∷ rs) = (check_ip n r ≡ none) × NoneMatch n rs

-- The table gives the text of the first entry that matches, and nothing exactly if none does.
pub check_ip_table_first :
    (n : ℕ) (table : List IpRange)
    → (NoneMatch n table × (check_ip_table n table ≡ none))
      ⊎ ((before : List IpRange) × (r : IpRange) × (after : List IpRange) × (table
            ≡ before ++ (r ∷ after))
          × NoneMatch n before
          × (check_ip n r ≡ some r.text)
          × (check_ip_table n table ≡ some r.text))
unfolding check_ip_table
check_ip_table_first n [] = inl (tt, refl)
check_ip_table_first n (r ∷ rs) = elim (check_ip_cases n r) [
  | inr hit ↦ inr ([], r, rs, refl, tt, hit, rw (hit, check_ip_table) refl)
  | inl miss ↦ elim (check_ip_table_first n rs) [
    | inl (others, e) ↦ inl ((miss, others), rw (miss, check_ip_table) e)
    | inr (before, r', after, shape, others, hit, e) ↦ inr (
      r ∷ before,
      r',
      after,
      ap (λ (l : List IpRange). r ∷ l) shape,
      (miss, others),
      hit,
      rw (miss, check_ip_table) e,
    )
  ]
]

-- The number that a resolver's answer is cut into: the highest byte of the word first.
hostname-spans :
    (get : List ℕ → Option ℕ) (name : List ℕ) (a b c d : ℕ) (ss : List Span)
    → a < 256
    → b < 256
    → c < 256
    → d < 256
    → get name ≡ some (address_of a b c d)
    → parse_hostname get name ≡ some ss
    → ss ≡ point d ∷ point c ∷ point b ∷ point a ∷ []
unfolding parse_hostname
hostname-spans get name a b c d ss ha hb hc hd g p = ground arith

-- An entry made from a host name, for the address a.b.c.d of that host, matches d.c.b.a and no
-- other address: `parse_hostname` does not turn the byte order as `check_ip` does.
pub hostname_reversed :
    (get : List ℕ → Option ℕ) (name text : List ℕ) (a b c d : ℕ) (ss : List Span)
    → a < 256
    → b < 256
    → c < 256
    → d < 256
    → get name ≡ some (address_of a b c d)
    → parse_hostname get name ≡ some ss
    → (v w x y : ℕ) → v < 256
    → w < 256
    → x < 256
    → y < 256
    → (check_ip (address_of v w x y) (record { spans = ss; text = text }) ≡ some text)
      ↔ ((v ≡ d) × (w ≡ c) × (x ≡ b) × (y ≡ a))
hostname_reversed get name text a b c d ss ha hb hc hd g p v w x y hv hw hx hy =
    let (to, from) =
      check_ip_iff v w x y (record { spans = ss; text = text }) (point d) (point c) (point b)
        (point a) hv hw hx hy (hostname-spans get name a b c d ss ha hb hc hd g p) in
    (
      λ h.
          let i = to h in
          (
            omega (arith, i.0.0, i.0.1),
            omega (arith, i.1.0, i.1.1),
            omega (arith, i.2.0, i.2.1),
            omega (arith, i.3.0, i.3.1),
          ),
      λ h. from (omega (arith, h.0), omega (arith, h.1), omega (arith, h.2), omega (arith, h.3)),
    )
