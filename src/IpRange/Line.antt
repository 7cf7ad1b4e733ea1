-- ===== src/IpRange/Line.antt =====
-- Lines of a host table: `parse_ipline` of server/iprange.c reads what `dump_iptab` printed, which
-- is how an owner list survives in the file .FSP_OWNER.
use fsp.Base.{
  ℕ, ◌<◌, ◌≡◌, refl, ap, ◌∙◌, ◌≢◌, true, false, List, [], ◌∷◌, ◌++◌, append_assoc, length, Option,
  some, arith, Bool-cases, inl, inr, ltb,
}
use fsp.IpRange.{
  Span, IpRange, head, is_digit, is_space, decimal, span_text, spans_text, skip_whitespace,
  behind_address, trim_end, parse_ipnumber, parse_ipline, dump_line,
}
use fsp.IpRange.Number.{AreByteSpans, parse_ipnumber-spans_text, head-span_text}

-- An entry as `parse_ipline` makes them: four spans of bytes, a type that is printed and starts no
-- comment, and a message with no space at its ends.
pub record IsEntry (r : IpRange) (s : Span) (ss : List Span) (type : ℕ) (message : List ℕ)
    : Type 0 where
  pub spans : r.spans ≡ s ∷ ss
  pub four : length ss ≡ 3
  pub byte_spans : AreByteSpans (s ∷ ss)
  pub text : r.text ≡ type ∷ message
  pub typed : (is_space type ≡ false) × ((type ≢ 0) × (type ≢ b'#'))
  pub no_front : is_space (head message) ≡ false
  pub no_back : trim_end message ≡ message

skip-none : (t : List ℕ) → is_space (head t) ≡ false → skip_whitespace t ≡ t
unfolding skip_whitespace
skip-none [] h = refl
skip-none (c ∷ cs) h = rw h refl

skip_two : (t : List ℕ) → is_space (head t) ≡ false → skip_whitespace (32 ∷ 32 ∷ t) ≡ t
unfolding skip_whitespace
skip_two t h = skip-none t h

abbrev NoSpace : List ℕ → Type 0
NoSpace [] = Unit {0}
NoSpace (c ∷ cs) = (is_space c ≡ false) × NoSpace cs

NoSpace-append : (xs ys : List ℕ) → NoSpace xs → NoSpace ys → NoSpace (xs ++ ys)
NoSpace-append [] ys h k = k
NoSpace-append (x ∷ xs) ys h k = (h.0, NoSpace-append xs ys h.1 k)

decimal-NoSpace : (n : ℕ) → NoSpace (decimal n)
unfolding decimal
decimal-NoSpace n = elim (Bool-cases (ltb n 10)) [
  | inl a ↦ rw a (ground arith, tt)
  | inr a ↦ elim (Bool-cases (ltb n 100)) [
    | inl b ↦ rw a (rw b (ground arith, (ground arith, tt)))
    | inr b ↦ rw a (rw b (ground arith, (ground arith, (ground arith, tt))))
  ]
]

span_text-NoSpace : (s : Span) → NoSpace (span_text s)
unfolding span_text
span_text-NoSpace s =
    NoSpace-append (decimal s.lo) _ (decimal-NoSpace s.lo) (refl, decimal-NoSpace s.hi)

spans_text-NoSpace : (ss : List Span) → NoSpace (spans_text ss)
unfolding spans_text
spans_text-NoSpace [] = tt
spans_text-NoSpace (s ∷ []) = span_text-NoSpace s
spans_text-NoSpace (s ∷ s' ∷ ss) =
    NoSpace-append (span_text s) _ (span_text-NoSpace s) (refl, spans_text-NoSpace (s' ∷ ss))

behind_address-append :
    (xs rest : List ℕ)
    → NoSpace xs
    → is_space (head rest) ≡ true
    → behind_address (xs ++ rest) ≡ rest
unfolding behind_address
behind_address-append [] [] h r = refl
behind_address-append [] (c ∷ cs) h r = rw r refl
behind_address-append (x ∷ xs) rest h r = rw h.0 (behind_address-append xs rest h.1 r)

head-spans_text :
    (s : Span) (ss : List Span) (rest : List ℕ)
    → s.lo < 256
    → is_digit (head (spans_text (s ∷ ss) ++ rest)) ≡ true
unfolding spans_text
head-spans_text s [] rest h = head-span_text s rest h
head-spans_text s (s' ∷ ss) rest h =
    rw (append_assoc (span_text s) (b'.' ∷ spans_text (s' ∷ ss)) rest) (head-span_text s _ h)

-- The parser once its parts are known.
parse_ipline-of :
    (get : List ℕ → Option ℕ) (line t rest : List ℕ) (type : ℕ) (ss : List Span) (message : List ℕ)
    → skip_whitespace line ≡ t
    → is_digit (head t) ≡ true
    → skip_whitespace (behind_address t) ≡ type ∷ rest
    → (type ≢ 0) × (type ≢ b'#')
    → parse_ipnumber t ≡ some ss
    → trim_end (skip_whitespace rest) ≡ message
    → parse_ipline get line ≡ some (record { spans = ss; text = type ∷ message })
unfolding parse_ipline
parse_ipline-of get line t rest type ss message a b c d e f = ground arith

-- What the dump prints of an entry is parsed to that entry, whatever the resolver answers.
pub parse_ipline-dump_line :
    (gethostbyname : List ℕ → Option ℕ) (r : IpRange) (s : Span) (ss : List Span) (type : ℕ)
    (message : List ℕ)
    → IsEntry r s ss type message
    → parse_ipline gethostbyname (dump_line r) ≡ some r
unfolding dump_line
parse_ipline-dump_line get r s ss type message e =
    let rest = 32 ∷ 32 ∷ type ∷ 32 ∷ 32 ∷ message in
    let line = spans_text (s ∷ ss) ++ rest in
    let digit = head-spans_text s ss rest e.byte_spans.0.0 in
    let no_space : is_space (head line) ≡ false = ground arith in
    let behind : behind_address line ≡ rest =
      behind_address-append (spans_text (s ∷ ss)) rest (spans_text-NoSpace (s ∷ ss)) refl in
    let skipped : skip_whitespace rest ≡ type ∷ 32 ∷ 32 ∷ message = skip_two _ e.typed.0 in
    let message' : trim_end (skip_whitespace (32 ∷ 32 ∷ message)) ≡ message =
      ap trim_end (skip_two message e.no_front) ∙ e.no_back in
    rw (e.spans, e.text)
      (parse_ipline-of get line line (32 ∷ 32 ∷ message) type (s ∷ ss) message
        (skip-none line no_space) digit (ap skip_whitespace behind ∙ skipped) e.typed.1
        (parse_ipnumber-spans_text s ss rest e.four e.byte_spans refl) message')
