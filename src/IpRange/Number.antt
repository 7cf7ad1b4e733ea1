-- ===== src/IpRange/Number.antt =====
-- The address fields of server/iprange.c: what `dump_iptab` prints is what the parser reads.
use fsp.Base.{
  ℕ, ◌+◌, ◌-◌, ◌*◌, ◌/◌, ◌%◌, ◌<◌, ◌^◌, ◌≡◌, refl, sym, ap, ◌∙◌, inl, inr, true, false, List, [],
  ◌∷◌, ◌++◌, append_assoc, length, ltb, ◌==◌, some, arith, Bool-cases, append-nil, subst,
}
use fsp.IpRange.{
  Span, head, is_digit, is_space, digits, parse_ipcomponentnum, parse_ipcomponent, fields, decimal,
  span_text, spans_text, parse_ipnumber,
}

digits-stop : (rest : List ℕ) (v : ℕ) → is_digit (head rest) ≡ false → digits rest v ≡ (v, rest)
unfolding digits
digits-stop [] v h = refl
digits-stop (c ∷ cs) v h = rw h refl

digits-step :
    (d v : ℕ) (cs : List ℕ) → d < 10 → v < 1000 → digits ((48 + d) ∷ cs) v ≡ digits cs (10 * v + d)
unfolding digits
digits-step d v cs h hv =
    let digit : is_digit (48 + d) ≡ true = ground arith in
    let value : (10 * v + (48 + d - 48)) % 2 ^ 64 ≡ 10 * v + d = omega arith in
    rw (digit, value) refl

-- A number below 256 is read back, up to the first byte that is no digit.
pub digits-decimal :
    (n : ℕ) (rest : List ℕ)
    → n < 256
    → is_digit (head rest) ≡ false
    → (digits (decimal n ++ rest) 0 ≡ (n, rest)) × (is_digit (head (decimal n ++ rest)) ≡ true)
unfolding decimal
digits-decimal n rest h r = elim (Bool-cases (ltb n 10)) [
  | inl a ↦
      rw a (digits-step n 0 rest (ground arith) (omega arith) ∙ stop _ (omega arith), ground arith)
  | inr a ↦ elim (Bool-cases (ltb n 100)) [
    | inl b ↦ rw a (
        rw b (
          digits-step (n / 10) 0 _ (ground arith) (omega arith)
              ∙ digits-step (n % 10) _ rest (omega arith) (ground arith)
              ∙ stop _ (omega arith),
          ground arith,
        ))
    | inr b ↦ rw a (
        rw b (
          digits-step (n / 100) 0 _ (omega arith) (omega arith)
              ∙ digits-step (n / 10 % 10) _ _ (omega arith) (omega arith)
              ∙ digits-step (n % 10) _ rest (omega arith) (omega arith)
              ∙ stop _ (omega arith),
          ground arith,
        ))
  ]
]
  where
    stop : (v : ℕ) → v ≡ n → digits rest v ≡ (n, rest)
    stop v e = digits-stop rest v r ∙ ap (λ (k : ℕ). (k, rest)) e

parse_ipcomponentnum-decimal :
    (n : ℕ) (rest : List ℕ)
    → n < 256
    → is_digit (head rest) ≡ false
    → parse_ipcomponentnum (decimal n ++ rest) ≡ some (n, rest)
unfolding parse_ipcomponentnum
parse_ipcomponentnum-decimal n rest h r =
    let (e, d) = digits-decimal n rest h r in
    let small : ltb 255 n ≡ false = ground arith in rw (d, e) (rw small refl)

-- Both ends of the span are bytes.
abbrev pub IsByteSpan : Span → Type 0
IsByteSpan s = (s.lo < 256) × (s.hi < 256)

-- The first byte of a printed number is a digit.
head-decimal : (n : ℕ) (rest : List ℕ) → n < 256 → is_digit (head (decimal n ++ rest)) ≡ true
unfolding decimal
head-decimal n rest h = ground arith

parse_ipcomponent-span_text :
    (s : Span) (rest : List ℕ)
    → IsByteSpan s
    → is_digit (head rest) ≡ false
    → parse_ipcomponent (span_text s ++ rest) ≡ some (s, rest)
unfolding parse_ipcomponent span_text
parse_ipcomponent-span_text s rest h r =
    let text = decimal s.lo ++ (b'-' ∷ (decimal s.hi ++ rest)) in
    let shape : (decimal s.lo ++ (b'-' ∷ decimal s.hi)) ++ rest ≡ text =
      append_assoc (decimal s.lo) (b'-' ∷ decimal s.hi) rest in
    let digit = head-decimal s.lo (b'-' ∷ (decimal s.hi ++ rest)) h.0 in
    let star : (head text == b'*') ≡ false = ground arith in
    rw (shape, star)
      (rw (parse_ipcomponentnum-decimal s.lo (b'-' ∷ (decimal s.hi ++ rest)) h.0 refl)
        (rw (parse_ipcomponentnum-decimal s.hi rest h.1 r) refl))

abbrev pub AreByteSpans : List Span → Type 0
AreByteSpans [] = Unit {0}
AreByteSpans (s ∷ ss) = IsByteSpan s × AreByteSpans ss

-- The fields behind the first, each with its dot.
dotted : List Span → List ℕ
dotted [] = []
dotted (s ∷ ss) = b'.' ∷ (span_text s ++ dotted ss)

spans_text-dotted : (s : Span) (ss : List Span) → spans_text (s ∷ ss) ≡ span_text s ++ dotted ss
unfolding spans_text dotted
spans_text-dotted s [] = sym (append-nil (span_text s))
spans_text-dotted s (s' ∷ ss) =
    ap (λ (k : List ℕ). span_text s ++ (b'.' ∷ k)) (spans_text-dotted s' ss)

dotted-digit :
    (ss : List Span) (rest : List ℕ)
    → is_digit (head rest) ≡ false
    → is_digit (head (dotted ss ++ rest)) ≡ false
unfolding dotted
dotted-digit [] rest h = h
dotted-digit (s ∷ ss) rest h = refl

pub head-span_text :
    (s : Span) (rest : List ℕ) → s.lo < 256 → is_digit (head (span_text s ++ rest)) ≡ true
unfolding span_text
head-span_text s rest h =
    rw (append_assoc (decimal s.lo) (b'-' ∷ decimal s.hi) rest)
      (head-decimal s.lo (b'-' ∷ (decimal s.hi ++ rest)) h)

fields-dotted :
    (ss : List Span) (rest : List ℕ)
    → AreByteSpans ss
    → is_digit (head rest) ≡ false
    → fields (length ss) false (dotted ss ++ rest) ≡ some ss
unfolding fields dotted
fields-dotted [] rest h r = refl
fields-dotted (s ∷ ss) rest h r = rw (append_assoc (span_text s) (dotted ss) rest) (
    rw (parse_ipcomponent-span_text s (dotted ss ++ rest) h.0 (dotted-digit ss rest r))
      (rw (fields-dotted ss rest h.1 r) refl))

pub parse_ipnumber-spans_text :
    (s : Span) (ss : List Span) (rest : List ℕ)
    → length ss ≡ 3
    → AreByteSpans (s ∷ ss)
    → is_digit (head rest) ≡ false
    → parse_ipnumber (spans_text (s ∷ ss) ++ rest) ≡ some (s ∷ ss)
unfolding parse_ipnumber fields
parse_ipnumber-spans_text s ss rest n h r =
    let shape : spans_text (s ∷ ss) ++ rest ≡ span_text s ++ (dotted ss ++ rest) =
      ap (λ (k : List ℕ). k ++ rest) (spans_text-dotted s ss)
      ∙ append_assoc (span_text s) (dotted ss) rest in
    let digit = head-span_text s (dotted ss ++ rest) h.0.0 in
    let space : is_space (head (span_text s ++ (dotted ss ++ rest))) ≡ false = ground arith in
    let others : fields 3 false (dotted ss ++ rest) ≡ some ss =
      subst (λ k. fields k false (dotted ss ++ rest) ≡ some ss) n (fields-dotted ss rest h.1 r) in
    rw (shape, space)
      (rw (parse_ipcomponent-span_text s (dotted ss ++ rest) h.0 (dotted-digit ss rest r))
        (rw others refl))
