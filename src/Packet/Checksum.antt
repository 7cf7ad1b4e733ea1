-- ===== src/Packet/Checksum.antt =====
-- The checksum of server/server.c and client/lib.c: what it accepts, and what it detects.
use fsp.Base.{
  ℕ, ◌+◌, ◌*◌, ◌%◌, ◌^◌, ◌≤◌, ◌<◌, ◌≡◌, refl, ◌≢◌, ◌↔◌, ◌⊎◌, true, Bool, List, [], ◌∷◌, ◌++◌,
  length, length-append, ◌==◌, ◌∙◌, ap, arith,
}
use fsp.Packet.{
  Packet, bytes, sum_from, fold, seal_reply, reply_passes, seal_request, request_passes,
}

-- The sum without the wrap of the machine word.
abbrev pub total : List ℕ → ℕ
total [] = 0
total (b ∷ bs) = b + total bs

-- Each element is a byte.
abbrev pub IsBytes : List ℕ → Type 0
IsBytes [] = Unit {0}
IsBytes (b ∷ bs) = (b < 256) × IsBytes bs

total-append : (xs ys : List ℕ) → total (xs ++ ys) ≡ total xs + total ys
total-append [] ys = omega arith
total-append (x ∷ xs) ys = omega (arith, total-append xs ys)

IsBytes-append : (xs ys : List ℕ) → IsBytes (xs ++ ys) → IsBytes xs × IsBytes ys
IsBytes-append [] ys h = (tt, h)
IsBytes-append (x ∷ xs) ys h = let (l, r) = IsBytes-append xs ys h.1 in ((h.0, l), r)

total-le : (xs : List ℕ) → IsBytes xs → total xs ≤ 255 * length xs
total-le [] h = omega arith
total-le (x ∷ xs) h = omega (arith, total-le xs h.1)

sum_from-total : (n : ℕ) (xs : List ℕ) → n + total xs < 2 ^ 32 → sum_from n xs ≡ n + total xs
unfolding sum_from
sum_from-total n [] h = omega arith
sum_from-total n (x ∷ xs) h = rw (sum_from-total ((n + x) % 2 ^ 32) xs (omega arith)) (omega arith)

-- `fold` moves by the change, and by one more at a carry, so it meets its old value again only
-- where the change is 255 and there is a carry.
fold-collides :
    (s a b : ℕ)
    → a < 256
    → b < 256
    → a ≢ b
    → s + 256 < 2 ^ 31
    → (fold (s + a) ≡ fold (s + b))
      ↔ ((((a ≡ 0) × (b ≡ 255)) ⊎ ((a ≡ 255) × (b ≡ 0))) × (s % 256 ≢ 0))
unfolding fold
fold-collides s a b ha hb ne small = ground arith

fold-replace :
    (n r : ℕ) (xs ys : List ℕ) (a b : ℕ)
    → r ≡ n + total xs + total ys
    → IsBytes (xs ++ (a ∷ ys))
    → length (xs ++ (a ∷ ys)) ≤ 2 ^ 16
    → n ≤ 2 ^ 16
    → b < 256
    → a ≢ b
    → (fold (sum_from n (xs ++ (a ∷ ys))) ≡ fold (sum_from n (xs ++ (b ∷ ys))))
      ↔ ((((a ≡ 0) × (b ≡ 255)) ⊎ ((a ≡ 255) × (b ≡ 0))) × (r % 256 ≢ 0))
fold-replace n r xs ys a b er h len hn hb ne =
    let (hx, (ha, hy)) = IsBytes-append xs (a ∷ ys) h in
    let lx = total-le xs hx in
    let ly = total-le ys hy in
    let la = length-append xs (a ∷ ys) in
    let ta = total-append xs (a ∷ ys) in
    let tb = total-append xs (b ∷ ys) in
    let ea : sum_from n (xs ++ (a ∷ ys)) ≡ r + a =
      sum_from-total n (xs ++ (a ∷ ys)) (omega arith) ∙ omega arith in
    let eb : sum_from n (xs ++ (b ∷ ys)) ≡ r + b =
      sum_from-total n (xs ++ (b ∷ ys)) (omega arith) ∙ omega arith in
    rw (ea, eb) (fold-collides r a b ha hb ne (omega arith))

-- Sealing and checking agree, for requests and for replies.
pub sealed_passes :
    (p : Packet) → (reply_passes (seal_reply p) ≡ true) × (request_passes (seal_request p) ≡ true)
unfolding reply_passes seal_reply request_passes seal_request bytes
sealed_passes p = (ground arith, ground arith)

-- Two messages that differ in one byte other than the checksum.
pub record Corrupted (p q : Packet) (xs ys : List ℕ) (a b : ℕ) : Type 0 where
  pub sent : bytes (record p { sum = 0 }) ≡ xs ++ (a ∷ ys)
  pub got : bytes (record q { sum = 0 }) ≡ xs ++ (b ∷ ys)
  pub same_sum : q.sum ≡ p.sum
  pub are_bytes : IsBytes (xs ++ (a ∷ ys))
  pub is_byte : b < 256
  pub fits : length (xs ++ (a ∷ ys)) ≤ 2 ^ 16
  pub differs : a ≢ b

-- The bytes 0x00 and 0xff taken one for the other.
abbrev pub Swapped : ℕ → ℕ → Type 0
Swapped a b = ((a ≡ 0) × (b ≡ 255)) ⊎ ((a ≡ 255) × (b ≡ 0))

length-unsummed : (p : Packet) → length (bytes p) ≡ length (bytes (record p { sum = 0 }))
unfolding bytes
length-unsummed p = refl

length-replace : (xs ys : List ℕ) (a b : ℕ) → length (xs ++ (a ∷ ys)) ≡ length (xs ++ (b ∷ ys))
length-replace xs ys a b = omega (arith, length-append xs (a ∷ ys), length-append xs (b ∷ ys))

-- A checksum that was right stays right exactly if the folded sum comes out the same.
transfer :
    (s t u v : ℕ) {b : Bool} {R : Type 0}
    → (s == u) ≡ true
    → v ≡ u
    → b ≡ (t == v)
    → (s ≡ t) ↔ R
    → (b ≡ true) ↔ R
transfer s t u v h e d r = (λ k. r.0 (ground arith), λ x. let f = r.1 x in ground arith)

-- Of a reply that passes, a copy with one byte changed passes exactly if 0x00 became 0xff, or the
-- other way round, and the sum of the remaining bytes is no multiple of 256.
pub reply_detects :
    (p q : Packet) (xs ys : List ℕ) (a b : ℕ)
    → Corrupted p q xs ys a b
    → reply_passes p ≡ true
    → (reply_passes q ≡ true) ↔ (Swapped a b × ((total xs + total ys) % 256 ≢ 0))
unfolding reply_passes
reply_detects p q xs ys a b c h =
    transfer (fold (sum_from 0 (xs ++ (a ∷ ys)))) (fold (sum_from 0 (xs ++ (b ∷ ys)))) p.sum q.sum
      (rw c.sent at h) c.same_sum (rw c.got)
      (fold-replace 0 _ xs ys a b (omega arith) c.are_bytes c.fits (omega arith) c.is_byte
        c.differs)

-- The same for a request, whose sum starts at its length.
pub request_detects :
    (p q : Packet) (xs ys : List ℕ) (a b : ℕ)
    → Corrupted p q xs ys a b
    → request_passes p ≡ true
    → (request_passes q ≡ true)
      ↔ (Swapped a b × ((length (xs ++ (a ∷ ys)) + total xs + total ys) % 256 ≢ 0))
unfolding request_passes
request_detects p q xs ys a b c h =
    let n = length (xs ++ (a ∷ ys)) in
    let np : length (bytes p) ≡ n = length-unsummed p ∙ ap length c.sent in
    let nq : length (bytes q) ≡ n =
      length-unsummed q ∙ ap length c.got ∙ length-replace xs ys b a in
    transfer (fold (sum_from n (xs ++ (a ∷ ys)))) (fold (sum_from n (xs ++ (b ∷ ys)))) p.sum q.sum
      (rw (c.sent, np) at h) c.same_sum (rw (c.got, nq))
      (fold-replace n _ xs ys a b refl c.are_bytes c.fits c.fits c.is_byte c.differs)
