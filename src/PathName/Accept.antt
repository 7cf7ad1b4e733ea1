-- ===== src/PathName/Accept.antt =====
-- The strings that `parse_path` of server/path.c hands on.
use fsp.Base.{
  ℕ, zero, suc, ◌+◌, ◌-◌, ◌≤◌, ◌<◌, ◌≡◌, refl, ap, ◌∙◌, ◌≢◌, ◌⊎◌, inl, inr, List, [], ◌∷◌, length,
  get_elem?, set, drop, take, ◌==◌, if◌then◌else◌, Option, none, some, arith, Bool-cases,
  Option-cases, subst, get_elem?-drop, length-set, get_elem?-set_self, get_elem?-lt,
  get_elem?-in_range, ==_iff,
}
use fsp.PathName.{
  Ptr, at, dot, PPath, round, next, Scan, scan, start, Stop, ended, newline, failed, overrun,
  Sought, past_end, nowhere, sought_at, last_newline, finish, conclude, parsed, out_of_bounds,
  settle, parse_path,
}
use fsp.PathName.Clean.{
  IsClean, IsPath, Stopped, at_index, scan_front-IsPath, ended_at, newline_at, scan_cases,
}

-- The bytes of a string up to its terminator.
abbrev pub c_string : List ℕ → List ℕ
c_string [] = []
c_string (c ∷ cs) = let rest = c_string cs in if c == 0 then [] else c ∷ rest

-- The string that a pointer into a buffer stands for.
abbrev pub text_at : List ℕ → Ptr → List ℕ
text_at buf (at i) = c_string (drop i buf)
text_at buf dot = b'.' ∷ []

c_string-take :
    (l : List ℕ) (k prev : ℕ)
    → IsClean prev (take k l)
    → get_elem? l k ≡ some 0
    → c_string l ≡ take k l
c_string-take [] k prev h e = cc
c_string-take (c ∷ cs) zero prev h e = ground arith
c_string-take (c ∷ cs) (suc k) prev h e = ground (arith, c_string-take cs k c h.3 e)

Sought-cases : (f : Sought) → (f ≡ past_end) ⊎ ((f ≡ nowhere) ⊎ ((p : ℕ) × (f ≡ sought_at p)))
Sought-cases past_end = inl refl
Sought-cases nowhere = inr (inl refl)
Sought-cases (sought_at p) = inr (inr (p, refl))

last_newline-from : (l : List ℕ) (i j : ℕ) → last_newline l i ≡ sought_at j → i ≤ j
unfolding last_newline
last_newline-from [] i j e = cc
last_newline-from (c ∷ cs) i j e = elim (Sought-cases (last_newline cs (i + 1))) [
  | inl q ↦ ground (arith, q)
  | inr (inl q) ↦ ground (arith, q)
  | inr (inr (k, q)) ↦ ground (arith, q, last_newline-from cs (i + 1) k q)
]

-- The last newline lies at the first one or behind it.
last_newline-ge :
    (l : List ℕ) (k prev i p : ℕ)
    → IsClean prev (take k l)
    → get_elem? l k ≡ some b'\n'
    → last_newline l i ≡ sought_at p
    → i + k ≤ p
unfolding last_newline
last_newline-ge [] k prev i p h e q = cc
last_newline-ge (c ∷ cs) zero prev i p h e q = omega (arith, last_newline-from (c ∷ cs) i p q)
last_newline-ge (c ∷ cs) (suc k) prev i p h e q = elim (Sought-cases (last_newline cs (i + 1))) [
  | inl n ↦ ground (arith, n)
  | inr (inl n) ↦ ground (arith, n)
  | inr (inr (j, n)) ↦ let le = last_newline-ge cs k c (i + 1) j h.3 e n in ground (arith, n, le)
]

-- In a string that ends within the buffer, `strrchr` ends, and finds a newline that is there.
last_newline-ends : (l : List ℕ) (n i : ℕ) → get_elem? l n ≡ some 0 → last_newline l i ≢ past_end
unfolding last_newline
last_newline-ends [] n i e q = cc
last_newline-ends (c ∷ cs) zero i e q = ground arith
last_newline-ends (c ∷ cs) (suc n) i e q = elim (Sought-cases (last_newline cs (i + 1))) [
  | inl m ↦ last_newline-ends cs n (i + 1) e m
  | inr (inl m) ↦ ground (arith, m)
  | inr (inr (j, m)) ↦ ground (arith, m)
]

last_newline-finds :
    (l : List ℕ) (k prev i : ℕ)
    → IsClean prev (take k l)
    → get_elem? l k ≡ some b'\n'
    → last_newline l i ≢ nowhere
unfolding last_newline
last_newline-finds [] k prev i h e q = cc
last_newline-finds (c ∷ cs) zero prev i h e q = elim (Sought-cases (last_newline cs (i + 1))) [
  | inl m ↦ ground (arith, m)
  | inr (inl m) ↦ ground (arith, m)
  | inr (inr (j, m)) ↦ ground (arith, m)
]
last_newline-finds (c ∷ cs) (suc k) prev i h e q = elim (Sought-cases (last_newline cs (i + 1))) [
  | inl m ↦ ground (arith, m)
  | inr (inl m) ↦ last_newline-finds cs k c (i + 1) h.3 e m
  | inr (inr (j, m)) ↦ ground (arith, m)
]

drop-set : (l : List ℕ) (a i v : ℕ) → a ≤ i → drop a (set l i v) ≡ set (drop a l) (i - a) v
drop-set l zero i v h = ap (λ k. set l k v) (omega arith)
drop-set [] (suc a) i v h = refl
drop-set (x ∷ l) (suc a) zero v h = absurd (omega arith)
drop-set (x ∷ l) (suc a) (suc i) v h =
    drop-set l a i v (omega arith) ∙ ap (λ k. set (drop a l) k v) (omega arith)

take-set : (l : List ℕ) (k i v : ℕ) → k ≤ i → take k (set l i v) ≡ take k l
take-set l zero i v h = refl
take-set [] (suc k) i v h = refl
take-set (x ∷ l) (suc k) zero v h = absurd (omega arith)
take-set (x ∷ l) (suc k) (suc i) v h = ap (λ r. x ∷ r) (take-set l k i v (omega arith))

-- A stopped loop over a whole buffer, with what lies between the start of the path and the stop.
module _ (buf : List ℕ) (x : Scan) (s : ℕ) where
  abbrev tail : List ℕ
  tail = drop x.fullp buf

  abbrev size : ℕ
  size = s - x.fullp

  Stopped-IsPath : Stopped (scan buf 0 start) x s → (x.fullp ≤ s) × IsPath (take size tail)
  Stopped-IsPath r =
      let (_, le, path) = scan_front-IsPath buf 0 start x s refl refl r in
      (le, subst (λ k. IsPath (take size (drop k buf))) (omega arith) path)

  at_stop : {c : ℕ} → x.fullp ≤ s → get_elem? buf (s - 0) ≡ some c → get_elem? tail size ≡ some c
  at_stop le e = get_elem?-drop buf x.fullp size ∙ at_index buf (omega arith) e

  ended-text : scan buf 0 start ≡ ended x s → c_string tail ≡ take size tail
  ended-text r =
      let (le, path) = Stopped-IsPath (inl r) in
      c_string-take tail size b'/' path.0 (at_stop le (ended_at buf 0 start x s r).1)

  abbrev cut : ℕ → List ℕ
  cut p = set (set buf p 0) s 0

  cut-tail :
      (p : ℕ)
      → x.fullp ≤ p
      → x.fullp ≤ s
      → drop x.fullp (cut p) ≡ set (set tail (p - x.fullp) 0) size 0
  cut-tail p hp hs =
      drop-set (set buf p 0) x.fullp s 0 hs ∙ ap (λ l. set l size 0) (drop-set buf x.fullp p 0 hp)

  newline-text :
      (p : ℕ)
      → scan buf 0 start ≡ newline x s
      → last_newline tail x.fullp ≡ sought_at p
      → c_string (drop x.fullp (cut p)) ≡ take size tail
  newline-text p r q =
      let (le, path) = Stopped-IsPath (inr r) in
      let e = at_stop le (newline_at buf 0 start x s r).1 in
      let ge = last_newline-ge tail size b'/' x.fullp p path.0 e q in
      let l = set tail (p - x.fullp) 0 in
      let same : take size (set l size 0) ≡ take size tail =
        take-set l size size 0 (omega arith) ∙ take-set tail size (p - x.fullp) 0 (omega arith) in
      let long : size < length l =
        omega (arith, length-set tail (p - x.fullp) 0, get_elem?-lt tail size e) in
      rw (cut-tail p (omega arith) le) (
        c_string-take (set l size 0) size b'/' (rw same path.0) (get_elem?-set_self l size 0 long)
        ∙ same)

pub finish-fullp :
    (x : Scan) (s : ℕ) (pw : Option ℕ) (c : ℕ)
    → let pp = finish x s pw c in (pp.fullp ≡ dot) ⊎ (pp.fullp ≡ at x.fullp)
unfolding finish
finish-fullp x s pw c = ground arith

-- What `conclude` makes of a buffer.
conclude-parsed :
    (buf out : List ℕ) (pp : PPath) (x : Scan) (s : ℕ) (pw : Option ℕ)
    → conclude buf x s pw ≡ parsed out pp
    → (buf ≡ out) × ((c : ℕ) × (get_elem? buf x.fullp ≡ some c) × (pp ≡ finish x s pw c))
unfolding conclude
conclude-parsed buf out pp x s pw r = elim (Option-cases (get_elem? buf x.fullp)) [
  | inl e ↦ absurd (ground (arith, e, r))
  | inr (c, e) ↦
      let ends : parsed buf (finish x s pw c) ≡ parsed out pp = rw (e, conclude) at r in
      (cc, (c, e, cc))
]

-- How an accepted path was read: where the loop stopped, and the string that is handed on.
pub record Read (buf out : List ℕ) (pp : PPath) (x : Scan) (s : ℕ) (pw : Option ℕ) : Type 0 where
  pub stopped : Stopped (scan buf 0 start) x s
  pub byte : ℕ
  pub first : get_elem? out x.fullp ≡ some byte
  pub made : pp ≡ finish x s pw byte
  pub text : c_string (drop x.fullp out) ≡ take (s - x.fullp) (drop x.fullp buf)

settle-Read :
    (buf out : List ℕ) (pp : PPath) (st : Stop)
    → scan buf 0 start ≡ st
    → settle buf st ≡ parsed out pp
    → (x : Scan) × (s : ℕ) × (pw : Option ℕ) × Read buf out pp x s pw
unfolding settle
settle-Read buf out pp (ended x s) e r =
    let (eo, (c, b, ep)) = conclude-parsed buf out pp x s none r in
    (
      x,
      s,
      none,
      record {
        stopped = inl e;
        byte = c;
        first = rw (← eo) b;
        made = ep;
        text = rw (← eo) (ended-text buf x s e);
      },
    )
settle-Read buf out pp (newline x s) e r =
    elim (Sought-cases (last_newline (drop x.fullp buf) x.fullp)) [
      | inl q ↦ absurd (ground (arith, q, r))
      | inr (inl q) ↦ absurd (ground (arith, q, r))
      | inr (inr (p, q)) ↦
          let (eo, (c, b, ep)) =
            conclude-parsed (cut buf x s p) out pp x s (some (p + 1)) (rw (q, settle) at r) in
          (
            x,
            s,
            some (p + 1),
            record {
              stopped = inr e;
              byte = c;
              first = rw (← eo) b;
              made = ep;
              text = rw (← eo) (newline-text buf x s p e q);
            },
          )
    ]
settle-Read buf out pp (failed f) e r = cc
settle-Read buf out pp overrun e r = cc

parse_path-settle :
    (buf out : List ℕ) (len : ℕ) (pp : PPath)
    → parse_path buf len ≡ parsed out pp
    → settle buf (scan buf 0 start) ≡ parsed out pp
unfolding parse_path
parse_path-settle buf out len pp r = elim (Option-cases (get_elem? buf (len - 1))) [
  | inl e ↦ ground (arith, e)
  | inr (c, e) ↦ ground (arith, e)
]

pub parse_path-Read :
    (buf out : List ℕ) (len : ℕ) (pp : PPath)
    → parse_path buf len ≡ parsed out pp
    → (x : Scan) × (s : ℕ) × (pw : Option ℕ) × Read buf out pp x s pw
parse_path-Read buf out len pp r =
    settle-Read buf out pp (scan buf 0 start) refl (parse_path-settle buf out len pp r)

-- Every path that the parser accepts is the current directory, or a relative path of printable
-- bytes, no part of which starts with a dot or a backslash: none leads upwards.
pub parse_path-IsPath :
    (buf out : List ℕ) (len : ℕ) (pp : PPath)
    → parse_path buf len ≡ parsed out pp
    → (pp.fullp ≡ dot) ⊎ IsPath (text_at out pp.fullp)
parse_path-IsPath buf out len pp r =
    let (x, s, pw, read) = parse_path-Read buf out len pp r in
    let path = Stopped-IsPath buf x s read.stopped in
    elim (finish-fullp x s pw read.byte) [
      | inl e ↦ inl (ap (λ (p : PPath). p.fullp) read.made ∙ e)
      | inr e ↦ inr (rw (ap (λ (p : PPath). p.fullp) read.made ∙ e, read.text) path.1)
    ]

overrun_case :
    (c : ℕ) (cs : List ℕ) (s : ℕ) (x : Scan)
    → scan (c ∷ cs) s x ≡ overrun
    → (c ≢ 0) × ((y : Scan) × (round c s x ≡ next y) × (scan cs (s + 1) y ≡ overrun))
unfolding scan
overrun_case c cs s x r = ground arith

-- A terminator ahead ends the loop.
scan-ne-overrun :
    (cs : List ℕ) (k s : ℕ) (x : Scan) → get_elem? cs k ≡ some 0 → scan cs s x ≢ overrun
scan-ne-overrun [] k s x e r = cc
scan-ne-overrun (c ∷ cs) zero s x e r = (overrun_case c cs s x r).0 (cc)
scan-ne-overrun (c ∷ cs) (suc k) s x e r =
    let (_, (y, _, r')) = overrun_case c cs s x r in scan-ne-overrun cs k (s + 1) y e r'

-- Where the path starts within the buffer, its first byte is there.
conclude_total :
    (buf : List ℕ) (x : Scan) (s : ℕ) (pw : Option ℕ)
    → x.fullp < length buf
    → conclude buf x s pw ≢ out_of_bounds
unfolding conclude
conclude_total buf x s pw h r =
    let (c, e) = get_elem?-in_range buf x.fullp h in ground (arith, e, r)

-- The loop stops at the first terminator.
stops_by :
    (cs : List ℕ) (k s : ℕ) (x x' : Scan) (s' : ℕ)
    → Stopped (scan cs s x) x' s'
    → get_elem? cs k ≡ some 0
    → s' ≤ s + k
unfolding scan
stops_by [] k s x x' s' r e = cc
stops_by (c ∷ cs) zero s x x' s' r e = ground arith
stops_by (c ∷ cs) (suc k) s x x' s' r e = elim (scan_cases c cs s x x' s' r) [
  | inl (_, _, es) ↦ omega (arith, es)
  | inr (y, _, r') ↦ omega (arith, stops_by cs k (s + 1) y x' s' r' e)
]

settle_total :
    (buf : List ℕ) (n : ℕ) (st : Stop)
    → get_elem? buf n ≡ some 0
    → scan buf 0 start ≡ st
    → settle buf st ≢ out_of_bounds
unfolding settle
settle_total buf n (ended x s) z e r =
    let (le, _) = Stopped-IsPath buf x s (inl e) in
    let inside = get_elem?-lt buf (s - 0) (ended_at buf 0 start x s e).1 in
    conclude_total buf x s none (omega arith) r
settle_total buf n (newline x s) z e r =
    let (le, path) = Stopped-IsPath buf x s (inr e) in
    let here = (newline_at buf 0 start x s e).1 in
    let inside = get_elem?-lt buf (s - 0) here in
    let rest = drop x.fullp buf in
    elim (Sought-cases (last_newline rest x.fullp)) [
      | inl q ↦
          last_newline-ends rest (n - x.fullp) x.fullp
            (get_elem?-drop buf x.fullp (n - x.fullp)
              ∙ at_index buf (omega (arith, stops_by buf n 0 start x s (inr e) z)) z)
            q
      | inr (inl q) ↦
          last_newline-finds rest (s - x.fullp) b'/' x.fullp path.0 (at_stop buf x s le here) q
      | inr (inr (p, q)) ↦
          conclude_total (cut buf x s p) x s (some (p + 1))
            (omega (arith, length-set (set buf p 0) s 0, length-set buf p 0)) (rw (q, settle) at r)
    ]
settle_total buf n (failed f) z e r = cc
settle_total buf n overrun z e r = scan-ne-overrun buf n 0 start z e

-- The parser reads within the `len` bytes that it is given, whatever they are.
pub parse_path-in_bounds :
    (buf : List ℕ) (len : ℕ) → len ≤ length buf → parse_path buf len ≢ out_of_bounds
unfolding parse_path
parse_path-in_bounds buf len h r = elim (Bool-cases (len == 0)) [
  | inl z ↦ ground (arith, z)
  | inr z ↦
      let (c, e) = get_elem?-in_range buf (len - 1) (ground arith) in
      elim (Bool-cases (c == 0)) [
        | inl zero_byte ↦
            let last : get_elem? buf (len - 1) ≡ some 0 = e ∙ ap some ((==_iff c 0).0 zero_byte) in
            ground (arith, e, zero_byte, settle_total buf (len - 1) (scan buf 0 start) last refl)
        | inr other ↦ ground (arith, e, other)
      ]
]
