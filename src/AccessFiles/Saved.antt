-- ===== src/AccessFiles/Saved.antt =====
-- What `save_access_rights` writes is read back by `load_access_rights`.
use fsp.Base.{
  ℕ, zero, suc, ◌+◌, ◌≤◌, ◌<◌, ◌≡◌, ◌≢◌, refl, sym, ap, ◌∙◌, Bool, true, false, not, ◌||◌, ◌&&◌,
  List, [], ◌∷◌, ◌++◌, length, take, ◌==◌, if◌then◌else◌, Option, none, some, arith, ==_iff,
  length-append,
}
use fsp.IpRange.{IpRange, Span, is_space, spans_text, skip_whitespace, parse_ipline, dump_line}
use fsp.IpRange.Line.{IsEntry, parse_ipline-dump_line}
use fsp.Rights.{DirInfo, has_bit}
use fsp.AccessFiles.{
  Control, dir_readme, word, load_password, load_nonempty, save_password, scan_line, add_ipline,
  owner_line, load_owners, load_flags, load_owner_file, load_readme, load_access_rights, dump_iptab,
  save_access_rights,
}

-- A password that fscanf reads whole.
abbrev pub Solid : List ℕ → Type 0
Solid [] = Unit
Solid (c ∷ s) = (is_space c ≡ false) × Solid s

word-Solid : (n : ℕ) (s : List ℕ) → Solid s → length s ≤ n → word n (s ++ (b'\n' ∷ [])) ≡ s
unfolding word
word-Solid zero [] h k = refl
word-Solid zero (c ∷ s) h k = absurd (omega (arith, k))
word-Solid (suc n) [] h k = refl
word-Solid (suc n) (c ∷ s) h k = ground (arith, word-Solid n s h.1)

abbrev pub IsPassword : Option (List ℕ) → Type 0
IsPassword none = Unit
IsPassword (some s) = (s ≢ []) × Solid s × (length s ≤ 79)

abbrev saved : Option (List ℕ) → Option (List ℕ)
saved o = elim o [ none ↦ none | some p ↦ some (save_password p) ]

skip-word : (c : ℕ) (s : List ℕ) → is_space c ≡ false → skip_whitespace (c ∷ s) ≡ c ∷ s
unfolding skip_whitespace
skip-word c s h = rw h refl

load_password-word :
    (content : List ℕ) (c : ℕ) (s : List ℕ)
    → word 79 (skip_whitespace content) ≡ c ∷ s
    → load_password (some content) ≡ some (c ∷ s)
unfolding load_password
load_password-word content c s e = rw (e, load_password) (ground arith)

load-saved : (o : Option (List ℕ)) → IsPassword o → load_nonempty (saved o) ≡ o
unfolding load_nonempty save_password
load-saved none h = refl
load-saved (some []) h = absurd (h.0 refl)
load-saved (some (c ∷ s)) (_, h, k) =
    let content = (c ∷ s) ++ (b'\n' ∷ []) in
    let e : load_password (some content) ≡ some (c ∷ s) =
      load_password-word content c s
        (ap (word 79) (skip-word c (s ++ (b'\n' ∷ [])) h.0) ∙ word-Solid 79 (c ∷ s) h k) in
    ground (arith, e)

-- The protection that is loaded after `p` has been saved, with a readme file or without.
abbrev flag_files : ℕ → Control
flag_files p = record {
  readme = none;
  no_get = not (has_bit p 16);
  ok_del = has_bit p 2;
  ok_add = has_bit p 4;
  ok_mkdir = has_bit p 8;
  ok_rename = has_bit p 128;
  no_list = not (has_bit p 64);
  password = none;
  owner = none;
  owner_password = none;
  dirlisting = none;
}

abbrev loaded_flags : ℕ → Bool → ℕ
loaded_flags p readme = load_flags (λ name. none) (flag_files p) (if readme then 112 else 80)

all_below : ℕ → (ℕ → Bool) → Bool
all_below zero test = true
all_below (suc n) test = test n && all_below n test

all_below_sound :
    (n : ℕ) (test : ℕ → Bool) (x : ℕ) → all_below n test ≡ true → x < n → test x ≡ true
unfolding all_below
all_below_sound zero test x h k = absurd (omega (arith, k))
all_below_sound (suc n) test x h k = ground (arith, all_below_sound n test x)

bytes_table : all_below 256 (λ p. has_bit p 1 || loaded_flags p (has_bit p 32) == p) ≡ true
unfolding all_below load_flags
bytes_table = refl

or-right : (a b : Bool) → (a || b) ≡ true → a ≡ false → b ≡ true
or-right true b h e = cc
or-right false b h e = h

loaded_flags-same :
    (p : ℕ) (readme : Bool)
    → p < 256
    → has_bit p 1 ≡ false
    → has_bit p 32 ≡ readme
    → loaded_flags p readme ≡ p
loaded_flags-same p readme h owner e =
    let both = all_below_sound 256 _ p bytes_table h in
    ap (loaded_flags p) (sym e) ∙ (==_iff _ p).0 (or-right _ _ both owner)

-- The owner file: a line is read whole, and then the loop ends at its newline.
abbrev pub InLine : List ℕ → Type 0
InLine [] = Unit
InLine (c ∷ s) = (c ≢ b'\n') × (c ≢ b'\r') × InLine s

scan_line-InLine :
    (n : ℕ) (line rest : List ℕ)
    → InLine line
    → length line ≤ n
    → 0 < n
    → scan_line n (line ++ b'\n' ∷ rest) ≡ (line, b'\n' ∷ rest)
unfolding scan_line
scan_line-InLine zero line rest h k pos = absurd (omega (arith, pos))
scan_line-InLine (suc n) [] rest h k pos = refl
scan_line-InLine (suc zero) (c ∷ []) rest h k pos = ground arith
scan_line-InLine (suc zero) (c ∷ x ∷ line) rest h k pos = absurd (omega (arith, k))
scan_line-InLine (suc (suc n)) (c ∷ line) rest h k pos =
    ground (arith, scan_line-InLine (suc n) line rest h.2)

not_empty : (s t : List ℕ) (c : ℕ) → (length (s ++ c ∷ t) == 0) ≡ false
not_empty [] t c = ground arith
not_empty (x ∷ s) t c = ground arith

module _ (gethostbyname : List ℕ → Option ℕ) where
  dump_line-pos : (r : IpRange) → (length (dump_line r) == 0) ≡ false
  unfolding dump_line
  dump_line-pos r = not_empty (spans_text r.spans) _ 32

  add_first :
      (r : IpRange)
      → parse_ipline gethostbyname (dump_line r) ≡ some r
      → add_ipline gethostbyname (dump_line r) [] ≡ some (r ∷ [])
  unfolding add_ipline
  add_first r e = rw (e, add_ipline) refl

  stop_at_newline :
      (fuel : ℕ) (rest : List ℕ) (table : List IpRange)
      → load_owners gethostbyname (suc fuel) (b'\n' ∷ rest) table ≡ some table
  unfolding load_owners owner_line scan_line
  stop_at_newline fuel rest table = refl

  one_owner :
      (fuel : ℕ) (content line rest : List ℕ) (table table' : List IpRange)
      → scan_line 255 content ≡ (line, rest)
      → (length line == 0) ≡ false
      → add_ipline gethostbyname line table ≡ some table'
      → load_owners gethostbyname (suc fuel) content table
        ≡ load_owners gethostbyname fuel rest table'
  unfolding load_owners owner_line
  one_owner fuel content line rest table table' e n a =
      ap
        (λ (p : List ℕ × List ℕ). owner_line gethostbyname (load_owners gethostbyname fuel) p table)
        e
      ∙ rw (n, owner_line) (rw a refl)

  first_owner :
      (fuel : ℕ) (r : IpRange) (rest : List ℕ)
      → parse_ipline gethostbyname (dump_line r) ≡ some r
      → InLine (dump_line r)
      → length (dump_line r) ≤ 255
      → load_owners gethostbyname (suc (suc fuel)) (dump_line r ++ b'\n' ∷ rest) [] ≡ some (r ∷ [])
  first_owner fuel r rest e h k =
      one_owner (suc fuel) (dump_line r ++ b'\n' ∷ rest) (dump_line r) (b'\n' ∷ rest) [] (r ∷ [])
        (scan_line-InLine 255 (dump_line r) rest h k (omega arith)) (dump_line-pos r)
        (add_first r e)
      ∙ stop_at_newline fuel rest (r ∷ [])

  -- The owner file of a table, and what is loaded of it.
  load-dump :
      (r : IpRange) (rs : List IpRange)
      → parse_ipline gethostbyname (dump_line r) ≡ some r
      → InLine (dump_line r)
      → length (dump_line r) ≤ 255
      → load_owners gethostbyname (length (dump_iptab (r ∷ rs)) + 1) (dump_iptab (r ∷ rs)) []
        ≡ some (r ∷ [])
  unfolding dump_iptab
  load-dump r rs e h k =
      let rest = dump_iptab rs in
      let long = length-append (dump_line r) (b'\n' ∷ rest) in
      ap (λ n. load_owners gethostbyname n (dump_line r ++ b'\n' ∷ rest) [])
        {y = suc (suc (length (dump_line r) + length rest))} (omega (arith, long))
      ∙ first_owner (length (dump_line r) + length rest) r rest e h k

  -- A table whose first entry has been parsed, and fits a line.
  abbrev pub IsOwners : List IpRange → Type 0
  IsOwners [] = Unit
  IsOwners (r ∷ rs) =
      (s : Span) × (ss : List Span) × (type : ℕ) × (message : List ℕ) × IsEntry r s ss type message
      × InLine (dump_line r)
      × (length (dump_line r) ≤ 255)

  same_flags :
      (di : DirInfo) (d : Control) (p0 : ℕ)
      → load_flags gethostbyname (save_access_rights true di d) p0
        ≡ load_flags (λ name. none) (flag_files di.protection) p0
  unfolding load_flags save_access_rights
  same_flags di d p0 = refl

  -- The readme file is there exactly if the protection says so, and the passwords and owners can be read
  -- back.
  pub record CanBeSaved (di : DirInfo) (d : Control) : Type 0 where
    pub a_byte : di.protection < 256
    pub no_owner_flag : has_bit di.protection 1 ≡ false
    pub readme_flag :
        has_bit di.protection dir_readme ≡ elim d.readme [ none ↦ false | some text ↦ true ]
    pub public_password : IsPassword di.public_password
    pub owner_password : IsPassword di.owner_password
    pub owners : IsOwners di.owner

  start_flags :
      (o : Option (List ℕ)) (p : ℕ)
      → p < 256
      → has_bit p 1 ≡ false
      → has_bit p dir_readme ≡ elim o [ none ↦ false | some text ↦ true ]
      → load_flags (λ name. none) (flag_files p) (elim o [ none ↦ 80 | some text ↦ 112 ]) ≡ p
  start_flags none p h n e = loaded_flags-same p false h n e
  start_flags (some text) p h n e = loaded_flags-same p true h n e

  abbrev flagged : ℕ → DirInfo → DirInfo → Control → DirInfo
  flagged packetsize di di0 d = record (load_readme gethostbyname packetsize d di0) {
    protection = di.protection;
    public_password = di.public_password;
  }

  load-flagged :
      (packetsize : ℕ) (di di0 : DirInfo) (d : Control)
      → CanBeSaved di d
      → load_access_rights gethostbyname packetsize true (save_access_rights true di d) di0
        ≡ load_owner_file gethostbyname
            (flagged packetsize di di0 d)
            (elim di.owner [ [] ↦ none | r ∷ rs ↦ some (dump_iptab (r ∷ rs)) ])
            (saved di.owner_password)
  unfolding load_access_rights save_access_rights load_readme
  load-flagged packetsize di di0 d v =
      let p =
        same_flags di d (elim d.readme [ none ↦ 80 | some text ↦ 112 ])
        ∙ start_flags d.readme di.protection v.a_byte v.no_owner_flag v.readme_flag in
      let w = load-saved di.public_password v.public_password in
      λ i.
        load_owner_file gethostbyname
          (record (load_readme gethostbyname packetsize d di0) {
            protection = p i;
            public_password = w i;
          })
          (elim di.owner [ [] ↦ none | r ∷ rs ↦ some (dump_iptab (r ∷ rs)) ])
          (saved di.owner_password)

  -- From the owner file on.
  abbrev OwnersLoad : DirInfo → List IpRange → Option (List ℕ) → Option DirInfo → Type 0
  OwnersLoad di table password loaded =
      (di' : DirInfo) × (loaded ≡ some di')
      × (di'.protection ≡ di.protection)
      × (di'.public_password ≡ di.public_password)
      × (di'.owner ≡ take 1 table)
      × (di'.owner_password ≡ (if length table == 0 then none else password))

  owners_loaded :
      (di : DirInfo) (table : List IpRange) (password : Option (List ℕ))
      → di.owner ≡ []
      → di.owner_password ≡ none
      → IsOwners table
      → IsPassword password
      → OwnersLoad di table password (
          load_owner_file gethostbyname di
            (elim table [ [] ↦ none | r ∷ rs ↦ some (dump_iptab (r ∷ rs)) ])
            (saved password))
  unfolding load_owner_file
  owners_loaded di [] password o n h k = (di, refl, refl, refl, o, n)
  owners_loaded di (r ∷ rs) password o n (s, ss, type, message, e, l, long) k =
      let line = parse_ipline-dump_line gethostbyname r s ss type message e in
      (
        record di { owner = r ∷ []; owner_password = load_nonempty (saved password) },
        rw (load-dump r rs line l long, load_owner_file) refl,
        refl,
        refl,
        refl,
        load-saved password k ∙ (ground arith),
      )

  -- What `save_access_rights` writes is read back by `load_access_rights`: the protection and the
  -- public password, of the owners only the first one, and the owner password only if there is an
  -- owner. The readme file is there exactly if the protection says so, the protection is a byte
  -- without the owner's flag, the passwords are words of at most 79 bytes, and the first owner's
  -- line has at most 255.
  pub load-save_access_rights :
      (packetsize : ℕ) (di di0 : DirInfo) (d : Control)
      → CanBeSaved di d
      → (di' : DirInfo) × (load_access_rights gethostbyname packetsize true
            (save_access_rights true di d)
            di0
          ≡ some di')
        × (di'.protection ≡ di.protection)
        × (di'.public_password ≡ di.public_password)
        × (di'.owner ≡ take 1 di.owner)
        × (di'.owner_password ≡ (if length di.owner == 0 then none else di.owner_password))
  load-save_access_rights packetsize di di0 d v =
      let (di', e, p, w, o, n) =
        owners_loaded (flagged packetsize di di0 d) di.owner di.owner_password
          (unfold load_readme in refl) (unfold load_readme in refl) v.owners v.owner_password in
      (di', load-flagged packetsize di di0 d v ∙ e, p, w, o, n)
