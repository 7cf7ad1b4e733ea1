-- ===== src/Transfer/Upload.antt =====
-- The loop of `util_upload` against anything that receives a file piece by piece.
use fsp.Base.{
  ℕ, zero, suc, ◌+◌, ◌-◌, ◌%◌, ◌≤◌, ◌<◌, ◌≡◌, refl, sym, ◌∙◌, ap, ap₂, subst, Bool, true, false,
  not, inl, inr, List, [], ◌++◌, append-nil, append_assoc, length, length-append, length-take,
  length-drop, take, drop, take-drop, drop-all, ltb, ◌==◌, ◌||◌, ◌&&◌, min, some, arith, Bool-cases,
}
use fsp.IpRange.{head}
use fsp.Rights.{DirInfo, server_get_pro, flip_bit, set_bit, has_bit, dir_owner, dir_add, dir_del}
use fsp.Transfer.{upload_loop, may_upload, fourgigs}

-- A receiver: `Valid` is what its states satisfy, and `Holds s w` says that it holds the bytes `w` so
-- far. It takes a first piece, and each next one.
pub record Receives {S : Type 0} (Valid : S → Type 0) (Holds : S → List ℕ → Type 0)
    (send : S → ℕ → List ℕ → S × Bool) : Type 0 where
  pub start :
      (s : S) (chunk : List ℕ) → Valid s → (s' : S) × (send s 0 chunk ≡ (s', true)) × Holds s' chunk
  pub go_on :
      (s : S) (w chunk : List ℕ)
      → Holds s w
      → (s' : S) × (send s (length w) chunk ≡ (s', true)) × Holds s' (w ++ chunk)

-- A round that sends a piece.
upload_loop-send :
    {S : Type 0} (fuel client_buf_len : ℕ) (send : S → ℕ → List ℕ → S × Bool)
    (install : S → S × Bool) (rest : List ℕ) (pos : ℕ) (first : Bool) (s s' : S)
    → (first || ltb 0 (length (take client_buf_len rest))) ≡ true
    → send s pos (take client_buf_len rest) ≡ (s', true)
    → ltb fourgigs (pos + length (take client_buf_len rest)) ≡ false
    → upload_loop (suc fuel) client_buf_len send install rest pos first s
      ≡ upload_loop fuel client_buf_len send install
          (drop client_buf_len rest)
          (pos + length (take client_buf_len rest))
          false
          s'
unfolding upload_loop
upload_loop-send {S} fuel client_buf_len send install rest pos first s s' go q low =
    let ok : (send s pos (take client_buf_len rest)).1 ≡ true = ap (λ (x : S × Bool). x.1) q in
    let next : (send s pos (take client_buf_len rest)).0 ≡ s' = ap (λ (x : S × Bool). x.0) q in
    rw (go, upload_loop, ok, low, next) refl

module _ {S : Type 0} (Valid : S → Type 0) (Holds : S → List ℕ → Type 0)
    (send : S → ℕ → List ℕ → S × Bool) (install : S → S × Bool)
    (receives : Receives Valid Holds send) (client_buf_len : ℕ)
    (some_room : 1 ≤ client_buf_len) where
  upload_loop-rest :
      (fuel : ℕ) (rest w : List ℕ) (s : S)
      → Holds s w
      → length w + length rest ≤ fourgigs
      → length rest < fuel
      → (s' : S) × Holds s' (w ++ rest)
        × (upload_loop fuel client_buf_len send install rest (length w) false s ≡ some (install s'))
  unfolding upload_loop
  upload_loop-rest zero rest w s h small k = absurd (omega (arith, k))
  upload_loop-rest (suc fuel) rest w s h small k =
      let chunk = take client_buf_len rest in
      let back = drop client_buf_len rest in
      let lc : length chunk ≡ min client_buf_len (length rest) = length-take client_buf_len rest in
      let lb : length back ≡ length rest - client_buf_len = length-drop client_buf_len rest in
      elim (Bool-cases (ltb 0 (length chunk))) [
        | inr none_left ↦
            let empty : rest ≡ [] = drop-all 0 rest (ground (arith, none_left, lc, some_room)) in
            (
              s,
              subst (Holds s) (sym (ap (λ (l : List ℕ). w ++ l) empty ∙ append-nil w)) h,
              rw (none_left, upload_loop) refl,
            )
        | inl more ↦
            let (s', q, h') = receives.go_on s w chunk h in
            let low : ltb fourgigs (length w + length chunk) ≡ false = ground (arith, small, lc) in
            let (s'', h'', q') =
              upload_loop-rest fuel back (w ++ chunk) s' h'
                (omega (arith, length-append w chunk, lc, lb, small))
                (ground (arith, more, lc, lb, k)) in
            (
              s'',
              subst (Holds s'')
                  (append_assoc w chunk back
                    ∙ ap (λ (l : List ℕ). w ++ l) (take-drop client_buf_len rest))
                  h'',
              upload_loop-send fuel client_buf_len send install rest (length w) false s s' more q
                    low
                  ∙ ap (λ (p : ℕ). upload_loop fuel client_buf_len send install back p false s')
                      (sym (length-append w chunk))
                  ∙ q',
            )
      ]

  -- A receiver that is valid gets the whole file, of no more than 4 GiB, and then the request to install
  -- it, the answer to which is the result.
  pub upload_loop-whole :
      (fuel : ℕ) (file : List ℕ) (s : S)
      → Valid s
      → length file ≤ fourgigs
      → length file + 1 < fuel
      → (s' : S) × Holds s' file
        × (upload_loop fuel client_buf_len send install file 0 true s ≡ some (install s'))
  unfolding upload_loop
  upload_loop-whole zero file s v small k = absurd (omega (arith, k))
  upload_loop-whole (suc fuel) file s v small k =
      let chunk = take client_buf_len file in
      let back = drop client_buf_len file in
      let lc : length chunk ≡ min client_buf_len (length file) = length-take client_buf_len file in
      let lb : length back ≡ length file - client_buf_len = length-drop client_buf_len file in
      let (s', q, h') = receives.start s chunk v in
      let low : ltb fourgigs (0 + length chunk) ≡ false = ground (arith, small, lc) in
      let (s'', h'', q') =
        upload_loop-rest fuel back chunk s' h' (omega (arith, lc, lb, small))
          (omega (arith, lb, k)) in
      (
        s'',
        subst (Holds s'') (take-drop client_buf_len file) h'',
        upload_loop-send fuel client_buf_len send install file 0 true s s' refl q low
            ∙ ap (λ (p : ℕ). upload_loop fuel client_buf_len send install back p false s')
                {y = length chunk} (omega arith)
            ∙ q',
      )

shown-bits :
    (p : ℕ)
    → p < 256
    → (has_bit (flip_bit p 16 % 256) dir_owner ≡ has_bit p dir_owner)
      × (has_bit (flip_bit p 16 % 256) dir_add ≡ has_bit p dir_add)
      × (has_bit (flip_bit p 16 % 256) dir_del ≡ has_bit p dir_del)
unfolding flip_bit
shown-bits p h = (ground arith, ground arith, ground arith)

may_upload-owner :
    (flags : ℕ) (exists : Bool)
    → has_bit flags dir_owner ≡ true
    → may_upload (some flags) exists ≡ true
unfolding may_upload
may_upload-owner flags exists h = rw (h, may_upload) refl

may_upload-other :
    (flags : ℕ) (exists : Bool)
    → has_bit flags dir_owner ≡ false
    → may_upload (some flags) exists
      ≡ (has_bit flags dir_add && (has_bit flags dir_del || not exists))
unfolding may_upload
may_upload-other flags exists h = elim (Bool-cases (has_bit flags dir_add)) [
  | inr a ↦ rw (h, may_upload, a) refl
  | inl a ↦ elim (Bool-cases (has_bit flags dir_del)) [
    | inl d ↦ rw (h, may_upload, a, d) refl
    | inr d ↦ rw (h, may_upload, a, d) refl
  ]
]

set_owner : (p : ℕ) → has_bit (set_bit p dir_owner) dir_owner ≡ true
unfolding set_bit
set_owner p = ground arith

-- The client's check agrees with the server's rights: by the flags that `server_get_pro` sends, an upload
-- goes on exactly if the server takes the client for an owner, or the public may add files, and may
-- delete them or the file is new. The directory's protection is a byte without the owner's flag.
pub may_upload-server_get_pro :
    (di : DirInfo) (acc : List ℕ) (exists : Bool)
    → di.protection < 256
    → has_bit di.protection dir_owner ≡ false
    → may_upload (some (server_get_pro di acc).1) exists ≡ (
        head acc == b'O'
        || (has_bit di.protection dir_add && (has_bit di.protection dir_del || not exists)))
unfolding server_get_pro
may_upload-server_get_pro di acc exists h k =
    let pro = flip_bit di.protection 16 % 256 in
    let (a, b, c) = shown-bits di.protection h in
    elim (Bool-cases (head acc == b'O')) [
      | inl o ↦
          rw (o, server_get_pro) (may_upload-owner (set_bit pro dir_owner) exists (set_owner pro))
      | inr o ↦
          rw (o, server_get_pro)
            (may_upload-other pro exists (a ∙ k) ∙ ap₂ (λ (x y : Bool). x && (y || not exists)) b c)
    ]
