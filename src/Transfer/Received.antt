-- ===== src/Transfer/Received.antt =====
-- The temporary file of `server_up_load` receives what `util_upload` sends, whatever streams the cache
-- drops between the pieces.
use fsp.Base.{
  ℕ, ◌+◌, ◌≤◌, ◌<◌, ◌≡◌, refl, sym, ◌∙◌, ap, ap₂, Bool, true, false, not, ◌&&◌, ◌⊎◌, inl, inr, List,
  [], ◌∷◌, ◌++◌, append-nil, length, length-append, take, drop, take-all, drop-all, ltb, ◌==◌,
  Option, some, none, arith, Bool-cases, if◌then◌else◌,
}
use fsp.Transfer.{
  Temp, Io, write_temp, open_temp, server_up_load, evict, upload_loop, fourgigs, gone,
}
use fsp.Transfer.Upload.{Receives, upload_loop-whole}

abbrev pub working : Io
working = record { opens = true; regular = true; seeks = true; writes = true }

-- A file that holds some bytes, and a stream that stands at its end.
abbrev pub standing : List ℕ → ℕ → Temp
standing w at = record { contents = some w; open_at = some at }

-- The stream of the cache stands at the end of the file.
pub data IsTemp (t : Temp) : Type 0 where
  closed : t.open_at ≡ none → IsTemp t
  at_end : (w : List ℕ) → t.open_at ≡ some (length w) → t.contents ≡ some w → IsTemp t

-- The file holds these bytes, and the stream stands at its end, if it is open.
pub record Keeps (t : Temp) (w : List ℕ) : Type 0 where
  pub contents : t.contents ≡ some w
  pub open_at : (t.open_at ≡ none) ⊎ (t.open_at ≡ some (length w))

written :
    (w chunk : List ℕ)
    → take (length w) w ++ (chunk ++ drop (length w + length chunk) w) ≡ w ++ chunk
written w chunk =
    ap₂ (λ (k l : List ℕ). k ++ (chunk ++ l)) (take-all (length w) w (omega arith))
      (drop-all (length w + length chunk) w (omega arith))
    ∙ ap (λ (l : List ℕ). w ++ l) (append-nil chunk)

reopened : (w : List ℕ) → (if length w == 0 then some [] else some w) ≡ some w
reopened [] = refl
reopened (c ∷ cs) = ground arith

up_load-idle :
    (w chunk : List ℕ)
    → server_up_load working chunk (length w) (record { contents = some w; open_at = none })
      ≡ (standing (w ++ chunk) (length w + length chunk), none)
unfolding server_up_load open_temp write_temp
up_load-idle w chunk =
    let no_hole : ltb (length w) (length w) ≡ false = ground arith in
    let tail : ltb (length w + length chunk) (length w) ≡ false = ground arith in
    rw (server_up_load, open_temp, reopened w, no_hole, tail, write_temp, written w chunk) refl

up_load-standing :
    (w chunk : List ℕ)
    → server_up_load working chunk (length w) (standing w (length w))
      ≡ (standing (w ++ chunk) (length w + length chunk), none)
unfolding server_up_load open_temp write_temp
up_load-standing w chunk =
    let no_hole : ltb (length w) (length w) ≡ false = ground arith in
    let tail : ltb (length w + length chunk) (length w) ≡ false = ground arith in
    let there : (length w == length w) ≡ true = ground arith in
    rw (server_up_load, no_hole, tail, there, write_temp, written w chunk) refl

-- A piece that follows on what the file holds is written behind it.
pub up_load-behind :
    (t : Temp) (w chunk : List ℕ)
    → Keeps t w
    → server_up_load working chunk (length w) t
      ≡ (standing (w ++ chunk) (length w + length chunk), none)
up_load-behind t w chunk k =
    let at : (o : Option ℕ) → t.open_at ≡ o → t ≡ record { contents = some w; open_at = o } = λ o e.
      ap₂ (λ (c : Option (List ℕ)) (p : Option ℕ). record { contents = c; open_at = p }) k.contents
        e in
    elim k.open_at [
      | inl e ↦ ap (server_up_load working chunk (length w)) (at none e) ∙ up_load-idle w chunk
      | inr e ↦
          ap (server_up_load working chunk (length w)) (at (some (length w)) e)
          ∙ up_load-standing w chunk
    ]

open_temp-new :
    (t : Temp) (chunk : List ℕ)
    → open_temp working chunk 0 t ≡ (standing chunk (0 + length chunk), none)
unfolding open_temp write_temp
open_temp-new t chunk =
    let none_lost : ltb (0 + length chunk) 0 ≡ false = ground arith in
    rw
      (
        open_temp,
        none_lost,
        write_temp,
        drop-all {A = ℕ} (0 + length chunk) [] (omega arith),
        append-nil chunk,
      )
      refl

up_load-anew :
    (w chunk : List ℕ)
    → server_up_load working chunk 0 (standing w (length w))
      ≡ (standing chunk (0 + length chunk), none)
unfolding server_up_load open_temp write_temp
up_load-anew w chunk =
    let low : ltb (length w) 0 ≡ false = ground arith in
    let sought : (not (0 == length w) && false) ≡ false = ground arith in
    elim (Bool-cases (ltb (0 + length chunk) (length w))) [
      | inl shorter ↦ rw (server_up_load, low, shorter) (open_temp-new gone chunk)
      | inr longer ↦
          let over : drop (0 + length chunk) w ≡ [] =
            drop-all (0 + length chunk) w (ground (arith, longer)) in
          rw (server_up_load, low, longer, sought, write_temp, over, append-nil chunk) refl
    ]

-- A piece for position 0 begins the file anew, whatever it held.
pub up_load-first :
    (t : Temp) (chunk : List ℕ)
    → IsTemp t
    → server_up_load working chunk 0 t ≡ (standing chunk (0 + length chunk), none)
unfolding server_up_load open_temp write_temp
up_load-first t chunk (closed e) =
    ap
      (λ (o : Option ℕ).
        server_up_load working chunk 0 (record { contents = t.contents; open_at = o }))
      e
    ∙ open_temp-new (record { contents = t.contents; open_at = none }) chunk
up_load-first t chunk (at_end w e c) =
    ap (server_up_load working chunk 0)
      (ap₂ (λ (x : Option (List ℕ)) (y : Option ℕ). record { contents = x; open_at = y }) c e)
    ∙ up_load-anew w chunk

-- CC_UP_LOAD of a piece, before which the cache may have dropped the stream.
abbrev pub receive_piece : (Temp → ℕ → Bool) → Temp → ℕ → List ℕ → Temp × Bool
receive_piece dropped t pos chunk =
    let (t', e) = server_up_load working chunk pos (if dropped t pos then evict t else t) in
    (t', elim e [ none ↦ true | some text ↦ false ])

evicted-IsTemp : (b : Bool) (t : Temp) → IsTemp t → IsTemp (if b then evict t else t)
unfolding evict
evicted-IsTemp true t v = closed refl
evicted-IsTemp false t v = v

evicted-Keeps : (b : Bool) (t : Temp) (w : List ℕ) → Keeps t w → Keeps (if b then evict t else t) w
unfolding evict
evicted-Keeps true t w k = record { contents = k.contents; open_at = inl refl }
evicted-Keeps false t w k = k

receive_piece-Receives : (dropped : Temp → ℕ → Bool) → Receives IsTemp Keeps (receive_piece dropped)
receive_piece-Receives dropped = record {
  start = λ t chunk v. (
    standing chunk (0 + length chunk),
    rw (up_load-first (if dropped t 0 then evict t else t) chunk (evicted-IsTemp (dropped t 0) t v))
        refl,
    record { contents = refl; open_at = inr (ap some {y = length chunk} (omega arith)) },
  );
  go_on = λ t w chunk k. (
    standing (w ++ chunk) (length w + length chunk),
    rw
        (up_load-behind (if dropped t (length w) then evict t else t) w chunk
          (evicted-Keeps (dropped t (length w)) t w k))
        refl,
    record { contents = refl; open_at = inr (ap some (sym (length-append w chunk))) },
  );
}

-- Where the calls of the system succeed, `util_upload` leaves the whole file, of no more than 4 GiB, in
-- the temporary file of the client, whatever was there before and whatever streams the cache drops; then
-- it asks to install it.
pub upload-received :
    (dropped : Temp → ℕ → Bool) (install : Temp → Temp × Bool) (client_buf_len fuel : ℕ)
    (file : List ℕ) (t : Temp)
    → IsTemp t
    → 1 ≤ client_buf_len
    → length file ≤ fourgigs
    → length file + 1 < fuel
    → (t' : Temp) × Keeps t' file
      × (upload_loop fuel client_buf_len (receive_piece dropped) install file 0 true t
          ≡ some (install t'))
upload-received dropped install client_buf_len fuel file t v room small k =
    upload_loop-whole IsTemp Keeps (receive_piece dropped) install (receive_piece-Receives dropped)
      client_buf_len room fuel file t v small k
