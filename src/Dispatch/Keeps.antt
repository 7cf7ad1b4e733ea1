-- ===== src/Dispatch/Keeps.antt =====
-- What holds after every command: a frame for the state of the files, and the reply's header.
use fsp.Base.{
  ℕ, ◌≤◌, ◌≡◌, refl, ◌∙◌, ◌⊎◌, inl, inr, Bool, true, false, List, [], ◌∷◌, ◌++◌, length, ltb, ◌==◌,
  if◌then◌else◌, Option, none, some, arith, length-append, ==_iff,
}
use fsp.Packet.{Packet, Quad, bytes, receive, read2, write2, write4, reply_passes, seal_reply}
use fsp.Packet.Fields.{receive-bytes}
use fsp.Packet.Checksum.{sealed_passes}
use fsp.Exchange.{is_positional}
use fsp.Rights.{dir_del, dir_mkdir, dir_owner, dir_add, dir_get, dir_list, dir_rename}
use fsp.Dispatch.{
  Answer, failed, done, Target, absent, directory, regular, special, Settings, Files, Request,
  server_reply, send_error, s1, s2, with_path, with_rights, or_failed, or_error, unless,
  when◌then◌else◌, serve_file,
}
use fsp.Dispatch.Handlers.{
  answer_empty, version, server_show_version, dir_block, get_dir, get_file, send_file, del_file,
  del_dir, up_load, install, send_pro, make_dir, get_pro, set_pro, grab_file, grab_done, stat,
  grab_send,
}
use fsp.Dispatch.Process.{rename_to, rename_from, rename, renamed, rename_with, serve}

-- The command and the position of a message: those of the request, where the position may differ if
-- the client does not look at it; or an error's.
abbrev pub IsHeader : Packet → Packet → Type 0
IsHeader ub m =
    ((m.cmd ≡ ub.cmd) × (is_positional ub.cmd ≡ true → m.pos ≡ ub.pos))
    ⊎ ((m.cmd ≡ 64) × (m.pos ≡ write4 0))

-- A message answers a request: it has the key and the sequence number of the request's buffer, can be
-- received whole, and has the checksum of a reply.
pub record Answers (ub m : Packet) : Type 0 where
  pub key : m.key ≡ ub.key
  pub seq : m.seq ≡ ub.seq
  pub whole : receive (bytes m) ≡ some m
  pub passes : reply_passes m ≡ true
  pub header : IsHeader ub m

abbrev pub AnswersIf : Packet → Option Packet → Type 0
AnswersIf ub none = Unit {0}
AnswersIf ub (some m) = Answers ub m

read2-write2 : (n : ℕ) → read2 (write2 n) ≤ n
unfolding read2 write2
read2-write2 n = omega arith

pub whole_reply :
    (ub : Packet) (region extra : List ℕ)
    → receive (bytes (server_reply ub region extra)) ≡ some (server_reply ub region extra)
unfolding server_reply seal_reply
whole_reply ub region extra =
    let fits : ltb (length (region ++ extra)) (read2 (write2 (length region))) ≡ false =
      ground (arith, read2-write2 (length region), length-append region extra) in
    receive-bytes (server_reply ub region extra) ∙ rw fits refl

-- `server_reply` with another position than the request's.
moved-Answers :
    (ub : Packet) (pos : Quad) (a b : List ℕ)
    → is_positional ub.cmd ≡ false
    → Answers ub (server_reply (record ub { pos = pos }) a b)
unfolding server_reply seal_reply
moved-Answers ub pos a b n = record {
  key = refl;
  seq = refl;
  whole = whole_reply (record ub { pos = pos }) a b;
  passes = (sealed_passes (record ub { pos = pos; len = write2 (length a); body = a ++ b })).0;
  header = inl (refl, λ p. ground (arith, p, n));
}

server_reply-Answers : (ub : Packet) (a b : List ℕ) → Answers ub (server_reply ub a b)
unfolding server_reply seal_reply
server_reply-Answers ub a b = record {
  key = refl;
  seq = refl;
  whole = whole_reply ub a b;
  passes = (sealed_passes (record ub { len = write2 (length a); body = a ++ b })).0;
  header = inl (refl, λ p. refl);
}

send_error-Answers : (ub : Packet) (msg : List ℕ) → Answers ub (send_error ub msg)
unfolding send_error server_reply seal_reply
send_error-Answers ub msg = record {
  key = refl;
  seq = refl;
  whole = whole_reply (record ub { cmd = 64; pos = write4 0 }) (msg ++ (0 ∷ [])) [];
  passes =
      (sealed_passes (record ub {
        cmd = 64;
        pos = write4 0;
        len = write2 (length (msg ++ (0 ∷ [])));
        body = (msg ++ (0 ∷ [])) ++ [];
      })).0;
  header = inr (refl, refl);
}

Answers-if :
    {ub x y : Packet} (b : Bool) → Answers ub x → Answers ub y → Answers ub (if b then x else y)
Answers-if true f g = f
Answers-if false f g = g

-- The calls that only read keep a property of the files' state, and so do those that write, where a
-- handler may make them. `server_get_dir` may write the file that it keeps of a listing.
pub record Frame {W P D F : Type 0} (files : Files W P D F) (ok : W → Type 0)
    (may_write may_list : Type 0) : Type 0 where
  pub validate_path : (w : W) (t : List ℕ) (b : Bool) → ok w → ok (files.validate_path w t b).0
  pub server_get_dir : may_list → (w : W) (d : D) → ok w → ok (files.server_get_dir w d).0
  pub server_get_file :
      (w : W) (p : P) (i n : ℕ) (d : D) → ok w → ok (files.server_get_file w p i n d).0
  pub fseeko : (w : W) (f : F) (i : ℕ) → ok w → ok (files.fseeko w f i).0
  pub fread : (w : W) (f : F) (i : ℕ) → ok w → ok (files.fread w f i).0
  pub fclose : (w : W) (f : F) → ok w → ok (files.fclose w f)
  pub server_grab_file : (w : W) (i n : ℕ) → ok w → ok (files.server_grab_file w i n).0
  pub server_stat : (w : W) (m : Packet) → ok w → ok (files.server_stat w m).0
  pub server_del_file :
      may_write → (w : W) (p : P) (d : D) → ok w → ok (files.server_del_file w p d).0
  pub server_del_dir :
      may_write → (w : W) (p : P) (d : D) → ok w → ok (files.server_del_dir w p d).0
  pub server_up_load :
      may_write → (w : W) (t : List ℕ) (i j n : ℕ) → ok w → ok (files.server_up_load w t i j n).0
  pub server_install :
      may_write
      → (w : W) (p : P) (i n : ℕ) (a : Option (List ℕ)) (d : D) (t : List ℕ) → ok w
      → ok (files.server_install w p i n a d t).0
  pub server_make_dir :
      may_write → (w : W) (p : P) (i : ℕ) (d : D) → ok w → ok (files.server_make_dir w p i d).0
  pub server_set_pro :
      may_write → (w : W) (d : D) (a b : ℕ) → ok w → ok (files.server_set_pro w d a b).0
  pub server_secure_file :
      may_write
      → (w : W) (p : P) (i n : ℕ) (d : D) → ok w
      → ok (files.server_secure_file w p i n d).0
  pub server_grab_done : may_write → (w : W) (i n : ℕ) → ok w → ok (files.server_grab_done w i n).0
  pub server_rename :
      may_write → (w : W) (p q : P) (d e : D) → ok w → ok (files.server_rename w p q d e).0

module _ {W P D F : Type 0} (files : Files W P D F) (settings : Settings) (r : Request)
    (ok : W → Type 0)
    (frame : Frame files ok
      ((settings.read_only ≡ false) × (r.old ≡ false))
      ((r.ub.cmd == 65) ≡ true)) where
  pub record Holds (o : W × Option Packet) : Type 0 where
    pub state : ok o.0
    pub reply : AnswersIf r.ub o.1

  error-Holds : (w : W) (msg : List ℕ) → ok w → Holds (w, some (send_error r.ub msg))
  error-Holds w msg h = record { state = h; reply = send_error-Answers r.ub msg }

  empty-Holds : (w : W) → ok w → Holds (answer_empty files settings r w)
  empty-Holds w h = record { state = h; reply = server_reply-Answers r.ub [] [] }

  or_failed-Holds :
      {A : Type 0} (x : W × Answer A) (k : W → A → W × Option Packet)
      → ok x.0
      → ((a : A) → Holds (k x.0 a))
      → Holds (or_failed r x k)
  unfolding or_failed
  or_failed-Holds (w, failed e) k h g = error-Holds w e h
  or_failed-Holds (w, done a) k h g = g a

  or_error-Holds :
      (x : W × Option (List ℕ)) (k : W → W × Option Packet)
      → ok x.0
      → Holds (k x.0)
      → Holds (or_error r x k)
  unfolding or_error
  or_error-Holds (w, some e) k h g = error-Holds w e h
  or_error-Holds (w, none) k h g = g

  with_path-Holds :
      (path : List ℕ) (b : Bool) (w : W) (k : W → P → D → W × Option Packet)
      → ok w
      → ((w' : W) (p : P) (d : D) → ok w' → Holds (k w' p d))
      → Holds (with_path files settings r path b w k)
  unfolding with_path
  with_path-Holds path b w k h g =
      let h' = frame.validate_path w path b h in
      or_failed-Holds (files.validate_path w path b) (λ w' pd. k w' pd.0 pd.1) h'
        (λ pd. g _ pd.0 pd.1 h')

  if-Holds :
      {b : Bool} {x y : W × Option Packet}
      → (b ≡ true → Holds x)
      → (b ≡ false → Holds y)
      → Holds (when b then x else y)
  unfolding when◌then◌else◌
  if-Holds {b = true} f g = f refl
  if-Holds {b = false} f g = g refl

  with_rights-Holds :
      (right : ℕ) (w : W) (p : P) (d : D) (k : List ℕ → W × Option Packet)
      → ok w
      → ((pe : List ℕ) → Holds (k pe))
      → Holds (with_rights files settings r right w p d k)
  unfolding with_rights
  with_rights-Holds right w p d k h g =
      if-Holds (λ _. record { state = h; reply = tt })
        (λ _. if-Holds (λ _. error-Holds w _ h) (λ _. g _))

  -- Both checks, as most commands begin.
  checks-Holds :
      (b : Bool) (right : ℕ) (w : W) (k : W → P → D → W × Option Packet)
      → ok w
      → ((w' : W) (p : P) (d : D) → ok w' → Holds (k w' p d))
      → Holds (
          with_path files settings r
            (s1 r)
            b
            w
            (λ w' p d. with_rights files settings r right w' p d (λ _. k w' p d)))
  checks-Holds b right w k h g =
      with_path-Holds (s1 r) b w _ h
        (λ w' p d h'. with_rights-Holds right w' p d _ h' (λ _. g w' p d h'))

  -- The commands that are refused in read-only mode and not repeated.
  write-Holds :
      (w : W) (x y : W × Option Packet)
      → ok w
      → Holds x
      → ((settings.read_only ≡ false) × (r.old ≡ false) → Holds y)
      → Holds (unless settings.read_only r w (when r.old then x else y))
  write-Holds w x y h f g =
      if-Holds (λ _. error-Holds w _ h) (λ ro. if-Holds (λ _. f) (λ old. g (ro, old)))

  version-Holds : (w : W) → (r.ub.cmd == 16) ≡ true → ok w → Holds (version files settings r w)
  unfolding version server_show_version is_positional
  version-Holds w e h =
      if-Holds (λ _. record { state = h; reply = moved-Answers r.ub _ _ _ (ground (arith, e)) })
        (λ _. record { state = h; reply = tt })

  dir_block-Answers : (listing : List ℕ) → Answers r.ub (dir_block files settings r listing)
  unfolding dir_block
  dir_block-Answers listing =
      Answers-if _ (send_error-Answers r.ub _) (server_reply-Answers r.ub _ [])

  get_dir-Holds : (w : W) → (r.ub.cmd == 65) ≡ true → ok w → Holds (get_dir files settings r w)
  unfolding get_dir
  get_dir-Holds w e h = checks-Holds true dir_list w _ h (λ w' p d h'.
      or_failed-Holds _ _ (frame.server_get_dir e w' d h')
        (λ l. record { state = frame.server_get_dir e w' d h'; reply = dir_block-Answers l }))

  send_file-Holds : (w : W) (f : F) → ok w → Holds (send_file files settings r w f)
  unfolding serve_file
  send_file-Holds w f h = record {
    state = frame.fread _ f _ (frame.fseeko w f _ h);
    reply = server_reply-Answers r.ub _ [];
  }

  get_file-Holds : (w : W) → ok w → Holds (get_file files settings r w)
  unfolding get_file
  get_file-Holds w h = checks-Holds false dir_get w _ h (λ w' p d h'.
      let h'' = frame.server_get_file w' p r.inet_num r.port_num d h' in
      or_failed-Holds _ _ h'' (λ f. send_file-Holds _ f h''))

  del_file-Holds : (w : W) → ok w → Holds (del_file files settings r w)
  unfolding del_file
  del_file-Holds w h = write-Holds w _ _ h (empty-Holds w h) (λ can.
      checks-Holds false dir_del w _ h (λ w' p d h'.
        let h'' = frame.server_del_file can w' p d h' in
        or_error-Holds _ _ h'' (empty-Holds _ h'')))

  del_dir-Holds : (w : W) → ok w → Holds (del_dir files settings r w)
  unfolding del_dir
  del_dir-Holds w h = write-Holds w _ _ h (empty-Holds w h) (λ can.
      checks-Holds true dir_del w _ h (λ w' p d h'.
        let h'' = frame.server_del_dir can w' p d h' in or_error-Holds _ _ h'' (empty-Holds _ h'')))

  up_load-Holds : (w : W) → ok w → Holds (up_load files settings r w)
  unfolding up_load
  up_load-Holds w h = write-Holds w _ _ h (empty-Holds w h) (λ can.
      let h'' = frame.server_up_load can w _ _ _ _ h in or_error-Holds _ _ h'' (empty-Holds _ h''))

  install-Holds : (w : W) → ok w → Holds (install files settings r w)
  unfolding install
  install-Holds w h = write-Holds w _ _ h (empty-Holds w h) (λ can.
      with_path-Holds (s1 r) false w _ h (λ w' p d h'.
        let finished : (a : Option (List ℕ))
            → Holds (
                or_error r (files.server_install w' p r.inet_num r.port_num a d (s2 r))
                  (answer_empty files settings r)) =
          λ a.
            let h'' = frame.server_install can w' p r.inet_num r.port_num a d (s2 r) h' in
            or_error-Holds _ _ h'' (empty-Holds _ h'') in
        if-Holds (λ _. with_rights-Holds dir_add w' p d _ h' (λ acc. finished (some acc)))
          (λ _. finished none)))

  send_pro-Holds :
      (acc : List ℕ) (w : W) (d : D)
      → is_positional r.ub.cmd ≡ false
      → ok w
      → Holds (send_pro files settings r acc w d)
  send_pro-Holds acc w d n h = record { state = h; reply = moved-Answers r.ub _ _ _ n }

  make_dir-Holds :
      (w : W) → is_positional r.ub.cmd ≡ false → ok w → Holds (make_dir files settings r w)
  unfolding make_dir
  make_dir-Holds w n h =
      if-Holds (λ _. error-Holds w _ h)
        (λ ro. with_path-Holds (s1 r) false w _ h (λ w' p d h'.
          let reported : (w : W) (d : D)
              → ok w
              → Holds (
                  with_rights files settings r 0 w p d (λ acc. send_pro files settings r acc w d)) =
            λ w d h. with_rights-Holds 0 w p d _ h (λ acc. send_pro-Holds acc w d n h) in
          if-Holds (λ _. reported w' d h')
            (λ old. with_rights-Holds dir_mkdir w' p d _ h' (λ _.
              let h'' = frame.server_make_dir (ro, old) w' p r.inet_num d h' in
              or_failed-Holds _ _ h'' (λ d'. reported _ d' h'')))))

  get_pro-Holds :
      (w : W) → is_positional r.ub.cmd ≡ false → ok w → Holds (get_pro files settings r w)
  unfolding get_pro
  get_pro-Holds w n h =
      with_path-Holds (s1 r) true w _ h
        (λ w' p d h'. with_rights-Holds 0 w' p d _ h' (λ acc. send_pro-Holds acc w' d n h'))

  set_pro-Holds :
      (w : W) → is_positional r.ub.cmd ≡ false → ok w → Holds (set_pro files settings r w)
  unfolding set_pro
  set_pro-Holds w n h =
      if-Holds (λ _. error-Holds w _ h)
        (λ ro. with_path-Holds (s1 r) true w _ h (λ w' p d h'.
          if-Holds (λ _. send_pro-Holds _ w' d n h')
            (λ old. with_rights-Holds dir_owner w' p d _ h' (λ _.
              let h'' = frame.server_set_pro (ro, old) w' d _ _ h' in
              or_error-Holds _ _ h'' (send_pro-Holds _ _ d n h'')))))

  grab_file-Holds : (w : W) → ok w → Holds (grab_file files settings r w)
  unfolding grab_file
  grab_file-Holds w h =
      let sent : (w : W) → ok w → Holds (grab_send files settings r w) = λ w h.
        let h' = frame.server_grab_file w r.inet_num r.port_num h in
        or_failed-Holds _ _ h' (λ f.
          let m = send_file-Holds _ f h' in
          record { state = frame.fclose _ f m.state; reply = m.reply }) in
      if-Holds (λ _. error-Holds w _ h)
        (λ ro. checks-Holds false dir_del w _ h (λ w' p d h'.
          if-Holds
            (λ first.
              let h'' =
                frame.server_secure_file (ground (arith, ro), ground (arith, first)) w' p r.inet_num
                  r.port_num d h' in
              or_error-Holds _ _ h'' (sent _ h''))
            (λ _. sent w' h')))

  grab_done-Holds : (w : W) → ok w → Holds (grab_done files settings r w)
  unfolding grab_done
  grab_done-Holds w h =
      if-Holds (λ _. error-Holds w _ h)
        (λ ro.
          if-Holds (λ _. empty-Holds w h)
            (λ old. checks-Holds false dir_del w _ h (λ w' p d h'.
              let h'' =
                frame.server_grab_done (ground (arith, ro), old) w' r.inet_num r.port_num h' in
              or_error-Holds _ _ h'' (empty-Holds _ h''))))

  stat-Holds : (w : W) → ok w → Holds (stat files settings r w)
  unfolding stat
  stat-Holds w h = record {
    state = frame.server_stat w r.ub h;
    reply = server_reply-Answers r.ub _ [];
  }

  renamed-Holds :
      (w : W) → is_positional r.ub.cmd ≡ false → ok w → Holds (renamed files settings r w)
  renamed-Holds w n h = record { state = h; reply = moved-Answers r.ub _ [] [] n }

  rename_from-Holds :
      (settings.read_only ≡ false) × (r.old ≡ false)
      → (w : W) (p : P) (d : D) → is_positional r.ub.cmd ≡ false
      → ok w
      → Holds (rename_from files settings r w p d)
  unfolding rename_from rename_with rename_to
  rename_from-Holds can w p d n h =
      let to : (b : Bool) (k : Target)
          → Holds (
              with_path files settings r (s2 r) b w
                (λ w q e. rename_to files settings r w k p d q e)) =
        λ b k. with_path-Holds (s2 r) b w _ h (λ w' q e h'.
          let h'' = frame.server_rename can w' p q d e h' in
          if-Holds (λ _. or_error-Holds _ _ h'' (renamed-Holds _ n h''))
            (λ _. error-Holds w' _ h')) in
      let by_kind : (k : Target) → Holds (rename_with files settings r w p d k) = λ k.
        elim k as (λ k. Holds (rename_with files settings r w p d k)) [
          | special ↦ error-Holds w _ h
          | directory ↦ to true directory
          | absent ↦ to false absent
          | regular ↦ to false regular
        ] in
      if-Holds (λ _. error-Holds w _ h) (λ _. by_kind _)

  rename-Holds : (w : W) → is_positional r.ub.cmd ≡ false → ok w → Holds (rename files settings r w)
  unfolding rename
  rename-Holds w n h =
      write-Holds w _ _ h (renamed-Holds w n h) (λ can.
        checks-Holds false dir_rename w _ h (λ w' p d h'. rename_from-Holds can w' p d n h'))

  -- A command whose position the client does not look at.
  no_position :
      (cmd : ℕ)
      → (r.ub.cmd == cmd) ≡ true
      → is_positional cmd ≡ false
      → is_positional r.ub.cmd ≡ false
  no_position cmd e n = rw ((==_iff r.ub.cmd cmd).0 e) n

  pub serve-Holds : (w : W) → ok w → Holds (serve files settings r w)
  unfolding serve is_positional
  serve-Holds w h =
      if-Holds (λ e. version-Holds w e h)
        (λ _.
          if-Holds (λ _. empty-Holds w h)
            (λ _.
              if-Holds (λ e. get_dir-Holds w e h)
                (λ _.
                  if-Holds (λ _. get_file-Holds w h)
                    (λ _.
                      if-Holds (λ _. del_file-Holds w h)
                        (λ _.
                          if-Holds (λ _. del_dir-Holds w h)
                            (λ _.
                              if-Holds (λ _. up_load-Holds w h)
                                (λ _.
                                  if-Holds (λ _. install-Holds w h)
                                    (λ _.
                                      if-Holds (λ e. make_dir-Holds w (no_position 73 e refl) h)
                                        (λ _.
                                          if-Holds (λ e. get_pro-Holds w (no_position 71 e refl) h)
                                            (λ _.
                                              if-Holds
                                                (λ e. set_pro-Holds w (no_position 72 e refl) h)
                                                (λ _.
                                                  if-Holds (λ _. grab_file-Holds w h)
                                                    (λ _.
                                                      if-Holds (λ _. grab_done-Holds w h)
                                                        (λ _.
                                                          if-Holds (λ _. stat-Holds w h)
                                                            (λ _.
                                                            if-Holds
                                                            (λ e.
                                                            rename-Holds w (no_position 78 e refl)
                                                            h)
                                                            (λ _. error-Holds w _ h)))))))))))))))
