-- ===== src/Dispatch/Handlers.antt =====
-- The commands of `server_process_packet`, one function for each case of its switch. Each returns the
-- files' state and the message that is sent.
use fsp.Base.{
  ℕ, ◌+◌, ◌-◌, ◌%◌, true, false, not, ◌||◌, ◌&&◌, List, [], ◌∷◌, ◌++◌, length, take, drop, leb, ltb,
  ◌==◌, if◌then◌else◌, Option, none, some, codes,
}
use fsp.Packet.{Packet, read2, read4, write2, write4, space}
use fsp.Rights.{dir_owner, dir_del, dir_add, dir_mkdir, dir_get, dir_list, server_get_pro}
use fsp.Dispatch.{
  Settings, Files, Request, server_reply, send_error, s1, s2, byte_at, with_path, with_rights,
  or_failed, or_error, unless, when◌then◌else◌, serve_file,
}

-- The flags VER_LOG to VER_XTRADATA.
abbrev pub verflags : Settings → ℕ
verflags s =
    (if s.logging then 1 else 0)
    + (if s.read_only then 2 else 0)
    + (if s.no_unnamed then 4 else 0)
    + (if s.priv_mode then 8 else 0)
    + (if s.maxthcallowed == 0 then 0 else 16)
    + 32

abbrev pub quad_bytes : ℕ → List ℕ
quad_bytes a = let q = write4 a in q.b3 ∷ q.b2 ∷ q.b1 ∷ q.b0 ∷ []

abbrev pub pair_bytes : ℕ → List ℕ
pair_bytes a = let p = write2 a in p.hi ∷ p.lo ∷ []

-- `server_show_version`.
unfoldable pub server_show_version : Settings → Packet → Packet
server_show_version s ub =
    let thruput = if s.maxthcallowed == 0 then [] else quad_bytes s.maxthcallowed in
    let extra = (verflags s ∷ thruput) ++ pair_bytes s.packetsize in
    server_reply (record ub { pos = write4 (length extra) })
      ((codes "fspd " ++ s.version) ++ (0 ∷ [])) extra

module _ {W P D F : Type 0} (files : Files W P D F) (settings : Settings) (r : Request) where
  abbrev pub pos : ℕ
  pos = read4 r.ub.pos

  abbrev pub answer_empty : W → W × Option Packet
  answer_empty w = (w, some (server_reply r.ub [] []))

  -- CC_VERSION.
  unfoldable pub version : W → W × Option Packet
  version w =
      when settings.ver_enabled then (w, some (server_show_version settings r.ub)) else (w, none)

  -- The block of a directory listing at a position, or an error.
  unfoldable pub dir_block : List ℕ → Packet
  dir_block listing =
      let l2 = if ltb space settings.packetsize then space else settings.packetsize in
      let left = length listing - pos in
      let l1 = if leb (length listing) pos then 0 else if ltb l2 left then l2 else left in
      if ltb 0 l1 && not (pos % l2 == 0)
      then send_error r.ub (codes "Invalid directory seek offset")
      else server_reply r.ub (take l1 (drop pos listing)) []

  -- CC_GET_DIR.
  unfoldable pub get_dir : W → W × Option Packet
  get_dir w = with_path files settings r (s1 r) true w (λ w p d.
      with_rights files settings r dir_list w p d (λ _.
        or_failed r (files.server_get_dir w d) (λ w' listing. (w', some (dir_block listing)))))

  abbrev pub send_file : W → F → W × Option Packet
  send_file w fp = let (w', m) = serve_file files settings r pos w fp in (w', some m)

  -- CC_GET_FILE.
  unfoldable pub get_file : W → W × Option Packet
  get_file w = with_path files settings r (s1 r) false w (λ w p d.
      with_rights files settings r dir_get w p d
        (λ _. or_failed r (files.server_get_file w p r.inet_num r.port_num d) send_file))

  -- CC_DEL_FILE and CC_DEL_DIR.
  unfoldable pub del_file : W → W × Option Packet
  del_file w = unless settings.read_only r w (
      when r.old
      then answer_empty w
      else with_path files settings r (s1 r) false w (λ w p d.
        with_rights files settings r dir_del w p d
          (λ _. or_error r (files.server_del_file w p d) answer_empty)))

  unfoldable pub del_dir : W → W × Option Packet
  del_dir w = unless settings.read_only r w (
      when r.old
      then answer_empty w
      else with_path files settings r (s1 r) true w (λ w p d.
        with_rights files settings r dir_del w p d
          (λ _. or_error r (files.server_del_dir w p d) answer_empty)))

  -- CC_UP_LOAD.
  unfoldable pub up_load : W → W × Option Packet
  up_load w = unless settings.read_only r w (
      when r.old
      then answer_empty w
      else or_error r (files.server_up_load w (s1 r) pos r.inet_num r.port_num) answer_empty)

  -- CC_INSTALL. No right is asked for where the path is only its terminator.
  unfoldable pub install : W → W × Option Packet
  install w =
      let finish : W → P → D → Option (List ℕ) → W × Option Packet = λ w p d acc.
        or_error r (files.server_install w p r.inet_num r.port_num acc d (s2 r)) answer_empty in
      unless settings.read_only r w (
        when r.old
        then answer_empty w
        else with_path files settings r (s1 r) false w (λ w p d.
          when ltb 1 (read2 r.ub.len)
          then with_rights files settings r dir_add w p d (λ acc. finish w p d (some acc))
          else finish w p d none))

  -- The protection of a directory, at the end of three commands; PRO_BYTES is 1.
  abbrev pub send_pro : List ℕ → W → D → W × Option Packet
  send_pro acc w d =
      let (region, pro) = server_get_pro (files.info w d) acc in
      (w, some (server_reply (record r.ub { pos = write4 1 }) region (pro ∷ [])))

  -- CC_MAKE_DIR.
  unfoldable pub make_dir : W → W × Option Packet
  make_dir w =
      let report : P → W → D → W × Option Packet =
        λ p w d. with_rights files settings r 0 w p d (λ acc. send_pro acc w d) in
      unless settings.read_only r w (
        with_path files settings r (s1 r) false w (λ w p d.
          when r.old
          then report p w d
          else with_rights files settings r dir_mkdir w p d
              (λ _. or_failed r (files.server_make_dir w p r.inet_num d) (report p))))

  -- CC_GET_PRO.
  unfoldable pub get_pro : W → W × Option Packet
  get_pro w =
      with_path files settings r (s1 r) true w
        (λ w p d. with_rights files settings r 0 w p d (λ acc. send_pro acc w d))

  -- CC_SET_PRO, which reads the first two bytes of s2 even if none were sent.
  unfoldable pub set_pro : W → W × Option Packet
  set_pro w =
      let l1 = read2 r.ub.len in
      unless settings.read_only r w (
        with_path files settings r (s1 r) true w (λ w p d.
          when r.old
          then send_pro (codes "O") w d
          else with_rights files settings r dir_owner w p d (λ _.
            or_error r (files.server_set_pro w d (byte_at r l1) (byte_at r (l1 + 1)))
              (λ w'. send_pro (codes "O") w' d))))

  -- The end of CC_GRAB_FILE, from `server_grab_file` on.
  abbrev pub grab_send : W → W × Option Packet
  grab_send w =
      or_failed r (files.server_grab_file w r.inet_num r.port_num)
        (λ w' fp. let (w'', m) = send_file w' fp in (files.fclose w'' fp, m))

  -- CC_GRAB_FILE.
  unfoldable pub grab_file : W → W × Option Packet
  grab_file w = unless (settings.read_only || not settings.grab_enabled) r w (
      with_path files settings r (s1 r) false w (λ w p d.
        with_rights files settings r dir_del w p d (λ _.
          when not r.old && pos == 0
          then or_error r (files.server_secure_file w p r.inet_num r.port_num d) grab_send
          else grab_send w)))

  -- CC_GRAB_DONE.
  unfoldable pub grab_done : W → W × Option Packet
  grab_done w = unless (settings.read_only || not settings.grab_enabled) r w (
      when r.old
      then answer_empty w
      else with_path files settings r (s1 r) false w (λ w p d.
        with_rights files settings r dir_del w p d
          (λ _. or_error r (files.server_grab_done w r.inet_num r.port_num) answer_empty)))

  -- CC_STAT. `server_stat` leaves nine bytes in the buffer.
  unfoldable pub stat : W → W × Option Packet
  stat w = let (w', region) = files.server_stat w r.ub in (w', some (server_reply r.ub region []))
