-- ===== src/Dispatch/Process.antt =====
-- The rest of `server_process_packet`: RENAME, the switch over the commands, and the keys.
use fsp.Base.{
  ℕ, ◌+◌, ◌-◌, Bool, true, false, not, ◌||◌, [], length, ltb, ◌==◌, if◌then◌else◌, Option, some,
  codes,
}
use fsp.Packet.{Packet, read2, write2, write4}
use fsp.Hosts.{Host}
use fsp.Session.{draw_key, leave}
use fsp.Rights.{dir_del, dir_rename, require_access_rights}
use fsp.IpRange.{head}
use fsp.Dispatch.{
  Target, directory, regular, special, Settings, Files, Request, server_reply, send_error, s1, s2,
  byte_at, with_path, with_rights, or_error, unless, when◌then◌else◌,
}
use fsp.Dispatch.Handlers.{
  version, get_dir, get_file, del_file, del_dir, up_load, install, make_dir, get_pro, set_pro,
  grab_file, grab_done, stat, answer_empty,
}

module _ {W P D F : Type 0} (files : Files W P D F) (settings : Settings) (r : Request) where
  -- The reply of RENAME, with the position cleared.
  abbrev pub renamed : W → W × Option Packet
  renamed w = (w, some (server_reply (record r.ub { pos = write4 0 }) [] []))

  -- Overwriting a file needs the right to delete in the target's directory.
  unfoldable pub may_overwrite : W → P → D → Target → Bool
  may_overwrite w p d regular =
      let pe =
        require_access_rights settings.permit_passwordless_owners (files.info w d) dir_del
          r.inet_num (files.passwd p) in
      head pe == b'N' || head pe == b'O'
  may_overwrite w p d _ = true

  -- From the validated target on.
  unfoldable pub rename_to : W → Target → P → D → P → D → W × Option Packet
  unfolding may_overwrite
  rename_to w kind srcpath srcdir p d =
      when may_overwrite w p d kind
      then or_error r (files.server_rename w srcpath p srcdir d) renamed
      else (w, some (send_error r.ub (codes "No permission for overwriting files")))

  -- The validation of the target, by its kind.
  unfoldable pub rename_with : W → P → D → Target → W × Option Packet
  unfolding rename_to
  rename_with w srcpath srcdir special =
      (w, some (send_error r.ub (codes "Refusing to operate on special files")))
  rename_with w srcpath srcdir directory =
      with_path files settings r (s2 r) true w (λ w p d. rename_to w directory srcpath srcdir p d)
  rename_with w srcpath srcdir kind =
      with_path files settings r (s2 r) false w (λ w p d. rename_to w kind srcpath srcdir p d)

  -- The target: it must end in a zero byte, and is no special file.
  unfoldable pub rename_from : W → P → D → W × Option Packet
  unfolding rename_with
  rename_from w srcpath srcdir =
      let l1 = read2 r.ub.len in
      let kind = files.target_kind w (s2 r) in
      when not (byte_at r (l1 + length (s2 r) - 1) == 0)
      then (w, some (send_error r.ub (codes "Target path is not zero terminated")))
      else rename_with w srcpath srcdir kind

  -- CC_RENAME.
  unfoldable pub rename : W → W × Option Packet
  unfolding rename_from
  rename w = unless settings.read_only r w (
      when r.old
      then renamed w
      else with_path files settings r (s1 r) false w
          (λ w p d. with_rights files settings r dir_rename w p d (λ _. rename_from w p d)))

  abbrev unknown : W → W × Option Packet
  unknown w = (
    w,
    some (
        send_error r.ub (
          if ltb 128 r.ub.cmd
          then codes
              "Unsupported command - this server only supports version 2.8.1 or below of the FSP protocol"
          else codes "Unknown FSP command")),
  )

  -- The switch. CC_BYE sends an empty reply.
  unfoldable pub serve : W → W × Option Packet
  serve w =
      let cmd = r.ub.cmd in
      when cmd == 16
      then version files settings r w
      else when cmd == 74
      then answer_empty files settings r w
      else when cmd == 65
      then get_dir files settings r w
      else when cmd == 66
      then get_file files settings r w
      else when cmd == 69
      then del_file files settings r w
      else when cmd == 70
      then del_dir files settings r w
      else when cmd == 67
      then up_load files settings r w
      else when cmd == 68
      then install files settings r w
      else when cmd == 73
      then make_dir files settings r w
      else when cmd == 71
      then get_pro files settings r w
      else when cmd == 72
      then set_pro files settings r w
      else when cmd == 75
      then grab_file files settings r w
      else when cmd == 76
      then grab_done files settings r w
      else when cmd == 77
      then stat files settings r w
      else when cmd == 78
      then rename w
      else unknown w

-- What the handlers know of a datagram besides its message.
pub record From : Type 0 where
  pub port_num : ℕ
  pub random : ℕ
  pub stale : ℕ → ℕ

-- `server_process_packet`: the keys, the command, and the end of the session on CC_BYE.
unfoldable pub server_process_packet :
    {W P D F : Type 0}
    → Files W P D F
    → Settings
    → From
    → Bool
    → Packet
    → Host
    → W
    → (W × Option Packet) × Host
server_process_packet files settings from old ub h w =
    let h' = draw_key old from.random h in
    let r : Request = record {
      ub = record ub { key = write2 h'.next_key };
      inet_num = h.inet_num;
      port_num = from.port_num;
      old = old;
      stale = from.stale;
    } in
    (serve files settings r w, leave (ub.cmd == 74) h')
