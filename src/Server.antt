-- ===== src/Server.antt =====
-- `server_loop` of server/server.c: what it does with one datagram. The state is the client table and
-- the state of the files. The loop itself, `select` and the dump on a signal are left out.
pub mod Admit
mod Tests
use fsp.Base.{
  ℕ, ◌+◌, Bool, true, false, ◌&&◌, List, [], ◌∷◌, set, get_elem?, ◌==◌, if◌then◌else◌, Option, none,
  some, codes,
}
use fsp.Packet.{Packet, read2, receive, request_passes}
use fsp.Hosts.{Host, Htab, Env, Found, entry, no_memory, find_host}
use fsp.IpRange.{IpRange, check_ip_table, head, tail}
use fsp.Session.{Timeouts, Verdict, ignored, passes, key_check, enter}
use fsp.Dispatch.{Settings, Files, send_error}
use fsp.Dispatch.Process.{From, server_process_packet}

pub record State (W : Type 0) : Type 0 where
  pub htab : Htab
  pub files : W

-- A datagram as `recvfrom` gives it, with the time of its arrival.
pub record Datagram : Type 0 where
  pub s_addr : ℕ
  pub from : From
  pub cur_time : ℕ
  pub raw : List ℕ

pub record Config (W P D F : Type 0) : Type 0 where
  pub calls : Files W P D F
  pub settings : Settings
  pub env : Env
  pub timeouts : Timeouts
  pub iptab : List IpRange

-- What becomes of the server: it waits for the next datagram, having sent a message or none; it exits;
-- or it has read out of range.
pub data Outcome (W : Type 0) : Type 0 where
  waits : State W → Option Packet → Outcome W
  exits : Outcome W
  fault : Outcome W

-- What the `switch (*ir)` does with the sender.
pub data Gate : Type 0 where
  admits ignores illegal : Gate
  refuses : List ℕ → Gate

abbrev pub cc_bye : ℕ
cc_bye = 74

-- The table's answer for a host, where one that is not in the table is taken for D or for N.
pub host_type : Bool → List IpRange → ℕ → List ℕ
host_type priv_mode iptab s_addr = elim (check_ip_table s_addr iptab) [
  | some ir ↦ ir
  | none ↦ if priv_mode then codes "DFSP service not available" else codes "N"
]

pub gate : List ℕ → ℕ → Gate
gate ir cmd =
    if head ir == b'D'
    then (if cmd == cc_bye then admits else refuses (tail ir))
    else if head ir == b'I'
    then ignores
    else if head ir == b'N'
    then admits
    else illegal

-- REVERSE_ERR_MSG.
abbrev pub reverse_err_msg : List ℕ
reverse_err_msg =
    codes
      "Permission denied -- can't identify host.\n  Sorry, we can't reverse name you.  If you know that your site normally\n  can be, try again in a few minutes when the local maps may have been\n  updated.  Otherwise, this service is unavailable to you; check\n  with your local admins for as to why this is the case.\n"

abbrev pub nameless : Host → Bool
nameless h = elim h.hostname [ none ↦ true | some name ↦ false ]

abbrev pub put_host : Htab → ℕ → Host → Htab
put_host t i h = record t { cells = set t.cells i h }

module _ {W P D F : Type 0} (config : Config W P D F) (d : Datagram) where
  -- From the checksum on.
  pub checked : Bool → Packet → Htab → ℕ → Host → W → Outcome W
  checked old p t i h w =
      let ((w', m), h') =
        server_process_packet config.calls config.settings d.from old (record p { sum = 0 }) h w in
      if request_passes p
      then waits (record { htab = put_host t i h'; files = w' }) m
      else waits (record { htab = put_host t i h; files = w }) none

  -- From the look-up of the client on.
  pub known : Packet → Htab → ℕ → Host → W → Outcome W
  unfolding checked
  known p t i h w =
      let (h', v) = key_check config.timeouts d.cur_time (read2 p.key) h in
      let go : Outcome W = elim v [
        | ignored ↦ waits (record { htab = put_host t i h'; files = w }) none
        | passes old ↦ checked old p t i (enter d.cur_time h') w
      ] in
      if nameless h && config.settings.no_unnamed
      then waits (record { htab = t; files = w }) (some (send_error p reverse_err_msg))
      else go

  pub found : Packet → Found → W → Outcome W
  unfolding known
  found p (entry t i) w = elim (get_elem? t.cells i) [ none ↦ fault | some h ↦ known p t i h w ]
  found p no_memory w = exits
  found p Found.fault w = fault

  -- One datagram.
  unfoldable pub serve_datagram : State W → Outcome W
  unfolding found
  serve_datagram s = elim (receive d.raw) [
    | none ↦ waits s none
    | some p ↦ elim (gate (host_type config.settings.priv_mode config.iptab d.s_addr) p.cmd) [
      | admits ↦ found p (find_host config.env s.htab d.s_addr) s.files
      | ignores ↦ waits s none
      | illegal ↦ exits
      | refuses text ↦ waits s (some (send_error p text))
    ]
  ]
