-- ===== src/Dispatch.antt =====
-- The shared parts of the command handlers of server/server.c: what the server sends, the settings,
-- the file operations that the handlers call, and the two checks that they begin with. A handler
-- returns the files' state and the message that is sent, if one is. Logging is left out.
pub mod Handlers
pub mod Process
pub mod Keeps
pub mod Quiet
pub mod Tests
use fsp.Base.{
  ℕ, ◌+◌, ◌-◌, ◌*◌, Bool, true, false, ◌||◌, List, [], ◌∷◌, ◌++◌, length, get_elem?, take, drop,
  ltb, ◌==◌, if◌then◌else◌, Option, none, some, codes,
}
use fsp.Packet.{Packet, write2, write4, seal_reply, read2, space}
use fsp.Rights.{DirInfo, require_access_rights}
use fsp.IpRange.{head, tail}

-- An error text, or a result.
pub data Answer (A : Type 0) : Type 0 where
  failed : List ℕ → Answer A
  done : A → Answer A

-- What a target path of RENAME stands for: `istargetdir` is -1, 1 or 0, or the path is special.
pub data Target : Type 0 where
  absent directory regular special : Target

-- The settings that the handlers read.
pub record Settings : Type 0 where
  pub version : List ℕ
  pub logging : Bool
  pub read_only : Bool
  pub no_unnamed : Bool
  pub priv_mode : Bool
  pub ver_enabled : Bool
  pub grab_enabled : Bool
  pub permit_passwordless_owners : Bool
  pub maxthcallowed : ℕ
  pub packetsize : ℕ

-- The functions of server/file.c and the calls of the system that the handlers make. `P` is a parsed
-- path, `D` points to a DIRINFO, `F` is a FILE; an `Option` holds the error text of a call that fails.
pub record Files (W P D F : Type 0) : Type 0 where
  pub validate_path : W → List ℕ → Bool → W × Answer (P × D)
  pub passwd : P → Option (List ℕ)
  pub info : W → D → DirInfo
  pub server_get_dir : W → D → W × Answer (List ℕ)
  pub server_get_file : W → P → ℕ → ℕ → D → W × Answer F
  pub fseeko : W → F → ℕ → W × Bool
  pub fread : W → F → ℕ → W × List ℕ
  pub fclose : W → F → W
  pub server_del_file : W → P → D → W × Option (List ℕ)
  pub server_del_dir : W → P → D → W × Option (List ℕ)
  pub server_up_load : W → List ℕ → ℕ → ℕ → ℕ → W × Option (List ℕ)
  pub server_install : W → P → ℕ → ℕ → Option (List ℕ) → D → List ℕ → W × Option (List ℕ)
  pub server_make_dir : W → P → ℕ → D → W × Answer D
  pub server_set_pro : W → D → ℕ → ℕ → W × Option (List ℕ)
  pub server_secure_file : W → P → ℕ → ℕ → D → W × Option (List ℕ)
  pub server_grab_file : W → ℕ → ℕ → W × Answer F
  pub server_grab_done : W → ℕ → ℕ → W × Option (List ℕ)
  pub server_stat : W → Packet → W × List ℕ
  pub target_kind : W → List ℕ → Target
  pub server_rename : W → P → P → D → D → W × Option (List ℕ)

-- A request in the hands of a handler: the message with its new key, the address and port of the
-- client, whether it is a repetition, and the bytes that the buffer holds behind the datagram.
pub record Request : Type 0 where
  pub ub : Packet
  pub inet_num : ℕ
  pub port_num : ℕ
  pub old : Bool
  pub stale : ℕ → ℕ

-- CC_ERR.
abbrev pub cc_err : ℕ
cc_err = 64

-- `server_reply`, where the two data regions are what the caller has put into the buffer.
unfoldable pub server_reply : Packet → List ℕ → List ℕ → Packet
server_reply ub region extra =
    seal_reply (record ub { len = write2 (length region); body = region ++ extra })

unfoldable pub send_error : Packet → List ℕ → Packet
unfolding server_reply
send_error ub msg = server_reply (record ub { cmd = cc_err; pos = write4 0 }) (msg ++ (0 ∷ [])) []

abbrev pub read_only_text : List ℕ
read_only_text = codes "Server is running in read-only mode"

-- s1 with its length l1, and s2 with its length l2.
abbrev pub s1 : Request → List ℕ
s1 r = take (read2 r.ub.len) r.ub.body

abbrev pub s2 : Request → List ℕ
s2 r = drop (read2 r.ub.len) r.ub.body

-- The byte of the buffer at an index.
pub byte_at : Request → ℕ → ℕ
byte_at r i = elim (get_elem? r.ub.body i) [ some c ↦ c | none ↦ r.stale i ]

-- The conditional of a handler, which computes only where it is unfolded.
infix 1 when◌then◌else◌
unfoldable pub when◌then◌else◌ : {A : Type 0} → Bool → A → A → A
when true then x else y = x
when false then x else y = y

-- A call that gives a result, or fails with an error text.
unfoldable pub or_failed :
    {W A : Type 0} → Request → W × Answer A → (W → A → W × Option Packet) → W × Option Packet
or_failed r (w, failed e) k = (w, some (send_error r.ub e))
or_failed r (w, done a) k = k w a

-- A call that gives nothing but an error text.
unfoldable pub or_error :
    {W : Type 0} → Request → W × Option (List ℕ) → (W → W × Option Packet) → W × Option Packet
or_error r (w, some e) k = (w, some (send_error r.ub e))
or_error r (w, none) k = k w

-- The refusal in read-only mode.
abbrev pub unless : {W : Type 0} → Bool → Request → W → W × Option Packet → W × Option Packet
unless refuse r w go = when refuse then (w, some (send_error r.ub read_only_text)) else go

module _ {W P D F : Type 0} (files : Files W P D F) (settings : Settings) where
  -- The call of `validate_path` with the return on an error; `k` is the rest of the handler.
  unfoldable pub with_path :
      Request → List ℕ → Bool → W → (W → P → D → W × Option Packet) → W × Option Packet
  with_path r path want_directory w k =
      or_failed r (files.validate_path w path want_directory) (λ w' pd. k w' pd.0 pd.1)

  -- CHECK_ACCESS_RIGHTS; `k` gets the answer.
  unfoldable pub with_rights :
      Request → ℕ → W → P → D → (List ℕ → W × Option Packet) → W × Option Packet
  with_rights r right w p d k =
      let pe =
        require_access_rights settings.permit_passwordless_owners (files.info w d) right r.inet_num
          (files.passwd p) in
      when head pe == b'I'
      then (w, none)
      else when head pe == b'D'
      then (w, some (send_error r.ub (tail pe)))
      else k pe

  -- `serve_file`. The field `lp` is s2, which counts if it has two bytes. The file offsets have 64 bits.
  abbrev pub wanted : List ℕ → ℕ
  wanted (hi ∷ lo ∷ []) =
      let len = hi * 256 + lo in
      if ltb settings.packetsize len then settings.packetsize else if len == 0 then space else len
  wanted _ = if ltb space settings.packetsize then space else settings.packetsize

  unfoldable pub serve_file : Request → ℕ → W → F → W × Packet
  serve_file r pos w fp =
      let (w', fails) = files.fseeko w fp pos in
      let (w'', region) = files.fread w' fp (if fails then 0 else wanted (s2 r)) in
      (w'', server_reply r.ub region [])
