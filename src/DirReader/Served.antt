-- ===== src/DirReader/Served.antt =====
-- The reader against the server: `get_dir_blk` asks, and CC_GET_DIR of server/server.c answers from what
-- `build_dir_listing` has made.
use fsp.Base.{
  ℕ, ◌-◌, ◌%◌, ◌^◌, ◌≤◌, ◌<◌, ◌≡◌, ◌≢◌, refl, sym, ◌∙◌, ap, subst, inl, inr, false, not, ◌&&◌, List,
  [], append-nil, length, length-take, length-drop, take, drop, take-all, drop-all, leb, ltb, ◌==◌,
  if◌then◌else◌, Option, some, arith, Bool-cases,
}
use native.Mathlib.Nat.{mul-mod_left}
use mathlib.Core.Option.{some-injective}
use fsp.Packet.{Packet, read2, read4, write2, write4, space, seal_reply}
use fsp.Packet.Fields.{read-write}
use fsp.Dispatch.{Settings, Files, Request, server_reply}
use fsp.Dispatch.Handlers.{dir_block}
use fsp.Listing.{Dirent, dir_block_size, build_dir_listing}
use fsp.Listing.Layout.{Listing}
use fsp.Listing.Build.{shown, AreNames, build_dir_listing-Listing}
use fsp.DirReader.{finished, reply_bytes, get_dir_blk}
use fsp.DirReader.Entries.{to_rdirents}
use fsp.DirReader.Refill.{Serves, AtStep}
use fsp.DirReader.Whole.{get_dir_blk-Listing}

pub reply_bytes-reply :
    (ub : Packet) (region : List ℕ)
    → ub.cmd ≢ 64
    → length region < 2 ^ 16
    → reply_bytes (server_reply ub region []) ≡ some region
unfolding reply_bytes server_reply seal_reply
reply_bytes-reply ub region h k =
    let l : read2 (write2 (length region)) ≡ length region =
      (read-write (length region) 0 k (omega arith)).0 in
    let other : (ub.cmd == 64) ≡ false = ground (arith, h) in
    rw (other, l, append-nil region) (ap some (take-all (length region) region (omega arith)))

-- The number of bytes that CC_GET_DIR sends.
abbrev sent : ℕ → ℕ → List ℕ → ℕ
sent size at listing =
    if leb (length listing) at
    then 0
    else if ltb size (length listing - at)
    then size
    else length listing - at

take-sent :
    (size at : ℕ) (listing : List ℕ)
    → take (sent size at listing) (drop at listing) ≡ take size (drop at listing)
take-sent size at listing = elim (Bool-cases (leb (length listing) at)) [
  | inl end ↦
      let none_left : drop at listing ≡ [] = drop-all at listing (ground (arith, end)) in
      rw end
        (sym (take-all size (drop at listing) (omega (arith, ap length none_left)) ∙ none_left))
  | inr more ↦ elim (Bool-cases (ltb size (length listing - at))) [
    | inl whole ↦ rw (more, whole) refl
    | inr few ↦
        let left = length-drop at listing in
        rw (more, few)
          (take-all (length listing - at) (drop at listing) (omega (arith, left))
            ∙ sym (take-all size (drop at listing) (ground (arith, left, few))))
  ]
]

sent-aligned :
    (size at : ℕ) (listing : List ℕ)
    → AtStep size listing at
    → (ltb 0 (sent size at listing) && not (at % size == 0)) ≡ false
sent-aligned size at listing (inl (k, e)) =
    let z : at % size ≡ 0 = ap (λ (n : ℕ). n % size) e ∙ mul-mod_left k size in ground (arith, z)
sent-aligned size at listing (inr e) = ground (arith, e)

module _ {W P D F : Type 0} (files : Files W P D F) (settings : Settings) (listing : List ℕ) where
  dir_block-sent :
      (r : Request) (at : ℕ)
      → read4 r.ub.pos ≡ at
      → AtStep (dir_block_size settings.packetsize) listing at
      → dir_block files settings r listing
        ≡ server_reply r.ub (take (dir_block_size settings.packetsize) (drop at listing)) []
  unfolding dir_block
  dir_block-sent r at e step =
      let size = dir_block_size settings.packetsize in
      subst
        (λ (n : ℕ).
          AtStep size listing n
          → dir_block files settings r listing ≡ server_reply r.ub (take size (drop n listing)) [])
        e
        (λ step'.
          rw (sent-aligned size (read4 r.ub.pos) listing step', dir_block)
            (ap (λ (l : List ℕ). server_reply r.ub l []) (take-sent size (read4 r.ub.pos) listing)))
        step

module _ {W P D F : Type 0} (files : Files W P D F) (settings : Settings) (r : Request)
    (listing : List ℕ) where
  -- What the server answers when the client asks at a position.
  pub ask_server : ℕ → Option (List ℕ)
  unfolding dir_block reply_bytes
  ask_server at =
      reply_bytes
        (dir_block files settings (record r { ub = record r.ub { pos = write4 at } }) listing)

  pub ask_server-Serves :
      r.ub.cmd ≢ 64
      → length listing < 2 ^ 32
      → Serves (dir_block_size settings.packetsize) listing ask_server
  unfolding ask_server
  ask_server-Serves h k = record {
    answer = λ at inside step.
        let size = dir_block_size settings.packetsize in
        let ub : Packet = record r.ub { pos = write4 at } in
        let e : read4 ub.pos ≡ at = (read-write 0 at (omega arith) (omega (arith, inside, k))).1 in
        ap reply_bytes (dir_block-sent files settings listing (record r { ub = ub }) at e step)
        ∙ reply_bytes-reply ub (take size (drop at listing)) h
            (ground (arith, length-take size (drop at listing)));
  }

-- A client that reads a directory whose blocks are a multiple of 4 bytes, and the names of which fit a
-- block, ends with the entries that the server does not pass over, in their order. `listing` is what
-- the server has built, and has less than 2^32 bytes.
pub get_dir_blk-served :
    {W P D F : Type 0} (files : Files W P D F) (settings : Settings) (r : Request) (stack : List ℕ)
    (dps : List Dirent) (listing : List ℕ) (fuel : ℕ)
    → r.ub.cmd ≢ 64
    → length stack ≡ space
    → 64 ≤ settings.packetsize
    → dir_block_size settings.packetsize % 4 ≡ 0
    → AreNames (dir_block_size settings.packetsize) dps
    → build_dir_listing stack settings.packetsize dps ≡ some listing
    → length listing < 2 ^ 32
    → length listing ≤ fuel
    → get_dir_blk fuel (ask_server files settings r listing) ≡ finished (to_rdirents (shown dps))
get_dir_blk-served files settings r stack dps listing fuel h hs big multiple names built small
      enough =
    let size = dir_block_size settings.packetsize in
    let (l, q, v) = build_dir_listing-Listing stack settings.packetsize dps hs big multiple names in
    let same : l ≡ listing = some-injective l listing (sym q ∙ built) in
    get_dir_blk-Listing size listing (shown dps) (ask_server files settings r listing) fuel
      (ground arith) (subst (λ (x : List ℕ). Listing size x (shown dps)) same v)
      (ask_server-Serves files settings r listing h small) enough
