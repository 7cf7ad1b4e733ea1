-- ===== src/Transfer/Served.antt =====
-- A download from the server: `util_download_main` asks, and `serve_file` of server/server.c answers.
use fsp.Base.{
  ℕ, ◌+◌, ◌≤◌, ◌<◌, ◌≡◌, ◌≢◌, sym, ◌∙◌, ap, inr, true, false, List, [], ◌∷◌, length, length-take,
  take, drop, Option, some, arith,
}
use mathlib.Core.Option.{some-ne-none}
use fsp.Packet.{Packet, write4}
use fsp.Dispatch.{Settings, Files, Request, serve_file, server_reply, wanted, s2}
use fsp.DirReader.{reply_bytes}
use fsp.DirReader.Served.{reply_bytes-reply}
use fsp.Transfer.{util_download_main, fourgigs}
use fsp.Transfer.Download.{Sends, Comes-whole, util_download_main-Comes}

-- An open file: a seek within it goes well, and a read gives the bytes behind that position.
pub record Reads {W P D F : Type 0} (files : Files W P D F) (fp : F) (file : List ℕ) : Type 0 where
  pub seek : (w : W) (pos : ℕ) → pos ≤ length file → (files.fseeko w fp pos).1 ≡ false
  pub read :
      (w : W) (pos n : ℕ)
      → pos ≤ length file
      → (files.fread (files.fseeko w fp pos).0 fp n).1 ≡ take n (drop pos file)

module _ {W P D F : Type 0} (files : Files W P D F) (settings : Settings) (r : Request) (w : W)
    (fp : F) where
  serve_file-region :
      (r : Request) (pos : ℕ) (file : List ℕ)
      → Reads files fp file
      → pos ≤ length file
      → (serve_file files settings r pos w fp).1
        ≡ server_reply r.ub (take (wanted files settings (s2 r)) (drop pos file)) []
  unfolding serve_file
  serve_file-region r pos file v inside =
      let n = wanted files settings (s2 r) in
      simp (serve_file, v.seek w pos inside)
        (ap (λ (l : List ℕ). server_reply r.ub l []) (v.read w pos n inside))

  -- What the server answers when the client asks at a position.
  pub ask_file : ℕ → Option (List ℕ)
  unfolding reply_bytes
  ask_file pos =
      reply_bytes
        (serve_file files settings (record r { ub = record r.ub { pos = write4 pos } }) pos w fp).1

  wanted-range :
      (text : List ℕ)
      → 1 ≤ settings.packetsize
      → settings.packetsize ≤ 4380
      → (1 ≤ wanted files settings text) × (wanted files settings text ≤ 4380)
  wanted-range [] a b = ground (arith, a, b)
  wanted-range (x ∷ []) a b = ground (arith, a, b)
  wanted-range (x ∷ y ∷ []) a b = ground (arith, a, b)
  wanted-range (x ∷ y ∷ z ∷ rest) a b = ground (arith, a, b)

  ask_file-slice :
      (file : List ℕ) (pos : ℕ)
      → Reads files fp file
      → r.ub.cmd ≢ 64
      → 1 ≤ settings.packetsize
      → settings.packetsize ≤ 4380
      → pos ≤ length file
      → (n : ℕ) × (1 ≤ n) × (ask_file pos ≡ some (take n (drop pos file)))
  unfolding ask_file
  ask_file-slice file pos v h a b inside =
      let n = wanted files settings (s2 r) in
      let (lo, hi) = wanted-range (s2 r) a b in
      let ub : Packet = record r.ub { pos = write4 pos } in
      let region = take n (drop pos file) in
      (
        n,
        lo,
        ap reply_bytes (serve_file-region (record r { ub = ub }) pos file v inside)
            ∙ reply_bytes-reply ub region h (omega (arith, length-take n (drop pos file), hi)),
      )

-- Of a file of no more than 4 GiB that the server has open, a download from a position to a disk with
-- room enough ends with success, and the local file holds all the bytes from there on.
pub download-served :
    {W P D F : Type 0} (files : Files W P D F) (settings : Settings) (r : Request) (w : W) (fp : F)
    (file : List ℕ) (fwrite : List ℕ → List ℕ → ℕ) (fuel pos : ℕ)
    → Reads files fp file
    → r.ub.cmd ≢ 64
    → 1 ≤ settings.packetsize
    → settings.packetsize ≤ 4380
    → ((f bytes : List ℕ) → fwrite f bytes ≡ length bytes)
    → length file ≤ fourgigs
    → pos ≤ length file
    → length file < pos + fuel
    → util_download_main fuel (ask_file files settings r w fp) fwrite pos []
      ≡ (drop pos file, some true)
download-served files settings r w fp file fwrite fuel pos v h a b room small inside k =
    let ask = ask_file files settings r w fp in
    let slice =
      λ (at : ℕ) (i : at ≤ length file). ask_file-slice files settings r w fp file at v h a b i in
    let sends : Sends file ask = record { answer = λ at i. inr (slice at i) } in
    Comes-whole ask fwrite file [] pos (util_download_main fuel ask fwrite pos [])
      (λ at i q.
        let (n, some_bytes, e) = slice at i in some-ne-none (take n (drop at file)) (sym e ∙ q))
      room
      (util_download_main-Comes file ask fwrite sends (λ f bytes. omega (arith, room f bytes)) small
        fuel pos [] inside k)
