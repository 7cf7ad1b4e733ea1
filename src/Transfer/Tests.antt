-- ===== src/Transfer/Tests.antt =====
-- A file of six bytes that is uploaded in pieces of four, and downloaded from its second byte on.
use fsp.Base.{
  ℕ, ◌-◌, ◌≡◌, refl, Bool, true, false, List, [], ◌∷◌, length, min, take, drop, ◌==◌, if◌then◌else◌,
  Option, some, none, codes, arith, inl, inr, Bool-cases,
}
use fsp.Packet.{write2, write4}
use fsp.Dispatch.{Files, Request}
use fsp.Dispatch.Tests.{counted, writable}
use fsp.Rights.{DirInfo, server_get_pro}
use fsp.Transfer.{Temp, util_download_main, upload_loop, may_upload}
use fsp.Transfer.Upload.{may_upload-server_get_pro}
use fsp.Transfer.Download.{Sends, Comes, util_download_main-Comes}
use fsp.Transfer.Received.{at_end, Keeps, receive_piece, upload-received}
use fsp.Transfer.Served.{Reads, ask_file, download-served}

abbrev six : List ℕ
six = codes "abcdef"

-- An older upload that was left open.
abbrev leftover : Temp
leftover = record { contents = some (codes "older upload"); open_at = some 12 }

abbrev installed : Temp → Temp × Bool
installed t = (record { contents = none; open_at = none }, true)

-- The cache drops the stream before the second piece.
abbrev dropped_once : Temp → ℕ → Bool
dropped_once t pos = pos == 4

upload-received_example :
    (t' : Temp) × Keeps t' six
    × (upload_loop 10 4 (receive_piece dropped_once) installed six 0 true leftover
        ≡ some (installed t'))
upload-received_example =
    upload-received dropped_once installed 4 10 six leftover
      (at_end (codes "older upload") refl refl) (omega arith) (omega arith) (omega arith)

-- A server that refuses at position 5, and a disk of five bytes.
abbrev six_slices : ℕ → Option (List ℕ)
six_slices pos = if pos == 5 then none else some (take 4 (drop pos six))

abbrev short_disk : List ℕ → List ℕ → ℕ
short_disk file bytes = min (length bytes) (5 - length file)

six_slices-Sends : Sends six six_slices
six_slices-Sends = record {
  answer = λ pos i. elim (Bool-cases (pos == 5)) [
    | inl e ↦ inl (rw e refl)
    | inr e ↦ inr (4, omega arith, rw e refl)
  ];
}

util_download_main-Comes_example :
    Comes six_slices short_disk six [] 1 (util_download_main 10 six_slices short_disk 1 [])
util_download_main-Comes_example =
    util_download_main-Comes six six_slices short_disk six_slices-Sends (λ f bytes. omega arith)
      (omega arith) 10 1 [] (omega arith) (omega arith)

-- The six bytes as the open file, of which the state is the position.
abbrev with_six : Files ℕ ℕ ℕ ℕ
with_six = record counted {
  fseeko = λ w f pos. (pos, false);
  fread = λ w f n. (w, take n (drop w six));
}

with_six-Reads : Reads with_six 0 six
with_six-Reads = record { seek = λ w pos i. refl; read = λ w pos n i. refl }

abbrev get_six : Request
get_six = record {
  ub = record {
    cmd = 66;
    sum = 0;
    key = write2 7;
    seq = write2 8;
    len = write2 2;
    pos = write4 0;
    body = 97 ∷ 0 ∷ 0 ∷ 4 ∷ [];
  };
  inet_num = 16909060;
  port_num = 5000;
  old = false;
  stale = λ i. 0;
}

download-served_example :
    util_download_main 10 (ask_file with_six writable get_six 0 0) (λ f bytes. length bytes) 1 []
    ≡ (codes "bcdef", some true)
download-served_example =
    download-served with_six writable get_six 0 0 six (λ f bytes. length bytes) 10 1 with_six-Reads
      (λ e. absurd (omega (arith, e))) (omega arith) (omega arith) (λ f bytes. refl) (omega arith)
      (omega arith) (omega arith)

-- A directory where files may be added and not deleted, and the file exists.
abbrev add_only : DirInfo
add_only = record {
  realname = codes "/srv/fsp/in";
  owner = [];
  protection = 68;
  public_password = none;
  owner_password = none;
  readme = none;
  mtime = 0;
  lastcheck = 0;
}

may_upload-server_get_pro_example :
    may_upload (some (server_get_pro add_only (codes "NWelcome")).1) true ≡ false
may_upload-server_get_pro_example =
    may_upload-server_get_pro add_only (codes "NWelcome") true (omega arith) refl
