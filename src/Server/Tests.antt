-- ===== src/Server/Tests.antt =====
-- Datagrams of a client that the table knows, and of one that it ignores.
use fsp.Base.{ℕ, ◌≡◌, ◌⊎◌, true, false, [], ◌∷◌, get_elem?, none, some}
use fsp.Packet.{Packet}
use fsp.Hosts.{Host, Htab, Env, entry, find_host, hzero}
use fsp.IpRange.{IpRange, any}
use fsp.Dispatch.Tests.{counted, writable, sender}
use fsp.Server.{State, Datagram, Config, serve_datagram}
use fsp.Server.Admit.{Accepted, Untouched, serve_datagram_guarded}

abbrev everyone : ℕ → IpRange
everyone type = record { spans = any ∷ any ∷ any ∷ any ∷ []; text = type ∷ [] }

abbrev env : Env
env = record { find_hostname = λ n. none; grow = none; no_unnamed = false }

abbrev open_to : ℕ → Config ℕ ℕ ℕ ℕ
open_to type = record {
  calls = counted;
  settings = writable;
  env = env;
  timeouts = record { retry = 3; session = 60 };
  iptab = everyone type ∷ [];
}

abbrev known_client : State ℕ
known_client = record {
  htab = record {
    cells =
        hzero
        ∷ record hzero { inet_num = 7; active = true; next_key = 7 }
        ∷ record hzero { inet_num = 4294967295 }
        ∷ [];
    hcnt = 3;
  };
  files = 5;
}

-- "DELFILE a" with the key 7.
abbrev delete_a : Datagram
delete_a = record {
  s_addr = 7;
  from = sender;
  cur_time = 100;
  raw = 69 ∷ 192 ∷ 0 ∷ 7 ∷ 0 ∷ 3 ∷ 0 ∷ 2 ∷ 0 ∷ 0 ∷ 0 ∷ 0 ∷ 97 ∷ 0 ∷ [];
}

serve_datagram_guarded_example :
    Untouched (open_to b'N') delete_a 5 (serve_datagram (open_to b'N') delete_a known_client)
    ⊎ ((p : Packet) × (t : Htab) × (i : ℕ) × (h : Host) × (find_host env known_client.htab 7
          ≡ entry t i)
        × (get_elem? t.cells i ≡ some h)
        × Accepted (open_to b'N') delete_a p h)
serve_datagram_guarded_example = serve_datagram_guarded (open_to b'N') delete_a known_client
