-- ===== src/Dispatch/Tests.antt =====
-- Files of which the state counts the writes, and a request to delete one of them.
use fsp.Base.{ℕ, suc, ◌≡◌, refl, Bool, true, false, [], ◌∷◌, none, some, codes}
use fsp.Packet.{Packet, read2, read4, write2, write4}
use fsp.Hosts.{Host, hzero}
use fsp.Session.{draw_key, leave}
use fsp.Rights.{DirInfo, require_access_rights, public_access, meets}
use fsp.IpRange.{check_ip_table}
use fsp.Dispatch.{
  done, absent, Settings, Files, with_path, with_rights, or_failed, or_error, when◌then◌else◌,
  server_reply,
}
use fsp.Dispatch.Handlers.{del_file}
use fsp.Dispatch.Process.{From, serve, server_process_packet}
use fsp.Dispatch.Quiet.{process_header}

abbrev open_directory : DirInfo
open_directory = record {
  realname = codes "/srv/fsp";
  owner = [];
  protection = 255;
  public_password = none;
  owner_password = none;
  readme = none;
  mtime = 0;
  lastcheck = 0;
}

abbrev pub counted : Files ℕ ℕ ℕ ℕ
counted = record {
  validate_path = λ w t b. (w, done (0, 0));
  passwd = λ p. none;
  info = λ w d. open_directory;
  server_get_dir = λ w d. (suc w, done []);
  server_get_file = λ w p i n d. (w, done 0);
  fseeko = λ w f i. (w, false);
  fread = λ w f n. (w, []);
  fclose = λ w f. w;
  server_del_file = λ w p d. (suc w, none);
  server_del_dir = λ w p d. (suc w, none);
  server_up_load = λ w t i j n. (suc w, none);
  server_install = λ w p i n a d t. (suc w, none);
  server_make_dir = λ w p i d. (suc w, done 0);
  server_set_pro = λ w d a b. (suc w, none);
  server_secure_file = λ w p i n d. (suc w, none);
  server_grab_file = λ w i n. (w, done 0);
  server_grab_done = λ w i n. (suc w, none);
  server_stat = λ w m. (w, []);
  target_kind = λ w t. absent;
  server_rename = λ w p q d e. (suc w, none);
}

abbrev pub writable : Settings
writable = record {
  version = codes "2.8.1b29";
  logging = false;
  read_only = false;
  no_unnamed = false;
  priv_mode = false;
  ver_enabled = true;
  grab_enabled = true;
  permit_passwordless_owners = false;
  maxthcallowed = 0;
  packetsize = 1024;
}

abbrev pub sender : From
sender = record { port_num = 2000; random = 21; stale = λ i. 0 }

-- "DELFILE a"
abbrev pub delete_a : Packet
delete_a = record {
  cmd = 69;
  sum = 0;
  key = record { hi = 0; lo = 7 };
  seq = record { hi = 0; lo = 3 };
  len = record { hi = 0; lo = 2 };
  pos = record { b3 = 0; b2 = 0; b1 = 0; b0 = 0 };
  body = 97 ∷ 0 ∷ [];
}

abbrev pub client : Host
client = record hzero { inet_num = 7; active = true; next_key = 7 }

unfoldable pub run_code : Bool
unfolding server_process_packet serve del_file with_path with_rights or_failed or_error
    when◌then◌else◌ require_access_rights public_access meets check_ip_table draw_key leave
    server_reply write2 write4 read2 read4
run_code = true

-- Carried out, it writes once; repeated, it does not.
deleted_once : (server_process_packet counted writable sender false delete_a client 5).0.0 ≡ 6
unfolding run_code
deleted_once = refl

abbrev pub reply : Packet
reply = server_reply (record delete_a { key = write2 21 }) [] []

reply_has_the_new_key :
    (reply.key
      ≡ write2 (server_process_packet counted writable sender false delete_a client 5).1.next_key)
    × (reply.seq ≡ delete_a.seq)
unfolding run_code
reply_has_the_new_key = process_header counted writable sender false delete_a client 5 reply refl

-- What becomes of it: the reply, and the key of the record.
pub deleted_reply :
    ((server_process_packet counted writable sender false delete_a client 5).0.1 ≡ some reply)
    × ((server_process_packet counted writable sender false delete_a client 5).1.next_key ≡ 21)
unfolding run_code
deleted_reply = (refl, refl)
