-- ===== src/Dispatch/Quiet.antt =====
-- What a processed request leaves behind: the files of a request that may not write, and the header of
-- every reply.
use fsp.Base.{◌≡◌, refl, ◌∙◌, ap, subst, Bool, true, false, ◌==◌, Option, none, some}
use mathlib.Core.Option.{some-injective}
use fsp.Packet.{Packet, write2}
use fsp.Hosts.{Host}
use fsp.Session.{draw_key, leave}
use fsp.Dispatch.{Settings, Files}
use fsp.Dispatch.Process.{From, server_process_packet}
use fsp.Dispatch.Keeps.{Frame, serve-Holds, Answers, AnswersIf}

anything-Frame :
    {W P D F : Type 0} (files : Files W P D F) (A C : Type 0) → Frame files (λ w. Unit {0}) A C
anything-Frame files A C = record {
  validate_path = λ w t b h. tt;
  server_get_dir = λ can. λ w d h. tt;
  server_get_file = λ w p i n d h. tt;
  fseeko = λ w f i h. tt;
  fread = λ w f i h. tt;
  fclose = λ w f h. tt;
  server_grab_file = λ w i n h. tt;
  server_stat = λ w m h. tt;
  server_del_file = λ can. λ w p d h. tt;
  server_del_dir = λ can. λ w p d h. tt;
  server_up_load = λ can. λ w t i j n h. tt;
  server_install = λ can. λ w p i n a d t h. tt;
  server_make_dir = λ can. λ w p i d h. tt;
  server_set_pro = λ can. λ w d a b h. tt;
  server_secure_file = λ can. λ w p i n d h. tt;
  server_grab_done = λ can. λ w i n h. tt;
  server_rename = λ can. λ w p q d e h. tt;
}

answered : (ub m : Packet) (o : Option Packet) → AnswersIf ub o → o ≡ some m → Answers ub m
answered ub m none a e = cc
answered ub m (some k) a e = subst (Answers ub) (some-injective k m e) a

-- The end of a session leaves the keys.
leave-next_key : (b : Bool) (h : Host) → h.next_key ≡ (leave b h).next_key
unfolding leave
leave-next_key true h = refl
leave-next_key false h = refl

module _ {W P D F : Type 0} (files : Files W P D F) (settings : Settings) (from : From) (old : Bool)
    (ub : Packet) (h : Host) (w : W) where
  -- Every reply answers the request, as `Answers` says, with the key that is drawn.
  pub process_answers :
      (m : Packet)
      → (server_process_packet files settings from old ub h w).0.1 ≡ some m
      → Answers (record ub { key = write2 (draw_key old from.random h).next_key }) m
  unfolding server_process_packet
  process_answers m e =
      let s = serve-Holds files settings _ (λ w'. Unit {0}) (anything-Frame files _ _) w tt in
      answered (record ub { key = write2 (draw_key old from.random h).next_key }) m _ s.reply e

  -- A reply carries the key that the client's record then expects next, and the sequence number of
  -- the request.
  pub process_header :
      (m : Packet)
      → (server_process_packet files settings from old ub h w).0.1 ≡ some m
      → (m.key ≡ write2 (server_process_packet files settings from old ub h w).1.next_key)
        × (m.seq ≡ ub.seq)
  unfolding server_process_packet
  process_header m e =
      let a = process_answers m e in
      (a.key ∙ ap write2 (leave-next_key (ub.cmd == 74) (draw_key old from.random h)), a.seq)
