-- ===== src/DirStore/Tests.antt =====
-- A client that has listed a directory.
use fsp.Base.{
  ℕ, ◌≡◌, refl, List, some, none, codes, [], ◌∷◌, ◌++◌, true, inr, length, ◌==◌, if◌then◌else◌,
}
use fsp.Listing.{word_bytes, rdtype_file}
use fsp.DirReader.{Rdirent}
use fsp.Rights.{same_text}
use fsp.AbsPath.{merged, util_abs_path}
use fsp.AbsPath.Parts.{parts, tidy, resolve, render, ends_with_slash}
use fsp.DirStore.{
  Folder, Dirs, Net, abs_path, find_folder, handle, util_opendir, util_closedir, util_cd, util_stat,
  find_entry, util_readdir,
}
use fsp.DirStore.Again.{util_opendir-again, util_stat-entry, answer_of, entry_data}
use fsp.DirStore.Password.{util_cd-password}

abbrev an_entry : Rdirent
an_entry = record {
  header = word_bytes 100 ++ (word_bytes 5 ++ (rdtype_file ∷ []));
  name = codes "b";
}

abbrev pub_folder : Folder
pub_folder = record { path = codes "/pub"; dep_root = an_entry ∷ []; ref_cnt = 0 }

-- A server that answers nothing but an empty block.
abbrev quiet : Net
quiet = record {
  get_dir =
      λ path pos. if pos == 0 then some (word_bytes 0 ++ (word_bytes 0 ++ (0 ∷ []))) else some [];
  stat = λ path. none;
}

abbrev client : List ℕ → Dirs
client pw = record {
  ddroot = pub_folder ∷ [];
  env_dir = codes "/";
  env_passwd = pw;
  statworks = true;
}

util_stat-entry_example :
    answer_of (util_stat 9 quiet (client []) (codes "pub/b"))
    ≡ some (entry_data (find_entry (codes "b") (an_entry ∷ [])))
util_stat-entry_example =
    util_stat-entry 9 quiet (client []) (codes "pub/b") (codes "b" ∷ codes "pub" ∷ [])
      (an_entry ∷ []) refl (unfold tidy parts merged in refl) (unfold resolve parts merged in refl)
      (unfold render in (λ e. cc e)) (inr (pub_folder, unfold find_folder render same_text in refl))
      (unfold find_folder render same_text in refl)

opens_pub :
    util_opendir 9 quiet (client []) (codes "pub")
    ≡ handle
        (record (client []) { ddroot = record pub_folder { ref_cnt = 1 } ∷ [] })
        (record { ddp = codes "/pub"; dep = an_entry ∷ [] })
unfolding util_opendir abs_path util_abs_path same_text
opens_pub = refl

util_opendir-again_example :
    (s'' : Dirs) × (util_opendir 9 quiet
        (util_closedir
          (record (client []) { ddroot = record pub_folder { ref_cnt = 1 } ∷ [] })
          (record { ddp = codes "/pub"; dep = an_entry ∷ [] }))
        (codes "pub")
      ≡ handle s'' (record { ddp = codes "/pub"; dep = an_entry ∷ [] }))
    × (length s''.ddroot ≡ 1)
util_opendir-again_example =
    util_opendir-again 9 9 quiet quiet (client [])
      (record (client []) { ddroot = record pub_folder { ref_cnt = 1 } ∷ [] })
      (record { ddp = codes "/pub"; dep = an_entry ∷ [] }) (codes "pub") opens_pub

goes : (util_cd quiet (client (codes "pw")) (codes "pub")).1 ≡ true
unfolding util_cd abs_path util_abs_path find_folder same_text
goes = refl

util_cd-password_example :
    abs_path (util_cd quiet (client (codes "pw")) (codes "pub")).0 (codes "a")
    ≡ abs_path (util_cd quiet (client (codes "pw")) (codes "pub")).0 (codes "b/c")
util_cd-password_example =
    util_cd-password quiet (client (codes "pw")) (codes "pub") (codes "a") (codes "b/c") refl goes
      (unfold tidy parts merged in refl) (unfold ends_with_slash parts merged in refl) refl refl

first_name :
    (util_readdir (record { ddp = codes "/pub"; dep = an_entry ∷ [] })).1
    ≡ some (record { d_namlen = 1; d_name = codes "b" })
unfolding util_readdir
first_name = refl
