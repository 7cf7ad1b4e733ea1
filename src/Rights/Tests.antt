-- ===== src/Rights/Tests.antt =====
-- A directory with an owner at 127.0.0.1 who has a password, and the answers to some callers.
use fsp.Base.{arith, ℕ, ◌≡◌, ◌≢◌, refl, ◌↔◌, ◌⊎◌, Bool, true, false, [], ◌∷◌, none, some, codes}
use fsp.IpRange.{check_ip_table, check_ip, within, octets, ntohl, point}
use fsp.Rights.{
  DirInfo, dir_list, dir_del, meets, meets_from, same_text, owner_access, public_access,
  require_access_rights, server_get_pro, server_set_pro,
}
use fsp.Rights.Protect.{Names, Switched, flags, server_set_pro_lem}
use fsp.Rights.Grant.{is_refusal, IsOwner, IsPublic, require_access_rights_iff}

abbrev docs : DirInfo
docs = record {
  realname = codes "/srv/fsp/docs";
  owner = record { spans = point 127 ∷ point 0 ∷ point 0 ∷ point 1 ∷ []; text = codes "OMe" } ∷ [];
  protection = 80;
  public_password = none;
  owner_password = some (codes "pw");
  readme = some (codes "hello");
  mtime = 5;
  lastcheck = 9;
}

abbrev localhost : ℕ
localhost = 16777343

rights_code : Bool
unfolding require_access_rights owner_access public_access same_text meets meets_from check_ip_table
    check_ip within octets ntohl
rights_code = true

stranger_lists :
    require_access_rights false docs dir_list 7 none ≡ codes "NWelcome on board captain!"
unfolding rights_code
stranger_lists = refl

stranger_deletes : require_access_rights false docs dir_del 7 none ≡ codes "DPermission denied"
unfolding rights_code
stranger_deletes = refl

owner_deletes : require_access_rights false docs dir_del localhost (some (codes "pw")) ≡ codes "OMe"
unfolding rights_code
owner_deletes = refl

-- "-g" takes the right to get files away; the reply has that bit turned round.
no_get :
    (di : DirInfo) × (server_set_pro 20 docs 45 103 ≡ some di)
    × ((server_get_pro di (codes "N")).1 ≡ 80)
unfolding server_set_pro server_get_pro
no_get = (record docs { protection = 64; mtime = 20; lastcheck = 20 }, refl, refl)

require_access_rights_iff_example :
    (is_refusal (require_access_rights false docs dir_del localhost (some (codes "pw"))) ≡ false)
    ↔ (IsOwner false docs localhost (some (codes "pw"))
        ⊎ IsPublic docs dir_del localhost (some (codes "pw")))
require_access_rights_iff_example =
    require_access_rights_iff false docs dir_del localhost (some (codes "pw"))

server_set_pro_lem_example :
    ((d : DirInfo) × (server_set_pro 20 docs b'+' b'd' ≡ some d)
      × Switched flags 2 true docs.protection d.protection)
    × ((d : DirInfo) × (server_set_pro 20 docs b'-' b'd' ≡ some d)
        × Switched flags 2 false docs.protection d.protection)
    × ((sign : ℕ) → sign ≢ b'+' → sign ≢ b'-' → server_set_pro 20 docs sign b'd' ≡ none)
server_set_pro_lem_example = server_set_pro_lem 20 docs b'd' 2 (omega arith) Names.d
