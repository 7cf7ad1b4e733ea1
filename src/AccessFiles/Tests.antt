-- ===== src/AccessFiles/Tests.antt =====
-- A directory with two owners and two passwords.
use fsp.Base.{◌≡◌, refl, [], ◌∷◌, some, none, codes, true, false, arith}
use fsp.IpRange.{
  IpRange, point, dump_line, decimal, span_text, spans_text, trim_end, skip_whitespace,
}
use fsp.IpRange.Line.{IsEntry}
use fsp.Rights.{DirInfo}
use fsp.AccessFiles.{Control, load_access_rights, save_access_rights, load_password, word}
use fsp.AccessFiles.Saved.{CanBeSaved, load-save_access_rights}

abbrev no_files : Control
no_files = record {
  readme = none;
  no_get = false;
  ok_del = false;
  ok_add = false;
  ok_mkdir = false;
  ok_rename = false;
  no_list = false;
  password = none;
  owner = none;
  owner_password = none;
  dirlisting = none;
}

abbrev an_owner : IpRange
an_owner = record { spans = point 10 ∷ point 0 ∷ point 0 ∷ point 7 ∷ []; text = codes "OAnn" }

abbrev rights : DirInfo
rights = record {
  realname = codes "/srv/pub";
  owner = an_owner ∷ an_owner ∷ [];
  protection = 70;
  public_password = some (codes "open");
  owner_password = some (codes "sesame");
  readme = none;
  mtime = 0;
  lastcheck = 0;
}

an_owner-IsEntry : IsEntry an_owner (point 10) (point 0 ∷ point 0 ∷ point 7 ∷ []) b'O' (codes "Ann")
unfolding trim_end
an_owner-IsEntry = record {
  spans = refl;
  four = refl;
  byte_spans = omega arith;
  text = refl;
  typed = (refl, (omega arith, omega arith));
  no_front = refl;
  no_back = refl;
}

rights-CanBeSaved : CanBeSaved (λ name. none) rights no_files
unfolding dump_line decimal span_text spans_text
rights-CanBeSaved = record {
  a_byte = omega arith;
  no_owner_flag = refl;
  readme_flag = refl;
  public_password = ((λ e. cc e), (refl, (refl, (refl, (refl, tt)))), omega arith);
  owner_password = ((λ e. cc e), (refl, (refl, (refl, (refl, (refl, (refl, tt)))))), omega arith);
  owners = (
    point 10,
    point 0 ∷ point 0 ∷ point 7 ∷ [],
    b'O',
    codes "Ann",
    an_owner-IsEntry,
    omega arith,
    omega arith,
  );
}

load-save_access_rights_example :
    (di' : DirInfo) × (load_access_rights
        (λ name. none)
        1024
        true
        (save_access_rights true rights no_files)
        rights
      ≡ some di')
    × (di'.protection ≡ 70)
    × (di'.public_password ≡ some (codes "open"))
    × (di'.owner ≡ an_owner ∷ [])
    × (di'.owner_password ≡ some (codes "sesame"))
load-save_access_rights_example =
    load-save_access_rights (λ name. none) 1024 rights rights no_files rights-CanBeSaved

first_word : load_password (some (codes " secret word\n")) ≡ some (codes "secret")
unfolding load_password word skip_whitespace
first_word = refl
