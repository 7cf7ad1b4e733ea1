-- ===== src/Validate/Confined.antt =====
-- What `validate_path` accepts under a restriction to the home directory.
use fsp.Base.{ℕ, ◌+◌, ◌<◌, ◌≡◌, sym, ap, Bool, true, List, [], get_elem?, Option, none, some, ◌⊎◌}
use fsp.Rights.Grant.{same_text_iff}
use fsp.PathName.{Error, Parsed, parsed, error, out_of_bounds}
use fsp.FifoCache.{Cache}
use fsp.FifoCache.Inv.{Inv}
use fsp.FifoCache.Each.{Each}
use fsp.Validate.{
  string_compare, Info, Setup, System, Validated, refused, accepted, is_prefix, work_of,
}

abbrev pub Table : Type 0 → Type 0
Table R = Cache (Option (List ℕ)) (Info R)

-- The directory of an entry has its real name below `home`, by the text of the names.
abbrev pub Inside : {R : Type 0} → List ℕ → Option (List ℕ) → Info R → Type 0
Inside home none di = Unit
Inside home (some work) di =
    (realname : List ℕ) × (di.realname ≡ some realname) × (is_prefix home realname ≡ true)

-- What an accepted index stands for: the entry of the directory `work`, inside, and checked at the time
-- of the request, or less than the timeout before.
abbrev pub Stands : {R : Type 0} → Setup → List ℕ → Table R → Validated → Type 0
Stands setup work c (refused text) = Unit
Stands {R} setup work c (accepted i) =
    (di : Info R) × (get_elem? c.keys i ≡ some (some work))
    × (get_elem? c.entries i ≡ some di)
    × Inside setup.home_dir (some work) di
    × ((di.lastcheck ≡ setup.cur_time) ⊎ (setup.cur_time < di.lastcheck + setup.stat_cache_timeout))

abbrev pub Confined : {R : Type 0} → Setup → Table R → Type 0
Confined setup c = Inv c × Each (Inside setup.home_dir) c

abbrev Holds : {R : Type 0} → Setup → List ℕ → Table R × Validated → Type 0
Holds setup work out = Confined setup out.0 × Stands setup work out.0 out.1

pub string_compare-eq :
    (work : List ℕ) (k : Option (List ℕ)) → string_compare (some work) k ≡ true → k ≡ some work
unfolding string_compare
string_compare-eq work none e = cc
string_compare-eq work (some k) e = ap some (sym ((same_text_iff work k).0 e))

module _ {R : Type 0} (no_rights : R) (setup : Setup) (sys : System R) (work : List ℕ)
    (restricted : setup.homedir_restricted ≡ true) where
  abbrev Hit : Table R → Option (ℕ × Info R) → Type 0
  Hit c none = Unit
  Hit c (some (i, di)) = (get_elem? c.keys i ≡ some (some work)) × (get_elem? c.entries i ≡ some di)

-- What `validate_path` returns, by what the parser says.
abbrev pub Judges :
    {R : Type 0} → Setup → (Error → List ℕ) → Bool → Parsed → Table R × Validated → Type 0
Judges setup parse_error want (parsed buf pp) out = Stands setup (work_of buf pp want) out.0 out.1
Judges setup parse_error want (error e) out = out.1 ≡ refused (parse_error e)
Judges setup parse_error want out_of_bounds out = out.1 ≡ refused []
