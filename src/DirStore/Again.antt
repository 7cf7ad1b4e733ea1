-- ===== src/DirStore/Again.antt =====
-- A directory that is kept, and what `util_stat` finds in a listing.
use fsp.Base.{
  ℕ, ◌+◌, ◌-◌, ◌≡◌, ◌≢◌, refl, sym, ap, ◌∙◌, true, false, List, [], ◌∷◌, length, drop, Option, none,
  some, arith, Bool-cases, Option-cases, inl, inr, ◌⊎◌, subst,
}
use fsp.Rights.{same_text}
use fsp.Rights.Grant.{same_text_iff}
use fsp.Listing.{FileStat}
use fsp.DirReader.{Rdirent, Reading, finished, refused, astray, get_dir_blk}
use fsp.AbsPath.{util_abs_path, directory_of, file_of, merged}
use fsp.AbsPath.Parts.{parts, tidy, resolve, render, parts-AllLack}
use fsp.AbsPath.Parts.Canonical.{util_abs_path-answer}
use fsp.AbsPath.Parts.Last.{last_name, split-render, answer-render}
use fsp.AbsPath.Parts.Again.{Names, Names-Named, resolve-Names, util_abs_path-render}
use fsp.DirStore.{
  Folder, Dirs, Rdir, Net, abs_path, find_folder, change_folder, handle, failed, lost, util_opendir,
  util_closedir, entry_stat, find_entry, Statted, known, missing, stray, stat_listed, util_stat,
}

-- A change that leaves path and listing alone.
record Counts (change : Folder → Folder) : Type 0 where
  path : (f : Folder) → (change f).path ≡ f.path
  dep_root : (f : Folder) → (change f).dep_root ≡ f.dep_root

abbrev listing_of : Option Folder → Option (List Rdirent)
listing_of none = none
listing_of (some f) = some f.dep_root

find-change :
    (change : Folder → Folder) (p q : List ℕ) (fs : List Folder)
    → Counts change
    → listing_of (find_folder p (change_folder change q fs)) ≡ listing_of (find_folder p fs)
unfolding find_folder change_folder
find-change change p q [] k = refl
find-change change p q (f ∷ fs) k =
    ground (arith, k.path f, k.dep_root f, find-change change p q fs k)

length-change :
    (change : Folder → Folder) (q : List ℕ) (fs : List Folder)
    → length (change_folder change q fs) ≡ length fs
unfolding change_folder
length-change change q [] = refl
length-change change q (f ∷ fs) = ground (arith, length-change change q fs)

find_first : (f : Folder) (fs : List Folder) → find_folder f.path (f ∷ fs) ≡ some f
unfolding find_folder
find_first f fs = rw ((same_text_iff f.path f.path).1 refl) refl

-- What the client knows or is told of a directory.
abbrev pub listing_for : ℕ → Net → Dirs → List ℕ → Reading (List Rdirent)
listing_for fuel net s dir = elim (find_folder dir s.ddroot) [
  | some f ↦ finished f.dep_root
  | none ↦ get_dir_blk fuel (net.get_dir (abs_path s dir))
]

-- The state after a directory with the path `dir` and the listing `es` has been opened.
record Keeps (s s' : Dirs) (dir : List ℕ) (es : List Rdirent) : Type 0 where
  env_dir : s'.env_dir ≡ s.env_dir
  env_passwd : s'.env_passwd ≡ s.env_passwd
  statworks : s'.statworks ≡ s.statworks
  kept : listing_of (find_folder dir s'.ddroot) ≡ some es

counted : Counts (λ f. record f { ref_cnt = f.ref_cnt + 1 })
counted = record { path = λ f. refl; dep_root = λ f. refl }

released : Counts (λ f. record f { ref_cnt = f.ref_cnt - 1 })
released = record { path = λ f. refl; dep_root = λ f. refl }

-- The two ways in which `util_opendir` succeeds.
open_kept :
    (fuel : ℕ) (net : Net) (s : Dirs) (path : List ℕ) (f : Folder)
    → find_folder (abs_path s path) s.ddroot ≡ some f
    → (s' : Dirs) × (util_opendir fuel net s path
        ≡ handle s' (record { ddp = abs_path s path; dep = f.dep_root }))
      × Keeps s s' (abs_path s path) f.dep_root
      × (length s'.ddroot ≡ length s.ddroot)
unfolding util_opendir
open_kept fuel net s path f e =
    let dir = abs_path s path in
    let more = change_folder (λ f. record f { ref_cnt = f.ref_cnt + 1 }) dir s.ddroot in
    (
      record s { ddroot = more },
      rw (e, util_opendir) refl,
      record {
        env_dir = refl;
        env_passwd = refl;
        statworks = refl;
        kept =
            find-change (λ f. record f { ref_cnt = f.ref_cnt + 1 }) dir dir s.ddroot counted
            ∙ ap listing_of e;
      },
      length-change (λ f. record f { ref_cnt = f.ref_cnt + 1 }) dir s.ddroot,
    )

open_new :
    (fuel : ℕ) (net : Net) (s : Dirs) (path : List ℕ) (es : List Rdirent)
    → find_folder (abs_path s path) s.ddroot ≡ none
    → get_dir_blk fuel (net.get_dir (abs_path s (abs_path s path))) ≡ finished es
    → (s' : Dirs) × (util_opendir fuel net s path
        ≡ handle s' (record { ddp = abs_path s path; dep = es }))
      × Keeps s s' (abs_path s path) es
unfolding util_opendir
open_new fuel net s path es e g =
    let dir = abs_path s path in
    let f : Folder = record { path = dir; dep_root = es; ref_cnt = 1 } in
    (
      record s { ddroot = f ∷ s.ddroot },
      rw (e, g, util_opendir) refl,
      record {
        env_dir = refl;
        env_passwd = refl;
        statworks = refl;
        kept = ap listing_of (find_first f s.ddroot);
      },
    )

finished-injective : (a b : List Rdirent) → finished a ≡ finished b → a ≡ b
finished-injective a b e = cc

opens :
    (fuel : ℕ) (net : Net) (s : Dirs) (path : List ℕ) (es : List Rdirent)
    → listing_for fuel net s (abs_path s path) ≡ finished es
    → (s' : Dirs) × (util_opendir fuel net s path
        ≡ handle s' (record { ddp = abs_path s path; dep = es }))
      × Keeps s s' (abs_path s path) es
opens fuel net s path es h = elim (Option-cases (find_folder (abs_path s path) s.ddroot)) [
  | inl e ↦ open_new fuel net s path es e (
      subst
        (λ (o : Option Folder).
          (elim o [
            | some f ↦ finished f.dep_root
            | none ↦ get_dir_blk fuel (net.get_dir (abs_path s (abs_path s path)))
          ])
          ≡ finished es)
        e h)
  | inr (f, e) ↦
      let same : f.dep_root ≡ es = finished-injective f.dep_root es (
        subst
          (λ (o : Option Folder).
            (elim o [
              | some f ↦ finished f.dep_root
              | none ↦ get_dir_blk fuel (net.get_dir (abs_path s (abs_path s path)))
            ])
            ≡ finished es)
          e h) in
      let (s', o, k, _) = open_kept fuel net s path f e in
      subst
        (λ (l : List Rdirent).
          (s' : Dirs) × (util_opendir fuel net s path
            ≡ handle s' (record { ddp = abs_path s path; dep = l }))
          × Keeps s s' (abs_path s path) l)
        same (s', o, k)
]

opened-injective : (s t : Dirs) (r q : Rdir) → handle s r ≡ handle t q → (s ≡ t) × (r ≡ q)
opened-injective s t r q e = (cc, cc)

listing_new :
    (fuel : ℕ) (net : Net) (s : Dirs) (dir : List ℕ) (es : List Rdirent)
    → find_folder dir s.ddroot ≡ none
    → get_dir_blk fuel (net.get_dir (abs_path s dir)) ≡ finished es
    → listing_for fuel net s dir ≡ finished es
listing_new fuel net s dir es e g = rw (e, listing_for) g

failed-ne-handle : (s : Dirs) (r : Rdir) → failed ≢ handle s r
failed-ne-handle s r e = cc

lost-ne-handle : (s : Dirs) (r : Rdir) → lost ≢ handle s r
lost-ne-handle s r e = cc

opened-listing :
    (fuel : ℕ) (net : Net) (s s' : Dirs) (r : Rdir) (path : List ℕ)
    → util_opendir fuel net s path ≡ handle s' r
    → listing_for fuel net s (abs_path s path) ≡ finished r.dep
unfolding util_opendir
opened-listing fuel net s s' r path h =
    let dir = abs_path s path in
    elim (Option-cases (find_folder dir s.ddroot)) [
      | inr (f, e) ↦
          let o : util_opendir fuel net s path ≡ handle _ _ = (open_kept fuel net s path f e).1 in
          rw (e, listing_for)
            (ap (λ (q : Rdir). finished q.dep) (opened-injective _ _ _ _ (sym o ∙ h)).1)
      | inl e ↦ by_reading (get_dir_blk fuel (net.get_dir (abs_path s dir))) refl e
    ]
  where
    by_reading :
        (g : Reading (List Rdirent))
        → get_dir_blk fuel (net.get_dir (abs_path s (abs_path s path))) ≡ g
        → find_folder (abs_path s path) s.ddroot ≡ none
        → listing_for fuel net s (abs_path s path) ≡ finished r.dep
    by_reading refused g e =
        let o : util_opendir fuel net s path ≡ failed = rw (e, g, util_opendir) refl in
        absurd (failed-ne-handle s' r (sym o ∙ h))
    by_reading astray g e =
        let o : util_opendir fuel net s path ≡ lost = rw (e, g, util_opendir) refl in
        absurd (lost-ne-handle s' r (sym o ∙ h))
    by_reading (finished es) g e =
        let o = (open_new fuel net s path es e g).1 in
        listing_new fuel net s (abs_path s path) es e g
        ∙ ap (λ (q : Rdir). finished q.dep) (opened-injective _ _ _ _ (sym o ∙ h)).1

closed-Keeps :
    (s s' : Dirs) (r : Rdir) (dir : List ℕ) (es : List Rdirent)
    → Keeps s s' dir es
    → Keeps s (util_closedir s' r) dir es
unfolding util_closedir
closed-Keeps s s' r dir es k = record {
  env_dir = k.env_dir;
  env_passwd = k.env_passwd;
  statworks = k.statworks;
  kept =
      find-change (λ f. record f { ref_cnt = f.ref_cnt - 1 }) dir r.ddp s'.ddroot released ∙ k.kept;
}

listing_of-some :
    (o : Option Folder) (es : List Rdirent)
    → listing_of o ≡ some es
    → (f : Folder) × (o ≡ some f) × (f.dep_root ≡ es)
listing_of-some none es e = cc
listing_of-some (some f) es e = (f, refl, cc)

abs_path-same :
    (s t : Dirs) (path : List ℕ)
    → t.env_dir ≡ s.env_dir
    → t.env_passwd ≡ s.env_passwd
    → abs_path t path ≡ abs_path s path
unfolding abs_path
abs_path-same s t path e p = rw (e, p) refl

-- A directory that has been opened and closed is opened again with the same entries, whatever the
-- server would answer then, and no second record is made for it.
pub util_opendir-again :
    (fuel fuel' : ℕ) (net net' : Net) (s s' : Dirs) (r : Rdir) (path : List ℕ)
    → util_opendir fuel net s path ≡ handle s' r
    → (s'' : Dirs) × (util_opendir fuel' net' (util_closedir s' r) path ≡ handle s'' r)
      × (length s''.ddroot ≡ length s'.ddroot)
unfolding util_closedir
util_opendir-again fuel fuel' net net' s s' r path h =
    let (t, o, k) = opens fuel net s path r.dep (opened-listing fuel net s s' r path h) in
    let (same_state, same_dir) =
      opened-injective t s' (record { ddp = abs_path s path; dep = r.dep }) r (sym o ∙ h) in
    let closed = util_closedir s' r in
    let kept =
      closed-Keeps s s' r (abs_path s path) r.dep
        (subst (λ x. Keeps s x (abs_path s path) r.dep) same_state k) in
    let at = abs_path-same s closed path kept.env_dir kept.env_passwd in
    let (f, e, d) = listing_of-some (find_folder (abs_path s path) closed.ddroot) r.dep kept.kept in
    let (t', o', _, n) =
      open_kept fuel' net' closed path f (ap (λ q. find_folder q closed.ddroot) at ∙ e) in
    (
      t',
      o' ∙ ap (handle t') ((λ i. record { ddp = at i; dep = d i }) ∙ same_dir),
      n ∙ length-change (λ f. record f { ref_cnt = f.ref_cnt - 1 }) r.ddp s'.ddroot,
    )

-- The answer of `util_stat`, without the state: nothing if the reading goes astray.
abbrev pub answer_of : Statted → Option (Option FileStat)
answer_of (known s st) = some (some st)
answer_of (missing s) = some none
answer_of stray = none

-- The data of the entry with a name.
abbrev pub entry_data : Option Rdirent → Option FileStat
entry_data none = none
entry_data (some e) = some (entry_stat e.header)

stat_listed-entry :
    (fuel : ℕ) (net : Net) (s : Dirs) (ppath pfile : List ℕ) (es : List Rdirent)
    → listing_for fuel net s (abs_path s ppath) ≡ finished es
    → answer_of (stat_listed fuel net s ppath pfile) ≡ some (entry_data (find_entry pfile es))
unfolding stat_listed
stat_listed-entry fuel net s ppath pfile es h =
    let (s', o, _) = opens fuel net s ppath es h in
    rw (o, stat_listed)
      (elim (Option-cases (find_entry pfile es)) [ inl e ↦ rw e refl | inr (x, e) ↦ rw e refl ])

-- Where the directory is kept, or the server has no CC_STAT.
reads_listing :
    (fuel : ℕ) (net : Net) (s : Dirs) (path : List ℕ)
    → same_text (abs_path s path) s.env_dir ≡ false
    → (s.statworks ≡ false)
      ⊎ ((f : Folder) × (find_folder (directory_of (abs_path s path)) s.ddroot ≡ some f))
    → util_stat fuel net s path
      ≡ stat_listed fuel net s (directory_of (abs_path s path)) (file_of (abs_path s path))
unfolding util_stat
reads_listing fuel net s path n (inl e) = ground (arith, n, e)
reads_listing fuel net s path n (inr (f, e)) = ground (arith, n, e)

abs_path-known :
    (s : Dirs) (path fpath : List ℕ)
    → s.env_passwd ≡ []
    → util_abs_path s.env_dir [] path ≡ some fpath
    → abs_path s path ≡ fpath
unfolding abs_path
abs_path-known s path fpath n e =
    ap (λ pw. elim (util_abs_path s.env_dir pw path) [ none ↦ [] | some f ↦ f ]) n ∙ rw e refl

same_text-ne : (a b : List ℕ) → a ≢ b → same_text a b ≡ false
same_text-ne a b h = elim (Bool-cases (same_text a b)) [
  | inl e ↦ absurd (h ((same_text_iff a b).0 e))
  | inr e ↦ e
]

drop-Names : (st : List (List ℕ)) → Names st → Names (drop 1 st)
drop-Names [] k = tt
drop-Names (p ∷ st) k = k.2

-- Without a password, and where the client keeps the directory of a path or does not use CC_STAT,
-- util_stat finds the data of the first entry of that directory with the last name of the path, and
-- fails where there is none. The directory's listing, kept or read then, is `es`. The path is not that of
-- the current directory, and no part "." or ".." of it has two slashes behind it.
pub util_stat-entry :
    (fuel : ℕ) (net : Net) (s : Dirs) (path : List ℕ) (st : List (List ℕ)) (es : List Rdirent)
    → s.env_passwd ≡ []
    → tidy (parts (merged s.env_dir [] path)) ≡ true
    → resolve [] (parts (merged s.env_dir [] path)) ≡ st
    → render st ≢ s.env_dir
    → (s.statworks ≡ false) ⊎ ((f : Folder) × (find_folder (render (drop 1 st)) s.ddroot ≡ some f))
    → listing_for fuel net s (render (drop 1 st)) ≡ finished es
    → answer_of (util_stat fuel net s path) ≡ some (entry_data (find_entry (last_name st) es))
util_stat-entry fuel net s path st es n t res away how listing =
    let ps = parts (merged s.env_dir [] path) in
    let k : Names st =
      subst Names res (resolve-Names ps [] tt (parts-AllLack (merged s.env_dir [] path))) in
    let e : util_abs_path s.env_dir [] path ≡ some (render st) =
      util_abs_path-answer s.env_dir [] path t ∙ ap some (answer-render ps ∙ ap render res) in
    let at = abs_path-known s path (render st) n e in
    let (dir, name) = split-render st (Names-Named st k) in
    let ppath : directory_of (abs_path s path) ≡ render (drop 1 st) = ap directory_of at ∙ dir in
    let pfile : file_of (abs_path s path) ≡ last_name st = ap file_of at ∙ name in
    let again =
      abs_path-known s (render (drop 1 st)) (render (drop 1 st)) n
        (util_abs_path-render s.env_dir (drop 1 st) (drop-Names st k)) in
    ap answer_of (
      reads_listing fuel net s path
        (same_text-ne (abs_path s path) s.env_dir (λ q. away (sym at ∙ q)))
        (subst (λ d. (s.statworks ≡ false) ⊎ ((f : Folder) × (find_folder d s.ddroot ≡ some f)))
          (sym ppath) how))
    ∙ ap (λ d. answer_of (stat_listed fuel net s d (file_of (abs_path s path)))) ppath
    ∙ ap (λ d. answer_of (stat_listed fuel net s (render (drop 1 st)) d)) pfile
    ∙ stat_listed-entry fuel net s (render (drop 1 st)) (last_name st) es
        (ap (listing_for fuel net s) again ∙ listing)
