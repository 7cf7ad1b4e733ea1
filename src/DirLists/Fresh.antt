-- ===== src/DirLists/Fresh.antt =====
-- The listing that a request gets.
use fsp.Base.{
  ℕ, ◌*◌, ◌≤◌, ◌≡◌, refl, sym, ap, ◌∙◌, subst, Bool, ◌&&◌, List, length, take, get_elem?, ltb, leb,
  if◌then◌else◌, Option, none, some, arith, Bool-cases, Option-cases, inl, inr,
}
use fsp.FifoCache.{f_cache_put, f_cache_find, f_cache_delete_entry}
use fsp.FifoCache.Inv.{Inv}
use fsp.FifoCache.Each.{
  Each, put-at, put-index, put-Inv, put-Each, find-Same, find-Inv, find-Each, find-at, delete-Each,
  delete-Inv,
}
use fsp.Validate.{string_compare}
use fsp.Validate.Confined.{string_compare-eq}
use fsp.DirLists.{
  DirListing, Listings, list_ops, Directory, Change, untouched, Listed, failed, in_cache, prebuilt,
  keep_listing, new_listing, serve_listing, server_get_dir,
}

-- A listing that is there, and is good for the directory of its key.
abbrev pub IsGood : (List ℕ → List ℕ → Type 0) → Option (List ℕ) → DirListing → Type 0
IsGood Good none dl = Unit
IsGood Good (some realname) dl = (l : List ℕ) × (dl.listing ≡ some l) × Good realname l

abbrev pub AllGood : (List ℕ → List ℕ → Type 0) → Listings → Type 0
AllGood Good c = Inv c × Each (IsGood Good) c

-- The listing that a request for a directory gets, and its age.
abbrev pub Gets : (List ℕ → List ℕ → Type 0) → List ℕ → ℕ → Listings → Listed → Type 0
Gets Good realname di_mtime c (failed text) = Unit
Gets Good realname di_mtime c (in_cache i) =
    (dl : DirListing) × (get_elem? c.keys i ≡ some (some realname))
    × (get_elem? c.entries i ≡ some dl)
    × IsGood Good (some realname) dl
    × (di_mtime ≤ dl.mtime)

-- What a directory gives is good, whether it is built or read from the file.
abbrev pub GivesGood : (List ℕ → List ℕ → Type 0) → Directory → List ℕ → Type 0
GivesGood Good dir realname =
    ((l : List ℕ) → dir.build ≡ some l → Good realname l)
    × ((t : ℕ) (n : ℕ) (l : List ℕ)
        → dir.stat_list ≡ some (t, n)
        → dir.open_list ≡ some l
        → n ≤ length l
        → Good realname (take n l))

module _ (Good : List ℕ → List ℕ → Type 0) (use_prebuild : Bool) (cur_time : ℕ) (dir : Directory)
    (realname : List ℕ) (di_mtime : ℕ) (good : GivesGood Good dir realname)
    (past : di_mtime ≤ cur_time) where
  abbrev Holds : Listings × (Listed × Change) → Type 0
  Holds out = AllGood Good out.0 × Gets Good realname di_mtime out.0 out.1.0

  put-Holds :
      (c : Listings) (dl : DirListing) (change : Change)
      → AllGood Good c
      → IsGood Good (some realname) dl
      → di_mtime ≤ dl.mtime
      → Holds (
        (f_cache_put list_ops c (some realname) dl).0,
        (in_cache (f_cache_put list_ops c (some realname) dl).1, change),
      )
  put-Holds c dl change (v, all) g t =
      let (k, x) = put-at list_ops c (some realname) dl v in
      (
        (
          put-Inv list_ops c (some realname) dl v,
          put-Each list_ops (IsGood Good) c (some realname) dl v all g,
        ),
        subst
            (λ i.
              Gets Good realname di_mtime (f_cache_put list_ops c (some realname) dl).0
                (in_cache i))
            (sym (put-index list_ops c (some realname) dl)) (dl, k, x, g, t),
      )

  abbrev Fits : Option DirListing → Type 0
  Fits none = Unit
  Fits (some dl) = IsGood Good (some realname) dl × (di_mtime ≤ dl.mtime)

  prebuilt-Fits : Fits (prebuilt dir di_mtime)
  unfolding prebuilt
  prebuilt-Fits = elim (Option-cases dir.stat_list) [
    | inl e ↦ rw (e, prebuilt) tt
    | inr ((t, n), e) ↦ elim (Option-cases dir.open_list) [
      | inl o ↦ rw (e, o, prebuilt) tt
      | inr (l, o) ↦ elim (Bool-cases (leb di_mtime t && leb n (length l))) [
        | inl s ↦
            rw (e, o, s, prebuilt)
              ((take n l, refl, good.1 t n l e o (ground (arith, s))), ground (arith, s))
        | inr s ↦ rw (e, o, s, prebuilt) tt
      ]
    ]
  ]

  new_listing-Holds :
      (o : Option DirListing) (c : Listings)
      → Fits o
      → AllGood Good c
      → Holds (new_listing use_prebuild cur_time dir realname o c)
  unfolding new_listing
  new_listing-Holds (some dl) c (g, t) h = put-Holds c dl untouched h g t
  new_listing-Holds none c f h = elim (Option-cases dir.build) [
    | inl e ↦ rw (e, new_listing) (h, tt)
    | inr (l, e) ↦
        rw (e, new_listing)
          (put-Holds c (record { listing = some l; mtime = cur_time })
            (if use_prebuild then keep_listing dir l else untouched) h (l, refl, good.0 l e) past)
  ]

  tried-Fits : Fits (if use_prebuild then prebuilt dir di_mtime else none)
  tried-Fits = elim (Bool-cases use_prebuild) [ inl e ↦ rw e prebuilt-Fits | inr e ↦ rw e tt ]

  cached-Holds :
      (c : Listings) (i : ℕ)
      → get_elem? c.keys i ≡ some (some realname)
      → AllGood Good c
      → Holds (serve_listing use_prebuild cur_time dir realname di_mtime (c, some i))
  unfolding serve_listing
  cached-Holds c i k (v, all) = elim (Option-cases (get_elem? c.entries i)) [
    | inl e ↦ rw (e, serve_listing) ((v, all), tt)
    | inr (dl, e) ↦ elim (Bool-cases (ltb dl.mtime di_mtime)) [
      | inl old ↦
          rw (e, old, serve_listing)
            (new_listing-Holds (if use_prebuild then prebuilt dir di_mtime else none)
              (f_cache_delete_entry list_ops c (some (i * c.entrysize))).0 tried-Fits
              (
                delete-Inv list_ops c (some (i * c.entrysize)) v,
                delete-Each list_ops (IsGood Good) c (some (i * c.entrysize)) v all tt,
              ))
      | inr new ↦
          rw (e, new, serve_listing)
            ((v, all), (dl, k, e, all i (some realname) dl k e, ground (arith, new)))
    ]
  ]

  -- On a well-formed cache of listings that are good for their directories, where what the directory gives
  -- now is good, and its time is not in the future: the cache stays so, and a request gets a listing of its
  -- own directory that is good and no older than the directory, if it gets one.
  pub server_get_dir-Gets :
      (cache : Listings)
      → AllGood Good cache
      → let out = server_get_dir use_prebuild cur_time dir realname di_mtime cache in
        AllGood Good out.0 × Gets Good realname di_mtime out.0 out.1.0
  unfolding server_get_dir
  server_get_dir-Gets cache (v, all) =
      let found = f_cache_find list_ops cache (some realname) in
      let after : AllGood Good found.0 = (
        find-Inv list_ops cache (some realname) v,
        find-Each list_ops (IsGood Good) cache (some realname) all,
      ) in
      elim (Option-cases found.1) [
        | inl e ↦
            subst
              (λ (o : Option ℕ).
                Holds (serve_listing use_prebuild cur_time dir realname di_mtime (found.0, o)))
              (sym e)
              (unfold serve_listing in
                new_listing-Holds (if use_prebuild then prebuilt dir di_mtime else none) found.0
                  tried-Fits after)
        | inr (i, e) ↦
            let (k, here, meets) = find-at list_ops cache string_compare (some realname) i refl e in
            let key : get_elem? found.0.keys i ≡ some (some realname) =
              ap (λ l. get_elem? l i) (find-Same list_ops cache (some realname)).0
              ∙ here
              ∙ ap some (string_compare-eq realname k meets) in
            subst
              (λ (o : Option ℕ).
                Holds (serve_listing use_prebuild cur_time dir realname di_mtime (found.0, o)))
              (sym e) (cached-Holds found.0 i key after)
      ]
