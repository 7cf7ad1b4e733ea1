-- ===== src/AbsPath/Parts/Loop.antt =====
-- The loop of `util_abs_path` over the parts of a path, one kind of part after the other.
use fsp.Base.{
  ℕ, zero, suc, ◌-◌, ◌≤◌, ◌≡◌, ◌≢◌, refl, sym, ap, ◌∙◌, true, false, ◌&&◌, List, [], ◌∷◌, ◌++◌,
  length, drop, ◌==◌, arith, Bool-cases, ==_iff, ◌⊎◌, inl, inr, length-append, some, append-nil,
}
use mathlib.Core.List.{reverse}
use fsp.AbsPath.{back_to_slash, pass, normalise, ends_part, go_on, append_password, plain}
use fsp.AbsPath.Parts.{
  Lacks, AllLack, backwards, push, resolve, render, ends_with_slash, answer, joined,
}
use fsp.AbsPath.Parts.Run.{
  normalise_go_on, normalise_append, normalise_plain, run_name, is_name, back_to_slash-backwards,
}

module _ (suffix : List ℕ) where
  -- What the loop does behind the slash of the directory `st`, and what it does at that slash.
  abbrev pub Behind : List (List ℕ) → List (List ℕ) → Type 0
  Behind st ps =
      (fuel : ℕ)
      → length (joined ps) ≤ fuel
      → normalise fuel suffix (b'/' ∷ backwards st) (joined ps) ≡ some (answer suffix st ps)

  abbrev pub At : List (List ℕ) → List (List ℕ) → Type 0
  At st ps =
      (fuel : ℕ)
      → length (joined ps) ≤ fuel
      → normalise (suc fuel) suffix (backwards st) (b'/' ∷ joined ps) ≡ some (answer suffix st ps)

  push_name : (st : List (List ℕ)) (p : List ℕ) → is_name p ≡ true → push st p ≡ p ∷ st
  unfolding push
  push_name st p h = ground arith

  resolve_push :
      (st : List (List ℕ)) (p q : List ℕ) (ps : List (List ℕ))
      → answer suffix st (p ∷ q ∷ ps) ≡ answer suffix (push st p) (q ∷ ps)
  unfolding answer
  resolve_push st p q ps = refl

  pub At-name :
      (st : List (List ℕ)) (p q : List ℕ) (ps : List (List ℕ))
      → Lacks p
      → is_name p ≡ true
      → At (p ∷ st) (q ∷ ps)
      → Behind st (p ∷ q ∷ ps)
  unfolding joined backwards
  At-name st p q ps h n at fuel k =
      let long = length-append p (b'/' ∷ joined (q ∷ ps)) in
      run_name fuel suffix (backwards st) p (b'/' ∷ joined (q ∷ ps)) h n refl (omega (arith, long))
      ∙ ap (λ m. normalise m suffix (backwards (p ∷ st)) (b'/' ∷ joined (q ∷ ps)))
          {y = suc (fuel - length p - 1)} (omega (arith, long))
      ∙ at (fuel - length p - 1) (omega (arith, long))
      ∙ rw (resolve_push, push_name st p n) refl

  -- The end of the path.
  finished :
      (fuel : ℕ) (p : List ℕ) (st : List (List ℕ))
      → normalise fuel suffix (backwards (p ∷ st)) [] ≡ some (render (p ∷ st) ++ suffix)
  unfolding normalise render
  finished fuel p st = refl

  answer_name :
      (st : List (List ℕ)) (p : List ℕ)
      → is_name p ≡ true
      → some (answer suffix st (p ∷ [])) ≡ some (render (p ∷ st) ++ suffix)
  unfolding answer resolve ends_with_slash
  answer_name st [] n = cc
  answer_name st (c ∷ p) n = rw (push_name st (c ∷ p) n) (ground arith)

  pub name_last :
      (st : List (List ℕ)) (p : List ℕ) → Lacks p → is_name p ≡ true → Behind st (p ∷ [])
  unfolding joined backwards
  name_last st p h n fuel k =
      ap (λ l. normalise fuel suffix (b'/' ∷ backwards st) l) (sym (append-nil p))
      ∙ run_name fuel suffix (backwards st) p [] h n refl k
      ∙ finished (fuel - length p) p st
      ∙ sym (answer_name st p n)

  not_second : (p : List ℕ) (st : List (List ℕ)) → (length (b'/' ∷ backwards (p ∷ st)) == 1) ≡ false
  unfolding backwards
  not_second p st = ground (arith, length-append (reverse p) (b'/' ∷ backwards st))

  -- A part ".".
  pass_dot :
      (p : List ℕ) (st : List (List ℕ)) (s : List ℕ)
      → ends_part s ≡ true
      → pass (b'/' ∷ backwards (p ∷ st)) b'.' s ≡ go_on (backwards (p ∷ st)) s
  unfolding pass
  pass_dot p st [] e = ground (arith, not_second p st)
  pass_dot p st (c ∷ s) e = ground (arith, not_second p st)

  root_dot_end : pass (b'/' ∷ []) b'.' [] ≡ append_password (b'/' ∷ [])
  unfolding pass
  root_dot_end = refl

  root_dot : (s : List ℕ) → pass (b'/' ∷ []) b'.' (b'/' ∷ s) ≡ go_on (b'/' ∷ []) s
  unfolding pass
  root_dot s = ground arith

  pub dot_last : (st : List (List ℕ)) → Behind st ((b'.' ∷ []) ∷ [])
  unfolding joined answer resolve push ends_with_slash render backwards
  dot_last [] zero k = absurd (omega (arith, k))
  dot_last [] (suc fuel) k = normalise_append fuel suffix (b'/' ∷ []) b'.' [] root_dot_end
  dot_last (p ∷ st) zero k = absurd (omega (arith, k))
  dot_last (p ∷ st) (suc fuel) k =
      normalise_go_on fuel suffix (b'/' ∷ backwards (p ∷ st)) b'.' [] (pass_dot p st [] refl)
      ∙ finished fuel p st

  pub At-dot :
      (st : List (List ℕ)) (q : List ℕ) (ps : List (List ℕ))
      → (st ≡ [] → Behind [] (q ∷ ps))
      → At st (q ∷ ps)
      → Behind st ((b'.' ∷ []) ∷ q ∷ ps)
  unfolding joined push backwards
  At-dot st q ps b at zero k = absurd (omega (arith, k))
  At-dot [] q ps b at (suc fuel) k =
      normalise_go_on fuel suffix (b'/' ∷ []) b'.' (b'/' ∷ joined (q ∷ ps))
        (root_dot (joined (q ∷ ps)))
      ∙ b refl fuel (omega (arith, k))
      ∙ ap some (sym (resolve_push [] (b'.' ∷ []) q ps))
  At-dot (p ∷ st) q ps b at (suc zero) k = absurd (omega (arith, k))
  At-dot (p ∷ st) q ps b at (suc (suc fuel)) k =
      normalise_go_on (suc fuel) suffix (b'/' ∷ backwards (p ∷ st)) b'.' (b'/' ∷ joined (q ∷ ps))
        (pass_dot p st (b'/' ∷ joined (q ∷ ps)) refl)
      ∙ at fuel (omega (arith, k))
      ∙ ap some (sym (resolve_push (p ∷ st) (b'.' ∷ []) q ps))

  -- A part "..".
  root_parent_end : pass (b'/' ∷ []) b'.' (b'.' ∷ []) ≡ append_password (b'/' ∷ [])
  unfolding pass
  root_parent_end = refl

  root_parent : (s : List ℕ) → pass (b'/' ∷ []) b'.' (b'.' ∷ b'/' ∷ s) ≡ go_on (b'/' ∷ []) s
  unfolding pass
  root_parent s = ground arith

  back_to_root : (p : List ℕ) → Lacks p → back_to_slash (backwards (p ∷ [])) ≡ []
  back_to_root p h = back_to_slash-backwards (p ∷ []) (h, tt) ∙ unfold backwards in refl

  only_parent :
      (p : List ℕ)
      → Lacks p
      → pass (b'/' ∷ backwards (p ∷ [])) b'.' (b'.' ∷ []) ≡ append_password (b'/' ∷ [])
  unfolding pass
  only_parent p h = ground (arith, not_second p [], back_to_root p h)

  pass_parent :
      (p : List ℕ) (st : List (List ℕ)) (s : List ℕ)
      → AllLack (p ∷ st)
      → ends_part s ≡ true
      → ((length (backwards st) == 0) ≡ false) ⊎ ((length s == 0) ≡ false)
      → pass (b'/' ∷ backwards (p ∷ st)) b'.' (b'.' ∷ s) ≡ go_on (backwards st) s
  unfolding pass
  pass_parent p st [] h e (inl some_dir) =
      ground (arith, not_second p st, back_to_slash-backwards (p ∷ st) h)
  pass_parent p st [] h e (inr not_end) = cc
  pass_parent p st (c ∷ s) h e f =
      ground (arith, not_second p st, back_to_slash-backwards (p ∷ st) h)

  not_root : (p : List ℕ) (st : List (List ℕ)) → (length (backwards (p ∷ st)) == 0) ≡ false
  unfolding backwards
  not_root p st = ground (arith, length-append (reverse p) (b'/' ∷ backwards st))

  pub parent_last : (st : List (List ℕ)) → AllLack st → Behind st ((b'.' ∷ b'.' ∷ []) ∷ [])
  unfolding joined answer resolve push ends_with_slash
  parent_last st h zero k = absurd (omega (arith, k))
  parent_last [] h (suc fuel) k =
      normalise_append fuel suffix (b'/' ∷ []) b'.' (b'.' ∷ []) root_parent_end
  parent_last (p ∷ []) h (suc fuel) k =
      normalise_append fuel suffix (b'/' ∷ backwards (p ∷ [])) b'.' (b'.' ∷ []) (only_parent p h.0)
  parent_last (p ∷ q ∷ st) h (suc fuel) k =
      normalise_go_on fuel suffix (b'/' ∷ backwards (p ∷ q ∷ st)) b'.' (b'.' ∷ [])
        (pass_parent p (q ∷ st) [] h refl (inl (not_root q st)))
      ∙ finished fuel q st

  pub At-parent :
      (st : List (List ℕ)) (q : List ℕ) (ps : List (List ℕ))
      → AllLack st
      → (st ≡ [] → Behind [] (q ∷ ps))
      → At (drop 1 st) (q ∷ ps)
      → Behind st ((b'.' ∷ b'.' ∷ []) ∷ q ∷ ps)
  unfolding joined push backwards
  At-parent st q ps h b at zero k = absurd (omega (arith, k))
  At-parent [] q ps h b at (suc fuel) k =
      normalise_go_on fuel suffix (b'/' ∷ backwards []) b'.' (b'.' ∷ b'/' ∷ joined (q ∷ ps))
        (root_parent (joined (q ∷ ps)))
      ∙ b refl fuel (omega (arith, k))
      ∙ ap some (sym (resolve_push [] (b'.' ∷ b'.' ∷ []) q ps))
  At-parent (p ∷ st) q ps h b at (suc zero) k = absurd (omega (arith, k))
  At-parent (p ∷ st) q ps h b at (suc (suc fuel)) k =
      normalise_go_on (suc fuel) suffix (b'/' ∷ backwards (p ∷ st)) b'.'
        (b'.' ∷ b'/' ∷ joined (q ∷ ps))
        (pass_parent p st (b'/' ∷ joined (q ∷ ps)) h refl (inr (ground arith)))
      ∙ at fuel (omega (arith, k))
      ∙ ap some (sym (resolve_push (p ∷ st) (b'.' ∷ b'.' ∷ []) q ps))

  -- Nothing behind the first slash.
  pub root_last : Behind [] ([] ∷ [])
  unfolding joined answer resolve push ends_with_slash render backwards normalise
  root_last fuel k = refl

  -- A slash, by what stands behind it.
  pass_slash :
      (before : List ℕ) (c : ℕ) (x : List ℕ)
      → c ≢ b'/'
      → pass before b'/' (c ∷ x) ≡ go_on (b'/' ∷ before) (c ∷ x)
  unfolding pass
  pass_slash before c x h = ground arith

  pass_root_end : pass [] b'/' [] ≡ go_on (b'/' ∷ []) []
  unfolding pass
  pass_root_end = refl

  pass_last_slash :
      (p : List ℕ) (st : List (List ℕ))
      → pass (backwards (p ∷ st)) b'/' [] ≡ plain (reverse (backwards (p ∷ st)))
  unfolding pass
  pass_last_slash p st = ground (arith, not_root p st)

  pass_double : (before x : List ℕ) → pass before b'/' (b'/' ∷ x) ≡ pass before b'/' x
  unfolding pass
  pass_double before x = refl

  normalise_double :
      (fuel : ℕ) (before x : List ℕ)
      → normalise (suc fuel) suffix before (b'/' ∷ b'/' ∷ x)
        ≡ normalise (suc fuel) suffix before (b'/' ∷ x)
  unfolding normalise
  normalise_double fuel before x = rw (pass_double before x, normalise) refl

  joined_first :
      (c : ℕ) (p : List ℕ) (ps : List (List ℕ)) → joined ((c ∷ p) ∷ ps) ≡ c ∷ joined (p ∷ ps)
  unfolding joined
  joined_first c p [] = refl
  joined_first c p (q ∷ ps) = refl

  pub At-part :
      (st : List (List ℕ)) (c : ℕ) (p : List ℕ) (ps : List (List ℕ))
      → c ≢ b'/'
      → Behind st ((c ∷ p) ∷ ps)
      → At st ((c ∷ p) ∷ ps)
  At-part st c p ps hc b fuel k =
      normalise_go_on fuel suffix (backwards st) b'/' (joined ((c ∷ p) ∷ ps))
        (rw (joined_first c p ps) (pass_slash (backwards st) c (joined (p ∷ ps)) hc))
      ∙ b fuel k

  pub At-end : (st : List (List ℕ)) → At st ([] ∷ [])
  unfolding joined answer resolve push ends_with_slash backwards
  At-end [] fuel k = normalise_go_on fuel suffix [] b'/' [] pass_root_end ∙ unfold normalise in refl
  At-end (p ∷ st) fuel k =
      normalise_plain fuel suffix (backwards (p ∷ st)) b'/' [] (pass_last_slash p st)
      ∙ (ground arith)

  pub At-double :
      (st : List (List ℕ)) (q : List ℕ) (ps : List (List ℕ)) → At st (q ∷ ps) → At st ([] ∷ q ∷ ps)
  unfolding joined push
  At-double st q ps at fuel k =
      normalise_double fuel (backwards st) (joined (q ∷ ps))
      ∙ at fuel (omega (arith, k))
      ∙ ap some (sym (resolve_push st [] q ps))

-- A part is empty, ".", ".." or a name.
pub by_part :
    (P : List ℕ → Type 0) (p : List ℕ)
    → P []
    → P (b'.' ∷ [])
    → P (b'.' ∷ b'.' ∷ [])
    → (is_name p ≡ true → P p)
    → P p
by_part P [] e d dd n = e
by_part P (c ∷ []) e d dd n = elim (Bool-cases (c == b'.')) [
  | inl is ↦ rw ((==_iff c b'.').0 is) d
  | inr is_not ↦ n (ground (arith, is_not))
]
by_part P (c ∷ x ∷ []) e d dd n = elim (Bool-cases (c == b'.' && x == b'.')) [
  | inl is ↦ (let eqs : (c ≡ b'.') × (x ≡ b'.') = ground arith in rw (eqs.0, eqs.1) dd)
  | inr is_not ↦ n (ground (arith, is_not))
]
by_part P (c ∷ x ∷ y ∷ p) e d dd n = n (ground arith)

-- A path may go on behind the slash of `st` where the loop has left no slash behind.
abbrev pub Front : List ℕ → List (List ℕ) → List (List ℕ) → Type 0
Front p ps st = p ≡ [] → (ps ≡ []) × (st ≡ [])
