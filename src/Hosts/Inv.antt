-- ===== src/Hosts/Inv.antt =====
-- The invariant of the client table: sorted between its two end marks. What a write over a record
-- of the same client keeps.
use fsp.Base.{
  ℕ, ◌-◌, ◌≤◌, ◌<◌, ◌^◌, ◌≡◌, refl, sym, ◌∙◌, ◌≢◌, ◌↔◌, List, length, length-set, get_elem?,
  get_elem?-set, set, ◌==◌, if◌then◌else◌, some, arith, inl, inr, Bool-cases, ==_iff, [], ◌∷◌,
}
use fsp.Hosts.{Host, hzero, Htab, init_htab, halloc_size}
use fsp.Hosts.Search.{inet_at}

-- 0 and ~0U, the addresses of the end marks.
abbrev pub max_inet : ℕ
max_inet = 2 ^ 32 - 1

pub record Inv (t : Htab) : Type 0 where
  pub fits : t.hcnt ≤ length t.cells
  pub small : t.hcnt < 2 ^ 31
  pub marks : 2 ≤ t.hcnt
  pub first : inet_at t.cells 0 ≡ 0
  pub last : inet_at t.cells (t.hcnt - 1) ≡ max_inet
  pub sorted : (i j : ℕ) → i < j → j < t.hcnt → inet_at t.cells i < inet_at t.cells j

-- The record is one of those in use.
abbrev pub Holds : Htab → Host → Type 0
Holds t e = (i : ℕ) × (i < t.hcnt) × (get_elem? t.cells i ≡ some e)

-- In the cells that `malloc` gives, the table with the two end marks satisfies the invariant.
pub init_htab-Inv :
    (cells : List Host)
    → length cells ≡ halloc_size
    → (t : Htab) × (init_htab (some cells) ≡ some t) × (t.hcnt ≡ 2) × Inv t
unfolding init_htab
init_htab-Inv [] h = absurd (omega arith)
init_htab-Inv (x ∷ []) h = absurd (omega arith)
init_htab-Inv (x ∷ y ∷ r) h = (
  record { cells = hzero ∷ record hzero { inet_num = 2 ^ 32 - 1 } ∷ r; hcnt = 2 },
  refl,
  refl,
  record {
    fits = omega arith;
    small = omega arith;
    marks = omega arith;
    first = refl;
    last = refl;
    sorted = λ i j a b.
        let ei : i ≡ 0 = omega arith in let ej : j ≡ 1 = omega arith in rw (ei, ej) (omega arith);
  },
)

pub inet_at-eq :
    (c : List Host) (i : ℕ) {e : Host} → get_elem? c i ≡ some e → inet_at c i ≡ e.inet_num
inet_at-eq c i p = rw (p, inet_at)

module _ (t : Htab) (v : Inv t) (m : ℕ) (hm : m < t.hcnt) (e : Host)
    (at : get_elem? t.cells m ≡ some e) (e' : Host) (same : e'.inet_num ≡ e.inet_num) where
  -- A record written over one of the same client.
  abbrev pub over : Htab
  over = record t { cells = set t.cells m e' }

  pub get_elem?-over :
      (j : ℕ) → get_elem? over.cells j ≡ (if j == m then some e' else get_elem? t.cells j)
  get_elem?-over j = get_elem?-set t.cells m j e' (omega (arith, v.fits))

  pub inet_at-over : (j : ℕ) → inet_at over.cells j ≡ inet_at t.cells j
  inet_at-over j = elim (Bool-cases (j == m)) [
    | inl p ↦
        let q : get_elem? t.cells j ≡ some e = rw ((==_iff j m).0 p) at in
        let r : get_elem? over.cells j ≡ some e' = get_elem?-over j ∙ rw p refl in
        inet_at-eq over.cells j {e = e'} r ∙ same ∙ sym (inet_at-eq t.cells j {e = e} q)
    | inr p ↦
        let r : get_elem? over.cells j ≡ get_elem? t.cells j = get_elem?-over j ∙ rw p refl in
        rw (r, inet_at) refl
  ]

  pub over-Inv : Inv over
  over-Inv = record {
    fits = omega (arith, length-set t.cells m e', v.fits);
    small = v.small;
    marks = v.marks;
    first = inet_at-over 0 ∙ v.first;
    last = inet_at-over (t.hcnt - 1) ∙ v.last;
    sorted = λ i j a b. rw (inet_at-over i, inet_at-over j) (v.sorted i j a b);
  }

  pub over-others : (h : Host) → h.inet_num ≢ e.inet_num → Holds over h ↔ Holds t h
  over-others h ne = (
    λ (j, hj, p). (j, hj, ground (arith, get_elem?-over j, p, ne)),
    λ (j, hj, p). (j, hj, ground (arith, get_elem?-over j, p, ne, at)),
  )
