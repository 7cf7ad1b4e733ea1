-- ===== src/Hosts/Place.antt =====
-- A new record put at its place in the client table keeps the table sorted and all its records.
use fsp.Base.{
  ℕ, ◌+◌, ◌-◌, ◌≤◌, ◌<◌, ◌^◌, ◌≡◌, refl, ◌∙◌, ◌≢◌, ◌↔◌, List, length-set, get_elem?, set, ltb, ◌==◌,
  if◌then◌else◌, some, arith, inl, inr, Bool-cases,
}
use fsp.Hosts.{Host, Htab, shift}
use fsp.Hosts.Array.{length-shift}
use fsp.Hosts.Search.{inet_at}
use fsp.Hosts.Insert.{Reserved, get_elem?-place}
use fsp.Hosts.Inv.{Inv, Holds}

module _ (t : Htab) (v : Inv t) (c : List Host) (r : Reserved t c) (m : ℕ) (e : Host) (low : 0 < m)
    (high : m < t.hcnt) (room : t.hcnt + 1 < 2 ^ 31) (above : inet_at t.cells (m - 1) < e.inet_num)
    (below : e.inet_num < inet_at t.cells m) where
  abbrev pub placed : Htab
  placed = record { cells = set (shift (t.hcnt - m) t.hcnt c) m e; hcnt = t.hcnt + 1 }

  pub get_elem?-placed :
      (j : ℕ)
      → j ≤ t.hcnt
      → get_elem? placed.cells j
        ≡ (if j == m then some e else get_elem? t.cells (if ltb m j then j - 1 else j))
  get_elem?-placed j h =
      ground (arith, get_elem?-place c t.hcnt m j e (omega arith) r.room, r.kept j, r.kept (j - 1))

  inet_at-placed :
      (j : ℕ)
      → j ≤ t.hcnt
      → inet_at placed.cells j
        ≡ (if j == m then e.inet_num else inet_at t.cells (if ltb m j then j - 1 else j))
  inet_at-placed j h = elim (Bool-cases (j == m)) [
    | inl p ↦
        let q : get_elem? placed.cells j ≡ some e = get_elem?-placed j h ∙ rw p refl in
        rw (q, inet_at, p) refl
    | inr p ↦
        let i = if ltb m j then j - 1 else j in
        let q : get_elem? placed.cells j ≡ get_elem? t.cells i = get_elem?-placed j h ∙ rw p refl in
        rw (q, inet_at, p) refl
  ]

  placed-sorted :
      (i j : ℕ) → i < j → j < t.hcnt + 1 → inet_at placed.cells i < inet_at placed.cells j
  placed-sorted i j a b = ground (
    arith,
    inet_at-placed i (omega arith),
    inet_at-placed j (omega arith),
    v.sorted i j,
    v.sorted i (m - 1),
    v.sorted i (j - 1),
    v.sorted m (j - 1),
    v.sorted (i - 1) (j - 1),
    above,
    below,
  )

  pub placed-Inv : Inv placed
  placed-Inv = record {
    fits = omega (
      arith,
      length-set (shift (t.hcnt - m) t.hcnt c) m e,
      length-shift (t.hcnt - m) t.hcnt c,
      r.room,
    );
    small = room;
    marks = omega (arith, v.marks);
    first = ground (arith, inet_at-placed 0 (omega arith), v.first);
    last = ground (arith, inet_at-placed t.hcnt (omega arith), v.last);
    sorted = placed-sorted;
  }

  pub placed-others : (h : Host) → h.inet_num ≢ e.inet_num → Holds placed h ↔ Holds t h
  placed-others h ne = (
    λ (j, hj, p). (
      (if ltb m j then j - 1 else j),
      ground (arith, get_elem?-placed j (omega arith), p, ne),
      ground (arith, get_elem?-placed j (omega arith), p, ne),
    ),
    λ (j, hj, p). (
      (if ltb j m then j else j + 1),
      ground arith,
      ground
          (arith, get_elem?-placed j (omega arith), get_elem?-placed (j + 1) (omega arith), p, ne),
    ),
  )
