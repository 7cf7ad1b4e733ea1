-- ===== src/Hosts/Insert.antt =====
-- The insertion of `find_host`: room is made, and the entries from the place on move up by one.
use fsp.Base.{
  ℕ, ◌+◌, ◌-◌, ◌≤◌, ◌<◌, ◌≡◌, refl, ◌∙◌, ◌&&◌, List, ◌++◌, length, length-append, get_elem?,
  get_elem?-set, get_elem?-append, set, ltb, leb, ◌==◌, if◌then◌else◌, some, arith, inl, inr,
  Bool-cases,
}
use fsp.Hosts.{Host, Htab, Env, reserve, shift, halloc_size}
use fsp.Hosts.Array.{get_elem?-shift, length-shift}

-- What `realloc` is documented to do: it fails, or HALLOC_SIZE cells are added.
pub record Grows (env : Env) (more : List Host) : Type 0 where
  pub given : env.grow ≡ some more
  pub full : length more ≡ halloc_size

pub record Reserved (t : Htab) (c : List Host) : Type 0 where
  pub room : t.hcnt < length c
  pub kept : (i : ℕ) → i < t.hcnt → get_elem? c i ≡ get_elem? t.cells i

pub reserve-Reserved :
    (env : Env) (t : Htab) {more : List Host}
    → t.hcnt ≤ length t.cells
    → Grows env more
    → (c : List Host) × (reserve env t ≡ some c) × Reserved t c
unfolding reserve
reserve-Reserved env t {more} h g = elim (Bool-cases (ltb (length t.cells) (t.hcnt + 1))) [
  | inl full ↦ (
    t.cells ++ more,
    rw (full, g.given),
    record {
      room = ground (arith, length-append t.cells more, g.full);
      kept = λ i hi. get_elem?-append t.cells more i (omega arith);
    },
  )
  | inr free ↦ (t.cells, rw free, record { room = ground arith; kept = λ i hi. refl })
]

-- The cells once the entry is in place.
pub get_elem?-place :
    (c : List Host) (k m j : ℕ) (e : Host)
    → m ≤ k
    → k < length c
    → get_elem? (set (shift (k - m) k c) m e) j ≡ (
        if j == m
        then some e
        else (if ltb m j && leb j k then get_elem? c (j - 1) else get_elem? c j))
get_elem?-place c k m j e hm hk =
    let back : k - (k - m) ≡ m = omega arith in
    get_elem?-set (shift (k - m) k c) m j e (omega (arith, length-shift (k - m) k c))
    ∙ rw (get_elem?-shift (k - m) k j c (omega arith) hk, back)
