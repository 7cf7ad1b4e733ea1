-- ===== src/Hosts/Array.antt =====
-- The array operations of `find_host`, cell by cell.
use fsp.Base.{
  ℕ, zero, suc, ◌-◌, ◌≤◌, ◌<◌, ◌≡◌, refl, ◌∙◌, ◌&&◌, List, length, length-set, get_elem?, set,
  get_elem?-set, get_elem?-in_range, ltb, leb, ◌==◌, if◌then◌else◌, none, some, arith,
}
use fsp.Hosts.{Host, copy_cell, shift}

length-copy_cell : (c : List Host) (i j : ℕ) → length (copy_cell c i j) ≡ length c
unfolding copy_cell
length-copy_cell c i j =
    elim (get_elem? c i) as (λ o. length (elim o [ none ↦ c | some e ↦ set c j e ]) ≡ length c) [
      | none ↦ refl
      | some e ↦ length-set c j e
    ]

pub length-shift : (i k : ℕ) (c : List Host) → length (shift i k c) ≡ length c
unfolding shift
length-shift zero k c = refl
length-shift (suc i) k c =
    length-shift i (k - 1) (copy_cell c (k - 1) k) ∙ length-copy_cell c (k - 1) k

get_elem?-copy_cell :
    (c : List Host) (i k j : ℕ)
    → i < length c
    → k < length c
    → get_elem? (copy_cell c i k) j ≡ (if j == k then get_elem? c i else get_elem? c j)
unfolding copy_cell
get_elem?-copy_cell c i k j hi hk =
    let (a, e) = get_elem?-in_range c i hi in rw (e, copy_cell) (get_elem?-set c k j a hk)

-- The loop moves the cells `k - i` to `k - 1` up by one, and leaves the others.
pub get_elem?-shift :
    (i k j : ℕ) (c : List Host)
    → i ≤ k
    → k < length c
    → get_elem? (shift i k c) j
      ≡ (if ltb (k - i) j && leb j k then get_elem? c (j - 1) else get_elem? c j)
unfolding shift
get_elem?-shift zero k j c h hk = ground arith
get_elem?-shift (suc i) k j c h hk =
    let c' = copy_cell c (k - 1) k in
    ground (
      arith,
      get_elem?-shift i (k - 1) j c' (omega arith) (omega (arith, length-copy_cell c (k - 1) k)),
      get_elem?-copy_cell c (k - 1) k j (omega arith) hk,
      get_elem?-copy_cell c (k - 1) k (j - 1) (omega arith) hk,
    )
