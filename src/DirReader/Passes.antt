-- ===== src/DirReader/Passes.antt =====
-- The two loops over a block agree: the second fills the room that the first has counted.
use fsp.Base.{
  ℕ, zero, suc, ◌+◌, ◌-◌, ◌≡◌, refl, sym, ◌∙◌, ap, ap₂, Bool, true, false, List, inl, inr, drop, [],
  ◌∷◌, length, some, arith, Option-cases, if◌then◌else◌,
}
use mathlib.Core.Option.{some-injective}
use fsp.Listing.{rdhsize, padding}
use fsp.DirReader.{
  Rdirent, copy_entry, Seen, missing, end_of_block, end_of_listing, another, c_string, look,
  count_entries, copy_entries,
}

-- Where the copies of some entries end, if the first stands at `off`.
abbrev pub end_of : ℕ → List Rdirent → ℕ
end_of off [] = off
end_of off (e ∷ es) =
    let n = length e.name + 1 + rdhsize in end_of (off + (n + padding (off + n))) es

copy_entry-reach :
    (off : ℕ) (bytes : List ℕ) (e : Rdirent) (n : ℕ) (rest : List ℕ)
    → copy_entry off bytes ≡ some (e, (n, rest))
    → n ≡ length e.name + 1 + rdhsize + padding (off + (length e.name + 1 + rdhsize))
unfolding copy_entry
copy_entry-reach off bytes e n rest q = elim (Option-cases (c_string (drop rdhsize bytes))) [
  | inl k ↦ absurd (ground (arith, k, q))
  | inr ((name, r), k) ↦
      let same : e.name ≡ name = cc (k, q) in
      let reach : n ≡ length name + 1 + rdhsize + padding (off + (length name + 1 + rdhsize)) =
        ground (arith, k, q) in
      rw same reach
]

abbrev pub entries_seen : Bool → List Rdirent → ℕ
entries_seen ended es = if ended then suc (length es) else length es

entries_seen-cons :
    (ended : Bool) (e : Rdirent) (es : List Rdirent)
    → suc (entries_seen ended es) ≡ entries_seen ended (e ∷ es)
entries_seen-cons true e es = refl
entries_seen-cons false e es = refl

-- What one round does, for the rest of the loops.
Agrees : ℕ → ℕ → ℕ → List ℕ → Type 0
Agrees fuel off rem bytes =
    (es : List Rdirent) (ended : Bool)
    → copy_entries fuel off rem bytes ≡ some (es, ended)
    → count_entries fuel off rem bytes ≡ some (entries_seen ended es, end_of off es)

round-Agrees :
    (fuel off rem : ℕ) (bytes : List ℕ) (s : Seen)
    → ((off' rem' : ℕ) (rest : List ℕ) → Agrees fuel off' rem' rest)
    → look rem bytes ≡ s
    → Agrees (suc fuel) off rem bytes
unfolding copy_entries count_entries Agrees
round-Agrees fuel off rem bytes missing ih l es ended q = absurd (ground (arith, q, l))
round-Agrees fuel off rem bytes end_of_block ih l es ended q = ground (arith, q, l)
round-Agrees fuel off rem bytes end_of_listing ih l es ended q = ground (arith, q, l)
round-Agrees fuel off rem bytes another ih l es ended q =
    elim (Option-cases (copy_entry off bytes)) [
      | inl k ↦ absurd (ground (arith, k, q, l))
      | inr ((e, (n, rest)), k) ↦ elim (Option-cases (copy_entries fuel (off + n) (rem - n) rest)) [
        | inl m ↦ absurd (ground (arith, k, m, q, l))
        | inr ((es', ended'), m) ↦
            let c = ih (off + n) (rem - n) rest es' ended' m in
            let copied : copy_entries (suc fuel) off rem bytes ≡ some (e ∷ es', ended') =
              rw (l, copy_entries, k, m) refl in
            let counted : count_entries (suc fuel) off rem bytes
                ≡ some (suc (entries_seen ended' es'), end_of (off + n) es') =
              rw (l, count_entries, k, c) refl in
            let same = some-injective (e ∷ es', ended') (es, ended) (sym copied ∙ q) in
            let shift : end_of (off + n) es' ≡ end_of off (e ∷ es') =
              ap (λ (j : ℕ). end_of (off + j) es') (copy_entry-reach off bytes e n rest k) in
            counted
            ∙ ap₂ (λ (i j : ℕ). some (i, j)) (entries_seen-cons ended' e es') shift
            ∙ ap (λ (r : List Rdirent × Bool). some (entries_seen r.1 r.0, end_of off r.0)) same
      ]
    ]

-- Where the second loop ends, the first one has counted its entries, the END entry with them, and the
-- bytes up to the end of the last.
pub copy_entries-counted :
    (fuel off rem : ℕ) (bytes : List ℕ) (es : List Rdirent) (ended : Bool)
    → copy_entries fuel off rem bytes ≡ some (es, ended)
    → count_entries fuel off rem bytes ≡ some (entries_seen ended es, end_of off es)
unfolding Agrees copy_entries
copy_entries-counted zero off rem bytes es ended q = absurd (ground (arith, q))
copy_entries-counted (suc fuel) off rem bytes es ended q =
    round-Agrees fuel off rem bytes (look rem bytes) (copy_entries-counted fuel) refl es ended q
