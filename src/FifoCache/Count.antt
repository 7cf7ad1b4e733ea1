-- ===== src/FifoCache/Count.antt =====
-- Counting the elements of a block of the cache that are of some kind.
use fsp.Base.{
  subst, ℕ, zero, suc, ◌+◌, ◌<◌, ◌≡◌, refl, ◌∙◌, ap, Bool, false, List, [], ◌∷◌, length, get_elem?,
  set, replicate, if◌then◌else◌, none, some, arith,
}

abbrev pub tally : Bool → ℕ
tally b = if b then 1 else 0

-- How many elements pass a test.
abbrev pub count : {A : Type 0} → (A → Bool) → List A → ℕ
count p [] = 0
count p (x ∷ xs) = tally (p x) + count p xs

abbrev pub count_at : {A : Type 0} → (A → Bool) → List A → ℕ → ℕ
count_at p xs i = elim (get_elem? xs i) [ none ↦ 0 | some x ↦ tally (p x) ]

module _ {A : Type 0} (p : A → Bool) where
  pub count-set :
      (xs : List A) (i : ℕ) (v : A)
      → i < length xs
      → count p (set xs i v) + count_at p xs i ≡ count p xs + tally (p v)
  count-set [] i v h = absurd (omega arith)
  count-set (x ∷ xs) zero v h = omega arith
  count-set (x ∷ xs) (suc i) v h = omega (arith, count-set xs i v (omega arith))

  pub count-replicate : (n : ℕ) (z : A) → p z ≡ false → count p (replicate n z) ≡ 0
  count-replicate zero z h = refl
  count-replicate (suc n) z h = ground (arith, count-replicate n z h)

  -- The elements from the index `i` on.
  unfoldable pub count_from : List A → ℕ → ℕ → ℕ
  count_from xs zero i = 0
  count_from xs (suc n) i = count_at p xs i + count_from xs n (i + 1)

  count_from-cons :
      (x : A) (xs : List A) (n i : ℕ) → count_from (x ∷ xs) n (suc i) ≡ count_from xs n i
  unfolding count_from
  count_from-cons x xs zero i = refl
  count_from-cons x xs (suc n) i =
      ap (λ k. count_at p xs i + k)
        (ap (count_from (x ∷ xs) n) {y = suc (i + 1)} (omega arith)
          ∙ count_from-cons x xs n (i + 1))

  pub count_from-all : (xs : List A) → count_from xs (length xs) 0 ≡ count p xs
  unfolding count_from
  count_from-all [] = refl
  count_from-all (x ∷ xs) =
      ap (λ k. tally (p x) + k)
        (ap (count_from (x ∷ xs) (length xs)) {x = 0 + 1} {y = suc 0} (omega arith)
          ∙ count_from-cons x xs (length xs) 0
          ∙ count_from-all xs)

  pub count_to : (xs : List A) (n : ℕ) → length xs ≡ n → count_from xs n 0 ≡ count p xs
  count_to xs n h = subst (λ m. count_from xs m 0 ≡ count p xs) h (count_from-all xs)
