-- ===== src/FifoCache/Tests.antt =====
-- A cache of two records, with numbers for keys and entries, under a few calls.
use fsp.Base.{ℕ, ◌≡◌, refl, true, List, [], ◌∷◌, get_elem?, ◌==◌, some, arith}
use fsp.FifoCache.{
  free_entry, free_key, Cache, Ops, f_cache_new, f_cache_put, Call, put, find, clear, delete_entry,
  delete_by_key, apply, run,
}
use fsp.FifoCache.Inv.{Inv, blank, blank-Inv, run-new-Inv}
use fsp.FifoCache.Order.{puts, puts_lem}
use fsp.FifoCache.Ledger.{holdings, run-holdings}

abbrev numbers : Ops ℕ ℕ
numbers = record {
  k_destroy = true;
  e_destroy = true;
  compare = some (λ a b. a == b);
  k_zero = 0;
  e_zero = 0;
}

abbrev calls : List (Call ℕ ℕ)
calls =
    put 5 50 ∷ put 6 60 ∷ find 5 ∷ put 7 70 ∷ delete_entry (some 8) ∷ delete_by_key 7 ∷ clear ∷ []

abbrev empty_two : Cache ℕ ℕ
empty_two = blank numbers 2 8 4

empty_two-Inv : Inv empty_two
empty_two-Inv = blank-Inv numbers 2 8 4 (omega arith) (omega arith) (omega arith)

calls_on_a_new_cache :
    (c : Cache ℕ ℕ) × (f_cache_new numbers 2 8 4 ≡ some c) × Inv (run numbers c calls)
calls_on_a_new_cache = run-new-Inv numbers 2 8 4 calls (omega arith) (omega arith) (omega arith)

abbrev three : List (ℕ × ℕ)
three = (5, 50) ∷ (6, 60) ∷ (7, 70) ∷ []

puts_lem_example :
    (get_elem? (puts numbers empty_two three).keys 0 ≡ some 7)
    × (get_elem? (puts numbers empty_two three).entries 0 ≡ some 70)
puts_lem_example = puts_lem numbers three empty_two 2 7 70 empty_two-Inv refl (omega arith)

run-holdings_example :
    holdings numbers (λ k. k == 5) (λ e. e == 70) refl refl refl refl (run numbers empty_two calls)
    ≡ 2
run-holdings_example =
    run-holdings numbers (λ k. k == 5) (λ e. e == 70) refl refl refl refl empty_two calls
      empty_two-Inv

-- The third put destroyed the first.
evicted : (run numbers empty_two (put 5 50 ∷ put 6 60 ∷ put 7 70 ∷ [])).freed_keys ≡ 5 ∷ 0 ∷ 0 ∷ []
unfolding run apply f_cache_put free_entry free_key
evicted = refl
