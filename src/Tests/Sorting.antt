-- ===== src/Tests/Sorting.antt =====
-- sort.c on four numbers.
use c_operating_system.Prelude.{ℕ, ◌≡◌, refl, leb, true, false, [], ◌∷◌, get_or, arith}
use c_operating_system.Sorting.{swap, walk, partition, quicksort}
use c_operating_system.Sorting.Shuffle.{Shuffled}
use c_operating_system.Sorting.Sorted.{Sorted, quicksort_sorts}

abbrev exact : ℕ → ℕ
exact a = a

abbrev random : ℕ → ℕ → ℕ
random s e = 7

abbrev numbers : ℕ → ℕ
numbers i = get_or (4 ∷ 1 ∷ 3 ∷ 2 ∷ []) i 9

abbrev result : ℕ → ℕ
result = quicksort leb exact random 4 0 3 numbers

result_values : (result 0 ≡ 1) × (result 1 ≡ 2) × (result 2 ≡ 3) × (result 3 ≡ 4)
unfolding quicksort partition walk swap
result_values = (refl, refl, refl, refl)

leb-total : (a b : ℕ) → leb a b ≡ false → leb b a ≡ true
leb-total a b h = ground (arith, h)

quicksort_sorts_example : Sorted leb 0 3 result × Shuffled 0 3 numbers result
quicksort_sorts_example =
    quicksort_sorts leb exact random 4 0 3 numbers leb-total (omega arith) (omega arith)
      (λ j l l'. refl)
