-- ===== src/Tests/Matrix.antt =====
-- dense_mm.c and parallel_dense_mm.c on two matrices of size 2, with natural numbers for `double`.
use c_operating_system.Prelude.{
  ℕ, zero, suc, ◌+◌, ◌*◌, ◌<◌, ◌≡◌, refl, true, some, List, [], ◌∷◌, ◌++◌, replicate, arith,
}
use c_operating_system.Threads.{turn, run}
use c_operating_system.Matrix.{
  main, squared_size, entry, finished, index_loop, col_loop, row_loop, multiply, step, cleared,
}
use c_operating_system.Matrix.Mapped
use c_operating_system.Matrix.Mapped.Areas.{mapped_product}
use c_operating_system.Paging.{offset, get_pages_count}
use c_operating_system.Matrix.Product.{dot, main_product}
use c_operating_system.Matrix.Columns.{after, parallel-multiply}

abbrev plus : ℕ → ℕ → ℕ
plus a b = a + b

abbrev times : ℕ → ℕ → ℕ
times a b = a * b

-- 1 2 over 3 4, and 5 6 over 7 8
abbrev A : ℕ → ℕ
A i = i + 1

abbrev B : ℕ → ℕ
B i = i + 5

abbrev C : ℕ → ℕ
C = cleared 0 2 (λ i. 9)

product :
    (multiply plus times 2 A B C 0 ≡ 19)
    × (multiply plus times 2 A B C 1 ≡ 22)
    × (multiply plus times 2 A B C 2 ≡ 43)
    × (multiply plus times 2 A B C 3 ≡ 50)
    × (multiply plus times 2 A B C 4 ≡ 9)
unfolding index_loop col_loop row_loop entry
product = (refl, refl, refl, refl, refl)

-- At the largest size that the program accepts the arrays have no entry.
nothing_allocated : squared_size 65536 ≡ 0
nothing_allocated = refl

main_product_example :
    (main 0 plus times 2 A B (λ i. 9) ≡ some (multiply plus times 2 A B (cleared 0 2 (λ i. 9))))
    × (entry 2 1 0 < squared_size 2)
    × (multiply plus times 2 A B (cleared 0 2 (λ i. 9)) (entry 2 1 0)
        ≡ dot plus times 2 A B 1 0 2 0)
main_product_example =
    main_product 0 plus times 2 A B (λ i. 9) (omega arith) 1 0 (omega arith) (omega arith)

-- The second column first, then the two in turns.
abbrev turns : List ℕ
turns = replicate 7 1 ++ (0 ∷ 0 ∷ 1 ∷ 0 ∷ 1 ∷ 0 ∷ 1 ∷ []) ++ replicate 12 0 ++ replicate 8 1

turns_finish : (col : ℕ) → col < 2 → (after plus times 2 A B C turns).locals col ≡ finished
unfolding run turn step
turns_finish zero lt = refl
turns_finish (suc zero) lt = refl
turns_finish (suc (suc col)) lt = absurd (omega arith)

parallel-multiply_example :
    ((after plus times 2 A B C turns).shared (entry 2 1 0)
      ≡ multiply plus times 2 A B C (entry 2 1 0))
    × ((after plus times 2 A B C turns).shared 4 ≡ multiply plus times 2 A B C 4)
parallel-multiply_example =
    parallel-multiply plus times 2 A B C turns (omega arith) turns_finish 1 0 (omega arith)
      (omega arith) 4 (omega arith)

mapped_product_example :
    (Mapped.main plus times 2 true (some A) (some B) (some C)
      ≡ Mapped.multiplied (multiply plus times 2 A B C))
    × (multiply plus times 2 A B C (entry 2 1 0) ≡ dot plus times 2 A B 1 0 2 (C (entry 2 1 0)))
    × (Mapped.address 8192 (entry 2 1 0) < (Mapped.area 8192 2).vm_end)
    × (offset (Mapped.area 8192 2) (Mapped.address 8192 (entry 2 1 0))
        < get_pages_count (Mapped.area 8192 2))
mapped_product_example =
    mapped_product plus times 8192 2 A B C (omega arith) (omega arith) 1 0 (omega arith)
      (omega arith)
