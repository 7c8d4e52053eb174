-- ===== src/Matrix/Product.antt =====
-- dense_mm.c: what its three loops leave in C.
use c_operating_system.Prelude.{
  ℕ, zero, suc, ◌≤◌, ◌<◌, ◌≡◌, ◌≢◌, refl, ap, ◌∙◌, some, inl, inr, ◌⊎◌, ◌*◌, arith,
}
use c_operating_system.Matrix.{
  sqrt_of_uint32_max, squared_size, main, cleared, entry, index_loop, col_loop, row_loop, multiply,
}
use c_operating_system.Matrix.Index.{last-or-before, entry-inj, entry-lt, entry-allocated}

module _ {D : Type 0} (plus times : D → D → D) (n : ℕ) (A B : ℕ → D) where
  -- The first k products of a row of A and a column of B, added to `initial` in their order.
  abbrev pub dot : ℕ → ℕ → ℕ → D → D
  dot row col zero initial = initial
  dot row col (suc k) initial =
      plus (dot row col k initial) (times (A (entry n row k)) (B (entry n k col)))

  -- The loop over `index` writes one entry.
  index_loop_self :
      (row col k : ℕ) (C : ℕ → D)
      → index_loop plus times n A B row col k C (entry n row col)
        ≡ dot row col k (C (entry n row col))
  unfolding index_loop
  index_loop_self row col zero C = refl
  index_loop_self row col (suc k) C = ground (arith, index_loop_self row col k C)

  index_loop_other :
      (row col k : ℕ) (C : ℕ → D) (j : ℕ)
      → entry n row col ≢ j
      → index_loop plus times n A B row col k C j ≡ C j
  unfolding index_loop
  index_loop_other row col zero C j h = refl
  index_loop_other row col (suc k) C j h = ground (arith, index_loop_other row col k C j h, h)

  -- The loop over `col` writes a row.
  col_loop_other :
      (row k : ℕ) (C : ℕ → D) (j : ℕ)
      → ((col : ℕ) → col < k → entry n row col ≢ j)
      → col_loop plus times n A B row k C j ≡ C j
  unfolding col_loop
  col_loop_other row zero C j h = refl
  col_loop_other row (suc k) C j h =
      index_loop_other row k n (col_loop plus times n A B row k C) j (h k (omega arith))
      ∙ col_loop_other row k C j (λ col lt. h col (omega arith))

  module _ (small : n ≤ sqrt_of_uint32_max) where
    -- Two entries of the matrix with different places.
    apart :
        (row col row' col' : ℕ)
        → row < n
        → col < n
        → row' < n
        → col' < n
        → (row ≢ row') ⊎ (col ≢ col')
        → entry n row col ≢ entry n row' col'
    apart row col row' col' h i h' i' (inl ne) e =
        ne (entry-inj n small row col row' col' h i h' i' e).0
    apart row col row' col' h i h' i' (inr ne) e =
        ne (entry-inj n small row col row' col' h i h' i' e).1

    col_loop_last :
        (row k : ℕ) (C : ℕ → D)
        → row < n
        → k < n
        → col_loop plus times n A B row (suc k) C (entry n row k) ≡ dot row k n (C (entry n row k))
    unfolding col_loop
    col_loop_last row k C h lt =
        index_loop_self row k n (col_loop plus times n A B row k C)
        ∙ ap (dot row k n) (
            col_loop_other row k C (entry n row k)
              (λ col before. apart row col row k h (omega arith) h lt (inr (omega arith))))

    col_loop_done :
        (row k : ℕ) (C : ℕ → D) (col : ℕ)
        → row < n
        → k ≤ n
        → col < k
        → col_loop plus times n A B row k C (entry n row col) ≡ dot row col n (C (entry n row col))
    unfolding col_loop
    col_loop_done row zero C col h le lt = elim lt [ ]
    col_loop_done row (suc k) C col h le lt = elim (last-or-before col k lt) [
      | inl same ↦ rw same (col_loop_last row k C h le)
      | inr before ↦
          index_loop_other row k n (col_loop plus times n A B row k C) (entry n row col)
            (apart row k row col h le h (omega arith) (inr (omega arith)))
          ∙ col_loop_done row k C col h (omega arith) before
    ]

    -- The loop over `row` writes all of them.
    row_loop_other :
        (k : ℕ) (C : ℕ → D) (j : ℕ)
        → ((row col : ℕ) → row < k → col < n → entry n row col ≢ j)
        → row_loop plus times n A B k C j ≡ C j
    unfolding row_loop
    row_loop_other zero C j h = refl
    row_loop_other (suc k) C j h =
        col_loop_other k n (row_loop plus times n A B k C) j (λ col. h k col (omega arith))
        ∙ row_loop_other k C j (λ row col lt. h row col (omega arith))

    row_loop_last :
        (k : ℕ) (C : ℕ → D) (col : ℕ)
        → k < n
        → col < n
        → row_loop plus times n A B (suc k) C (entry n k col) ≡ dot k col n (C (entry n k col))
    unfolding row_loop
    row_loop_last k C col lt h =
        col_loop_done k n (row_loop plus times n A B k C) col lt (omega arith) h
        ∙ ap (dot k col n) (
            row_loop_other k C (entry n k col) (λ row col' before h'.
              apart row col' k col (omega arith) h' lt h (inl (omega arith))))

    row_loop_done :
        (k : ℕ) (C : ℕ → D) (row col : ℕ)
        → k ≤ n
        → row < k
        → col < n
        → row_loop plus times n A B k C (entry n row col) ≡ dot row col n (C (entry n row col))
    unfolding row_loop
    row_loop_done zero C row col le lt h = elim lt [ ]
    row_loop_done (suc k) C row col le lt h = elim (last-or-before row k lt) [
      | inl same ↦ rw same (row_loop_last k C col le h)
      | inr before ↦
          col_loop_other k n (row_loop plus times n A B k C) (entry n row col)
            (λ col' h'. apart k col' row col le h' (omega arith) h (inl (omega arith)))
          ∙ row_loop_done k C row col (omega arith) before h
    ]

    -- What was in an entry, with the products of its row of A and its column of B.
    pub multiply-dot :
        (C : ℕ → D) (row col : ℕ)
        → row < n
        → col < n
        → multiply plus times n A B C (entry n row col) ≡ dot row col n (C (entry n row col))
    multiply-dot C row col h h' = row_loop_done n C row col (omega arith) h h'

    -- All else is as before.
    pub multiply_other : (C : ℕ → D) (j : ℕ) → n * n ≤ j → multiply plus times n A B C j ≡ C j
    multiply_other C j h =
        row_loop_other n C j
          (λ row col lt lt' e. absurd (omega (arith, entry-lt n small row col lt lt', e)))

-- For a matrix size below 65536 dense_mm.c multiplies: each entry of the matrix lies in the array that
-- it allocates, and C has there the sum of the products of a row of A and a column of B, added to 0
-- in the order of the index.
pub main_product :
    {D : Type 0} (zero_double : D) (plus times : D → D → D) (n : ℕ) (A B rest : ℕ → D)
    → n < sqrt_of_uint32_max
    → (row col : ℕ) → row < n
    → col < n
    → (main zero_double plus times n A B rest
        ≡ some (multiply plus times n A B (cleared zero_double n rest)))
      × (entry n row col < squared_size n)
      × (multiply plus times n A B (cleared zero_double n rest) (entry n row col)
          ≡ dot plus times n A B row col n zero_double)
main_product zero_double plus times n A B rest small row col h h' =
    let inside = entry-allocated n small row col h h' in
    (
      ground (arith, small),
      inside,
      multiply-dot plus times n A B (omega arith) (cleared zero_double n rest) row col h h'
          ∙ ap (dot plus times n A B row col n) (ground (arith, inside)),
    )
