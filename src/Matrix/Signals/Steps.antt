-- ===== src/Matrix/Signals/Steps.antt =====
-- signal.c: the steps of `main` without the signals.
use c_operating_system.Prelude.{ℕ, zero, suc, ◌+◌, ◌-◌, false, ◌≤◌, ◌≡◌, refl, ap, ◌∙◌, ltb, arith}
use c_operating_system.Matrix.{sum_at, index_loop, col_loop, row_loop, multiply}
use c_operating_system.Matrix.Signals.{Place, at_row, at_col, at_index, at_store, at_print, advance}

-- As many steps as the loops take, with `left` rounds to go.
abbrev pub index_steps : ℕ → ℕ
index_steps zero = 1
index_steps (suc left) = suc (suc (index_steps left))

abbrev pub col_steps : ℕ → ℕ → ℕ
col_steps n zero = 1
col_steps n (suc left) = suc (index_steps n + col_steps n left)

abbrev pub row_steps : ℕ → ℕ → ℕ
row_steps n zero = 1
row_steps n (suc left) = suc (col_steps n n + row_steps n left)

module _ {D : Type 0} (plus times : D → D → D) (n : ℕ) (A B : ℕ → D) where
  unfoldable pub proceeds : ℕ → (ℕ → D) × Place D → (ℕ → D) × Place D
  proceeds zero q = q
  proceeds (suc k) q = proceeds k (advance plus times n A B q.0 q.1)

  pub proceeds-add :
      (a b : ℕ) (q : (ℕ → D) × Place D) → proceeds (a + b) q ≡ proceeds b (proceeds a q)
  unfolding proceeds
  proceeds-add zero b q = ap (λ k. proceeds k q) {x = 0 + b} {y = b} (omega arith)
  proceeds-add (suc a) b q =
      ap (λ k. proceeds k q) {x = suc a + b} {y = suc (a + b)} (omega arith)
      ∙ proceeds-add a b (advance plus times n A B q.0 q.1)

  -- The loops go on from the round before.
  index_runs :
      (left row col k : ℕ) (C : ℕ → D)
      → k + left ≡ n
      → proceeds (index_steps left) (index_loop plus times n A B row col k C, at_index row col k)
        ≡ (index_loop plus times n A B row col n C, at_col row (suc col))
  unfolding proceeds advance index_loop
  index_runs zero row col k C e =
      let same : k ≡ n = omega (arith, e) in
      let over : ltb k n ≡ false = ground (arith, e) in
      rw over (ap (λ j. (index_loop plus times n A B row col j C, at_col row (suc col))) same)
  index_runs (suc left) row col k C e =
      let now = index_loop plus times n A B row col k C in
      let next : advance plus times n A B now (at_index row col k)
          ≡ (now, at_store row col k (sum_at plus times n A B row col k now)) =
        ground (arith, e) in
      ap (proceeds (suc (index_steps left))) next
      ∙ index_runs left row col (suc k) C (omega (arith, e))

  col_runs :
      (left row col : ℕ) (C : ℕ → D)
      → col + left ≡ n
      → proceeds (col_steps n left) (col_loop plus times n A B row col C, at_col row col)
        ≡ (col_loop plus times n A B row n C, at_row (suc row))
  unfolding proceeds advance col_loop index_loop
  col_runs zero row col C e =
      let same : col ≡ n = omega (arith, e) in
      let over : ltb col n ≡ false = ground (arith, e) in
      rw over (ap (λ j. (col_loop plus times n A B row j C, at_row (suc row))) same)
  col_runs (suc left) row col C e =
      let now = col_loop plus times n A B row col C in
      let next : advance plus times n A B now (at_col row col) ≡ (now, at_index row col 0) =
        ground (arith, e) in
      ap (proceeds (index_steps n + col_steps n left)) next
      ∙ proceeds-add (index_steps n) (col_steps n left) (now, at_index row col 0)
      ∙ ap (proceeds (col_steps n left)) (index_runs n row col 0 now (omega arith))
      ∙ col_runs left row (suc col) C (omega (arith, e))

  row_runs :
      (left row : ℕ) (C : ℕ → D)
      → row + left ≡ n
      → proceeds (row_steps n left) (row_loop plus times n A B row C, at_row row)
        ≡ (multiply plus times n A B C, at_print)
  unfolding proceeds advance row_loop col_loop
  row_runs zero row C e =
      let same : row ≡ n = omega (arith, e) in
      let over : ltb row n ≡ false = ground (arith, e) in
      rw over (ap (λ j. (row_loop plus times n A B j C, at_print)) same)
  row_runs (suc left) row C e =
      let now = row_loop plus times n A B row C in
      let next : advance plus times n A B now (at_row row) ≡ (now, at_col row 0) =
        ground (arith, e) in
      ap (proceeds (col_steps n n + row_steps n left)) next
      ∙ proceeds-add (col_steps n n) (row_steps n left) (now, at_col row 0)
      ∙ ap (proceeds (row_steps n left)) (col_runs n row 0 now (omega arith))
      ∙ row_runs left (suc row) C (omega (arith, e))

  at_print-proceeds : (k : ℕ) (C : ℕ → D) → proceeds k (C, at_print) ≡ (C, at_print)
  unfolding proceeds advance
  at_print-proceeds zero C = refl
  at_print-proceeds (suc k) C = at_print-proceeds k C

  -- From as many steps on, `main` is at its print and has the product.
  pub main_runs :
      (k : ℕ) (C : ℕ → D)
      → row_steps n n ≤ k
      → proceeds k (C, at_row 0) ≡ (multiply plus times n A B C, at_print)
  unfolding row_loop
  main_runs k C le =
      ap (λ m. proceeds m (C, at_row 0)) {x = k} {y = row_steps n n + (k - row_steps n n)}
        (omega (arith, le))
      ∙ proceeds-add (row_steps n n) (k - row_steps n n) (C, at_row 0)
      ∙ ap (proceeds (k - row_steps n n)) (row_runs n 0 C (omega arith))
      ∙ at_print-proceeds (k - row_steps n n) (multiply plus times n A B C)
