-- ===== src/Matrix.antt =====
-- The product of two matrices: studio15_linux_signals/test/dense_mm.c, and parallel_dense_mm.c, where a
-- thread of its own has each column. `zero_double`, `plus` and `times` are those of `double`.
pub mod Index
pub mod Product
pub mod Columns
pub mod Finish
pub mod Mapped
pub mod Signals
use c_operating_system.Prelude.{ℕ, zero, suc, ◌+◌, Option, none, some, ltb, if◌then◌else◌}
use c_operating_system.Prelude.Word.{add32, mul32}
use c_operating_system.Threads.{Conf, Program, update}

abbrev pub sqrt_of_uint32_max : ℕ
sqrt_of_uint32_max = 65536

-- The number of entries that is allocated, an `unsigned`.
abbrev pub squared_size : ℕ → ℕ
squared_size matrix_size = mul32 matrix_size matrix_size

-- `row*matrix_size + col`
unfoldable pub entry : ℕ → ℕ → ℕ → ℕ
entry matrix_size row col = add32 (mul32 row matrix_size) col

-- Where the thread of a column stands. `=+` reads the entry of C and then writes it.
pub data Pc (D : Type 0) : Type 0 where
  testing : (row index : ℕ) → Pc D
  storing : (row index : ℕ) (sum : D) → Pc D
  finished : Pc D

module _ {D : Type 0} (plus times : D → D → D) (matrix_size : ℕ) (A B : ℕ → D) where
  -- What a round adds up: the new value of `C[row*matrix_size + col]`.
  abbrev pub sum_at : ℕ → ℕ → ℕ → (ℕ → D) → D
  sum_at row col index C =
      plus (C (entry matrix_size row col))
        (times (A (entry matrix_size row index)) (B (entry matrix_size index col)))

  -- The three loops of dense_mm.c, after k rounds.
  unfoldable pub index_loop : ℕ → ℕ → ℕ → (ℕ → D) → ℕ → D
  index_loop row col zero C = C
  index_loop row col (suc k) C =
      let before = index_loop row col k C in
      update before (entry matrix_size row col) (sum_at row col k before)

  unfoldable pub col_loop : ℕ → ℕ → (ℕ → D) → ℕ → D
  col_loop row zero C = C
  col_loop row (suc k) C = index_loop row k matrix_size (col_loop row k C)

  unfoldable pub row_loop : ℕ → (ℕ → D) → ℕ → D
  row_loop zero C = C
  row_loop (suc k) C = col_loop k matrix_size (row_loop k C)

  abbrev pub multiply : (ℕ → D) → ℕ → D
  multiply C = row_loop matrix_size C

  -- The body of the parallel loop over `col`.
  unfoldable pub step : Program (ℕ → D) (Pc D)
  step col C (testing row index) = some (
    C,
    if ltb row matrix_size
        then if ltb index matrix_size
          then storing row index (sum_at row col index C)
          else testing (suc row) 0
        else finished,
  )
  step col C (storing row index sum) =
      some (update C (entry matrix_size row col) sum, testing row (suc index))
  step col C finished = none

-- The three arrays after the loop that fills them: `random` gives the results of `rand`. Beyond
-- `squared_size` lies `rest`.
abbrev pub cleared : {D : Type 0} → D → ℕ → (ℕ → D) → ℕ → D
cleared zero_double matrix_size rest index =
    if ltb index (squared_size matrix_size) then zero_double else rest index

abbrev pub start : {D : Type 0} → (ℕ → D) → Conf (ℕ → D) (Pc D)
start C = record { shared = C; locals = λ col. testing 0 0 }

-- `main` of dense_mm.c, after the arrays are allocated and A and B filled: what C has in the end, unless
-- the size is refused.
abbrev pub main :
    {D : Type 0} → D → (D → D → D) → (D → D → D) → ℕ → (ℕ → D) → (ℕ → D) → (ℕ → D) → Option (ℕ → D)
main zero_double plus times matrix_size A B rest =
    if ltb sqrt_of_uint32_max matrix_size
    then none
    else some (multiply plus times matrix_size A B (cleared zero_double matrix_size rest))
