-- ===== src/Matrix/Mapped/Areas.antt =====
-- dense_mm.c of project 3: its accesses stay in the areas of the paging module, and what it computes.
use c_operating_system.Prelude.{ℕ, zero, suc, ◌≤◌, ◌<◌, ◌≡◌, true, some, arith}
use c_operating_system.Paging.{get_pages_count, offset}
use c_operating_system.Paging.Pages.{offset-lt}
use c_operating_system.Matrix.{sqrt_of_uint32_max, squared_size, entry, multiply}
use c_operating_system.Matrix.Index.{entry-allocated}
use c_operating_system.Matrix.Product.{dot, multiply-dot}
use c_operating_system.Matrix.Mapped.{main, multiplied, area, address}

address-inside :
    (start n index : ℕ)
    → index < squared_size n
    → ((area start n).vm_start ≤ address start index)
      × (address start index < (area start n).vm_end)
address-inside start n index lt = (omega arith, omega arith)

main-multiplied :
    {D : Type 0} (plus times : D → D → D) (n : ℕ) (A B C : ℕ → D)
    → 1 ≤ n
    → n < sqrt_of_uint32_max
    → main plus times n true (some A) (some B) (some C) ≡ multiplied (multiply plus times n A B C)
main-multiplied plus times zero A B C le lt = absurd (omega (arith, le))
main-multiplied plus times (suc n) A B C le lt = ground arith

-- For a matrix size from 1 to 65535, when the device is open and the three areas are mapped: the
-- multiplication ends, and each entry of C has what its page held, with the products of a row of A and a
-- column of B added in order; the address of an entry lies in its area, and a fault there is recorded
-- within the array of pages of the paging module.
pub mapped_product :
    {D : Type 0} (plus times : D → D → D) (start n : ℕ) (A B C : ℕ → D)
    → 1 ≤ n
    → n < sqrt_of_uint32_max
    → (row col : ℕ) → row < n
    → col < n
    → (main plus times n true (some A) (some B) (some C) ≡ multiplied (multiply plus times n A B C))
      × (multiply plus times n A B C (entry n row col)
          ≡ dot plus times n A B row col n (C (entry n row col)))
      × (address start (entry n row col) < (area start n).vm_end)
      × (offset (area start n) (address start (entry n row col)) < get_pages_count (area start n))
mapped_product plus times start n A B C some_size small row col h h' =
    let (above, below) =
      address-inside start n (entry n row col) (entry-allocated n small row col h h') in
    (
      main-multiplied plus times n A B C some_size small,
      multiply-dot plus times n A B (omega arith) C row col h h',
      below,
      offset-lt (area start n) (address start (entry n row col)) above below,
    )
