-- ===== src/Matrix/Mapped.antt =====
-- project3_memory_management_and_paging/code/user/dense_mm.c: the product of matrices in memory that the
-- paging module maps. An area is what its pages hold, or `none` when `mmap` failed.
pub mod Areas
use c_operating_system.Prelude.{
  ℕ, zero, suc, ◌+◌, ◌-◌, ◌*◌, ◌/◌, Bool, true, false, Option, none, some, ltb, if◌then◌else◌,
}
use c_operating_system.Paging.{Vma, page_size}
use c_operating_system.Matrix.{sqrt_of_uint32_max, squared_size, multiply}

pub data Ended (D : Type 0) : Type 0 where
  refused : Ended D  -- by the test of the size, or by `open`
  crashed : Ended D  -- an access through NULL
  idle : Ended D  -- no entry to multiply
  multiplied : (C : ℕ → D) → Ended D

-- `mmap_malloc` gives a pointer or NULL, and `main` tests neither.
abbrev pub compute :
    {D : Type 0}
    → (D → D → D)
    → (D → D → D)
    → ℕ
    → Option (ℕ → D)
    → Option (ℕ → D)
    → Option (ℕ → D)
    → Ended D
compute plus times zero A B C = idle
compute plus times (suc n) (some A) (some B) (some C) =
    multiplied (multiply plus times (suc n) A B C)
compute plus times (suc n) (some A) (some B) none = crashed
compute plus times (suc n) (some A) none C = crashed
compute plus times (suc n) none B C = crashed

abbrev pub main :
    {D : Type 0}
    → (D → D → D)
    → (D → D → D)
    → ℕ
    → Bool
    → Option (ℕ → D)
    → Option (ℕ → D)
    → Option (ℕ → D)
    → Ended D
main plus times matrix_size opened A B C =
    if ltb sqrt_of_uint32_max matrix_size
    then refused
    else if opened
    then compute plus times matrix_size A B C
    else refused

-- The area at `start` that a call of `mmap_malloc` makes: whole pages for `squared_size` doubles.
abbrev pub area : ℕ → ℕ → Vma
area start matrix_size =
    let bytes : ℕ = 8 * squared_size matrix_size in
    record { vm_start = start; vm_end = start + (bytes + page_size - 1) / page_size * page_size }

-- The address of an entry.
abbrev pub address : ℕ → ℕ → ℕ
address start index = start + 8 * index
