-- ===== src/PageArray.antt =====
-- studio12_kernel_memory_management/kernel_memory.c: `my_get_order`, and the thread that fills pages
-- with structures of eight numbers and checks them when it is stopped. `alloc_pages` has given the
-- pages; memory is read and written as `unsigned int`s, numbered from the first page on.
pub mod Order
pub mod Filling
pub mod Module
use c_operating_system.Prelude.{
  ℕ, zero, suc, ◌+◌, ◌-◌, ◌*◌, ◌/◌, ◌%◌, ◌^◌, List, [], ◌∷◌, ◌++◌, ◌==◌, if◌then◌else◌,
}
use Prim.Native.Nat.{bit_and}
use c_operating_system.Prelude.Word.{add32}
use c_operating_system.Threads.{update}

abbrev pub page_size : ℕ
page_size = 4096

abbrev pub arr_size : ℕ
arr_size = 8

-- `sizeof(datatype)`: an `unsigned int` has four bytes.
abbrev pub datatype_size : ℕ
datatype_size = 4 * arr_size

-- The loop of `my_get_order`, with at most `left` rounds; 32 are enough.
unfoldable pub shift_out : ℕ → ℕ → ℕ → ℕ
shift_out zero value shifts = shifts
shift_out (suc left) value shifts =
    if value == 0 then shifts else shift_out left (value / 2) (add32 shifts 1)

unfoldable pub my_get_order : ℕ → ℕ
my_get_order value =
    if value == 0
    then 0
    else if bit_and value (value - 1) == 0
    then shift_out 32 (value - 1) 0
    else shift_out 32 value 0

abbrev pub nr_structs_per_page : ℕ
nr_structs_per_page = page_size / datatype_size

unfoldable pub nr_pages : ℕ → ℕ
nr_pages nr_structs =
    nr_structs / nr_structs_per_page + (if nr_structs % nr_structs_per_page == 0 then 0 else 1)

-- Where `tmp->array[n]` is, for page `i` and `tmp = dt + j`.
abbrev pub address : ℕ → ℕ → ℕ → ℕ
address i j n = i * (page_size / 4) + j * arr_size + n

-- The number that is stored there.
abbrev pub element : ℕ → ℕ → ℕ → ℕ
element i j n = (i * nr_structs_per_page * 8 + j * 8 + n) % 2 ^ 32

-- The three loops that fill the pages, each from its index with `left` rounds to go.
pub fill_array : ℕ → ℕ → ℕ → ℕ → (ℕ → ℕ) → ℕ → ℕ
fill_array zero i j n memory = memory
fill_array (suc left) i j n memory =
    fill_array left i j (n + 1) (update memory (address i j n) (element i j n))

pub fill_structs : ℕ → ℕ → ℕ → (ℕ → ℕ) → ℕ → ℕ
fill_structs zero i j memory = memory
fill_structs (suc left) i j memory = fill_structs left i (j + 1) (fill_array arr_size i j 0 memory)

pub fill_pages : ℕ → ℕ → (ℕ → ℕ) → ℕ → ℕ
fill_pages zero i memory = memory
fill_pages (suc left) i memory =
    fill_pages left (i + 1) (fill_structs nr_structs_per_page i 0 memory)

-- A message of the check: the page, the structure and the index.
pub record Error : Type 0 where
  pub page : ℕ
  pub struct : ℕ
  pub array : ℕ

-- The three loops of the check.
unfoldable pub check_array : ℕ → ℕ → ℕ → ℕ → (ℕ → ℕ) → List Error
check_array zero i j n memory = []
check_array (suc left) i j n memory =
    let rest : List Error = check_array left i j (n + 1) memory in
    if memory (address i j n) == element i j n
    then rest
    else record { page = i; struct = j; array = n } ∷ rest

pub check_structs : ℕ → ℕ → ℕ → (ℕ → ℕ) → List Error
check_structs zero i j memory = []
check_structs (suc left) i j memory =
    check_array arr_size i j 0 memory ++ check_structs left i (j + 1) memory

pub check_pages : ℕ → ℕ → (ℕ → ℕ) → List Error
check_pages zero i memory = []
check_pages (suc left) i memory =
    check_structs nr_structs_per_page i 0 memory ++ check_pages left (i + 1) memory

-- `thread_fn` up to its loop: the order of the pages it asks for, and what it puts in them.
pub fill : ℕ → (ℕ → ℕ) → (ℕ → ℕ)
fill nr_structs memory = fill_pages (nr_pages nr_structs) 0 memory

-- `thread_fn` after its loop: the errors that it reports.
pub report : ℕ → (ℕ → ℕ) → List Error
report nr_structs memory = check_pages (nr_pages nr_structs) 0 memory
