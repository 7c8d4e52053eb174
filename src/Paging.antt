-- ===== src/Paging.antt =====
-- project3_memory_management_and_paging/code/mod/paging.c: the device whose mappings are filled page
-- by page. One mapping is modelled, with the `struct state` that its areas share. What the kernel
-- answers enters as arguments: the page of `alloc_page` or NULL, and whether `remap_pfn_range`
-- succeeds. A page is named by its frame number, and `table` is what `remap_pfn_range` has mapped.
pub mod Pages
pub mod Freeing
pub mod Ledger
pub mod Mapping
pub mod Device
use c_operating_system.Prelude.{
  ℕ, zero, suc, ◌+◌, ◌-◌, ◌*◌, ◌/◌, ◌%◌, Bool, true, false, Option, none, some, List, [], ◌∷◌, ◌==◌,
  if◌then◌else◌,
}
use c_operating_system.Prelude.Word.{add32, sub32}
use c_operating_system.Threads.{update}

abbrev pub page_size : ℕ
page_size = 4096

-- `PAGE_ALIGN` rounds up.
abbrev pub page_align : ℕ → ℕ
page_align address = (address + (page_size - 1)) / page_size * page_size

-- The part of `struct vm_area_struct` that the module reads.
pub record Vma : Type 0 where
  pub vm_start : ℕ
  pub vm_end : ℕ

-- `struct state`
pub record Tracer : Type 0 where
  pub counter : ℕ
  pub pages : ℕ → Option ℕ

-- The two counters, the `struct state` until it is freed, and the page table.
pub record Module : Type 0 where
  pub allocate_page_counter : ℕ
  pub free_page_counter : ℕ
  pub tracer : Option Tracer
  pub table : ℕ → Option ℕ

pub data Code : Type 0 where
  vm_fault_oom vm_fault_nopage vm_fault_sigbus : Code
  success enomem efault : Code

-- `get_pages_count`: the area in pages, the last one perhaps not whole.
unfoldable pub get_pages_count : Vma → ℕ
get_pages_count vma =
    let size : ℕ = vma.vm_end - vma.vm_start in
    if size % page_size == 0 then size / page_size else size / page_size + 1

-- The index of the array that `do_fault` writes.
abbrev pub offset : Vma → ℕ → ℕ
offset vma fault_address = (fault_address - vma.vm_start) / page_size

-- `do_fault`, while `struct state` is there.
unfoldable pub do_fault : Vma → ℕ → Option ℕ → Bool → Module → Tracer → Module × Code
do_fault vma fault_address none remapped m t = (m, vm_fault_oom)
do_fault vma fault_address (some new_page) false m t =
    (record m { allocate_page_counter = add32 m.allocate_page_counter 1 }, vm_fault_sigbus)
do_fault vma fault_address (some new_page) true m t = (
  record m {
    allocate_page_counter = add32 m.allocate_page_counter 1;
    tracer = some (record t { pages = update t.pages (offset vma fault_address) (some new_page) });
    table = update m.table (page_align fault_address / page_size) (some new_page);
  },
  vm_fault_nopage,
)

unfoldable pub paging_vma_open : Module → Tracer → Module
paging_vma_open m t = record m { tracer = some (record t { counter = add32 t.counter 1 }) }

-- The loop of `paging_vma_close` from index `i`, with `left` rounds to go: what the counter of freed
-- pages becomes.
unfoldable pub free_pages : ℕ → ℕ → (ℕ → Option ℕ) → ℕ → ℕ
free_pages zero i pages freed = freed
free_pages (suc left) i pages freed =
    free_pages left (i + 1) pages (elim (pages i) [ none ↦ freed | some _ ↦ add32 freed 1 ])

unfoldable pub paging_vma_close : Vma → Module → Tracer → Module
unfolding free_pages
paging_vma_close vma m t =
    let counter : ℕ = sub32 t.counter 1 in
    if counter == 0
    then record m {
      free_page_counter = free_pages (get_pages_count vma) 0 t.pages m.free_page_counter;
      tracer = none;
    }
    else record m { tracer = some (record t { counter = counter }) }

-- What the kernel answers in one round of the pre-paging loop.
abbrev pub Supply : Type 0
Supply = ℕ → Option ℕ × Bool

-- The pre-paging loop of `paging_mmap` from index `i`, with `left` rounds to go.
unfoldable pub prepage : Vma → Supply → ℕ → ℕ → Module → Tracer → Module × Code
prepage vma supply zero i m t = (record m { tracer = some t }, success)
prepage vma supply (suc left) i m t = elim (supply i).0 [
  | none ↦ (record m { tracer = some t }, enomem)
  | some tmp ↦ elim (supply i).1 [
    | false ↦ (record m { tracer = some t }, efault)
    | true ↦
        prepage vma supply left (i + 1)
          (record m {
            table = update m.table ((vma.vm_start + i * page_size) / page_size) (some tmp);
            allocate_page_counter = add32 m.allocate_page_counter 1;
          })
          (record t { pages = update t.pages i (some tmp) })
  ]
]

-- `paging_mmap`, with memory for `struct state` and its array; `found` is what the array holds when
-- `kmalloc` returns it.
unfoldable pub paging_mmap : Vma → ℕ → (ℕ → Option ℕ) → Supply → Module → Module × Code
unfolding prepage
paging_mmap vma demand_paging found supply m =
    let t : Tracer = record { counter = 1; pages = found } in
    if demand_paging == 0
    then prepage vma supply (get_pages_count vma) 0 m t
    else (record m { tracer = some t }, success)

-- `kmod_paging_init`, when `misc_register` succeeds; nothing is mapped.
abbrev pub kmod_paging_init : Module
kmod_paging_init = record {
  allocate_page_counter = 0;
  free_page_counter = 0;
  tracer = none;
  table = λ _. none;
}
