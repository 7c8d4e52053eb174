-- ===== src/Paging/Device.antt =====
-- paging.c with any number of mappings: each has its own `struct state`, and the two counters are those
-- of the module. Areas are disjoint, so that each mapping has its own part of the page tables.
pub mod Books
pub mod Balance
use c_operating_system.Prelude.{ℕ, suc, ◌+◌, ◌-◌, ◌<◌, ◌%◌, ◌≡◌, ◌≢◌, Bool, Option, none, some}
use c_operating_system.Threads.{update}
use c_operating_system.Paging.{
  Vma, Tracer, Module, Supply, Code, success, page_size, do_fault, paging_vma_close, paging_mmap,
}
use c_operating_system.Paging.Ledger.{IsFault, lost, mapped_pages, stray}

-- An area with its `vm_private_data` and its part of the page tables.
pub record Mapping : Type 0 where
  pub vma : Vma
  pub tracer : Option Tracer
  pub table : ℕ → Option ℕ

pub record Device : Type 0 where
  pub allocate_page_counter : ℕ
  pub free_page_counter : ℕ
  pub mapping : ℕ → Mapping

-- What a function that is called for mapping `i` sees, and what it leaves.
abbrev pub view : Device → ℕ → Module
view d i = record {
  allocate_page_counter = d.allocate_page_counter;
  free_page_counter = d.free_page_counter;
  tracer = (d.mapping i).tracer;
  table = (d.mapping i).table;
}

abbrev pub put : Device → ℕ → Module → Device
put d i m = record {
  allocate_page_counter = m.allocate_page_counter;
  free_page_counter = m.free_page_counter;
  mapping =
      update d.mapping i (record { vma = (d.mapping i).vma; tracer = m.tracer; table = m.table });
}

-- A call of `paging_mmap` for a new area, of which nothing is mapped, and the area after it.
abbrev pub fresh : Device → Module
fresh d = record {
  allocate_page_counter = d.allocate_page_counter;
  free_page_counter = d.free_page_counter;
  tracer = none;
  table = λ _. none;
}

abbrev pub mmap : Device → Vma → ℕ → (ℕ → Option ℕ) → Supply → Module × Code
mmap d vma demand_paging found supply = paging_mmap vma demand_paging found supply (fresh d)

abbrev pub placed : Device → ℕ → Vma → Module → Device
placed d n vma m = record {
  allocate_page_counter = m.allocate_page_counter;
  free_page_counter = m.free_page_counter;
  mapping = update d.mapping n (record { vma = vma; tracer = m.tracer; table = m.table });
}

-- The pages that are mapped while `struct state` is there.
abbrev pub pages_of : Vma → (ℕ → Option ℕ) → Option Tracer → ℕ
pages_of vma table none = 0
pages_of vma table (some t) = mapped_pages vma table

-- What `kmod_paging_exit` prints.
abbrev pub kmod_paging_exit : Device → ℕ × ℕ
kmod_paging_exit d = (d.allocate_page_counter, d.free_page_counter)

-- States of the module with `n` mappings, whose areas are not split or moved, the number of areas of each;
-- the pages lost so far: those of a failed `remap_pfn_range`, and those of a call of `paging_mmap` that
-- returns an error, for which the kernel calls no `close`; and the strays: entries that `kmalloc` left in
-- an array and `paging_vma_close` took for pages. `found` is what `kmalloc` left.
pub data Lives : ℕ → (ℕ → ℕ) → ℕ → ℕ → Device → Type 0 where
  loaded :
      (unused : ℕ → Mapping) (areas : ℕ → ℕ)
      → Lives 0 areas 0 0
          (record { allocate_page_counter = 0; free_page_counter = 0; mapping = unused })
  mapped :
      {n strays leaks : ℕ} {areas : ℕ → ℕ} {d : Device} (vma : Vma) (demand_paging : ℕ)
      (found : ℕ → Option ℕ) (supply : Supply)
      → Lives n areas strays leaks d
      → vma.vm_start % page_size ≡ 0
      → (mmap d vma demand_paging found supply).1 ≡ success
      → Lives
          (suc n)
          (update areas n 1)
          strays
          leaks
          (placed d n vma (mmap d vma demand_paging found supply).0)
  refused :
      {n strays leaks : ℕ} {areas : ℕ → ℕ} {d : Device} (vma : Vma) (demand_paging : ℕ)
      (found : ℕ → Option ℕ) (supply : Supply)
      → Lives n areas strays leaks d
      → vma.vm_start % page_size ≡ 0
      → (mmap d vma demand_paging found supply).1 ≢ success
      → Lives n areas strays
          (leaks
            + pages_of vma
                (mmap d vma demand_paging found supply).0.table
                (mmap d vma demand_paging found supply).0.tracer)
          (placed d n vma (mmap d vma demand_paging found supply).0)
  faulted :
      {n strays leaks : ℕ} {areas : ℕ → ℕ} {d : Device} {t : Tracer} (i address : ℕ)
      (page : Option ℕ) (remapped : Bool)
      → Lives n areas strays leaks d
      → i < n
      → (d.mapping i).tracer ≡ some t
      → IsFault (d.mapping i).vma (view d i) address
      → Lives n areas strays
          (leaks + lost page remapped)
          (put d i (do_fault (d.mapping i).vma address page remapped (view d i) t).0)
  closed :
      {n strays leaks : ℕ} {areas : ℕ → ℕ} {d : Device} {t : Tracer} (i : ℕ)
      → Lives n areas strays leaks d
      → i < n
      → (d.mapping i).tracer ≡ some t
      → Lives n
          (update areas i (areas i - 1))
          (strays + stray (d.mapping i).vma (d.mapping i).table t)
          leaks
          (put d i (paging_vma_close (d.mapping i).vma (view d i) t))
