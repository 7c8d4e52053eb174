-- ===== src/Paging/Ledger.antt =====
-- paging.c: the life of a mapping, and what its two page counters say of it.
use c_operating_system.Prelude.{
  ℕ, ◌+◌, ◌-◌, ◌/◌, ◌%◌, ◌^◌, ◌≤◌, ◌<◌, ◌≡◌, ◌⊎◌, Bool, true, false, Option, none, some, arith,
  ◌==◌,
}
use c_operating_system.Prelude.Word.{sub32}
use c_operating_system.Threads.{update}
use c_operating_system.Threads.Total.{total, total-update, total-cong, total-le-total}
use c_operating_system.Paging.{
  Vma, Tracer, Module, Supply, success, page_size, page_align, get_pages_count, offset, do_fault,
  free_pages, paging_vma_close, paging_mmap, kmod_paging_init,
}
use c_operating_system.Paging.Freeing.{present, free_pages_lem, total_from_all}
use c_operating_system.Paging.Pages.{offset-lt, page_align-offset}

-- A fault that the kernel may report: inside the area, on a page that is not mapped.
pub record IsFault (vma : Vma) (m : Module) (address : ℕ) : Type 0 where
  pub above : vma.vm_start ≤ address
  pub below : address < vma.vm_end
  pub aligned : address % page_size ≡ 0
  pub unmapped : m.table (address / page_size) ≡ none

-- A page that is allocated and not recorded, because `remap_pfn_range` failed.
abbrev pub lost : Option ℕ → Bool → ℕ
lost none remapped = 0
lost (some _) true = 0
lost (some _) false = 1

-- The page table of an area, by the index of the page, and how many of its pages are mapped.
abbrev pub slice : Vma → (ℕ → Option ℕ) → ℕ → Option ℕ
slice vma table k = table (vma.vm_start / page_size + k)

abbrev pub mapped_pages : Vma → (ℕ → Option ℕ) → ℕ
mapped_pages vma table = total present (get_pages_count vma) (slice vma table)

-- The entries of the array that are no page which the module has mapped: what `kmalloc` left in it.
abbrev pub stray : Vma → (ℕ → Option ℕ) → Tracer → ℕ
stray vma table t = total present (get_pages_count vma) t.pages - mapped_pages vma table

-- Module states after a successful `paging_mmap`, whatever its array held, any faults, and the close of
-- the area. The area is not split or moved, so that `paging_vma_open` is not called: VM_DONTCOPY keeps
-- the area from a child. The indices are the areas that are open, and the pages lost.
pub data Life (vma : Vma) : ℕ → ℕ → Module → Type 0 where
  mapped :
      (demand_paging : ℕ) (found : ℕ → Option ℕ) (supply : Supply) {m : Module}
      → paging_mmap vma demand_paging found supply kmod_paging_init ≡ (m, success)
      → Life vma 1 0 m
  faulted :
      {areas leaks : ℕ} {m : Module} {t : Tracer} (address : ℕ) (page : Option ℕ) (remapped : Bool)
      → Life vma areas leaks m
      → m.tracer ≡ some t
      → IsFault vma m address
      → Life vma areas (leaks + lost page remapped) (do_fault vma address page remapped m t).0
  closed :
      {areas leaks : ℕ} {m : Module} {t : Tracer}
      → Life vma areas leaks m
      → m.tracer ≡ some t
      → Life vma (areas - 1) leaks (paging_vma_close vma m t)

-- The array has what the page table maps.
abbrev pub Agrees : Vma → (ℕ → Option ℕ) → Tracer → Type 0
Agrees vma table t =
    (k : ℕ) → k < get_pages_count vma → (slice vma table k ≡ none) ⊎ (slice vma table k ≡ t.pages k)

-- The pages allocated, and the strays that were counted as freed, are the pages freed, mapped and lost.
abbrev pub Balance : ℕ → ℕ → Module → ℕ → Type 0
Balance strays leaks m recorded =
    (m.allocate_page_counter + strays) % 2 ^ 32 ≡ (m.free_page_counter + recorded + leaks) % 2 ^ 32

abbrev pub Ledger : Vma → ℕ → ℕ → ℕ → Module → Option Tracer → Type 0
Ledger vma areas strays leaks m none = (areas ≡ 0) × Balance strays leaks m 0
Ledger vma areas strays leaks m (some t) =
    (areas ≡ 1)
    × (t.counter ≡ 1)
    × Agrees vma m.table t
    × Balance strays leaks m (mapped_pages vma m.table)

-- One more page is mapped.
pub mapped_pages-update :
    (vma : Vma) (table : ℕ → Option ℕ) (k place page : ℕ)
    → k < get_pages_count vma
    → place ≡ vma.vm_start / page_size + k
    → slice vma table k ≡ none
    → mapped_pages vma (update table place (some page)) ≡ mapped_pages vma table + 1
mapped_pages-update vma table k place page lt e blank =
    let same : mapped_pages vma (update table place (some page))
        ≡ total present (get_pages_count vma) (update (slice vma table) k (some page)) =
      total-cong present (get_pages_count vma) (slice vma (update table place (some page)))
        (update (slice vma table) k (some page)) (λ i below. ground (arith, e)) in
    let more = total-update present (get_pages_count vma) k (slice vma table) (some page) lt in
    ground (arith, same, more, blank)

module _ {vma : Vma} (start : vma.vm_start % page_size ≡ 0) where
  pub fault-Ledger :
      {areas : ℕ} (strays leaks : ℕ) (m : Module) (t : Tracer) (address : ℕ) (page : Option ℕ)
      (remapped : Bool)
      → IsFault vma m address
      → m.tracer ≡ some t
      → Ledger vma areas strays leaks m (some t)
      → Ledger vma areas strays
          (leaks + lost page remapped)
          (do_fault vma address page remapped m t).0
          (do_fault vma address page remapped m t).0.tracer
  unfolding do_fault
  fault-Ledger strays leaks m t address none remapped f e (one, counted, agrees, balance) =
      rw e (one, counted, agrees, omega arith)
  fault-Ledger strays leaks m t address (some new_page) false f e (one, counted, agrees, balance) =
      rw e (one, counted, agrees, omega arith)
  fault-Ledger strays leaks m t address (some new_page) true f e (one, counted, agrees, balance) = (
    one,
    counted,
    (λ k lt. ground (arith, agrees k lt, page_align-offset vma address start f.aligned f.above)),
    omega (arith, balance, added),
  )
    where
      place : address / page_size ≡ vma.vm_start / page_size + offset vma address
      place = omega (arith, start, f.aligned, f.above)

      added :
          mapped_pages vma (update m.table (page_align address / page_size) (some new_page))
          ≡ mapped_pages vma m.table + 1
      added =
          mapped_pages-update vma m.table (offset vma address) (page_align address / page_size)
            new_page (offset-lt vma address f.above f.below)
            (page_align-offset vma address start f.aligned f.above) (rw place at f.unmapped)

pub close-Ledger :
    (vma : Vma) (areas : ℕ) (strays leaks : ℕ) (m : Module) (t : Tracer)
    → Ledger vma areas strays leaks m (some t)
    → Ledger vma
        (areas - 1)
        (strays + stray vma m.table t)
        leaks
        (paging_vma_close vma m t)
        (paging_vma_close vma m t).tracer
unfolding paging_vma_close
close-Ledger vma areas strays leaks m t (one, counted, agrees, balance) =
    let last : (sub32 t.counter 1 == 0) ≡ true = ground (arith, counted) in
    rw last (omega (arith, one), freed)
  where
    within : mapped_pages vma m.table ≤ total present (get_pages_count vma) t.pages
    within =
        total-le-total present (get_pages_count vma) (slice vma m.table) t.pages
          (λ k lt. ground (arith, agrees k lt))

    freed :
        (m.allocate_page_counter + (strays + stray vma m.table t)) % 2 ^ 32
        ≡ (free_pages (get_pages_count vma) 0 t.pages m.free_page_counter + 0 + leaks) % 2 ^ 32
    freed = omega (
      arith,
      balance,
      within,
      free_pages_lem (get_pages_count vma) 0 t.pages m.free_page_counter,
      total_from_all (get_pages_count vma) t.pages,
    )
