-- ===== src/Paging/Mapping.antt =====
-- paging.c: `paging_mmap` starts the books, and they balance to the end of the mapping.
use mathlib.Core.Path.{subst}
use c_operating_system.Prelude.Word.{add32}
use c_operating_system.Prelude.{
  ◌⊎◌, false, true, sym, ◌*◌, ℕ, zero, suc, ◌+◌, ◌/◌, ◌%◌, ◌^◌, ◌≤◌, ◌<◌, ◌≡◌, inl, inr, refl,
  Option, none, some, arith, ◌==◌, Bool-cases, Option-cases,
}
use c_operating_system.Threads.{update}
use c_operating_system.Threads.Total.{total-eq-zero}
use c_operating_system.Paging.{
  Vma, Tracer, Module, Code, Supply, enomem, efault, page_size, get_pages_count, prepage,
  paging_mmap, kmod_paging_init,
}
use c_operating_system.Paging.Freeing.{present}
use c_operating_system.Paging.Ledger.{
  Life, mapped, faulted, closed, Ledger, slice, mapped_pages, stray, mapped_pages-update,
  fault-Ledger, close-Ledger,
}

-- After a call of `paging_mmap`, whatever it reports.
abbrev pub Kept : Vma → ℕ → ℕ → Module × Code → Type 0
Kept vma strays leaks r = Ledger vma 1 strays leaks r.0 r.0.tracer

abbrev remapped : Vma → ℕ → ℕ → Module → Module
remapped vma i tmp m = record m {
  table = update m.table ((vma.vm_start + i * page_size) / page_size) (some tmp);
  allocate_page_counter = add32 m.allocate_page_counter 1;
}

abbrev recorded : ℕ → ℕ → Tracer → Tracer
recorded i tmp t = record t { pages = update t.pages i (some tmp) }

-- A round of the loop that fails ends it.
prepage-fails :
    (vma : Vma) (supply : Supply) (left i : ℕ) (m : Module) (t : Tracer)
    → ((supply i).0 ≡ none) ⊎ ((supply i).1 ≡ false)
    → (c : Code) × (prepage vma supply (suc left) i m t ≡ (record m { tracer = some t }, c))
unfolding prepage
prepage-fails vma supply left i m t (inl e) = (enomem, rw (e, prepage))
prepage-fails vma supply left i m t (inr f) = elim (Option-cases (supply i).0) [
  | inl e ↦ (enomem, rw (e, prepage))
  | inr (tmp, e) ↦ (efault, rw (e, f, prepage))
]

fails-Kept :
    (vma : Vma) (strays leaks : ℕ) (supply : Supply) (left i : ℕ) (m : Module) (t : Tracer)
    → ((supply i).0 ≡ none) ⊎ ((supply i).1 ≡ false)
    → Ledger vma 1 strays leaks m (some t)
    → Kept vma strays leaks (prepage vma supply (suc left) i m t)
fails-Kept vma strays leaks supply left i m t h ledger =
    subst (Kept vma strays leaks) (sym (prepage-fails vma supply left i m t h).1) ledger

prepage-next :
    (vma : Vma) (supply : Supply) (left i tmp : ℕ) (m : Module) (t : Tracer)
    → (supply i).0 ≡ some tmp
    → (supply i).1 ≡ true
    → prepage vma supply (suc left) i m t
      ≡ prepage vma supply left (i + 1) (remapped vma i tmp m) (recorded i tmp t)
unfolding prepage
prepage-next vma supply left i tmp m t e f = rw (e, f, prepage)

-- Pre-paging keeps the books from index `i` on, where the page table has nothing yet.
prepage-Kept :
    (vma : Vma) (strays leaks : ℕ) (supply : Supply) (left i : ℕ) (m : Module) (t : Tracer)
    → i + left ≡ get_pages_count vma
    → ((k : ℕ) → i ≤ k → slice vma m.table k ≡ none)
    → Ledger vma 1 strays leaks m (some t)
    → Kept vma strays leaks (prepage vma supply left i m t)
prepage-Kept vma strays leaks supply zero i m t reach clear ledger = unfold prepage in ledger
prepage-Kept vma strays leaks supply (suc left) i m t reach clear ledger =
    elim (Option-cases (supply i).0) [
      | inl e ↦ fails-Kept vma strays leaks supply left i m t (inl e) ledger
      | inr (tmp, e) ↦ elim (Bool-cases (supply i).1) [
        | inr f ↦ fails-Kept vma strays leaks supply left i m t (inr f) ledger
        | inl f ↦ subst (Kept vma strays leaks) (sym (prepage-next vma supply left i tmp m t e f)) (
            prepage-Kept vma strays leaks supply left (i + 1) (remapped vma i tmp m)
              (recorded i tmp t) (omega arith) (λ k more. ground (arith, clear k))
              (
                ledger.0,
                ledger.1,
                λ k lt. ground (arith, ledger.2 k lt),
                omega (arith, ledger.3, added tmp),
              ))
      ]
    ]
  where
    added :
        (tmp : ℕ)
        → mapped_pages vma (update m.table ((vma.vm_start + i * page_size) / page_size) (some tmp))
          ≡ mapped_pages vma m.table + 1
    added tmp =
        mapped_pages-update vma m.table i ((vma.vm_start + i * page_size) / page_size) tmp
          (omega arith) (omega arith) (clear i (omega arith))

-- A mapping starts with its books in order, when the page table has nothing in its area.
pub mmap-Kept :
    (vma : Vma) (strays leaks demand_paging : ℕ) (found : ℕ → Option ℕ) (supply : Supply)
    (m : Module)
    → (m.allocate_page_counter + strays) % 2 ^ 32 ≡ (m.free_page_counter + leaks) % 2 ^ 32
    → ((k : ℕ) → m.table k ≡ none)
    → Kept vma strays leaks (paging_mmap vma demand_paging found supply m)
unfolding paging_mmap
mmap-Kept vma strays leaks demand_paging found supply m balance blank =
    elim (Bool-cases (demand_paging == 0)) [
      | inl e ↦ rw e (
          prepage-Kept vma strays leaks supply (get_pages_count vma) 0 m first (omega arith)
            (λ k h. blank (vma.vm_start / page_size + k)) books)
      | inr e ↦ rw e books
    ]
  where
    first : Tracer
    first = record { counter = 1; pages = found }

    nothing : mapped_pages vma m.table ≡ 0
    nothing =
        total-eq-zero present (get_pages_count vma) (slice vma m.table)
          (λ k. ground (arith, blank (vma.vm_start / page_size + k)))

    books : Ledger vma 1 strays leaks m (some first)
    books = (
      refl,
      refl,
      (λ k lt. inl (blank (vma.vm_start / page_size + k))),
      omega (arith, balance, nothing),
    )

-- What has been counted as freed and was no page of the module is not of interest here.
Life-Ledger :
    {vma : Vma} {areas leaks : ℕ} {m : Module}
    → vma.vm_start % page_size ≡ 0
    → Life vma areas leaks m
    → (strays : ℕ) × Ledger vma areas strays leaks m m.tracer
Life-Ledger {vma} start (mapped demand_paging found supply e) =
    (0, rw e at (mmap-Kept vma 0 0 demand_paging found supply kmod_paging_init refl (λ k. refl)))
Life-Ledger start (faulted {leaks} {m} {t} address page remapped life e f) =
    let (strays, ledger) = Life-Ledger start life in
    (strays, fault-Ledger start strays leaks m t address page remapped f e (rw e at ledger))
Life-Ledger {vma} start (closed {areas} {leaks} {m} {t} life e) =
    let (strays, ledger) = Life-Ledger start life in
    (strays + stray vma m.table t, close-Ledger vma areas strays leaks m t (rw e at ledger))

-- For an area that starts at a page and is neither split nor moved, whatever `kmalloc` has left in the array,
-- and for faults at page-aligned addresses of pages that are not mapped: while `struct state` is there the
-- area is open and its counter is 1, and each page that the page table maps is the one in the array at its
-- index.
pub tracer_agrees :
    {vma : Vma} {areas leaks : ℕ} {m : Module} (t : Tracer) (k page : ℕ)
    → vma.vm_start % page_size ≡ 0
    → Life vma areas leaks m
    → m.tracer ≡ some t
    → k < get_pages_count vma
    → m.table (vma.vm_start / page_size + k) ≡ some page
    → (areas ≡ 1) × (t.counter ≡ 1) × (t.pages k ≡ some page)
tracer_agrees t k page start life there lt mapped_there =
    let (strays, ledger) = Life-Ledger start life in
    let books = rw there at ledger in (books.0, books.1, ground (arith, books.2 k lt, mapped_there))
