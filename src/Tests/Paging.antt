-- ===== src/Tests/Paging.antt =====
-- paging.c: an area of three pages, faults and closes.
use c_operating_system.Prelude.{
  ℕ, ◌≡◌, refl, true, false, Option, none, some, arith, ◌==◌, if◌then◌else◌,
}
use c_operating_system.Paging.{
  Vma, Module, Tracer, get_pages_count, do_fault, paging_vma_close, paging_mmap, Supply,
  kmod_paging_init,
}
use c_operating_system.Paging.Ledger.{Life, mapped, faulted, closed}
use c_operating_system.Paging.Device.{Mapping, Device, view, put, placed, mmap}
use c_operating_system.Paging.Device
use c_operating_system.Threads.{update}
use c_operating_system.Paging.Mapping.{tracer_agrees}

abbrev vma : Vma
vma = record { vm_start = 0x10000; vm_end = 0x13000 }

abbrev blank : Tracer
blank = record { counter = 1; pages = λ _. none }

-- mapped by demand paging
abbrev before : Module
before = record kmod_paging_init { tracer = some blank }

-- after a fault in the second page, for which frame 77 is taken and mapped
after_fault : Module
after_fault = (do_fault vma 0x11000 (some 77) true before blank).0

mapped-Life : Life vma 1 0 before
unfolding paging_mmap
mapped-Life = mapped 1 (λ _. none) (λ i. (none, false)) refl

fault-Life : Life vma 1 0 after_fault
unfolding after_fault
fault-Life =
    faulted 0x11000 (some 77) true mapped-Life refl
      (record { above = omega arith; below = omega arith; aligned = refl; unmapped = refl })

-- After a fault whose page could not be mapped, and the close of the area.
abbrev after_lost : Module
after_lost = (do_fault vma 0x11000 (some 77) false before blank).0

lost-Life : Life vma 0 1 (paging_vma_close vma after_lost blank)
unfolding do_fault
lost-Life =
    closed
      (faulted 0x11000 (some 77) false mapped-Life refl
        (record { above = omega arith; below = omega arith; aligned = refl; unmapped = refl }))
      refl

-- What `kmalloc` has left in the array: three numbers that are no pages.
abbrev left_there : ℕ → Option ℕ
left_there k = some 5

abbrev first : Tracer
first = record { counter = 1; pages = left_there }

stray-Life :
    Life vma 1 0
      (do_fault vma 0x11000
        (some 77)
        true
        (record kmod_paging_init { tracer = some first })
        first).0
unfolding paging_mmap
stray-Life =
    faulted 0x11000 (some 77) true (mapped 1 left_there (λ i. (none, false)) refl) refl
      (record { above = omega arith; below = omega arith; aligned = refl; unmapped = refl })

abbrev second : Tracer
second = record { counter = 1; pages = update left_there 1 (some 77) }

abbrev one_area : ℕ
one_area = 1

tracer_agrees_example : (one_area ≡ 1) × (second.counter ≡ 1) × (second.pages 1 ≡ some 77)
unfolding do_fault get_pages_count
tracer_agrees_example = tracer_agrees second 1 77 refl stray-Life refl (omega arith) refl

-- Two mappings: a page of the first is mapped and freed, with two strays; of the second, which is mapped at once, the
-- second page cannot be had.
abbrev no_supply : Supply
no_supply i = (none, false)

abbrev one_page : Supply
one_page i = (if i == 0 then some 88 else none, true)

abbrev second_vma : Vma
second_vma = record { vm_start = 0x20000; vm_end = 0x22000 }

abbrev unused : ℕ → Mapping
unused i = record { vma = vma; tracer = none; table = λ _. none }

abbrev loaded_device : Device
loaded_device = record { allocate_page_counter = 0; free_page_counter = 0; mapping = unused }

abbrev mapped_device : Device
mapped_device = placed loaded_device 0 vma (mmap loaded_device vma 1 left_there no_supply).0

abbrev faulted_device : Device
faulted_device =
    put mapped_device 0 (do_fault vma 0x11000 (some 77) true (view mapped_device 0) first).0

abbrev refused_device : Device
refused_device =
    placed faulted_device 1 second_vma (mmap faulted_device second_vma 0 left_there one_page).0

abbrev closed_device : Tracer → Device
closed_device t = put refused_device 0 (paging_vma_close vma (view refused_device 0) t)

abbrev after_page : Tracer
after_page = second
