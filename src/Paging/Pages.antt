-- ===== src/Paging/Pages.antt =====
-- paging.c: the pages of an area and the indices of its array.
use c_operating_system.Prelude.{ℕ, ◌+◌, ◌-◌, ◌*◌, ◌/◌, ◌%◌, ◌≤◌, ◌<◌, ◌≡◌, arith}
use c_operating_system.Paging.{Vma, page_size, page_align, get_pages_count, offset}

-- `get_pages_count` is the least number of pages that hold the area.
pub pages_cover :
    (vma : Vma)
    → (vma.vm_end - vma.vm_start ≤ get_pages_count vma * page_size)
      × (get_pages_count vma * page_size < vma.vm_end - vma.vm_start + page_size)
unfolding get_pages_count
pages_cover vma = ground arith

-- For a fault inside the area the index that `do_fault` writes is within the array.
pub offset-lt :
    (vma : Vma) (address : ℕ)
    → vma.vm_start ≤ address
    → address < vma.vm_end
    → offset vma address < get_pages_count vma
unfolding get_pages_count
offset-lt vma address above below = ground arith

-- At page-aligned addresses the page that is mapped is the one whose index is written.
pub page_align-offset :
    (vma : Vma) (address : ℕ)
    → vma.vm_start % page_size ≡ 0
    → address % page_size ≡ 0
    → vma.vm_start ≤ address
    → page_align address / page_size ≡ vma.vm_start / page_size + offset vma address
page_align-offset vma address start aligned above = omega arith

-- At any other address the page that is mapped is the one after it.
pub page_align_beyond :
    (vma : Vma) (address : ℕ)
    → vma.vm_start % page_size ≡ 0
    → 0 < address % page_size
    → vma.vm_start ≤ address
    → page_align address / page_size ≡ vma.vm_start / page_size + offset vma address + 1
page_align_beyond vma address start within above = omega arith
