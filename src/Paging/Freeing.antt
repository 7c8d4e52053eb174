-- ===== src/Paging/Freeing.antt =====
-- paging.c: the loop of `paging_vma_close` counts the pages that are recorded.
use c_operating_system.Prelude.{ℕ, zero, suc, ◌+◌, ◌%◌, ◌^◌, ◌≡◌, ap, Option, none, some, arith}
use c_operating_system.Prelude.Word.{add32}
use c_operating_system.Threads.Total.{total}
use c_operating_system.Paging.{free_pages}

abbrev pub present : Option ℕ → ℕ
present none = 0
present (some _) = 1

-- The loop of `paging_vma_close` counts the recorded pages from index `i` on.
pub total_from : ℕ → ℕ → (ℕ → Option ℕ) → ℕ
total_from zero i pages = 0
total_from (suc left) i pages = present (pages i) + total_from left (i + 1) pages

pub free_pages_lem :
    (left i : ℕ) (pages : ℕ → Option ℕ) (freed : ℕ)
    → free_pages left i pages freed % 2 ^ 32 ≡ (freed + total_from left i pages) % 2 ^ 32
unfolding free_pages total_from
free_pages_lem zero i pages freed = ap (λ (v : ℕ). v % 2 ^ 32) (omega arith)
free_pages_lem (suc left) i pages freed = ground (
  arith,
  free_pages_lem left (i + 1) pages (add32 freed 1),
  free_pages_lem left (i + 1) pages freed,
)

total_from-total :
    (left i : ℕ) (pages : ℕ → Option ℕ)
    → total present i pages + total_from left i pages ≡ total present (i + left) pages
unfolding total_from total
total_from-total zero i pages = let e : i + 0 ≡ i = omega arith in rw e (omega arith)
total_from-total (suc left) i pages =
    let e : i + suc left ≡ suc i + left = omega arith in
    let f : i + 1 ≡ suc i = omega arith in
    rw (e, f) (omega (arith, total_from-total left (suc i) pages))

pub total_from_all : (n : ℕ) (pages : ℕ → Option ℕ) → total_from n 0 pages ≡ total present n pages
unfolding total
total_from_all n pages =
    let e : 0 + n ≡ n = omega arith in
    omega (arith, total_from-total n 0 pages, ap (λ (k : ℕ). total present k pages) e)
