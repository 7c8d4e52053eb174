-- ===== src/PageArray/Filling.antt =====
-- kernel_memory.c: what the thread writes is what it finds, inside the pages that it has.
use c_operating_system.Prelude.{
  ℕ, zero, suc, ◌+◌, ◌*◌, ◌/◌, ◌%◌, ◌^◌, ◌≤◌, ◌<◌, ◌≡◌, refl, true, ◌∙◌, [], arith, ◌==◌,
}
use c_operating_system.Threads.{update}
use c_operating_system.PageArray.{
  nr_pages, address, element, fill_array, fill_structs, fill_pages, check_array, check_structs,
  check_pages, fill, report, my_get_order, page_size, datatype_size,
}
use c_operating_system.PageArray.Order.{my_get_order_least}

-- Below `end` each word holds its number.
abbrev Filled : ℕ → (ℕ → ℕ) → Type 0
Filled end memory = (x : ℕ) → x < end → memory x ≡ x % 2 ^ 32

fill_array-Filled :
    (left i j n : ℕ) (memory : ℕ → ℕ)
    → Filled (address i j n) memory
    → Filled (address i j n + left) (fill_array left i j n memory)
unfolding fill_array
fill_array-Filled zero i j n memory h x lt = h x (omega arith)
fill_array-Filled (suc left) i j n memory h x lt =
    fill_array-Filled left i j (n + 1) (update memory (address i j n) (element i j n))
      (λ y below. ground (arith, h y)) x (omega arith)

fill_structs-Filled :
    (left i j : ℕ) (memory : ℕ → ℕ)
    → Filled (address i j 0) memory
    → Filled (address i (j + left) 0) (fill_structs left i j memory)
unfolding fill_structs
fill_structs-Filled zero i j memory h x lt = h x (omega arith)
fill_structs-Filled (suc left) i j memory h x lt =
    fill_structs-Filled left i (j + 1) (fill_array 8 i j 0 memory)
      (λ y below. fill_array-Filled 8 i j 0 memory h y (omega arith)) x (omega arith)

fill_pages-Filled :
    (left i : ℕ) (memory : ℕ → ℕ)
    → Filled (address i 0 0) memory
    → Filled (address (i + left) 0 0) (fill_pages left i memory)
unfolding fill_pages
fill_pages-Filled zero i memory h x lt = h x (omega arith)
fill_pages-Filled (suc left) i memory h x lt =
    fill_pages-Filled left (i + 1) (fill_structs 128 i 0 memory)
      (λ y below. fill_structs-Filled 128 i 0 memory h y (omega arith)) x (omega arith)

-- The check passes over what is filled.
check_array-Filled :
    (left i j n end : ℕ) (memory : ℕ → ℕ)
    → Filled end memory
    → address i j n + left ≤ end
    → check_array left i j n memory ≡ []
unfolding check_array
check_array-Filled zero i j n end memory h le = refl
check_array-Filled (suc left) i j n end memory h le =
    let same : (memory (address i j n) == element i j n) ≡ true =
      ground (arith, h (address i j n)) in
    rw same (check_array-Filled left i j (n + 1) end memory h (omega arith))

check_structs-Filled :
    (left i j end : ℕ) (memory : ℕ → ℕ)
    → Filled end memory
    → address i (j + left) 0 ≤ end
    → check_structs left i j memory ≡ []
unfolding check_structs
check_structs-Filled zero i j end memory h le = refl
check_structs-Filled (suc left) i j end memory h le =
    rw (check_array-Filled 8 i j 0 end memory h (omega arith))
      (check_structs-Filled left i (j + 1) end memory h (omega arith))

check_pages-Filled :
    (left i end : ℕ) (memory : ℕ → ℕ)
    → Filled end memory
    → address (i + left) 0 0 ≤ end
    → check_pages left i memory ≡ []
unfolding check_pages
check_pages-Filled zero i end memory h le = refl
check_pages-Filled (suc left) i end memory h le =
    rw (check_structs-Filled 128 i 0 end memory h (omega arith))
      (check_pages-Filled left (i + 1) end memory h (omega arith))

-- Whatever the pages held, the check after the fill reports no error.
pub report-fill :
    (nr_structs : ℕ) (memory : ℕ → ℕ) → report nr_structs (fill nr_structs memory) ≡ []
unfolding report fill
report-fill nr_structs memory =
    check_pages-Filled (nr_pages nr_structs) 0 (address (nr_pages nr_structs) 0 0)
      (fill_pages (nr_pages nr_structs) 0 memory)
      (λ x lt.
        fill_pages-Filled (nr_pages nr_structs) 0 memory (λ y b. absurd (omega arith)) x
          (omega arith))
      (omega arith)

-- A word at or after the end of a loop's range keeps what it held.
fill_array-beyond :
    (left i j n x : ℕ) (memory : ℕ → ℕ)
    → address i j n + left ≤ x
    → fill_array left i j n memory x ≡ memory x
unfolding fill_array
fill_array-beyond zero i j n x memory le = refl
fill_array-beyond (suc left) i j n x memory le = ground (
  arith,
  fill_array-beyond left i j (n + 1) x (update memory (address i j n) (element i j n))
      (omega arith),
)

fill_structs-beyond :
    (left i j x : ℕ) (memory : ℕ → ℕ)
    → address i (j + left) 0 ≤ x
    → fill_structs left i j memory x ≡ memory x
unfolding fill_structs
fill_structs-beyond zero i j x memory le = refl
fill_structs-beyond (suc left) i j x memory le =
    fill_structs-beyond left i (j + 1) x (fill_array 8 i j 0 memory) (omega arith)
    ∙ fill_array-beyond 8 i j 0 x memory (omega arith)

fill_pages-beyond :
    (left i x : ℕ) (memory : ℕ → ℕ)
    → address (i + left) 0 0 ≤ x
    → fill_pages left i memory x ≡ memory x
unfolding fill_pages
fill_pages-beyond zero i x memory le = refl
fill_pages-beyond (suc left) i x memory le =
    fill_pages-beyond left (i + 1) x (fill_structs 128 i 0 memory) (omega arith)
    ∙ fill_structs-beyond 128 i 0 x memory (omega arith)

pages-room :
    (nr_structs : ℕ)
    → 1 ≤ nr_structs
    → nr_structs < 2 ^ 32
    → (nr_structs * datatype_size ≤ nr_pages nr_structs * page_size)
      × (1 ≤ nr_pages nr_structs)
      × (nr_pages nr_structs < 2 ^ 32)
unfolding nr_pages
pages-room nr_structs some_struct small = (ground arith, ground arith, ground arith)

-- For 1 to below 2^32 structures: the block of pages that `thread_fn` asks for has room for them all,
-- and the fill changes no word beyond that block.
pub fill-inside :
    (nr_structs : ℕ) (memory : ℕ → ℕ)
    → 1 ≤ nr_structs
    → nr_structs < 2 ^ 32
    → (nr_structs * datatype_size ≤ 2 ^ my_get_order (nr_pages nr_structs) * page_size)
      × ((x : ℕ)
          → 2 ^ my_get_order (nr_pages nr_structs) * (page_size / 4) ≤ x
          → fill nr_structs memory x ≡ memory x)
unfolding fill
fill-inside nr_structs memory some_struct small = (
  omega (arith, pages-room nr_structs some_struct small, enough),
  λ x le. fill_pages-beyond (nr_pages nr_structs) 0 x memory (omega (arith, enough)),
)
  where
    enough : nr_pages nr_structs ≤ 2 ^ my_get_order (nr_pages nr_structs)
    enough =
        let room = pages-room nr_structs some_struct small in
        (my_get_order_least (nr_pages nr_structs) room.1 room.2).0
