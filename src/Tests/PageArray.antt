-- ===== src/Tests/PageArray.antt =====
-- kernel_memory.c at concrete numbers of structures.
use c_operating_system.Prelude.{
  ℕ, ◌*◌, ◌/◌, ◌^◌, ◌≤◌, ◌≡◌, refl, [], ◌∷◌, arith, ◌==◌, if◌then◌else◌,
}
use c_operating_system.PageArray.{
  my_get_order, shift_out, nr_pages, fill, check_array, page_size, datatype_size,
}
use c_operating_system.PageArray.Filling.{fill-inside}

orders : (my_get_order 1 ≡ 0) × (my_get_order 5 ≡ 3) × (my_get_order 16 ≡ 4)
unfolding my_get_order shift_out
orders = (refl, refl, refl)

-- A word that was changed is reported.
abbrev changed : ℕ → ℕ
changed x = if x == 1 then 9 else x

changed_reported : check_array 3 0 0 0 changed ≡ record { page = 0; struct = 0; array = 1 } ∷ []
unfolding check_array
changed_reported = refl

fill-inside_example :
    (2000 * datatype_size ≤ 2 ^ my_get_order (nr_pages 2000) * page_size)
    × ((x : ℕ) → 2 ^ my_get_order (nr_pages 2000) * (page_size / 4) ≤ x → fill 2000 (λ y. 7) x ≡ 7)
fill-inside_example = fill-inside 2000 (λ x. 7) (omega arith) (omega arith)
