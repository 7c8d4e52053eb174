-- ===== src/Tests/PageModule.antt =====
-- kernel_memory.c loaded and removed.
use c_operating_system.Prelude.{ℕ, ◌≤◌, ◌≡◌, ◌⊎◌, refl, true, List, [], ◌∷◌, ◌++◌, length}
use c_operating_system.Threads.{run, turn}
use c_operating_system.PageArray.{nr_pages, my_get_order, shift_out}
use c_operating_system.PageArray.Module.{
  null, block, unloaded, refused, returned, faulted, step, start,
}
use c_operating_system.PageArray.Module.Freed.{unload_frees}
use c_operating_system.PageArray.Module.Removal.{unload_finishes}

abbrev held : ℕ → ℕ
held x = 7

abbrev both : List ℕ
both = 1 ∷ 0 ∷ 0 ∷ 1 ∷ 1 ∷ 1 ∷ 1 ∷ 0 ∷ 1 ∷ 0 ∷ 1 ∷ 1 ∷ 0 ∷ []

control_ends : (run 2 (step 300 true (block held)) both start).locals 0 ≡ unloaded
unfolding run turn step
control_ends = refl

allocates : (run 2 (step 300 true (block held)) both start).shared.allocated ≡ 2 ∷ []
unfolding run turn step my_get_order shift_out nr_pages
allocates = refl

-- Memory is short: IS_ERR does not see it.
uses_null : (run 2 (step 300 true null) (0 ∷ 0 ∷ 1 ∷ 1 ∷ 1 ∷ []) start).locals 1 ≡ faulted
unfolding run turn step nr_pages
uses_null = refl

unload_frees_example :
    ((run 2 (step 300 true (block held)) both start).shared.freed
      ≡ (run 2 (step 300 true (block held)) both start).shared.allocated)
    × ((run 2 (step 300 true (block held)) both start).shared.errors ≡ [])
    × ((run 2 (step 300 true (block held)) both start).locals 1 ≡ returned)
unload_frees_example = unload_frees 300 true (block held) both control_ends

unload_finishes_example :
    (more : List ℕ) × (length more ≤ 10)
    × ((((run 2 (step 300 true (block held)) ((0 ∷ 0 ∷ []) ++ more) start).locals 0 ≡ unloaded)
          ⊎ ((run 2 (step 300 true (block held)) ((0 ∷ 0 ∷ []) ++ more) start).locals 0 ≡ refused))
        ⊎ (((run 2 (step 300 true (block held)) ((0 ∷ 0 ∷ []) ++ more) start).locals 1 ≡ faulted)
            × (block held ≡ null)))
unload_finishes_example = unload_finishes 300 true (block held) (0 ∷ 0 ∷ [])
