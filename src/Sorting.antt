-- ===== src/Sorting.antt =====
-- studio15_linux_signals/test/sort.c: a quicksort in place. A `double` is an element of D, with the test
-- `le`; `to_unsigned` is the conversion to `unsigned` and back that `swap` and `partition` make.
pub mod Shuffle
pub mod Partition
pub mod Sorted
use c_operating_system.Prelude.{ℕ, zero, suc, ◌+◌, ◌-◌, ◌%◌, Bool, ltb, if◌then◌else◌}
use c_operating_system.Prelude.Word.{add32, sub32}
use c_operating_system.Threads.{update}

module _ {D : Type 0} (le : D → D → Bool) (to_unsigned : D → D) where
  unfoldable pub swap : ℕ → ℕ → (ℕ → D) → ℕ → D
  swap a b A = let temp = to_unsigned (A a) in update (update A a (A b)) b temp

  -- The loop of `partition` from `start`, after k rounds: `target`, and the array.
  unfoldable pub walk : D → ℕ → ℕ → (ℕ → D) → ℕ × (ℕ → D)
  walk pivot_val start zero A = (start, A)
  walk pivot_val start (suc k) A =
      let (target, before) = walk pivot_val start k A in
      if le (before (start + k)) pivot_val
      then (add32 target 1, swap target (start + k) before)
      else (target, before)

  -- `random` gives the result of `rand` in the call for a slice; no slice comes twice.
  module _ (random : ℕ → ℕ → ℕ) where
    unfoldable pub partition : ℕ → ℕ → (ℕ → D) → ℕ × (ℕ → D)
    partition start end A =
        let range = sub32 end start in
        let pivot = add32 (random start end % range) start in
        let moved = swap pivot end A in
        let (target, walked) = walk (to_unsigned (moved end)) start (end - start) moved in
        (target, swap target end walked)

    -- Each call is for a smaller slice, so the length of the slice is enough fuel.
    unfoldable pub quicksort : ℕ → ℕ → ℕ → (ℕ → D) → ℕ → D
    quicksort zero start end A = A
    quicksort (suc fuel) start end A =
        let (pivot, split) = partition start end A in
        let left = if ltb start pivot then quicksort fuel start (sub32 pivot 1) split else split in
        let right = if ltb pivot end then quicksort fuel (add32 pivot 1) end left else left in
        if ltb start end then right else A
