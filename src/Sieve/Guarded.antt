-- ===== src/Sieve/Guarded.antt =====
-- spinlock.c and sundrama_lock.c: the threads of atomic.c and of sundrama_atomic.c, with `spin_lock`
-- and `spin_unlock` around each crossing. `base` is the program without them, and `crosses` says at
-- which of its places a number is crossed out: the cell, and the place after.
pub mod Simulation
pub mod Refinement
use c_operating_system.Prelude.{ℕ, Bool, true, false, Option, none, some, if◌then◌else◌}
use c_operating_system.Prelude.Word.{add32}
use c_operating_system.Threads.{Conf, Program, update}
use c_operating_system.Sieve.Eratosthenes.{Shared}

-- The places of the two programs have in common `plain`.
pub data Pc (L : Type 0) : Type 0 where
  plain : (place : L) → Pc L
  locking : (place : L) → Pc L  -- at the spin_lock of a crossing
  storing : (place : L) → Pc L  -- at `number[…] = 0`
  releasing : (next : L) → Pc L  -- at spin_unlock

module _ {L : Type 0} where
  abbrev pub lift : Option (Shared × L) → Option (Shared × Pc L)
  lift none = none
  lift (some (s, l)) = some (s, plain l)

  module _ (base : Program Shared L) (crosses : L → Option (ℕ × L)) where
    abbrev pub begin : ℕ → Shared → L → Option (ℕ × L) → Option (Shared × Pc L)
    begin i s l none = lift (base i s l)
    begin i s l (some (cell, next)) = some (s, locking l)

    abbrev pub store : Shared → Option (ℕ × L) → Option (Shared × Pc L)
    store s none = none
    store s (some (cell, next)) =
        some (record s { number = update s.number cell 0 }, releasing next)

    -- After the lock is released the thread updates its own counter and position.
    unfoldable pub step : Program Shared (Pc L)
    step i s (plain l) = begin i s l (crosses l)
    step i s (locking l) = if s.lock then none else some (record s { lock = true }, storing l)
    step i s (storing l) = store s (crosses l)
    step i s (releasing next) = some (
      record s { lock = false; counter = update s.counter i (add32 (s.counter i) 1) },
      plain next,
    )
