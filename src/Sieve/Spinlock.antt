-- ===== src/Sieve/Spinlock.antt =====
-- project2_kernel_memory_concurrent_use/spinlock.c: the module of atomic.c with `spin_lock` around
-- each crossing, over a plain `int` array. What is not here is the text of atomic.c.
pub mod Refinement
pub mod Results
use c_operating_system.Prelude.{
  ℕ, ◌+◌, ◌-◌, ◌<◌, ◌≡◌, Bool, true, false, Option, none, some, ltb, if◌then◌else◌,
}
use c_operating_system.Prelude.Word.{add32, ulong}
use c_operating_system.Threads.{Conf, Program, update}
use c_operating_system.Sieve.Time.{Timespec}
use c_operating_system.Sieve.Eratosthenes.{
  Params, Shared, claiming, crossing, entering, last, initial_number,
}
use c_operating_system.Sieve.Eratosthenes
use c_operating_system.Sieve.Guarded.{Pc, plain}
use c_operating_system.Sieve.Guarded
use c_operating_system.Sieve.Report.{Report}
use c_operating_system.Sieve.Lifecycle.{
  Module, Memory, Result, Exit, Variant, init_module, exit_module, call_showinfo,
}

-- The second inner loop: the cell that a round crosses out, and the place after it.
abbrev pub crosses : Params → Eratosthenes.Pc → Option (ℕ × Eratosthenes.Pc)
crosses p (crossing current_pos distance) =
    if ltb (ulong current_pos) (last p)
    then some (current_pos, crossing (add32 current_pos distance) distance)
    else none
crosses p _ = none

-- `mythread_func`
unfoldable pub step : Params → Program Shared (Pc Eratosthenes.Pc)
step p = Guarded.step (Eratosthenes.step p) (crosses p)

abbrev pub start : Params → (ℕ → ℕ) → Timespec → Conf Shared (Pc Eratosthenes.Pc)
start p rest zero_time = record {
  shared = (Eratosthenes.start p rest zero_time).shared;
  locals = λ i. plain (entering false);
}

abbrev pub spinlock : Variant
spinlock = record { first = 0; numbers = initial_number }

-- `showinfo`, `simple_init` and `simple_exit`, whose text is that of atomic.c.
abbrev pub showinfo : Params → Module → Result Report
showinfo = call_showinfo

unfoldable pub simple_init : Params → Memory → Timespec → Module → Result Module
simple_init = init_module spinlock

unfoldable pub simple_exit : Params → Module → Result (Exit Report)
simple_exit = exit_module showinfo
