-- ===== src/Sieve/SundaramLock.antt =====
-- project2_kernel_memory_concurrent_use/sundrama_lock.c: the module of sundrama_atomic.c with
-- `spin_lock` around each crossing, over a plain `int` array. What is not here is the text of that file.
pub mod Refinement
use c_operating_system.Prelude.{ℕ, ◌/◌, false, Option, none, some, leb, if◌then◌else◌}
use c_operating_system.Prelude.Word.{add32, ulong}
use c_operating_system.Threads.{Conf, Program}
use c_operating_system.Sieve.Time.{Timespec}
use c_operating_system.Sieve.Eratosthenes.{Params, Shared}
use c_operating_system.Sieve.Lifecycle.{
  Pointer, Module, Memory, Result, Exit, init_module, exit_module,
}
use c_operating_system.Sieve.Guarded.{Pc, plain}
use c_operating_system.Sieve.Guarded
use c_operating_system.Sieve.Sundaram.{crossing, entering, position}
use c_operating_system.Sieve.Sundaram
use c_operating_system.Sieve.Sundaram.Report.{Report, sundaram, call_showinfo}

-- The loop over `j`: the cell that a round crosses out, and the place after it.
abbrev pub crosses : Params → Sundaram.Pc → Option (ℕ × Sundaram.Pc)
crosses p (crossing i j) =
    if leb (ulong j) (p.upper_bound / 4)
    then if leb (ulong (position i j)) p.upper_bound
      then some (position i j, crossing i (add32 j 1))
      else none
    else none
crosses p _ = none

-- `mythread_func`
unfoldable pub step : Params → Program Shared (Pc Sundaram.Pc)
step p = Guarded.step (Sundaram.step p) (crosses p)

abbrev pub start : Params → (ℕ → ℕ) → Timespec → Conf Shared (Pc Sundaram.Pc)
start p rest zero_time = record {
  shared = (Sundaram.start p rest zero_time).shared;
  locals = λ i. plain (entering false);
}

-- `showinfo`, `simple_init` and `simple_exit`, whose text is that of sundrama_atomic.c but for the
-- kind of the array.
abbrev pub showinfo : Pointer (ℕ → ℕ) → Params → Module → Result (Option Report)
showinfo = call_showinfo

unfoldable pub simple_init : Params → Memory → Timespec → Module → Result Module
simple_init = init_module sundaram

unfoldable pub simple_exit : Pointer (ℕ → ℕ) → Params → Module → Result (Exit (Option Report))
simple_exit tmp = exit_module (showinfo tmp)
