-- ===== src/Locks/SpinLock.antt =====
-- studio11_build_own_locks/lock.c: a spin lock on one `int`, and the threads that contend for it.
-- The compare-exchange is one step; `usleep`, `printf` and `sched_getcpu` change no state of it.
pub mod Exclusion
use c_operating_system.Prelude.{ℕ, Bool, true, false, Option, none, some, ltb, ◌==◌, if◌then◌else◌}
use c_operating_system.Prelude.Word.{add32}
use c_operating_system.Threads.{Conf, Program}

abbrev pub locked : ℕ
locked = 0

abbrev pub unlocked : ℕ
unlocked = 1

-- the rounds of `critical_section`
abbrev pub iters : ℕ
iters = 500_000_000

-- `__atomic_compare_exchange` on the word: its new value, and whether it was exchanged.
abbrev pub compare_exchange : ℕ → ℕ → ℕ → ℕ × Bool
compare_exchange word expected desired = if word == expected then (desired, true) else (word, false)

-- Where a thread of `main` stands.
pub data Pc : Type 0 where
  locking : Pc  -- at the compare-exchange of `lock`
  critical : (index : ℕ) → Pc  -- at the test of the loop in `critical_section`
  unlocking : Pc  -- at the compare-exchange of `unlock`
  finished : Pc  -- `unlock` has reported success
  illegal : Pc  -- `unlock` has reported an illegal attempt

-- the `while(1)` of `lock`, a round to a step
pub lock : ℕ → ℕ × Pc
lock word =
    let (w, exchanged) = compare_exchange word unlocked locked in
    if exchanged then (w, critical 0) else (w, locking)

pub critical_section : ℕ → ℕ → ℕ × Pc
critical_section index word =
    if ltb index iters then (word, critical (add32 index 1)) else (word, unlocking)

pub unlock : ℕ → ℕ × Pc
unlock word =
    let (w, exchanged) = compare_exchange word locked unlocked in
    if exchanged then (w, finished) else (w, illegal)

-- The body of the parallel region in `main`, which every thread runs once.
unfoldable pub step : Program ℕ Pc
unfolding lock critical_section unlock
step i word locking = some (lock word)
step i word (critical index) = some (critical_section index word)
step i word unlocking = some (unlock word)
step i word finished = none
step i word illegal = none

-- `mylock` is initialised to `UNLOCKED`.
abbrev pub start : Conf ℕ Pc
start = record { shared = unlocked; locals = λ _. locking }
