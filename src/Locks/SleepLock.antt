-- ===== src/Locks/SleepLock.antt =====
-- studio11_build_own_locks/sleeplock.c: a lock on one `int` whose waiters sleep in a futex.
-- Each atomic access is one step. Of the futex the model has what its manual page says: FUTEX_WAIT
-- sleeps only if the word still has the given value, in one step with that test, and FUTEX_WAKE
-- with INT_MAX wakes every sleeper.
pub mod Exclusion
pub mod LostWakeup
use c_operating_system.Prelude.{
  ℕ, ◌^◌, ◌-◌, Bool, true, false, Option, none, some, ltb, ◌==◌, if◌then◌else◌,
}
use c_operating_system.Prelude.Word.{add32, sub32, is_negative}
use c_operating_system.Threads.{Conf, Program, update}

abbrev pub unlocked : ℕ
unlocked = 1

-- the rounds of `critical_section`
abbrev pub iters : ℕ
iters = 500_000_000

-- -1 as an `int`
abbrev pub minus_one : ℕ
minus_one = 2 ^ 32 - 1

-- `mylock`, and which threads the futex holds asleep
pub record Shared : Type 0 where
  pub word : ℕ
  pub asleep : ℕ → Bool

-- Where a thread of `main` stands.
pub data Pc : Type 0 where
  locking : Pc  -- `lock`: at a __atomic_sub_fetch
  storing : Pc  -- at the store of -1
  waiting : Pc  -- at FUTEX_WAIT
  sleeping : Pc  -- in FUTEX_WAIT
  critical : (index : ℕ) → Pc  -- at the test of the loop in `critical_section`
  unlocking : Pc  -- `unlock`: at the __atomic_add_fetch
  releasing : Pc  -- at the store of 1
  waking : Pc  -- at FUTEX_WAKE
  finished : Pc

abbrev write : Shared → ℕ → Shared
write s w = record s { word = w }

-- `status = __atomic_sub_fetch(ptr, 1)` and the test of the loop
pub lock_fetch : Shared → Shared × Pc
lock_fetch s =
    let status : ℕ = sub32 s.word 1 in
    if is_negative status then (write s status, storing) else (write s status, critical 0)

pub lock_wait : ℕ → Shared → Shared × Pc
lock_wait i s =
    if s.word == minus_one
    then (record s { asleep = update s.asleep i true }, sleeping)
    else (s, locking)

pub critical_section : ℕ → Shared → Shared × Pc
critical_section index s = if ltb index iters then (s, critical (add32 index 1)) else (s, unlocking)

-- `status = __atomic_add_fetch(ptr, 1)` and the test that follows
pub unlock_fetch : Shared → Shared × Pc
unlock_fetch s =
    let status : ℕ = add32 s.word 1 in
    if status == 1 then (write s status, finished) else (write s status, releasing)

pub wake_all : Shared → Shared
wake_all s = record s { asleep = λ _. false }

-- The body of the parallel region in `main`.
unfoldable pub step : Program Shared Pc
unfolding lock_fetch lock_wait critical_section unlock_fetch wake_all
step i s locking = some (lock_fetch s)
step i s storing = some (write s minus_one, waiting)
step i s waiting = some (lock_wait i s)
step i s sleeping = if s.asleep i then none else some (s, locking)
step i s (critical index) = some (critical_section index s)
step i s unlocking = some (unlock_fetch s)
step i s releasing = some (write s 1, waking)
step i s waking = some (wake_all s, finished)
step i s finished = none

abbrev pub start : Conf Shared Pc
start = record { shared = record { word = unlocked; asleep = λ _. false }; locals = λ _. locking }
