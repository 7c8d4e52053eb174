-- ===== src/Sieve/Sundaram.antt =====
-- project2_kernel_memory_concurrent_use/sundrama_atomic.c: the sieve of Sundaram by kernel threads,
-- each access to shared memory a step. The barriers and the global variables are those of atomic.c.
pub mod Invariant
pub mod Report
pub mod Printing
pub mod Runs
use c_operating_system.Prelude.{
  ℕ, ◌+◌, ◌/◌, Bool, true, false, ◌&&◌, Option, none, some, ltb, leb, ◌==◌, if◌then◌else◌,
}
use c_operating_system.Prelude.Word.{add32, mul32, ulong}
use c_operating_system.Threads.{Conf, Program, update}
use c_operating_system.Sieve.Time.{Timespec}
use c_operating_system.Sieve.Eratosthenes.{Params, Shared, arrive, expected}

-- Where a thread stands, as in atomic.c.
pub data Pc : Type 0 where
  entering : (flag : Bool) → Pc  -- `mybarrier`: at spin_lock
  arriving : (flag : Bool) → Pc  -- at `arrive_barrier++` and the time stamp
  leaving : (flag : Bool) → Pc  -- at spin_unlock
  spinning : (flag : Bool) → Pc  -- at the test of the busy loop
  claiming : Pc  -- `compute`: at spin_lock
  reading : Pc  -- at `current_pos = cur`
  counting : (current_pos : ℕ) → Pc  -- at `cur++`
  scanning : (current_pos : ℕ) → Pc  -- at the test of the first inner loop
  unlocking : (current_pos : ℕ) → Pc  -- at spin_unlock
  checking : (current_pos : ℕ) → Pc  -- at `if(cur*4 > upper_bound)`
  crossing : (i j : ℕ) → Pc  -- at the test of the loop over `j`
  ending : Pc  -- at `atomic_add(1,&done)`
  finished : Pc

abbrev pub take : Shared → Pc → Option (Shared × Pc)
take s l = if s.lock then none else some (record s { lock = true }, l)

-- `j+i+2*i*j`, an `int`
abbrev pub position : ℕ → ℕ → ℕ
position i j = add32 (add32 j i) (mul32 (mul32 2 i) j)

module _ (p : Params) where
  -- The test of the busy loops in `mybarrier`, and what follows it.
  pub mybarrier : Bool → Shared → Pc
  mybarrier flag s =
      if ltb (ulong s.arrive_barrier) (expected p flag)
      then spinning flag
      else if flag
      then ending
      else claiming

  -- The first inner loop of `compute`, a round to a step.
  pub scan : ℕ → Shared → Shared × Pc
  scan current_pos s =
      if (s.number s.cur == 0) && leb (ulong (mul32 s.cur 4)) p.upper_bound
      then (record s { cur = add32 s.cur 1 }, scanning current_pos)
      else (s, unlocking current_pos)

  -- The test after the critical section, and the start of the loop over `j`.
  pub check : ℕ → Shared → Pc
  check current_pos s =
      if ltb p.upper_bound (ulong (mul32 s.cur 4))
      then entering true
      else crossing current_pos current_pos

  -- A round of the loop over `j`, for the thread with counter `thread`.
  pub cross : ℕ → ℕ → ℕ → Shared → Shared × Pc
  cross thread i j s =
      if leb (ulong j) (p.upper_bound / 4)
      then if leb (ulong (position i j)) p.upper_bound
        then (
          record s {
            number = update s.number (position i j) 0;
            counter = update s.counter thread (add32 (s.counter thread) 1);
          },
          crossing i (add32 j 1),
        )
        else (s, crossing i (add32 j 1))
      else (s, claiming)

  -- `mythread_func`
  unfoldable pub step : Program Shared Pc
  unfolding mybarrier scan check cross
  step i s (entering flag) = take s (arriving flag)
  step i s (arriving flag) = some (arrive p flag s, leaving flag)
  step i s (leaving flag) = some (record s { lock = false }, spinning flag)
  step i s (spinning flag) = some (s, mybarrier flag s)
  step i s claiming = take s reading
  step i s reading = some (s, counting s.cur)
  step i s (counting current_pos) = some (record s { cur = add32 s.cur 1 }, scanning current_pos)
  step i s (scanning current_pos) = some (scan current_pos s)
  step i s (unlocking current_pos) = some (record s { lock = false }, checking current_pos)
  step i s (checking current_pos) = some (s, check current_pos s)
  step i s (crossing i' j) = some (cross i i' j s)
  step i s ending = some (record s { done = add32 s.done 1 }, finished)
  step i s finished = none

-- The array after the loop of `simple_init`: `number[index] = index`. Beyond it lies `rest`.
abbrev pub initial_number : ℕ → (ℕ → ℕ) → ℕ → ℕ
initial_number upper_bound rest index = if leb index upper_bound then index else rest index

-- What the threads find when `simple_init` starts them.
abbrev pub start : Params → (ℕ → ℕ) → Timespec → Conf Shared Pc
start p rest zero_time = record {
  shared = record {
    number = initial_number p.upper_bound rest;
    counter = λ i. 0;
    cur = 1;
    done = 0;
    arrive_barrier = 0;
    lock = false;
    start_compute = zero_time;
    end_compute = zero_time;
  };
  locals = λ i. entering false;
}
