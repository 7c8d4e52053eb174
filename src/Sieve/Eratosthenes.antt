-- ===== src/Sieve/Eratosthenes.antt =====
-- project2_kernel_memory_concurrent_use/atomic.c: the kernel threads, each access to memory that
-- threads share a step. `spin_lock` takes the lock in one step when it is free, and `spin_unlock`
-- frees it. `printk` changes no state of the module.
pub mod Invariant
pub mod Safety
pub mod Barrier
pub mod Sequential
pub mod Alone
pub mod OneThread
pub mod Race
use c_operating_system.Prelude.{
  ℕ, ◌+◌, ◌-◌, ◌*◌, ◌%◌, ◌^◌, ◌<◌, ◌≡◌, Bool, true, false, ◌&&◌, Option, none, some, ltb, leb, ◌==◌,
  if◌then◌else◌,
}
use c_operating_system.Prelude.Word.{add32, ulong}
use c_operating_system.Threads.{Conf, Program, update}
use c_operating_system.Sieve.Time.{Timespec}

-- The module's parameters, at least 1 and 2 by the checks of `simple_init`, and the readings of the
-- kernel's clock, numbered by the arrivals at the barriers.
pub record Params : Type 0 where
  pub num_threads : ℕ
  pub upper_bound : ℕ
  pub clock : ℕ → Timespec

-- The global variables. `number` has `upper_bound - 1` cells; what a read beyond them finds is
-- whatever the function holds there.
pub record Shared : Type 0 where
  pub number : ℕ → ℕ
  pub counter : ℕ → ℕ
  pub cur : ℕ
  pub done : ℕ
  pub arrive_barrier : ℕ
  pub lock : Bool
  pub start_compute : Timespec
  pub end_compute : Timespec

-- Where a thread stands. The flag is false in `mybarrier(0)` and true in `mybarrier(1)`.
pub data Pc : Type 0 where
  entering : (flag : Bool) → Pc  -- `mybarrier`: at spin_lock
  arriving : (flag : Bool) → Pc  -- at `arrive_barrier++` and the time stamp
  leaving : (flag : Bool) → Pc  -- at spin_unlock
  spinning : (flag : Bool) → Pc  -- at the test of the busy loop
  claiming : Pc  -- `compute`: at spin_lock
  reading : Pc  -- at `current_pos = cur`
  counting : (current_pos : ℕ) → Pc  -- at `cur++`
  scanning : (current_pos : ℕ) → Pc  -- at the test of the first inner loop
  unlocking : (current_pos : ℕ) → Pc  -- at spin_unlock
  checking : (current_pos : ℕ) → Pc  -- at `if(cur >= upper_bound - 1)`
  crossing : (current_pos distance : ℕ) → Pc  -- at the test of the second inner loop
  ending : Pc  -- at `atomic_add(1,&done)`
  finished : Pc

-- `spin_lock`, to go on at `l`
abbrev take : Shared → Pc → Option (Shared × Pc)
take s l = if s.lock then none else some (record s { lock = true }, l)

abbrev release : Shared → Shared
release s = record s { lock = false }

module _ (p : Params) where
  abbrev pub last : ℕ
  last = p.upper_bound - 1

  -- `arrive_barrier++`, and the time of this arrival
  unfoldable pub arrive : Bool → Shared → Shared
  arrive false s = record s {
    arrive_barrier = add32 s.arrive_barrier 1;
    start_compute = p.clock (add32 s.arrive_barrier 1);
  }
  arrive true s = record s {
    arrive_barrier = add32 s.arrive_barrier 1;
    end_compute = p.clock (add32 s.arrive_barrier 1);
  }

  -- the arrivals that the busy loop waits for
  unfoldable pub expected : Bool → ℕ
  expected false = p.num_threads
  expected true = p.num_threads * 2 % 2 ^ 64

  pub after_barrier : Bool → Pc
  after_barrier false = claiming
  after_barrier true = ending

  pub mybarrier : Bool → Shared → Pc
  unfolding expected after_barrier
  mybarrier flag s =
      if ltb (ulong s.arrive_barrier) (expected flag) then spinning flag else after_barrier flag

  -- The first inner loop of `compute`, a round to a step: `cur` passes the numbers crossed out.
  pub scan : ℕ → Shared → Shared × Pc
  scan current_pos s =
      if (s.number s.cur == 0) && ltb (ulong s.cur) last
      then (record s { cur = add32 s.cur 1 }, scanning current_pos)
      else (s, unlocking current_pos)

  -- The test after the critical section, and the first position to cross out.
  pub check : ℕ → Shared → Pc
  check current_pos s =
      if leb last (ulong s.cur)
      then entering true
      else crossing (add32 current_pos (add32 current_pos 2)) (add32 current_pos 2)

  -- The second inner loop of `compute`, a round to a step, for the thread with counter `i`.
  pub cross : ℕ → ℕ → ℕ → Shared → Shared × Pc
  cross i current_pos distance s =
      if ltb (ulong current_pos) last
      then (
        record s {
          number = update s.number current_pos 0;
          counter = update s.counter i (add32 (s.counter i) 1);
        },
        crossing (add32 current_pos distance) distance,
      )
      else (s, claiming)

  -- `mythread_func`
  unfoldable pub step : Program Shared Pc
  unfolding arrive mybarrier scan check cross
  step i s (entering flag) = take s (arriving flag)
  step i s (arriving flag) = some (arrive flag s, leaving flag)
  step i s (leaving flag) = some (release s, spinning flag)
  step i s (spinning flag) = some (s, mybarrier flag s)
  step i s claiming = take s reading
  step i s reading = some (s, counting s.cur)
  step i s (counting current_pos) = some (record s { cur = add32 s.cur 1 }, scanning current_pos)
  step i s (scanning current_pos) = some (scan current_pos s)
  step i s (unlocking current_pos) = some (release s, checking current_pos)
  step i s (checking current_pos) = some (s, check current_pos s)
  step i s (crossing current_pos distance) = some (cross i current_pos distance s)
  step i s ending = some (record s { done = add32 s.done 1 }, finished)
  step i s finished = none

-- The array after the loop of `simple_init`: `number[index] = index + 2`. Beyond it lies `rest`.
abbrev pub initial_number : ℕ → (ℕ → ℕ) → ℕ → ℕ
initial_number upper_bound rest index =
    if ltb index (upper_bound - 1) then index + 2 else rest index

-- What the threads find when `simple_init` starts them; the time stamps hold `zero_time`.
abbrev pub start : Params → (ℕ → ℕ) → Timespec → Conf Shared Pc
start p rest zero_time = record {
  shared = record {
    number = initial_number p.upper_bound rest;
    counter = λ i. 0;
    cur = 0;
    done = 0;
    arrive_barrier = 0;
    lock = false;
    start_compute = zero_time;
    end_compute = zero_time;
  };
  locals = λ i. entering false;
}
