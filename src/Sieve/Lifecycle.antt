-- ===== src/Sieve/Lifecycle.antt =====
-- `simple_init` and `simple_exit` of the four modules, by the lines of atomic.c, from what `kmalloc`
-- answers: `Variant` has what another module does otherwise, and `show` is its `showinfo`. A pointer is NULL, an error
-- value, or memory with its contents, and to access anything but memory stops the kernel. The indices
-- of the loops are `int`; the arrays here are what the loops leave when the parameters are below 2^31.
-- Which threads `kthread_run` could start is not recorded.
pub mod Runs
use c_operating_system.Prelude.{
  ℕ, zero, ◌%◌, ◌^◌, Bool, true, false, ◌&&◌, ◌||◌, not, List, [], ◌∷◌, leb, ltb, ◌==◌,
  if◌then◌else◌,
}
use c_operating_system.Prelude.Int.{pos}
use c_operating_system.Prelude.Word.{sub64, ulong}
use c_operating_system.Sieve.Time.{Timespec}
use c_operating_system.Sieve.Eratosthenes.{Params, Shared, initial_number}
use c_operating_system.Sieve.Report.{Report, showinfo}

pub data Pointer (A : Type 0) : Type 0 where
  null : Pointer A
  error : Pointer A
  memory : (contents : A) → Pointer A

-- `IS_ERR`
abbrev pub is_err : {A : Type 0} → Pointer A → Bool
is_err null = false
is_err error = true
is_err (memory contents) = false

-- What `simple_exit` gives to `kfree`.
pub data Allocation : Type 0 where
  numbers_of : Pointer (ℕ → ℕ) → Allocation
  counters_of : Pointer (ℕ → ℕ) → Allocation
  tasks_of : Pointer Unit → Allocation

-- The global variables that outlive `simple_init`. `running` says that the threads were started,
-- and `kfreed` has the calls of `kfree`, the last one first.
pub record Module : Type 0 where
  pub start_module : Pointer Timespec
  pub start_compute : Pointer Timespec
  pub end_compute : Pointer Timespec
  pub number : Pointer (ℕ → ℕ)
  pub counter : Pointer (ℕ → ℕ)
  pub task : Pointer Unit
  pub cur : ℕ
  pub arrive_barrier : ℕ
  pub done : ℕ
  pub running : Bool
  pub kfreed : List Allocation

-- What `kmalloc` answers in `simple_init`, in the order of the calls.
pub record Memory : Type 0 where
  pub start_module : Pointer Timespec
  pub start_compute : Pointer Timespec
  pub end_compute : Pointer Timespec
  pub number : Pointer (ℕ → ℕ)
  pub counter : Pointer (ℕ → ℕ)
  pub task : Pointer Unit

pub data Result (A : Type 0) : Type 0 where
  returned : (value : A) → Result A
  oops : Result A

abbrev pub zero_time : Timespec
zero_time = record { tv_sec = pos 0; tv_nsec = pos 0 }

-- What the modules do otherwise: the first position, and the array of numbers.
pub record Variant : Type 0 where
  pub first : ℕ
  pub numbers : ℕ → (ℕ → ℕ) → ℕ → ℕ

-- The loops over the arrays, the reset of `done`, and `kthread_run`; `number` has a cell and there
-- is a thread, so each loop has a round.
pub start_threads : Variant → Params → Module → Result Module
start_threads v p m = elim m.number [
  | memory rest ↦ elim m.counter [
    | memory _ ↦ elim m.task [
      | memory _ ↦ returned (record m {
        number = memory (v.numbers p.upper_bound rest);
        counter = memory (λ i. 0);
        done = 0;
        running = true;
      })
      | _ ↦ oops
    ]
    | _ ↦ oops
  ]
  | _ ↦ oops
]

-- `simple_init` from the checks of the parameters on.
pub allocate : Variant → Params → Memory → Module → Result Module
unfolding start_threads
allocate v p given m =
    if ltb p.num_threads 1 || ltb p.upper_bound 2
    then returned m
    else if is_err given.number
    then returned (record m { number = given.number })
    else if is_err given.counter
    then returned (record m { number = given.number; counter = given.counter })
    else if is_err given.task
    then returned (record m { number = given.number; counter = given.counter; task = given.task })
    else start_threads v p
        (record m { number = given.number; counter = given.counter; task = given.task })

abbrev stamped : Memory → Module → Module
stamped given m = record m {
  start_module = given.start_module;
  start_compute = given.start_compute;
  end_compute = given.end_compute;
}

-- The writes to the three time stamps, and the variables that are set before the checks.
pub initialise : Variant → Params → Memory → Timespec → Module → Result Module
unfolding allocate
initialise v p given now m = elim given.start_module [
  | memory _ ↦ elim given.start_compute [
    | memory _ ↦ elim given.end_compute [
      | memory _ ↦ allocate v p given (record m {
        start_module = memory now;
        start_compute = memory zero_time;
        end_compute = memory zero_time;
        cur = v.first;
        arrive_barrier = 0;
        done = p.num_threads % 2 ^ 32;
      })
      | _ ↦ oops
    ]
    | _ ↦ oops
  ]
  | _ ↦ oops
]

-- `simple_init`, which returns 0 on every path; `now` is what `ktime_get_ts` reads.
unfoldable pub init_module : Variant → Params → Memory → Timespec → Module → Result Module
unfolding initialise
init_module v p given now m =
    if is_err given.start_module || is_err given.start_compute || is_err given.end_compute
    then returned (stamped given m)
    else initialise v p given now m

-- atomic.c starts at the first cell, and its cells are the numbers from 2 on.
abbrev pub eratosthenes : Variant
eratosthenes = record { first = 0; numbers = initial_number }

unfoldable pub simple_init : Params → Memory → Timespec → Module → Result Module
unfolding init_module
simple_init = init_module eratosthenes

-- How `simple_exit` ends, with what it prints and leaves in the global variables.
pub data Exit (R : Type 0) : Type 0 where
  stamps_error : Module → Exit R
  incomplete : Module → Exit R
  number_error : Module → Exit R
  counter_error : Module → Exit R
  task_error : Module → Exit R
  reported : R → Module → Exit R

module _ {R : Type 0} (show : Params → Module → Result R) where
  -- The last branch of `simple_exit`: print, and free the three arrays.
  pub finish : Params → Module → Result (Exit R)
  finish p m = elim (show p m) [
    | oops ↦ oops
    | returned report ↦ returned (
        reported report (record m {
          number = null;
          counter = null;
          task = null;
          kfreed = tasks_of m.task ∷ numbers_of m.number ∷ counters_of m.counter ∷ m.kfreed;
        }))
  ]

  unfoldable pub exit_module : Params → Module → Result (Exit R)
  unfolding finish
  exit_module p m =
      if is_err m.start_module || is_err m.start_compute || is_err m.end_compute
      then returned (stamps_error m)
      else if not (ulong m.done == p.num_threads)
      then returned (incomplete m)
      else if is_err m.number
      then returned (number_error m)
      else if is_err m.counter
      then returned
          (counter_error (record m { number = null; kfreed = numbers_of m.number ∷ m.kfreed }))
      else if is_err m.task
      then returned (
          task_error (record m {
            number = null;
            counter = null;
            kfreed = counters_of m.counter ∷ numbers_of m.number ∷ m.kfreed;
          }))
      else finish p m

-- What a loop over an array finds there: it may be NULL only when there is no round.
abbrev pub array : Pointer (ℕ → ℕ) → ℕ → Result (ℕ → ℕ)
array (memory contents) rounds = returned contents
array _ rounds = if rounds == 0 then returned (λ i. 0) else oops

-- `showinfo`: the time stamps are read first, then the arrays.
unfoldable pub call_showinfo : Params → Module → Result Report
call_showinfo p m = elim m.start_module [
  | memory start_module ↦ elim m.start_compute [
    | memory start_compute ↦ elim m.end_compute [
      | memory end_compute ↦ elim (array m.number (sub64 p.upper_bound 1)) [
        | returned number ↦ elim (array m.counter p.num_threads) [
          | returned counter ↦ returned (
              showinfo p start_module (record {
                number = number;
                counter = counter;
                cur = m.cur;
                done = m.done;
                arrive_barrier = m.arrive_barrier;
                lock = false;
                start_compute = start_compute;
                end_compute = end_compute;
              }))
          | oops ↦ oops
        ]
        | oops ↦ oops
      ]
      | _ ↦ oops
    ]
    | _ ↦ oops
  ]
  | _ ↦ oops
]

unfoldable pub simple_exit : Params → Module → Result (Exit Report)
unfolding exit_module call_showinfo
simple_exit = exit_module call_showinfo

-- The module when it is loaded: its global variables are 0.
abbrev pub loaded : Module
loaded = record {
  start_module = null;
  start_compute = null;
  end_compute = null;
  number = null;
  counter = null;
  task = null;
  cur = 0;
  arrive_barrier = 0;
  done = 0;
  running = false;
  kfreed = [];
}
