-- ===== src/Sieve/Lifecycle/Runs.antt =====
-- atomic.c: the module from `simple_init` to `simple_exit`.
use c_operating_system.Prelude.{
  ℕ, ◌%◌, ◌^◌, ◌≤◌, ◌<◌, ◌≡◌, ◌≢◌, ◌⊎◌, inl, inr, refl, true, false, List, [], ◌∷◌, arith, ltb,
  ◌||◌, ◌==◌, Bool-cases,
}
use c_operating_system.Prelude.Word.{sub64, ulong}
use c_operating_system.Sieve.Time.{Timespec}
use c_operating_system.Sieve.Eratosthenes.{Params, Shared, finished, last, start}
use c_operating_system.Sieve.Eratosthenes.Invariant.{IsSmall}
use c_operating_system.Sieve.Eratosthenes.Safety.{after}
use c_operating_system.Sieve.Eratosthenes.Barrier.{done_all}
use c_operating_system.Sieve.Report.{Report, showinfo}
use c_operating_system.Sieve.Report.Primes.{primes_from}
use c_operating_system.Sieve.Report.Count.{values, without_composites}
use c_operating_system.Sieve.Report.Printing.{primes_printed, one_thread_printed}
use c_operating_system.Sieve.Lifecycle.{
  null, memory, numbers_of, counters_of, tasks_of, Module, Memory, returned, oops, reported,
  zero_time, simple_init, simple_exit, finish, call_showinfo, loaded,
}

-- `kmalloc` has memory at every call; the array of numbers holds `rest` when it comes.
abbrev pub granted : (ℕ → ℕ) → Memory
granted rest = record {
  start_module = memory zero_time;
  start_compute = memory zero_time;
  end_compute = memory zero_time;
  number = memory rest;
  counter = memory rest;
  task = memory tt;
}

-- The global variables while the threads run, with what the threads share.
abbrev pub threaded : Timespec → Shared → Module
threaded now s = record {
  start_module = memory now;
  start_compute = memory s.start_compute;
  end_compute = memory s.end_compute;
  number = memory s.number;
  counter = memory s.counter;
  task = memory tt;
  cur = s.cur;
  arrive_barrier = s.arrive_barrier;
  done = s.done;
  running = true;
  kfreed = [];
}

-- The arrays were given to `kfree`, and their pointers set to 0.
abbrev pub freed : Module → Module
freed m = record m {
  number = null;
  counter = null;
  task = null;
  kfreed = tasks_of m.task ∷ numbers_of m.number ∷ counters_of m.counter ∷ m.kfreed;
}

-- With small parameters, a thread at least and memory at every call, `simple_init` starts the threads,
-- and they find the state from which their runs are taken.
pub simple_init_starts :
    (p : Params) (rest : ℕ → ℕ) (now : Timespec)
    → IsSmall p
    → 1 ≤ p.num_threads
    → simple_init p (granted rest) now loaded
      ≡ returned (threaded now (start p rest zero_time).shared)
unfolding simple_init
simple_init_starts p rest now small some_thread =
    let valid : (ltb p.num_threads 1 || ltb p.upper_bound 2) ≡ false = ground arith in rw valid refl

pub reports :
    (p : Params) (now : Timespec) (s : Shared)
    → p.num_threads < 2 ^ 31
    → s.done ≡ p.num_threads
    → (r : Report) × (simple_exit p (threaded now s)
        ≡ returned (reported r (freed (threaded now s))))
      × (r.primes ≡ (showinfo p now s).primes)
unfolding simple_exit showinfo
reports p now s few all =
    let same : (ulong s.done == p.num_threads) ≡ true = ground arith in
    (showinfo p now (record s { lock = false }), rw same refl, refl)

module _ (p : Params) (rest : ℕ → ℕ) (now : Timespec) (is : List ℕ) where
  abbrev pub ending : Shared
  ending = (after p rest zero_time is).shared

  -- For small parameters, after any schedule at whose end `done` is the number of threads:
  -- `simple_exit` frees the arrays and prints a report, and the numbers printed in it without the
  -- composite ones are the primes up to the bound, each once and in order.
  pub simple_exit_reports :
      IsSmall p
      → ending.done ≡ p.num_threads
      → (r : Report) × (simple_exit p (threaded now ending)
          ≡ returned (reported r (freed (threaded now ending))))
        × (without_composites (values r.primes) ≡ primes_from (last p) 2)
  simple_exit_reports small all =
      let (r, exits, same) = reports p now ending (omega (arith, small.fits_int)) all in
      (r, exits, rw same (primes_printed p rest zero_time is now small))

  -- For one thread, an upper bound of at least 2 and below 2^30 - 1, when the thread has finished: `simple_exit`
  -- gives the three arrays to `kfree`
  -- and prints the primes up to the bound, each once and in order.
  pub one_thread_reports :
      IsSmall p
      → p.num_threads ≡ 1
      → (after p rest zero_time is).locals 0 ≡ finished
      → (r : Report) × (simple_exit p (threaded now ending)
          ≡ returned (reported r (freed (threaded now ending))))
        × (values r.primes ≡ primes_from (last p) 2)
  one_thread_reports small one ended =
      let all : ending.done ≡ p.num_threads =
        done_all p rest zero_time is small
          (λ i lt. let zeroth : i ≡ 0 = omega arith in rw zeroth ended) in
      let (r, exits, same) = reports p now ending (omega (arith, small.fits_int)) all in
      (r, exits, rw same (one_thread_printed p rest zero_time is now small one ended))

-- What `simple_init` leaves when it refuses the parameters.
abbrev pub idle : Params → Timespec → Module
idle p now = record loaded {
  start_module = memory now;
  start_compute = memory zero_time;
  end_compute = memory zero_time;
  done = p.num_threads % 2 ^ 32;
}

idle-oops :
    (p : Params) (now : Timespec)
    → ((sub64 p.upper_bound 1 == 0) ≡ false) ⊎ ((p.num_threads == 0) ≡ false)
    → finish call_showinfo p (idle p now) ≡ oops
unfolding finish call_showinfo
idle-oops p now (inl e) = rw (finish, call_showinfo, e) refl
idle-oops p now (inr e) = elim (Bool-cases (sub64 p.upper_bound 1 == 0)) [
  | inl f ↦ rw (finish, call_showinfo, f, e) refl
  | inr f ↦ rw (finish, call_showinfo, f) refl
]

-- With memory at every call and parameters that `simple_init` refuses, other than no thread with the
-- upper bound 1: `simple_init` returns, without threads, and `simple_exit` accesses a NULL array.
pub refused_oops :
    (p : Params) (rest : ℕ → ℕ) (now : Timespec)
    → ((p.num_threads ≡ 0) × (p.upper_bound ≢ 1) × (p.upper_bound < 2 ^ 64))
      ⊎ ((1 ≤ p.num_threads) × (p.num_threads < 2 ^ 31) × (p.upper_bound < 2))
    → (m : Module) × (simple_init p (granted rest) now loaded ≡ returned m)
      × (m.running ≡ false)
      × (simple_exit p m ≡ oops)
unfolding simple_init simple_exit
refused_oops p rest now (inl (none_asked, e, f)) =
    let refused : (ltb p.num_threads 1 || ltb p.upper_bound 2) ≡ true = ground arith in
    let same : (ulong (p.num_threads % 2 ^ 32) == p.num_threads) ≡ true = ground arith in
    (idle p now, rw refused refl, refl, rw same (idle-oops p now (inl (ground arith))))
refused_oops p rest now (inr (some_thread, few, small)) =
    let refused : (ltb p.num_threads 1 || ltb p.upper_bound 2) ≡ true = ground arith in
    let same : (ulong (p.num_threads % 2 ^ 32) == p.num_threads) ≡ true = ground arith in
    (idle p now, rw refused refl, refl, rw same (idle-oops p now (inr (ground arith))))
