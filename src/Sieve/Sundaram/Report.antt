-- ===== src/Sieve/Sundaram/Report.antt =====
-- sundrama_atomic.c: `showinfo`, and the module from `simple_init` to `simple_exit`. As in atomic.c
-- the recursions have the rounds of the loops for bounds below 2^31.
use c_operating_system.Prelude.{
  ℕ, zero, suc, ◌+◌, ◌%◌, ◌^◌, false, ◌&&◌, Option, none, some, List, leb, ◌==◌, if◌then◌else◌,
}
use c_operating_system.Prelude.Word.{add32, mul32, sub32, sub64, ulong}
use c_operating_system.Threads.{update}
use c_operating_system.Sieve.Time.{Timespec, elapsed}
use c_operating_system.Sieve.Eratosthenes.{Params, Shared}
use c_operating_system.Sieve.Report.{Output, count_primes, sum_crossout, print_primes}
use c_operating_system.Sieve.Lifecycle.{
  Pointer, null, error, memory, Module, Memory, Result, returned, oops, Variant, Exit, init_module,
  exit_module, array,
}
use c_operating_system.Sieve.Sundaram.{initial_number}

-- What is printed; the times in seconds and nanoseconds.
pub record Report : Type 0 where
  pub isprime : ℕ
  pub primes : List Output
  pub not_prime : ℕ
  pub crossout : ℕ
  pub unnecessary : ℕ
  pub arrive_time : Timespec
  pub compute_time : Timespec
  pub module_time : Timespec

-- The loop that writes the odd numbers that are left to `tmp`, from `index` with `left` rounds to go.
unfoldable pub mark : ℕ → ℕ → ℕ → (ℕ → ℕ) → (ℕ → ℕ) → ℕ → ℕ
mark zero index upper_bound number tmp = tmp
mark (suc left) index upper_bound number tmp =
    let i : ℕ = add32 (mul32 index 2) 1 in
    mark left (index + 1) upper_bound number
      (if number index == 0 then tmp else if leb (ulong i) upper_bound then update tmp i i else tmp)

-- `tmp` after its first loop, where `found` is what it held.
abbrev pub cleared : ℕ → (ℕ → ℕ) → ℕ → ℕ
cleared upper_bound found index = if leb index upper_bound then 0 else found index

-- The array of numbers when it is printed: `tmp` from 1 on, and 2.
unfoldable pub rewritten : ℕ → (ℕ → ℕ) → (ℕ → ℕ) → ℕ → ℕ
rewritten upper_bound found number =
    let tmp : ℕ → ℕ = mark upper_bound 1 upper_bound number (cleared upper_bound found) in
    update (λ index. if leb 1 index && leb index upper_bound then tmp index else number index) 2 2

-- `showinfo` with memory for `tmp`.
unfoldable pub showinfo : Params → (ℕ → ℕ) → Timespec → Shared → Report
showinfo p found start_module s =
    let number : ℕ → ℕ = rewritten p.upper_bound found s.number in
    let isprime : ℕ = count_primes p.upper_bound 1 number 0 in
    let not_prime : ℕ = sub64 p.upper_bound (ulong isprime) in
    let crossout : ℕ = sum_crossout p.num_threads 0 s.counter 0 in
    record {
      isprime = isprime;
      primes = print_primes p.upper_bound 1 number 0;
      not_prime = not_prime;
      crossout = crossout;
      unnecessary = sub32 crossout (not_prime % 2 ^ 32);
      arrive_time = elapsed start_module s.start_compute;
      compute_time = elapsed s.start_compute s.end_compute;
      module_time = elapsed start_module s.end_compute;
    }

-- `showinfo` by what its pointers are; it prints nothing when `tmp` is an error. It writes to the
-- array of numbers whatever the bound.
unfoldable pub call_showinfo : Pointer (ℕ → ℕ) → Params → Module → Result (Option Report)
call_showinfo error p m = returned none
call_showinfo null p m = oops
call_showinfo (memory found) p m = elim m.number [
  | null ↦ oops
  | error ↦ oops
  | memory number ↦ elim m.start_module [
    | memory start_module ↦ elim m.start_compute [
      | memory start_compute ↦ elim m.end_compute [
        | memory end_compute ↦ elim (array m.counter p.num_threads) [
          | returned counter ↦ returned (
              some (
                showinfo p found start_module (record {
                  number = number;
                  counter = counter;
                  cur = m.cur;
                  done = m.done;
                  arrive_barrier = m.arrive_barrier;
                  lock = false;
                  start_compute = start_compute;
                  end_compute = end_compute;
                })))
          | oops ↦ oops
        ]
        | _ ↦ oops
      ]
      | _ ↦ oops
    ]
    | _ ↦ oops
  ]
]

-- The first position is 1, and the cells are their indices.
abbrev pub sundaram : Variant
sundaram = record { first = 1; numbers = initial_number }

unfoldable pub simple_init : Params → Memory → Timespec → Module → Result Module
simple_init = init_module sundaram

-- `simple_exit`, where `kmalloc` answers `tmp` to `showinfo`.
unfoldable pub simple_exit : Pointer (ℕ → ℕ) → Params → Module → Result (Exit (Option Report))
simple_exit tmp = exit_module (call_showinfo tmp)
