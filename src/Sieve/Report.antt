-- ===== src/Sieve/Report.antt =====
-- atomic.c: `showinfo`, what the module prints when it is removed. The indices of its loops are `int`
-- and the bounds `unsigned long`; below 2^31 the rounds are those of the recursions here, and
-- `upper_bound` is at least 2 by the checks of `simple_init`.
pub mod Primes
pub mod Count
pub mod Printing
use c_operating_system.Prelude.{
  ℕ, zero, suc, ◌+◌, ◌-◌, ◌%◌, ◌^◌, ◌&&◌, not, List, [], ◌∷◌, ◌++◌, ◌==◌, if◌then◌else◌,
}
use c_operating_system.Prelude.Int.{ℤ}
use c_operating_system.Prelude.Word.{add32, sub32, sub64, ulong}
use c_operating_system.Sieve.Time.{Timespec, elapsed, nanoseconds}
use c_operating_system.Sieve.Eratosthenes.{Params, Shared}

-- What `printk(KERN_CONT …)` writes: a number, or the end of a line.
pub data Output : Type 0 where
  prime : (value : ℕ) → Output
  newline : Output

pub record Report : Type 0 where
  pub isprime : ℕ
  pub primes : List Output
  pub not_prime : ℕ
  pub crossout : ℕ
  pub unnecessary : ℕ
  pub arrive_time : ℤ
  pub compute_time : ℤ
  pub module_time : ℤ

-- The loop that counts the primes, from `index` with `left` rounds to go.
unfoldable pub count_primes : ℕ → ℕ → (ℕ → ℕ) → ℕ → ℕ
count_primes zero index number isprime = isprime
count_primes (suc left) index number isprime =
    count_primes left (index + 1) number (if number index == 0 then isprime else add32 isprime 1)

-- The loop over the counters of the threads.
unfoldable pub sum_crossout : ℕ → ℕ → (ℕ → ℕ) → ℕ → ℕ
sum_crossout zero index counter crossout = crossout
sum_crossout (suc left) index counter crossout =
    sum_crossout left (index + 1) counter (add32 crossout (counter index))

-- What a round of the printing loop writes for a number that is not 0; `iter` counts it already.
pub print_prime : ℕ → ℕ → ℕ → List Output
print_prime value index iter =
    if not (index == 0) && (iter % 8 == 0) then prime value ∷ newline ∷ [] else prime value ∷ []

-- The printing loop.
unfoldable pub print_primes : ℕ → ℕ → (ℕ → ℕ) → ℕ → List Output
unfolding print_prime
print_primes zero index number iter = []
print_primes (suc left) index number iter =
    let iter' : ℕ = if number index == 0 then iter else add32 iter 1 in
    let rest : List Output = print_primes left (index + 1) number iter' in
    if number index == 0 then rest else print_prime (number index) index iter' ++ rest

-- `showinfo`, with the time stamp that `simple_init` took.
unfoldable pub showinfo : Params → Timespec → Shared → Report
showinfo p start_module s =
    let rounds : ℕ = p.upper_bound - 1 in
    let isprime : ℕ = count_primes rounds 0 s.number 0 in
    let not_prime : ℕ = sub64 (sub64 p.upper_bound (ulong isprime)) 1 in
    let crossout : ℕ = sum_crossout p.num_threads 0 s.counter 0 in
    record {
      isprime = isprime;
      primes = print_primes rounds 0 s.number 0;
      not_prime = not_prime;
      crossout = crossout;
      unnecessary = sub32 crossout (not_prime % 2 ^ 32);
      arrive_time = nanoseconds (elapsed start_module s.start_compute);
      compute_time = nanoseconds (elapsed s.start_compute s.end_compute);
      module_time = nanoseconds (elapsed start_module s.end_compute);
    }
