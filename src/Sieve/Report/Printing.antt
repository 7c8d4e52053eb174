-- ===== src/Sieve/Report/Printing.antt =====
-- `showinfo` on what the threads leave in the array.
use c_operating_system.Prelude.{
  ℕ, zero, suc, ◌+◌, ◌-◌, ◌^◌, ◌≤◌, ◌<◌, ◌≡◌, ◌⊎◌, refl, true, false, List, length, arith, ◌==◌,
  if◌then◌else◌, Bool-cases, inl, inr,
}
use c_operating_system.Sieve.Time.{Timespec}
use c_operating_system.Sieve.Eratosthenes.{Params, Shared, finished, last}
use c_operating_system.Sieve.Eratosthenes.Invariant.{IsSmall, IsCell}
use c_operating_system.Sieve.Eratosthenes.Safety.{after, sieve-IsCell}
use c_operating_system.Sieve.Eratosthenes.OneThread.{one_thread_exact}
use c_operating_system.Sieve.Report.{count_primes, showinfo}
use c_operating_system.Sieve.Report.Primes.{is_composite, is_composite_iff, primes_from}
use c_operating_system.Sieve.Report.Count.{
  kept, values, lined, without_composites, count_primes_lem, length-kept, values-print_primes,
  lined-print_primes,
}

-- Of an array whose cells are exact there is left what trial division leaves.
kept-primes_from :
    (left index : ℕ) (number : ℕ → ℕ)
    → ((k : ℕ)
        → index ≤ k
        → k < index + left
        → number k ≡ (if is_composite (k + 2) then 0 else k + 2))
    → kept left index number ≡ primes_from left (index + 2)
unfolding kept primes_from
kept-primes_from zero index number exact = refl
kept-primes_from (suc left) index number exact =
    let next : index + 2 + 1 ≡ index + 1 + 2 = omega arith in
    let rest : kept left (index + 1) number ≡ primes_from left (index + 2 + 1) =
      rw next (
        kept-primes_from left (index + 1) number
          (λ k le lt. exact k (omega arith) (omega arith))) in
    elim (Bool-cases (is_composite (index + 2))) [
      | inl e ↦
          let gone : number index ≡ 0 = rw e at (exact index (omega arith) (omega arith)) in
          rw (gone, e) rest
      | inr e ↦
          let here : number index ≡ index + 2 = rw e at (exact index (omega arith) (omega arith)) in
          let nonzero : (index + 2 == 0) ≡ false = ground arith in rw (here, nonzero, e, rest) refl
    ]

-- Of an array whose cells are safe the composite numbers may be left too.
pub without_composites-kept :
    (left index : ℕ) (number : ℕ → ℕ)
    → ((k : ℕ)
        → index ≤ k
        → k < index + left
        → (number k ≡ k + 2) ⊎ ((number k ≡ 0) × (is_composite (k + 2) ≡ true)))
    → without_composites (kept left index number) ≡ primes_from left (index + 2)
unfolding kept without_composites primes_from
without_composites-kept zero index number safe = refl
without_composites-kept (suc left) index number safe =
    let next : index + 2 + 1 ≡ index + 1 + 2 = omega arith in
    let rest : without_composites (kept left (index + 1) number)
        ≡ primes_from left (index + 2 + 1) =
      rw next (
        without_composites-kept left (index + 1) number
          (λ k le lt. safe k (omega arith) (omega arith))) in
    elim (safe index (omega arith) (omega arith)) [
      | inl here ↦
          let nonzero : (index + 2 == 0) ≡ false = ground arith in
          rw (here, nonzero)
            (elim (Bool-cases (is_composite (index + 2))) [
              | inl e ↦ rw (e, rest) refl
              | inr e ↦ rw (e, rest) refl
            ])
      | inr (gone, e) ↦ rw (gone, e) rest
    ]

-- Whatever the array holds, with an upper bound from 1 to below 2^31: `isprime` is the number of the
-- numbers printed, it and the number that is printed for the others add up to all, and each printed
-- line but the last has eight numbers.
pub showinfo_agrees :
    (p : Params) (start_module : Timespec) (s : Shared)
    → 1 ≤ p.upper_bound
    → p.upper_bound < 2 ^ 31
    → ((showinfo p start_module s).isprime ≡ length (values (showinfo p start_module s).primes))
      × ((showinfo p start_module s).isprime + (showinfo p start_module s).not_prime
          ≡ p.upper_bound - 1)
      × (lined 0 (showinfo p start_module s).primes ≡ true)
unfolding showinfo
showinfo_agrees p start_module s some_bound small = (
  rw (values-print_primes (p.upper_bound - 1) 0 s.number 0) counted,
  ground (arith, counted, length-kept (p.upper_bound - 1) 0 s.number),
  lined-print_primes (p.upper_bound - 1) 0 s.number 0 (omega arith) (omega arith),
)
  where
    counted :
        count_primes (p.upper_bound - 1) 0 s.number 0 ≡ length (kept (p.upper_bound - 1) 0 s.number)
    counted = omega (arith, count_primes_lem (p.upper_bound - 1) 0 s.number 0 (omega arith))

-- The numbers printed from an array whose cells are safe.
pub printed-IsCell :
    (p : Params) (start_module : Timespec) (s : Shared)
    → ((k : ℕ) → k < last p → IsCell p (s.number k) k)
    → without_composites (values (showinfo p start_module s).primes) ≡ primes_from (last p) 2
unfolding showinfo
printed-IsCell p start_module s cell = rw (values-print_primes (last p) 0 s.number 0) (
    without_composites-kept (last p) 0 s.number λ k le lt. elim (cell k (omega arith)) [
      | inl same ↦ inl same
      | inr (gone, composite) ↦ inr (gone, (is_composite_iff (k + 2)).1 composite)
    ])

module _ (p : Params) (rest : ℕ → ℕ) (t : Timespec) (is : List ℕ) (start_module : Timespec) where
  -- For small parameters, whatever the schedule, the numbers printed without the composite ones are
  -- the primes up to the bound, each once and in order.
  pub primes_printed :
      IsSmall p
      → without_composites (values (showinfo p start_module (after p rest t is).shared).primes)
        ≡ primes_from (last p) 2
  primes_printed small =
      printed-IsCell p start_module (after p rest t is).shared (sieve-IsCell p rest t is small)

  -- For one thread and small parameters, when the thread has finished: the numbers printed are the
  -- primes up to the bound, each once and in order.
  pub one_thread_printed :
      IsSmall p
      → p.num_threads ≡ 1
      → (after p rest t is).locals 0 ≡ finished
      → values (showinfo p start_module (after p rest t is).shared).primes ≡ primes_from (last p) 2
  unfolding showinfo
  one_thread_printed small one ended =
      rw (values-print_primes (last p) 0 (after p rest t is).shared.number 0)
        (kept-primes_from (last p) 0 (after p rest t is).shared.number exact)
    where
      exact :
          (k : ℕ)
          → 0 ≤ k
          → k < 0 + last p
          → (after p rest t is).shared.number k ≡ (if is_composite (k + 2) then 0 else k + 2)
      exact k le lt = elim (Bool-cases (is_composite (k + 2))) [
        | inl e ↦ rw e (
            (one_thread_exact p small one rest t is k ended (omega arith)).1
              ((is_composite_iff (k + 2)).0 e))
        | inr e ↦ rw e (elim (sieve-IsCell p rest t is small k (omega arith)) [
          | inl same ↦ same
          | inr (gone, composite) ↦ absurd (ground (arith, (is_composite_iff (k + 2)).1 composite))
        ])
      ]
