-- ===== src/Sieve/Spinlock/Results.antt =====
-- spinlock.c: what it has from atomic.c.
use c_operating_system.Prelude.{ℕ, ◌+◌, ◌<◌, ◌≡◌, ◌↔◌, sym, List, arith}
use c_operating_system.Threads.{Conf, run}
use c_operating_system.Sieve.Composite.{IsComposite}
use c_operating_system.Sieve.Time.{Timespec}
use c_operating_system.Sieve.Eratosthenes.{Params, Shared, last, finished}
use c_operating_system.Sieve.Eratosthenes.Invariant.{IsSmall, IsCell}
use c_operating_system.Sieve.Eratosthenes.Safety.{sieve-IsCell}
use c_operating_system.Sieve.Eratosthenes.OneThread.{one_thread_exact}
use c_operating_system.Sieve.Report.{Report}
use c_operating_system.Sieve.Report.Primes.{primes_from}
use c_operating_system.Sieve.Report.Count.{values, without_composites}
use c_operating_system.Sieve.Report.Printing.{printed-IsCell}
use c_operating_system.Sieve.Lifecycle.{returned, reported, zero_time}
use c_operating_system.Sieve.Lifecycle
use c_operating_system.Sieve.Lifecycle.Runs.{threaded, freed, reports}
use c_operating_system.Sieve.Eratosthenes
use c_operating_system.Sieve.Guarded.{Pc, plain}
use c_operating_system.Sieve.Spinlock.{step, start, simple_exit}
use c_operating_system.Sieve.Spinlock.Refinement.{spinlock_refines}

module _ (p : Params) (rest : ℕ → ℕ) (t : Timespec) (is : List ℕ) where
  abbrev pub after : Conf Shared (Pc Eratosthenes.Pc)
  after = run p.num_threads (step p) is (start p rest t)

  pub spinlock-IsCell : IsSmall p → (k : ℕ) → k < last p → IsCell p (after.shared.number k) k
  spinlock-IsCell small k lt =
      let (js, sim) = spinlock_refines p rest t is small in
      rw (sym (sim.alike.number k)) (sieve-IsCell p rest t js small k lt)

  -- For one thread and small parameters: when the thread of spinlock.c has finished, a cell of the
  -- array holds 0 exactly if its number is composite.
  pub spinlock_exact :
      (k : ℕ)
      → IsSmall p
      → p.num_threads ≡ 1
      → after.locals 0 ≡ plain finished
      → k < last p
      → (after.shared.number k ≡ 0) ↔ IsComposite (k + 2)
  spinlock_exact k small one ended lt =
      let (js, sim) = spinlock_refines p rest t is small in
      rw (sym (sim.alike.number k))
        (one_thread_exact p small one rest t js k (ground (arith, sim.places 0, ended)) lt)

-- For small parameters, after any schedule of spinlock.c at whose end `done` is the number of threads:
-- `simple_exit` frees the arrays and prints a report, and the numbers printed in it without the
-- composite ones are the primes up to the bound, each once and in order.
pub spinlock_reports :
    (p : Params) (rest : ℕ → ℕ) (now : Timespec) (is : List ℕ)
    → IsSmall p
    → (after p rest zero_time is).shared.done ≡ p.num_threads
    → (r : Report) × (simple_exit p (threaded now (after p rest zero_time is).shared)
        ≡ returned (reported r (freed (threaded now (after p rest zero_time is).shared))))
      × (without_composites (values r.primes) ≡ primes_from (last p) 2)
unfolding simple_exit Lifecycle.simple_exit
spinlock_reports p rest now is small all =
    let (r, exits, same) =
      reports p now (after p rest zero_time is).shared (omega (arith, small.fits_int)) all in
    (
      r,
      exits,
      rw same (
          printed-IsCell p now (after p rest zero_time is).shared
            (spinlock-IsCell p rest zero_time is small)),
    )
