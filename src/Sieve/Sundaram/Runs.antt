-- ===== src/Sieve/Sundaram/Runs.antt =====
-- sundrama_atomic.c: the module from `simple_init` to `simple_exit`.
use c_operating_system.Prelude.{ℕ, ◌-◌, ◌≤◌, ◌≡◌, refl, true, false, some, arith, ltb, ◌||◌, ◌==◌}
use c_operating_system.Prelude.Word.{ulong}
use c_operating_system.Sieve.Time.{Timespec}
use c_operating_system.Sieve.Eratosthenes.{Params, Shared}
use c_operating_system.Sieve.Report.Primes.{primes_from}
use c_operating_system.Sieve.Report.Count.{values, without_composites}
use c_operating_system.Sieve.Lifecycle.{
  memory, returned, reported, zero_time, loaded, init_module, exit_module,
}
use c_operating_system.Sieve.Lifecycle.Runs.{granted, threaded, freed}
use c_operating_system.Sieve.Sundaram.{start}
use c_operating_system.Sieve.Sundaram.Invariant.{IsSmall, IsCell}
use c_operating_system.Sieve.Sundaram.Report.{
  Report, showinfo, call_showinfo, simple_init, simple_exit,
}
use c_operating_system.Sieve.Sundaram.Printing.{sundaram_printed}

-- With valid parameters below the bounds of the `int`s, and memory at every call, `simple_init` starts
-- the threads, and they find the state from which their runs are taken.
pub sundaram_starts :
    (p : Params) (rest : ℕ → ℕ) (now : Timespec)
    → IsSmall p
    → 1 ≤ p.num_threads
    → simple_init p (granted rest) now loaded
      ≡ returned (threaded now (start p rest zero_time).shared)
unfolding simple_init init_module
sundaram_starts p rest now small some_thread =
    let valid : (ltb p.num_threads 1 || ltb p.upper_bound 2) ≡ false = ground arith in rw valid refl

-- From safe cells, at an exit that finds every thread done and has memory for `tmp`.
pub reports-IsCell :
    (p : Params) (found : ℕ → ℕ) (now : Timespec) (s : Shared)
    → IsSmall p
    → s.done ≡ p.num_threads
    → ((k : ℕ) → k ≤ p.upper_bound → IsCell p (s.number k) k)
    → (r : Report) × (simple_exit (memory found) p (threaded now s)
        ≡ returned (reported (some r) (freed (threaded now s))))
      × (without_composites (values r.primes) ≡ primes_from (p.upper_bound - 1) 2)
unfolding simple_exit exit_module call_showinfo
reports-IsCell p found now s small all cell =
    let same : (ulong s.done == p.num_threads) ≡ true = ground (arith, small.fits_int) in
    (
      showinfo p found now (record s { lock = false }),
      rw same refl,
      sundaram_printed p found now (record s { lock = false }) small.two small.fits_product cell,
    )
