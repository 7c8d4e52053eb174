-- ===== src/Tests/Lifecycle.antt =====
-- atomic.c from `simple_init` to `simple_exit` at concrete parameters.
use c_operating_system.Prelude.{◌+◌, ◌≡◌, refl, [], ◌∷◌}
use c_operating_system.Threads.{turn, run}
use c_operating_system.Sieve.Eratosthenes.{Params, last, step}
use c_operating_system.Sieve.Report.{Report, prime, newline, print_primes}
use c_operating_system.Sieve.Report.Primes.{primes_from, divisor_below}
use c_operating_system.Sieve.Report.Count.{values}
use c_operating_system.Sieve.Lifecycle.{returned, reported, simple_exit}
use c_operating_system.Sieve.Lifecycle.Runs.{threaded, freed, ending, one_thread_reports}
use c_operating_system.Tests.Sieve.{stamp, one, rest, alone, one-IsSmall}

primes_to_ten : primes_from 9 2 ≡ 2 ∷ 3 ∷ 5 ∷ 7 ∷ []
unfolding primes_from divisor_below
primes_to_ten = refl

-- Nine numbers that are kept take two lines.
nine_printed :
    print_primes 9 0 (λ k. k + 2) 0
    ≡ prime 2
      ∷ prime 3
      ∷ prime 4
      ∷ prime 5
      ∷ prime 6
      ∷ prime 7
      ∷ prime 8
      ∷ prime 9
      ∷ newline
      ∷ prime 10
      ∷ []
unfolding print_primes
nine_printed = refl

one_thread_reports_example :
    (r : Report) × (simple_exit one (threaded (stamp 0) (ending one rest (stamp 0) alone))
      ≡ returned (reported r (freed (threaded (stamp 0) (ending one rest (stamp 0) alone)))))
    × (values r.primes ≡ primes_from (last one) 2)
unfolding run turn step
one_thread_reports_example = one_thread_reports one rest (stamp 0) alone one-IsSmall refl refl

-- One thread, and the upper bound 1.
abbrev refused : Params
refused = record { num_threads = 1; upper_bound = 1; clock = stamp }
