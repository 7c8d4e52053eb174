-- ===== src/Tests/Sundaram.antt =====
-- spinlock.c, sundrama_atomic.c and sundrama_lock.c at concrete parameters.
use c_operating_system.Prelude.{ℕ, ◌≡◌, refl, List, replicate, arith}
use c_operating_system.Threads.{turn, run}
use c_operating_system.Sieve.Eratosthenes.{Params, Shared, last}
use c_operating_system.Sieve.Eratosthenes
use c_operating_system.Sieve.Guarded
use c_operating_system.Sieve.Guarded.Simulation.{Simulates}
use c_operating_system.Sieve.Spinlock
use c_operating_system.Sieve.Spinlock.Refinement.{spinlock_refines}
use c_operating_system.Sieve.Spinlock.Results.{spinlock_reports}
use c_operating_system.Sieve.Spinlock.Results
use c_operating_system.Sieve.Sundaram
use c_operating_system.Sieve.Sundaram.Invariant
use c_operating_system.Sieve.Sundaram.Invariant.{sundaram-IsCell}
use c_operating_system.Sieve.Sundaram.Report
use c_operating_system.Sieve.SundaramLock
use c_operating_system.Sieve.SundaramLock.Refinement.{sundaram_lock_refines}
use c_operating_system.Tests.Sieve.{stamp, one, two, rest, busy, two-IsSmall}

abbrev alone : List ℕ
alone = replicate 120 0

two_in_range : Invariant.IsSmall two
two_in_range = omega arith

-- What each of the three has at the end: nine is crossed out, and seven is left.
spinlock_ends :
    ((Results.after one rest (stamp 0) alone).shared.done ≡ 1)
    × ((Results.after one rest (stamp 0) alone).shared.number 7 ≡ 0)
    × ((Results.after one rest (stamp 0) alone).shared.number 5 ≡ 7)
unfolding run turn Spinlock.step Guarded.step Eratosthenes.step
spinlock_ends = (refl, refl, refl)

sundaram_ends :
    ((Invariant.after one rest (stamp 0) alone).shared.done ≡ 1)
    × ((Invariant.after one rest (stamp 0) alone).shared.number 4 ≡ 0)
    × ((Invariant.after one rest (stamp 0) alone).shared.number 3 ≡ 3)
unfolding run turn Sundaram.step Eratosthenes.arrive Eratosthenes.expected
sundaram_ends = (refl, refl, refl)

spinlock_refines_example :
    (js : List ℕ) × Simulates
      (Spinlock.crosses two)
      (run 2 (Spinlock.step two) busy (Spinlock.start two rest (stamp 0)))
      (run 2 (Eratosthenes.step two) js (Eratosthenes.start two rest (stamp 0)))
spinlock_refines_example = spinlock_refines two rest (stamp 0) busy two-IsSmall

sundaram_lock_refines_example :
    (js : List ℕ) × Simulates
      (SundaramLock.crosses two)
      (run 2 (SundaramLock.step two) busy (SundaramLock.start two rest (stamp 0)))
      (run 2 (Sundaram.step two) js (Sundaram.start two rest (stamp 0)))
sundaram_lock_refines_example = sundaram_lock_refines two rest (stamp 0) busy two_in_range
