-- ===== src/Tests/Sieve.antt =====
-- atomic.c at concrete bounds and schedules.
use c_operating_system.Prelude.{ℕ, ◌^◌, ◌<◌, ◌≡◌, refl, List, [], ◌∷◌, replicate, arith}
use c_operating_system.Prelude.Int.{pos}
use c_operating_system.Threads.{Conf, turn, run}
use c_operating_system.Sieve.Time.{Timespec}
use c_operating_system.Sieve.Eratosthenes.{Params, Shared, Pc, finished, step}
use c_operating_system.Sieve.Eratosthenes.Invariant.{IsCell, IsSmall}
use c_operating_system.Sieve.Eratosthenes.Safety.{after, sieve-IsCell, sieve-exclusion}
use c_operating_system.Sieve.Eratosthenes.OneThread.{one_thread_finishes}
use c_operating_system.Sieve.Eratosthenes.Race.{race_keeps_four}

abbrev pub stamp : ℕ → Timespec
stamp n = record { tv_sec = pos n; tv_nsec = pos 0 }

-- One thread, and two, with the numbers up to 10.
abbrev pub one : Params
one = record { num_threads = 1; upper_bound = 10; clock = stamp }

abbrev pub two : Params
two = record { num_threads = 2; upper_bound = 10; clock = stamp }

abbrev pub rest : ℕ → ℕ
rest k = 0

abbrev pub alone : List ℕ
alone = replicate 80 0

-- Both threads have claimed a position.
abbrev pub busy : List ℕ
busy = 0 ∷ 0 ∷ 0 ∷ 1 ∷ 1 ∷ 1 ∷ 0 ∷ 1 ∷ 0 ∷ 0 ∷ 0 ∷ 0 ∷ 0 ∷ 0 ∷ 1 ∷ 1 ∷ 1 ∷ []

abbrev pub alone_after : Conf Shared Pc
alone_after = after one rest (stamp 0) alone

abbrev pub busy_after : Conf Shared Pc
busy_after = after two rest (stamp 0) busy

pub one-IsSmall : IsSmall one
one-IsSmall = omega arith

pub two-IsSmall : IsSmall two
two-IsSmall = omega arith

alone_numbers :
    (alone_after.shared.number 0 ≡ 2)
    × (alone_after.shared.number 2 ≡ 0)
    × (alone_after.shared.number 5 ≡ 7)
    × (alone_after.shared.number 8 ≡ 0)
    × (alone_after.locals 0 ≡ finished)
unfolding run turn step
alone_numbers = (refl, refl, refl, refl, refl)

sieve-IsCell_example : IsCell two (busy_after.shared.number 4) 4
sieve-IsCell_example = sieve-IsCell two rest (stamp 0) busy two-IsSmall 4 (omega arith)

sieve-exclusion_example : (◌≡◌ {A = ℕ} 1 1) × (busy_after.shared.cur < 2 ^ 31)
unfolding run turn step
sieve-exclusion_example = sieve-exclusion two rest (stamp 0) busy 1 1 two-IsSmall refl refl

one_thread_finishes_example : (is : List ℕ) × ((after one rest (stamp 0) is).locals 0 ≡ finished)
one_thread_finishes_example = one_thread_finishes one one-IsSmall refl rest (stamp 0)

race_keeps_four_example :
    (is : List ℕ) × ((after two rest (stamp 0) is).locals 0 ≡ finished)
    × ((after two rest (stamp 0) is).locals 1 ≡ finished)
    × ((after two rest (stamp 0) is).shared.number 2 ≡ 4)
race_keeps_four_example = race_keeps_four two two-IsSmall refl (omega arith) rest (stamp 0)
