-- ===== src/Tests/Counting.antt =====
-- race.c and atomic_race.c at concrete schedules.
use c_operating_system.Prelude.{
  ℕ, zero, suc, ◌+◌, replicate, ◌*◌, ◌%◌, ◌^◌, ◌≡◌, refl, List, [], ◌∷◌, ◌++◌, arith,
}
use c_operating_system.Threads.{Conf, turn, run}
use c_operating_system.Counting.Atomic
use c_operating_system.Counting.Atomic.{atomic_total}
use c_operating_system.Counting.Race
use c_operating_system.Counting.Race.{race_le, race_loses, lockstep}

-- Two increments of two threads in turn.
abbrev interleaved : List ℕ
interleaved = 0 ∷ 1 ∷ 0 ∷ 1 ∷ 0 ∷ 1 ∷ []

atomic_counts : (run 2 Atomic.step interleaved Atomic.start).shared ≡ 4
unfolding run turn Atomic.step
atomic_counts = refl

race_counts : (run 2 Race.step interleaved Race.start).shared ≡ 1
unfolding run turn Race.step
race_counts = refl

-- A single thread comes to the end of its pass.
pass :
    (m k : ℕ) (c : Conf ℕ Atomic.Pc)
    → k + m ≡ Atomic.iters
    → c.locals 0 ≡ Atomic.looping k
    → (run 1 Atomic.step (replicate m 0 ++ 0 ∷ []) c).locals 0 ≡ Atomic.asleep
unfolding run turn Atomic.step
pass zero k c e at = ground arith
pass (suc m) k c e at = pass m (k + 1) (turn 1 Atomic.step 0 c) (omega arith) (ground arith)

abbrev whole : ℕ → List ℕ
whole m = 0 ∷ (replicate m 0 ++ 0 ∷ [])

whole_pass :
    (m : ℕ) → m ≡ Atomic.iters → (run 1 Atomic.step (whole m) Atomic.start).locals 0 ≡ Atomic.asleep
unfolding run
whole_pass m e = pass m 0 (turn 1 Atomic.step 0 Atomic.start) (omega arith) first
  where
    first : (turn 1 Atomic.step 0 Atomic.start).locals 0 ≡ Atomic.looping 0
    first = unfold turn Atomic.step in refl

atomic_total_example :
    (run 1 Atomic.step (whole Atomic.iters) Atomic.start).shared ≡ 1 * Atomic.iters % 2 ^ 32
atomic_total_example =
    atomic_total 1 (whole Atomic.iters)
      (λ i lt. let zeroth : i ≡ 0 = omega arith in rw zeroth (whole_pass Atomic.iters refl))
