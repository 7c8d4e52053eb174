-- ===== src/Counting/Atomic.antt =====
-- atomic_race.c: `atomic_add(1, &shared_data)` is one step, and no increment is lost.
use c_operating_system.Prelude.{
  ℕ, ◌*◌, ◌%◌, ◌^◌, ◌≤◌, ◌<◌, ◌≡◌, refl, ap, none, some, List, arith, ltb, if◌then◌else◌,
}
use c_operating_system.Prelude.Word.{add32}
use c_operating_system.Threads.{Conf, Program, run}
use c_operating_system.Threads.Total.{total, total-update, total-eq-zero, total-eq-mul}
use c_operating_system.Threads.Invariant.{Keeps, run-keeps}

-- the rounds of the loop in `mythreads`
abbrev pub iters : ℕ
iters = 1_000_000

pub data Pc : Type 0 where
  starting : Pc  -- at the test of `kthread_should_stop`, which is false
  looping : (iter : ℕ) → Pc  -- at the test `iter < iters`
  asleep : Pc  -- in `schedule()`

-- One round of the loop, or its end.
pub mythreads : ℕ → ℕ → ℕ × Pc
mythreads iter shared_data =
    if ltb iter iters then (add32 shared_data 1, looping (add32 iter 1)) else (shared_data, asleep)

unfoldable pub step : Program ℕ Pc
unfolding mythreads
step i shared_data starting = some (shared_data, looping 0)
step i shared_data (looping iter) = some (mythreads iter shared_data)
step i shared_data asleep = none

-- `simple_init` sets the counter to 0 and starts the threads.
abbrev pub start : Conf ℕ Pc
start = record { shared = 0; locals = λ _. starting }

-- the increments that a thread has made
abbrev pub made : Pc → ℕ
made starting = 0
made (looping iter) = iter
made asleep = iters

record Inv (n : ℕ) (c : Conf ℕ Pc) : Type 0 where
  counted : c.shared ≡ total made n c.locals % 2 ^ 32
  bounded : (i : ℕ) → made (c.locals i) ≤ iters

Inv-keeps : (n : ℕ) → Keeps n step (Inv n)
unfolding step
Inv-keeps n i c starting lt inv e s' l' h = record {
  counted = ground (arith, inv.counted, total-update made n i c.locals l' lt);
  bounded = λ j. ground (arith, inv.bounded j);
}
Inv-keeps n i c _ lt inv e s' l' h = record {
  counted = ground (arith, inv.counted, inv.bounded i, total-update made n i c.locals l' lt);
  bounded = λ j. ground (arith, inv.bounded i, inv.bounded j);
}

Inv-run : (n : ℕ) (is : List ℕ) → Inv n (run n step is start)
Inv-run n is = run-keeps n step (Inv n) (Inv-keeps n) is start (record {
  counted = omega (arith, total-eq-zero made n start.locals (λ i. refl));
  bounded = λ i. omega arith;
})

-- When every thread has made its pass, in whatever order, the counter has the number of all the
-- increments, as an `int`.
pub atomic_total :
    (n : ℕ) (is : List ℕ)
    → ((i : ℕ) → i < n → (run n step is start).locals i ≡ asleep)
    → (run n step is start).shared ≡ n * iters % 2 ^ 32
atomic_total n is all_asleep = omega (
  arith,
  (Inv-run n is).counted,
  total-eq-mul made iters n (run n step is start).locals (λ i lt. ap made (all_asleep i lt)),
)
