-- ===== src/Counting/Race.antt =====
-- race.c: `shared_data++` on a volatile `int` is a load and a store, and increments are lost.
use c_operating_system.Prelude.{
  ℕ, zero, suc, ◌+◌, ◌*◌, ◌≤◌, ◌<◌, ◌≡◌, refl, none, some, List, [], ◌∷◌, ◌++◌, arith, ltb,
  if◌then◌else◌,
}
use c_operating_system.Prelude.Word.{add32}
use c_operating_system.Threads.{Conf, Program, update, run, turn}
use c_operating_system.Threads.Total.{total, total-update, total-le-mul}
use c_operating_system.Threads.Invariant.{run-keeps, run-append}

-- the rounds of the loop in `mythreads`
abbrev pub iters : ℕ
iters = 1_000_000

pub data Pc : Type 0 where
  starting : Pc  -- at the test of `kthread_should_stop`, which is false
  looping : (iter : ℕ) → Pc  -- at the test `iter < iters`
  loaded : (iter value : ℕ) → Pc  -- has read `value`, and stores its successor next
  asleep : Pc  -- in `schedule()`

-- The test of the loop, and the load of `shared_data++`.
pub mythreads : ℕ → ℕ → ℕ × Pc
mythreads iter shared_data =
    if ltb iter iters then (shared_data, loaded iter shared_data) else (shared_data, asleep)

unfoldable pub step : Program ℕ Pc
unfolding mythreads
step i shared_data starting = some (shared_data, looping 0)
step i shared_data (looping iter) = some (mythreads iter shared_data)
step i shared_data (loaded iter value) = some (add32 value 1, looping (add32 iter 1))
step i shared_data asleep = none

-- `shared_data` is initialised to 0.
abbrev pub start : Conf ℕ Pc
start = record { shared = 0; locals = λ _. starting }

-- the increments that a thread has made
abbrev pub made : Pc → ℕ
made starting = 0
made (looping iter) = iter
made (loaded iter value) = iter
made asleep = iters

-- what a thread will store is at most one more than all increments made so far
abbrev held : Pc → ℕ
held (loaded iter value) = value
held _ = 0

abbrev room : Pc → ℕ
room (loaded iter value) = iter + 1
room (looping iter) = iter
room _ = 0

record Inv (n : ℕ) (c : Conf ℕ Pc) : Type 0 where
  counted : c.shared ≤ total made n c.locals
  stale : (i : ℕ) → held (c.locals i) ≤ total made n c.locals
  bounded : (i : ℕ) → made (c.locals i) ≤ iters
  unfinished : (i : ℕ) → room (c.locals i) ≤ iters

module _ {n : ℕ} (few : n ≤ 2000) {c : Conf ℕ Pc} (inv : Inv n c) (i : ℕ) (lt : i < n) where
  open inv use {counted, stale, bounded, unfinished}

  moves :
      (l' : Pc)
      → total made n (update c.locals i l') + made (c.locals i) ≡ total made n c.locals + made l'
  moves l' = total-update made n i c.locals l' lt

  most : total made n c.locals ≤ n * iters
  most = total-le-mul made iters n c.locals bounded

  keeps :
      (l : Pc)
      → c.locals i ≡ l
      → (s : ℕ) (l' : Pc) → step i c.shared l ≡ some (s, l')
      → Inv n (record { shared = s; locals = update c.locals i l' })
  unfolding step
  keeps starting e s l' h = record {
    counted = ground (arith, moves l');
    stale = λ j. ground (arith, moves l', stale j);
    bounded = λ j. ground (arith, bounded j);
    unfinished = λ j. ground (arith, unfinished j);
  }
  keeps _ e s l' h = record {
    counted = ground (arith, moves l', most, stale i, unfinished i, bounded i);
    stale = λ j. ground (arith, moves l', stale j, stale i, unfinished i, bounded i);
    bounded = λ j. ground (arith, bounded j, unfinished i);
    unfinished = λ j. ground (arith, unfinished j, unfinished i, bounded i);
  }

Inv-run : (n : ℕ) → n ≤ 2000 → (is : List ℕ) → Inv n (run n step is start)
Inv-run n few is =
    run-keeps n step (Inv n) (λ i c l lt inv e s' l' h. keeps few inv i lt l e s' l' h) is start
      (record {
        counted = omega arith;
        stale = λ i. omega arith;
        bounded = λ i. omega arith;
        unfinished = λ i. omega arith;
      })

-- With up to 2000 threads, whatever the schedule, the counter never exceeds the number of the
-- increments made so far, which is at most `iters` for each thread.
pub race_le :
    (n : ℕ) (is : List ℕ)
    → n ≤ 2000
    → ((run n step is start).shared ≤ total made n (run n step is start).locals)
      × (total made n (run n step is start).locals ≤ n * iters)
race_le n is few =
    ((Inv-run n few is).counted, total-le-mul made iters n _ (Inv-run n few is).bounded)

-- Threads 0 and 1 load the same value, then store the same value, in each round.
pub lockstep : ℕ → List ℕ
lockstep zero = 0 ∷ 1 ∷ []
lockstep (suc m) = 0 ∷ 1 ∷ 0 ∷ 1 ∷ lockstep m

record Together (k : ℕ) (c : Conf ℕ Pc) : Type 0 where
  value : c.shared ≡ k
  zeroth : c.locals 0 ≡ looping k
  first : c.locals 1 ≡ looping k

record Halved (c : Conf ℕ Pc) : Type 0 where
  value : c.shared ≡ iters
  zeroth : c.locals 0 ≡ asleep
  first : c.locals 1 ≡ asleep

abbrev round : ℕ → Conf ℕ Pc → Conf ℕ Pc
round n c = turn n step 1 (turn n step 0 (turn n step 1 (turn n step 0 c)))

round-Together :
    (n k : ℕ) (c : Conf ℕ Pc) → 2 ≤ n → k < iters → Together k c → Together (k + 1) (round n c)
unfolding turn step
round-Together n k c two lt t = record {
  value = ground arith;
  zeroth = ground arith;
  first = ground arith;
}

end-Halved :
    (n : ℕ) (c : Conf ℕ Pc) → 2 ≤ n → Together iters c → Halved (turn n step 1 (turn n step 0 c))
unfolding turn step
end-Halved n c two t = record { value = ground arith; zeroth = ground arith; first = ground arith }

lockstep-Halved :
    (n m k : ℕ) (c : Conf ℕ Pc)
    → 2 ≤ n
    → k + m ≡ iters
    → Together k c
    → Halved (run n step (lockstep m) c)
unfolding run lockstep
lockstep-Halved n zero k c two e t =
    let same : k ≡ iters = omega arith in end-Halved n c two (rw same at t)
lockstep-Halved n (suc m) k c two e t =
    lockstep-Halved n m (k + 1) (round n c) two (omega arith)
      (round-Together n k c two (omega arith) t)

first-Together : (n : ℕ) → 2 ≤ n → Together 0 (run n step (0 ∷ 1 ∷ []) start)
unfolding run turn step
first-Together n two = record { value = ground arith; zeroth = ground arith; first = ground arith }

-- The race: there is a schedule of two of the threads in which both make all their increments and
-- the counter ends with half of them.
pub race_loses :
    (n : ℕ)
    → 2 ≤ n
    → ((run n step ((0 ∷ 1 ∷ []) ++ lockstep iters) start).shared ≡ iters)
      × ((run n step ((0 ∷ 1 ∷ []) ++ lockstep iters) start).locals 0 ≡ asleep)
      × ((run n step ((0 ∷ 1 ∷ []) ++ lockstep iters) start).locals 1 ≡ asleep)
race_loses n two = (after.value, after.zeroth, after.first)
  where
    after : Halved (run n step ((0 ∷ 1 ∷ []) ++ lockstep iters) start)
    after =
        rw (run-append n step (0 ∷ 1 ∷ []) (lockstep iters) start)
          (lockstep-Halved n iters 0 _ two refl (first-Together n two))
