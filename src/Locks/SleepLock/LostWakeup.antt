-- ===== src/Locks/SleepLock/LostWakeup.antt =====
-- sleeplock.c: a waiter may store -1 after the lock was freed, and sleep with nobody to wake it.
use c_operating_system.Prelude.{
  ℕ, zero, suc, ◌+◌, ◌^◌, ◌≤◌, ◌<◌, ◌≡◌, refl, Bool, true, false, some, List, [], ◌∷◌, ◌++◌,
  replicate, arith,
}
use c_operating_system.Threads.{Conf, update, turn, run}
use c_operating_system.Threads.Total.{total, total-update, total-le}
use c_operating_system.Threads.Invariant.{Keeps, run-keeps, run-append}
use c_operating_system.Locks.SleepLock.Exclusion.{holds, pending, pending-le-one}
use c_operating_system.Locks.SleepLock.{
  Shared, Pc, locking, storing, waiting, sleeping, critical, finished, iters, minus_one, step,
  start,
}

-- Thread 0 is in round `k` of its critical section, thread 1 has decremented the word.
record Racing (k : ℕ) (c : Conf Shared Pc) : Type 0 where
  word : c.shared.word ≡ minus_one
  zeroth : c.locals 0 ≡ critical k
  first : c.locals 1 ≡ storing
  rest : (j : ℕ) → 1 < j → c.locals j ≡ locking

turn-Racing :
    (n k : ℕ) (c : Conf Shared Pc)
    → 2 ≤ n
    → k < iters
    → Racing k c
    → Racing (k + 1) (turn n step 0 c)
unfolding turn step
turn-Racing n k c two lt r = record {
  word = ground arith;
  zeroth = ground arith;
  first = ground arith;
  rest = λ j h. ground (arith, r.rest j);
}

rounds-Racing :
    (n m k : ℕ) (c : Conf Shared Pc)
    → 2 ≤ n
    → k + m ≡ iters
    → Racing k c
    → Racing iters (run n step (replicate m 0) c)
unfolding run
rounds-Racing n zero k c two e r = let same : k ≡ iters = omega arith in rw same at r
rounds-Racing n (suc m) k c two e r =
    rounds-Racing n m (k + 1) (turn n step 0 c) two (omega arith)
      (turn-Racing n k c two (omega arith) r)

-- The lock is free for ever and looks taken: nobody owns it, and thread 1 sleeps.
abbrev waits : Pc → Bool
waits locking = true
waits storing = true
waits waiting = true
waits sleeping = true
waits finished = true
waits _ = false

record Dead (n : ℕ) (c : Conf Shared Pc) : Type 0 where
  asleep : c.shared.asleep 1 ≡ true
  first : c.locals 1 ≡ sleeping
  word : (c.shared.word < 2 ^ 32) × (2 ^ 32 ≤ c.shared.word + 1 + total pending n c.locals)
  all_wait : (j : ℕ) → waits (c.locals j) ≡ true

module _ {n : ℕ} (few : n + 2 ≤ 2 ^ 31) {c : Conf Shared Pc} (d : Dead n c) (i : ℕ)
    (lt : i < n) where
  open d use {asleep, first, word, all_wait}

  few_pending : total pending n c.locals ≤ n
  few_pending = total-le pending n c.locals pending-le-one

  keeps-Dead :
      (l : Pc)
      → c.locals i ≡ l
      → (s : Shared) (l' : Pc) → step i c.shared l ≡ some (s, l')
      → Dead n (record { shared = s; locals = update c.locals i l' })
  unfolding step
  keeps-Dead locking e s l' h = record {
    asleep = ground arith;
    first = ground arith;
    word = ground (arith, few_pending, total-update pending n i c.locals l' lt);
    all_wait = λ j. ground (arith, few_pending, all_wait j);
  }
  keeps-Dead _ e s l' h = record {
    asleep = ground (arith, all_wait i);
    first = ground (arith, all_wait i);
    word = ground (arith, all_wait i, few_pending, total-update pending n i c.locals l' lt);
    all_wait = λ j. ground (arith, all_wait i, all_wait j);
  }

Dead-keeps : (n : ℕ) → n + 2 ≤ 2 ^ 31 → Keeps n step (Dead n)
Dead-keeps n few i c l lt d e s l' h = keeps-Dead few d i lt l e s l' h

abbrev ending : List ℕ
ending = 0 ∷ 0 ∷ 0 ∷ 0 ∷ 1 ∷ 1 ∷ []

ending-Dead : (n : ℕ) (c : Conf Shared Pc) → 2 ≤ n → Racing iters c → Dead n (run n step ending c)
unfolding run turn step
ending-Dead n c two r = record {
  asleep = ground arith;
  first = ground arith;
  word = ground arith;
  all_wait = λ j. ground (arith, r.rest j);
}

-- The schedule: both threads reach for the lock, thread 0 gets it, works and frees it while thread 1
-- has yet to store -1.
pub losing : ℕ → List ℕ
losing rounds = (0 ∷ 1 ∷ []) ++ (replicate rounds 0 ++ ending)

start-Racing : (n : ℕ) → 2 ≤ n → Racing 0 (run n step (0 ∷ 1 ∷ []) start)
unfolding run turn step
start-Racing n two = record {
  word = ground arith;
  zeroth = ground arith;
  first = ground arith;
  rest = λ j h. ground arith;
}

losing-Dead : (n : ℕ) → 2 ≤ n → Dead n (run n step (losing iters) start)
unfolding losing
losing-Dead n two =
    rw
      (
        run-append n step (0 ∷ 1 ∷ []) (replicate iters 0 ++ ending) start,
        run-append n step (replicate iters 0) ending (run n step (0 ∷ 1 ∷ []) start),
      )
      (ending-Dead n _ two
        (rounds-Racing n iters 0 (run n step (0 ∷ 1 ∷ []) start) two refl (start-Racing n two)))

-- With two threads or more, and fewer than 2^31 - 1: after the schedule `losing` of two of them,
-- however the run goes on, thread 1 sleeps and no thread holds the lock.
pub lost_wakeup :
    (n : ℕ) (is : List ℕ)
    → 2 ≤ n
    → n + 2 ≤ 2 ^ 31
    → ((run n step (losing iters ++ is) start).locals 1 ≡ sleeping)
      × ((j : ℕ) → holds ((run n step (losing iters ++ is) start).locals j) ≡ false)
lost_wakeup n is two few = (after.first, λ j. ground (arith, after.all_wait j))
  where
    after : Dead n (run n step (losing iters ++ is) start)
    after =
        rw (run-append n step (losing iters) is start)
          (run-keeps n step (Dead n) (Dead-keeps n few) is _ (losing-Dead n two))
