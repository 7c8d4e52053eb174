-- ===== src/Locks/SleepLock/Exclusion.antt =====
-- sleeplock.c: the lock excludes.
use c_operating_system.Prelude.{
  ℕ, ◌+◌, ◌^◌, ◌≤◌, ◌<◌, ◌≡◌, ◌⊎◌, inl, refl, Bool, true, false, some, List, arith,
}
use c_operating_system.Threads.{Conf, update, run}
use c_operating_system.Threads.Total.{total, total-update, total-le}
use c_operating_system.Threads.Invariant.{Keeps, run-keeps}
use c_operating_system.Locks.SleepLock.{
  Shared, Pc, locking, storing, critical, unlocking, releasing, step, start,
}

-- Between the return of `lock` and the return of the first atomic access of `unlock`.
abbrev pub holds : Pc → Bool
holds (critical _) = true
holds unlocking = true
holds _ = false

-- A thread that holds the lock, or has still to store 1 in it.
abbrev pub owns : Pc → Bool
owns (critical _) = true
owns unlocking = true
owns releasing = true
owns _ = false

-- A thread that has taken 1 from the word and not yet stored -1.
abbrev pub pending : Pc → ℕ
pending storing = 1
pending _ = 0

pub pending-le-one : (l : Pc) → pending l ≤ 1
pending-le-one locking = omega arith
pending-le-one _ = omega arith

-- The word is 1, 0, or below 0 by no more than the pending decrements explain.
abbrev InRange : ℕ → ℕ → Type 0
InRange w p = (w ≡ 1) ⊎ (w ≡ 0) ⊎ ((w < 2 ^ 32) × (2 ^ 32 ≤ w + 1 + p))

record Inv (n : ℕ) (c : Conf Shared Pc) : Type 0 where
  range : InRange c.shared.word (total pending n c.locals)
  free : (i : ℕ) → c.shared.word ≡ 1 → owns (c.locals i) ≡ false
  one : (i j : ℕ) → owns (c.locals i) ≡ true → owns (c.locals j) ≡ true → i ≡ j

module _ {n : ℕ} (few : n + 2 ≤ 2 ^ 31) {c : Conf Shared Pc} (inv : Inv n c) (i : ℕ)
    (lt : i < n) where
  open inv use {range, free, one}

  moves :
      (l' : Pc)
      → total pending n (update c.locals i l') + pending (c.locals i)
        ≡ total pending n c.locals + pending l'
  moves l' = total-update pending n i c.locals l' lt

  few_pending : total pending n c.locals ≤ n
  few_pending = total-le pending n c.locals pending-le-one

  keeps-range :
      (l : Pc)
      → c.locals i ≡ l
      → (s : Shared) (l' : Pc) → step i c.shared l ≡ some (s, l')
      → InRange s.word (total pending n (update c.locals i l'))
  unfolding step
  keeps-range locking e s l' h = ground (arith, moves l', few_pending)
  keeps-range _ e s l' h = ground (arith, moves l', few_pending, free i)

  keeps-free :
      (l : Pc)
      → c.locals i ≡ l
      → (s : Shared) (l' : Pc) → step i c.shared l ≡ some (s, l')
      → (j : ℕ) → s.word ≡ 1
      → owns (update c.locals i l' j) ≡ false
  unfolding step
  keeps-free locking e s l' h j u = ground (arith, few_pending, free i, free j)
  keeps-free _ e s l' h j u = ground (arith, few_pending, free i, free j, one i j)

  keeps-one :
      (l : Pc)
      → c.locals i ≡ l
      → (s : Shared) (l' : Pc) → step i c.shared l ≡ some (s, l')
      → (j k : ℕ) → owns (update c.locals i l' j) ≡ true
      → owns (update c.locals i l' k) ≡ true
      → j ≡ k
  unfolding step
  keeps-one locking e s l' h j k hj hk = ground (arith, few_pending, free j, free k, one j k)
  keeps-one _ e s l' h j k hj hk = ground (arith, one i j, one i k, one j k)

Inv-keeps : (n : ℕ) → n + 2 ≤ 2 ^ 31 → Keeps n step (Inv n)
Inv-keeps n few i c l lt inv e s l' h = record {
  range = keeps-range few inv i lt l e s l' h;
  free = keeps-free few inv i lt l e s l' h;
  one = keeps-one few inv i lt l e s l' h;
}

Inv-start : (n : ℕ) → Inv n start
Inv-start n = record { range = inl refl; free = λ i h. refl; one = λ i j h k. cc }

Inv-run : (n : ℕ) → n + 2 ≤ 2 ^ 31 → (is : List ℕ) → Inv n (run n step is start)
Inv-run n few is = run-keeps n step (Inv n) (Inv-keeps n few) is start (Inv-start n)

-- With fewer than 2^31 - 1 threads, in whatever order they run, two never hold the lock together.
pub sleep-exclusion :
    (n : ℕ) (is : List ℕ) (i j : ℕ)
    → n + 2 ≤ 2 ^ 31
    → holds ((run n step is start).locals i) ≡ true
    → holds ((run n step is start).locals j) ≡ true
    → i ≡ j
sleep-exclusion n is i j few hi hj = (Inv-run n few is).one i j (ground arith) (ground arith)
