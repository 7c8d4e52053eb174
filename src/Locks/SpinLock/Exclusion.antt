-- ===== src/Locks/SpinLock/Exclusion.antt =====
-- lock.c: what holds after every schedule.
use c_operating_system.Prelude.{
  ℕ, ◌≡◌, ◌≢◌, ◌⊎◌, ◌↔◌, inl, inr, refl, Bool, true, false, some, List, arith,
}
use c_operating_system.Threads.{Conf, update, run}
use c_operating_system.Threads.Invariant.{Keeps, run-keeps}
use c_operating_system.Locks.SpinLock.{
  Pc, locking, critical, unlocking, finished, illegal, unlocked, locked, step, start,
}

-- Between the return of `lock` and the exchange in `unlock`.
abbrev pub holds : Pc → Bool
holds (critical _) = true
holds unlocking = true
holds _ = false

record Inv (c : Conf ℕ Pc) : Type 0 where
  two : (c.shared ≡ locked) ⊎ (c.shared ≡ unlocked)
  free : (i : ℕ) → c.shared ≡ unlocked → holds (c.locals i) ≡ false
  one : (i j : ℕ) → holds (c.locals i) ≡ true → holds (c.locals j) ≡ true → i ≡ j
  owner : c.shared ≡ locked → (i : ℕ) × (holds (c.locals i) ≡ true)
  legal : (i : ℕ) → c.locals i ≢ illegal

module _ {c : Conf ℕ Pc} (inv : Inv c) (i : ℕ) where
  open inv use {two, free, one, owner, legal}

  abbrev next : ℕ → Pc → Conf ℕ Pc
  next s l = record { shared = s; locals = update c.locals i l }

  keeps-two :
      (l : Pc)
      → c.locals i ≡ l
      → (s : ℕ) (l' : Pc) → step i c.shared l ≡ some (s, l')
      → (s ≡ locked) ⊎ (s ≡ unlocked)
  unfolding step
  keeps-two locking e s l' h = ground arith
  keeps-two _ e s l' h = ground arith

  keeps-free :
      (l : Pc)
      → c.locals i ≡ l
      → (s : ℕ) (l' : Pc) → step i c.shared l ≡ some (s, l')
      → (j : ℕ) → s ≡ unlocked
      → holds (update c.locals i l' j) ≡ false
  unfolding step
  keeps-free locking e s l' h j u = ground (arith, free j, free i, one i j)
  keeps-free _ e s l' h j u = ground (arith, free j, free i, one i j)

  keeps-one :
      (l : Pc)
      → c.locals i ≡ l
      → (s : ℕ) (l' : Pc) → step i c.shared l ≡ some (s, l')
      → (j k : ℕ) → holds (update c.locals i l' j) ≡ true
      → holds (update c.locals i l' k) ≡ true
      → j ≡ k
  unfolding step
  keeps-one locking e s l' h j k hj hk = ground (arith, free j, free k, one j k)
  keeps-one _ e s l' h j k hj hk = ground (arith, free i, one i j, one i k, one j k)

  keeps-legal :
      (l : Pc)
      → c.locals i ≡ l
      → (s : ℕ) (l' : Pc) → step i c.shared l ≡ some (s, l')
      → (j : ℕ) → update c.locals i l' j ≢ illegal
  unfolding step
  keeps-legal locking e s l' h j = ground (arith, legal j)
  keeps-legal _ e s l' h j = ground (arith, legal j, free i, two)

  keeps-owner :
      (l : Pc)
      → c.locals i ≡ l
      → (s : ℕ) (l' : Pc) → step i c.shared l ≡ some (s, l')
      → s ≡ locked
      → (j : ℕ) × (holds (update c.locals i l' j) ≡ true)
  unfolding step
  keeps-owner locking e s l' h k = elim two [
    | inl taken ↦ let (j, held) = owner taken in (j, ground (arith, free i))
    | inr idle ↦ (i, ground arith)
  ]
  keeps-owner (critical index) e s l' h k = (i, ground arith)
  keeps-owner unlocking e s l' h k = absurd (ground arith)
  keeps-owner finished e s l' h k = absurd (ground arith)
  keeps-owner illegal e s l' h k = absurd (ground arith)

Inv-keeps : (n : ℕ) → Keeps n step Inv
Inv-keeps n i c l lt inv e s l' h = record {
  two = keeps-two inv i l e s l' h;
  free = keeps-free inv i l e s l' h;
  one = keeps-one inv i l e s l' h;
  owner = keeps-owner inv i l e s l' h;
  legal = keeps-legal inv i l e s l' h;
}

Inv-start : Inv start
Inv-start = record {
  two = inr refl;
  free = λ i h. refl;
  one = λ i j h k. cc;
  owner = λ h. absurd (omega arith);
  legal = λ i h. cc;
}

Inv-run : (n : ℕ) (is : List ℕ) → Inv (run n step is start)
Inv-run n is = run-keeps n step Inv (Inv-keeps n) is start Inv-start

-- However many threads run `main`, and in whatever order, two are never between the return of
-- `lock` and the exchange in `unlock`.
pub spin-exclusion :
    (n : ℕ) (is : List ℕ) (i j : ℕ)
    → holds ((run n step is start).locals i) ≡ true
    → holds ((run n step is start).locals j) ≡ true
    → i ≡ j
spin-exclusion n is = (Inv-run n is).one

-- After every schedule the word is `UNLOCKED` exactly when no thread holds the lock, and no thread
-- has had its `unlock` refused.
pub spin_word :
    (n : ℕ) (is : List ℕ)
    → (((run n step is start).shared ≡ unlocked)
        ↔ ((i : ℕ) → holds ((run n step is start).locals i) ≡ false))
      × ((i : ℕ) → (run n step is start).locals i ≢ illegal)
spin_word n is = ((λ u i. inv.free i u, back inv.two), inv.legal)
  where
    inv : Inv (run n step is start)
    inv = Inv-run n is

    back :
        ((run n step is start).shared ≡ locked) ⊎ ((run n step is start).shared ≡ unlocked)
        → ((i : ℕ) → holds ((run n step is start).locals i) ≡ false)
        → (run n step is start).shared ≡ unlocked
    back (inl taken) none_holds = let (j, held) = inv.owner taken in ground (arith, none_holds j)
    back (inr idle) none_holds = idle
