-- ===== src/Sieve/Eratosthenes/Safety.antt =====
-- atomic.c: what holds of the sieve after every schedule.
use c_operating_system.Prelude.{ℕ, ◌^◌, ◌<◌, ◌≡◌, inl, refl, true, some, List, arith}
use c_operating_system.Threads.{Conf, run}
use c_operating_system.Threads.Invariant.{Keeps, run-keeps}
use c_operating_system.Sieve.Time.{Timespec}
use c_operating_system.Sieve.Eratosthenes.{Params, Shared, Pc, last, step, start}
use c_operating_system.Sieve.Eratosthenes.Invariant.{
  holds, base, IsCell, Inv, IsSmall, cur_bound, keeps-bounded, keeps-free, keeps-one, keeps-Fits,
  keeps-apart, keeps-IsCell,
}

module _ (p : Params) (small : IsSmall p) where
  pub Inv-keeps : Keeps p.num_threads (step p) (Inv p)
  Inv-keeps i c l lt inv e s' l' h = record {
    bounded = keeps-bounded small inv i lt l e s' l' h;
    free = keeps-free small inv i l e s' l' h;
    one = keeps-one small inv i l e s' l' h;
    fits = keeps-Fits small inv i l e s' l' h;
    apart = keeps-apart small inv i l e s' l' h;
    cell = keeps-IsCell small inv i l e s' l' h;
  }

  pub Inv-start : (rest : ℕ → ℕ) (t : Timespec) → Inv p (start p rest t)
  Inv-start rest t = record {
    bounded = omega arith;
    free = λ i h. refl;
    one = λ i j h k. cc;
    fits = λ i. tt;
    apart = λ i j b h k. cc;
    cell = λ k lt. inl (ground arith);
  }

  pub Inv-run :
      (rest : ℕ → ℕ) (t : Timespec) (is : List ℕ)
      → Inv p (run p.num_threads (step p) is (start p rest t))
  Inv-run rest t is =
      run-keeps p.num_threads (step p) (Inv p) Inv-keeps is (start p rest t) (Inv-start rest t)

module _ (p : Params) (rest : ℕ → ℕ) (t : Timespec) (is : List ℕ) where
  abbrev pub after : Conf Shared Pc
  after = run p.num_threads (step p) is (start p rest t)

  -- For small parameters, whatever the schedule, each cell of the array holds its number, or it
  -- holds 0 and its number is composite: no prime is ever crossed out.
  pub sieve-IsCell : IsSmall p → (k : ℕ) → k < last p → IsCell p (after.shared.number k) k
  sieve-IsCell small = (Inv-run p small rest t is).cell

  -- For small parameters, whatever the schedule, two threads never hold the lock together, and `cur`
  -- stays an `int` that is not negative, once a thread holds the lock.
  pub sieve-exclusion :
      (i j : ℕ)
      → IsSmall p
      → holds (after.locals i) ≡ true
      → holds (after.locals j) ≡ true
      → (i ≡ j) × (after.shared.cur < 2 ^ 31)
  sieve-exclusion i j small hi hj = (
    (Inv-run p small rest t is).one i j hi hj,
    omega (arith, cur_bound small (Inv-run p small rest t is) i),
  )

  -- For small parameters, whatever the schedule, two threads never work on one position at a time.
  pub sieve-apart :
      (i j b : ℕ)
      → IsSmall p
      → base (after.locals i) ≡ some b
      → base (after.locals j) ≡ some b
      → i ≡ j
  sieve-apart i j b small = (Inv-run p small rest t is).apart i j b
