-- ===== src/Sieve/Spinlock/Refinement.antt =====
-- spinlock.c refines atomic.c.
use c_operating_system.Prelude.{
  ℕ, ◌≡◌, ◌≢◌, inl, inr, refl, false, none, some, List, arith, Option-cases,
}
use c_operating_system.Prelude.Word.{add32}
use c_operating_system.Threads.{update, run}
use c_operating_system.Sieve.Time.{Timespec}
use c_operating_system.Sieve.Eratosthenes.{Params, Shared, entering, crossing}
use c_operating_system.Sieve.Eratosthenes
use c_operating_system.Sieve.Eratosthenes.Invariant.{IsSmall, holds}
use c_operating_system.Sieve.Eratosthenes.Safety.{Inv-run}
use c_operating_system.Sieve.Guarded.Simulation.{Alike, Follows, Laws, Simulates}
use c_operating_system.Sieve.Guarded.Refinement.{refines}
use c_operating_system.Sieve.Spinlock.{crosses, step, start}

module _ (p : Params) where
  -- A step that one state can make the other can make.
  enabled :
      (i : ℕ) (l l' : Eratosthenes.Pc) (s s' u : Shared)
      → crosses p l ≡ none
      → (s.lock ≡ false → u.lock ≡ false)
      → Eratosthenes.step p i s l ≡ some (s', l')
      → Eratosthenes.step p i u l ≢ none
  unfolding Eratosthenes.step
  enabled i (entering flag) l' s s' u q free h g = ground (arith, free)
  enabled i _ l' s s' u q free h g = ground (arith, free)

  both :
      (i : ℕ) (l l' lu : Eratosthenes.Pc) (s s' u su : Shared)
      → crosses p l ≡ none
      → Alike s u
      → (s.lock ≡ false → u.lock ≡ false)
      → Eratosthenes.step p i s l ≡ some (s', l')
      → Eratosthenes.step p i u l ≡ some (su, lu)
      → Follows (Eratosthenes.step p) i (holds l) l l' s s' u
  unfolding Eratosthenes.step
  both i (entering flag) l' lu s s' u su q alike free h g = record {
    state = su;
    moves = ground (arith, free);
    alike = ground (arith, alike);
    counters = λ j. ground (arith, free);
    lock_step = ground (arith, free);
  }
  both i _ l' lu s s' u su q alike free h g = record {
    state = su;
    moves = ground (arith, alike.cur, alike.arrived, alike.number s.cur);
    alike = record {
      number = λ k. ground (arith, alike.number k, alike.number s.cur, alike.cur);
      cur = ground (arith, alike.cur, alike.number s.cur);
      done = ground (arith, alike.done, alike.cur, alike.number s.cur);
      arrived = ground (arith, alike.arrived);
      started = ground (arith, alike.arrived, alike.started);
      ended = ground (arith, alike.arrived, alike.ended);
    };
    counters = λ j. ground (arith, q);
    lock_step = ground (arith, q, free);
  }

  stores :
      (i : ℕ) (s : Shared) (l : Eratosthenes.Pc) (cell : ℕ) (next : Eratosthenes.Pc)
      → crosses p l ≡ some (cell, next)
      → Eratosthenes.step p i s l
        ≡ some (
          record s {
            number = update s.number cell 0;
            counter = update s.counter i (add32 (s.counter i) 1);
          },
          next,
        )
  unfolding Eratosthenes.step
  stores i s (crossing x d) cell next q = ground (arith, q)
  stores i s _ cell next q = ground (arith, q)

  laws : Laws (Eratosthenes.step p) (crosses p) holds
  laws = record {
    stores = stores;
    follows = λ i l l' s s' u q alike free h. elim (Option-cases (Eratosthenes.step p i u l)) [
      | inl g ↦ absurd (enabled i l l' s s' u q free h g)
      | inr ((su, lu), g) ↦ both i l l' lu s s' u su q alike free h g
    ];
  }

-- For small parameters, each run of spinlock.c from its start is matched by a run of atomic.c with
-- the same numbers, `cur`, `done`, arrivals and time stamps, where each thread is at the place that
-- `place` says, and with the same counters but of a thread that is to release the lock of a crossing.
pub spinlock_refines :
    (p : Params) (rest : ℕ → ℕ) (t : Timespec) (is : List ℕ)
    → IsSmall p
    → (js : List ℕ) × Simulates
        (crosses p)
        (run p.num_threads (step p) is (start p rest t))
        (run p.num_threads (Eratosthenes.step p) js (Eratosthenes.start p rest t))
unfolding step
spinlock_refines p rest t is small =
    refines p.num_threads (Eratosthenes.step p) (crosses p) holds (laws p)
      (Eratosthenes.start p rest t) refl (λ js j. (Inv-run p small rest t js).free j) is
