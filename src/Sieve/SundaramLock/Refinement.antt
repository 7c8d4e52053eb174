-- ===== src/Sieve/SundaramLock/Refinement.antt =====
-- sundrama_lock.c refines sundrama_atomic.c, and prints what it does.
use c_operating_system.Prelude.{
  ℕ, ◌≡◌, ◌≢◌, inl, inr, refl, false, none, some, List, arith, Option-cases, sym, ◌-◌,
}
use c_operating_system.Prelude.Word.{add32}
use c_operating_system.Threads.{Conf, update, run}
use c_operating_system.Sieve.Guarded.{Pc}
use c_operating_system.Sieve.Time.{Timespec}
use c_operating_system.Sieve.Eratosthenes.{Params, Shared, arrive}
use c_operating_system.Sieve.Sundaram.{entering, crossing}
use c_operating_system.Sieve.Sundaram
use c_operating_system.Sieve.Sundaram.Invariant.{IsSmall, holds, Inv-run, sundaram-IsCell}
use c_operating_system.Sieve.Sundaram.Runs.{reports-IsCell}
use c_operating_system.Sieve.Sundaram.Report
use c_operating_system.Sieve.Report.Primes.{primes_from}
use c_operating_system.Sieve.Report.Count.{values, without_composites}
use c_operating_system.Sieve.Lifecycle.{memory, returned, reported, zero_time}
use c_operating_system.Sieve.Lifecycle.Runs.{threaded, freed}
use c_operating_system.Sieve.Guarded.Simulation.{Alike, Follows, Laws, Simulates}
use c_operating_system.Sieve.Guarded.Refinement.{refines}
use c_operating_system.Sieve.SundaramLock.{crosses, step, start, simple_exit}

module _ (p : Params) where
  -- A step that one state can make the other can make.
  enabled :
      (i : ℕ) (l l' : Sundaram.Pc) (s s' u : Shared)
      → crosses p l ≡ none
      → (s.lock ≡ false → u.lock ≡ false)
      → Sundaram.step p i s l ≡ some (s', l')
      → Sundaram.step p i u l ≢ none
  unfolding Sundaram.step arrive
  enabled i (entering flag) l' s s' u q free h g = ground (arith, free)
  enabled i _ l' s s' u q free h g = ground (arith, free)

  both :
      (i : ℕ) (l l' lu : Sundaram.Pc) (s s' u su : Shared)
      → crosses p l ≡ none
      → Alike s u
      → (s.lock ≡ false → u.lock ≡ false)
      → Sundaram.step p i s l ≡ some (s', l')
      → Sundaram.step p i u l ≡ some (su, lu)
      → Follows (Sundaram.step p) i (holds l) l l' s s' u
  unfolding Sundaram.step arrive
  both i (entering flag) l' lu s s' u su q alike free h g = record {
    state = su;
    moves = ground (arith, free);
    alike = ground (arith, alike);
    counters = λ j. ground (arith, free);
    lock_step = ground (arith, free);
  }
  both i _ l' lu s s' u su q alike free h g = record {
    state = su;
    moves = ground (arith, alike.cur, alike.arrived, alike.number s.cur);
    alike = record {
      number = λ k. ground (arith, alike.number k, alike.number s.cur, alike.cur);
      cur = ground (arith, alike.cur, alike.number s.cur);
      done = ground (arith, alike.done, alike.cur, alike.number s.cur);
      arrived = ground (arith, alike.arrived);
      started = ground (arith, alike.arrived, alike.started);
      ended = ground (arith, alike.arrived, alike.ended);
    };
    counters = λ j. ground (arith, q);
    lock_step = ground (arith, q, free);
  }

  stores :
      (i : ℕ) (s : Shared) (l : Sundaram.Pc) (cell : ℕ) (next : Sundaram.Pc)
      → crosses p l ≡ some (cell, next)
      → Sundaram.step p i s l
        ≡ some (
          record s {
            number = update s.number cell 0;
            counter = update s.counter i (add32 (s.counter i) 1);
          },
          next,
        )
  unfolding Sundaram.step arrive
  stores i s (crossing x d) cell next q = ground (arith, q)
  stores i s _ cell next q = ground (arith, q)

  laws : Laws (Sundaram.step p) (crosses p) holds
  laws = record {
    stores = stores;
    follows = λ i l l' s s' u q alike free h. elim (Option-cases (Sundaram.step p i u l)) [
      | inl g ↦ absurd (enabled i l l' s s' u q free h g)
      | inr ((su, lu), g) ↦ both i l l' lu s s' u su q alike free h g
    ];
  }

abbrev pub after : (p : Params) → (ℕ → ℕ) → Timespec → List ℕ → Conf Shared (Pc Sundaram.Pc)
after p rest t is = run p.num_threads (step p) is (start p rest t)

-- For small parameters, each run of sundrama_lock.c from its start is matched by a run of
-- sundrama_atomic.c with the same numbers, `cur`, `done`, arrivals and time stamps, where each thread
-- is at the place that `place` says, and with the same counters but of a thread that is to release the
-- lock of a crossing.
pub sundaram_lock_refines :
    (p : Params) (rest : ℕ → ℕ) (t : Timespec) (is : List ℕ)
    → IsSmall p
    → (js : List ℕ) × Simulates
        (crosses p)
        (after p rest t is)
        (run p.num_threads (Sundaram.step p) js (Sundaram.start p rest t))
unfolding step
sundaram_lock_refines p rest t is small =
    refines p.num_threads (Sundaram.step p) (crosses p) holds (laws p) (Sundaram.start p rest t)
      refl (λ js j. (Inv-run p small rest t js).free j) is

-- For small parameters, after any schedule of sundrama_lock.c at whose end `done` is the number of
-- threads, and with memory for `tmp`: `simple_exit` frees the arrays and prints a report, and the
-- numbers printed in it without the composite ones are the primes up to the bound, each once and in
-- order.
pub sundaram_lock_reports :
    (p : Params) (rest found : ℕ → ℕ) (now : Timespec) (is : List ℕ)
    → IsSmall p
    → (after p rest zero_time is).shared.done ≡ p.num_threads
    → (r : Report.Report) × (simple_exit
          (memory found)
          p
          (threaded now (after p rest zero_time is).shared)
        ≡ returned (reported (some r) (freed (threaded now (after p rest zero_time is).shared))))
      × (without_composites (values r.primes) ≡ primes_from (p.upper_bound - 1) 2)
unfolding simple_exit Report.simple_exit
sundaram_lock_reports p rest found now is small all =
    let (js, sim) = sundaram_lock_refines p rest zero_time is small in
    reports-IsCell p found now (after p rest zero_time is).shared small all
      (λ k le. rw (sym (sim.alike.number k)) (sundaram-IsCell p rest zero_time js small k le))
