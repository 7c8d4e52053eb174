-- ===== src/Sieve/Guarded/Simulation.antt =====
-- When a state of a program with a lock at each crossing is one of the program without, and that the
-- steps keep it so.
use c_operating_system.Prelude.{ℕ, ◌≡◌, ◌≢◌, ◌⊎◌, Bool, true, false, Option, none, some, arith}
use c_operating_system.Prelude.Word.{add32}
use c_operating_system.Threads.{Conf, Program, update}
use c_operating_system.Sieve.Eratosthenes.{Shared}
use c_operating_system.Sieve.Guarded.{Pc, plain, locking, storing, releasing, step}

-- Two states of shared memory that agree but for the lock and the counters.
pub record Alike (s s' : Shared) : Type 0 where
  pub number : (k : ℕ) → s'.number k ≡ s.number k
  pub cur : s'.cur ≡ s.cur
  pub done : s'.done ≡ s.done
  pub arrived : s'.arrive_barrier ≡ s.arrive_barrier
  pub started : s'.start_compute ≡ s.start_compute
  pub ended : s'.end_compute ≡ s.end_compute

-- What a step does to the lock, in both states: nothing, take it, or release it at a place that
-- holds it.
abbrev pub LockStep : Bool → (s s' u u' : Shared) → Type 0
LockStep held s s' u u' =
    ((s'.lock ≡ s.lock) × (u'.lock ≡ u.lock))
    ⊎ ((s.lock ≡ false) × (s'.lock ≡ true) × (u'.lock ≡ true))
    ⊎ ((held ≡ true) × (s'.lock ≡ false) × (u'.lock ≡ false))

module _ {L : Type 0} where
  -- The step from `s` to `s'` that `u` can make as well.
  pub record Follows (base : Program Shared L) (i : ℕ) (held : Bool) (l l' : L) (s s' u : Shared)
      : Type 0 where
    pub state : Shared
    pub moves : base i u l ≡ some (state, l')
    pub alike : Alike s' state
    pub counters : (j : ℕ) → (s'.counter j ≡ s.counter j) × (state.counter j ≡ u.counter j)
    pub lock_step : LockStep held s s' u state

  -- What the refinement asks of the program without the locks.
  pub record Laws (base : Program Shared L) (crosses : L → Option (ℕ × L)) (holds : L → Bool)
      : Type 0 where
    pub stores :
        (i : ℕ) (s : Shared) (l : L) (cell : ℕ) (next : L)
        → crosses l ≡ some (cell, next)
        → base i s l
          ≡ some (
            record s {
              number = update s.number cell 0;
              counter = update s.counter i (add32 (s.counter i) 1);
            },
            next,
          )
    pub follows :
        (i : ℕ) (l l' : L) (s s' u : Shared)
        → crosses l ≡ none
        → Alike s u
        → (s.lock ≡ false → u.lock ≡ false)
        → base i s l ≡ some (s', l')
        → Follows base i (holds l) l l' s s' u

  -- The place without the locks: a crossing is done there when the cell is written here.
  abbrev pub place : Pc L → L
  place (plain l) = l
  place (locking l) = l
  place (storing l) = l
  place (releasing next) = next

  abbrev pub works : Pc L → Bool
  works (storing l) = true
  works (releasing next) = true
  works _ = false

  -- the counter of the thread when its round has ended
  abbrev pub tally : Pc L → ℕ → ℕ
  tally (releasing next) n = add32 n 1
  tally _ n = n

  module _ (crosses : L → Option (ℕ × L)) where
    abbrev pub Inside : Pc L → Type 0
    Inside (locking l) = crosses l ≢ none
    Inside (storing l) = crosses l ≢ none
    Inside _ = Unit

    -- A configuration `c` with the locks, and `a` without.
    pub record Simulates (c : Conf Shared (Pc L)) (a : Conf Shared L) : Type 0 where
      pub places : (j : ℕ) → a.locals j ≡ place (c.locals j)
      pub alike : Alike c.shared a.shared
      pub counter : (j : ℕ) → a.shared.counter j ≡ tally (c.locals j) (c.shared.counter j)
      pub free : c.shared.lock ≡ false → a.shared.lock ≡ false
      pub busy :
          (j : ℕ) → works (c.locals j) ≡ true → (c.shared.lock ≡ true) × (a.shared.lock ≡ false)
      pub one : (j k : ℕ) → works (c.locals j) ≡ true → works (c.locals k) ≡ true → j ≡ k
      pub inside : (j : ℕ) → Inside (c.locals j)

  module _ (base : Program Shared L) (crosses : L → Option (ℕ × L)) (holds : L → Bool)
      (laws : Laws base crosses holds) {c : Conf Shared (Pc L)} {a : Conf Shared L}
      (sim : Simulates crosses c a)
      (safe : (j : ℕ) → a.shared.lock ≡ false → holds (a.locals j) ≡ false) (i : ℕ) where
    open sim use {places, alike, counter, free, busy, one, inside}

    pub locking-Simulates :
        (l : L) (s : Shared) (l' : Pc L)
        → c.locals i ≡ locking l
        → step base crosses i c.shared (locking l) ≡ some (s, l')
        → Simulates crosses (record { shared = s; locals = update c.locals i l' }) a
    unfolding step
    locking-Simulates l s l' e h = record {
      places = λ j. ground (arith, places j, places i);
      alike = ground (arith, alike);
      counter = λ j. ground (arith, counter j, counter i);
      free = λ f. ground (arith, free);
      busy = λ j w. ground (arith, free, busy j, busy i);
      one = λ j k w v. ground (arith, busy j, busy k);
      inside = λ j. ground (arith, inside j, inside i);
    }

    pub releasing-Simulates :
        (l : L) (s : Shared) (l' : Pc L)
        → c.locals i ≡ releasing l
        → step base crosses i c.shared (releasing l) ≡ some (s, l')
        → Simulates crosses (record { shared = s; locals = update c.locals i l' }) a
    unfolding step
    releasing-Simulates l s l' e h = record {
      places = λ j. ground (arith, places j, places i);
      alike = ground (arith, alike);
      counter = λ j. ground (arith, counter j, counter i);
      free = λ f. ground (arith, busy i);
      busy = λ j w. ground (arith, busy j, busy i, one i j);
      one = λ j k w v. ground (arith, one j k);
      inside = λ j. ground (arith, inside j, inside i);
    }

    pub testing-Simulates :
        (l : L) (cell : ℕ) (next : L) (s : Shared) (l' : Pc L)
        → c.locals i ≡ plain l
        → crosses l ≡ some (cell, next)
        → step base crosses i c.shared (plain l) ≡ some (s, l')
        → Simulates crosses (record { shared = s; locals = update c.locals i l' }) a
    unfolding step
    testing-Simulates l cell next s l' e q h = record {
      places = λ j. ground (arith, places j, places i);
      alike = ground (arith, alike);
      counter = λ j. ground (arith, counter j, counter i);
      free = λ f. ground (arith, free);
      busy = λ j w. ground (arith, busy j, busy i);
      one = λ j k w v. ground (arith, one j k);
      inside = λ j. ground (arith, inside j, inside i);
    }

    pub storing-Simulates :
        (l : L) (cell : ℕ) (next : L) (s : Shared) (l' : Pc L)
        → c.locals i ≡ storing l
        → crosses l ≡ some (cell, next)
        → step base crosses i c.shared (storing l) ≡ some (s, l')
        → Simulates crosses
            (record { shared = s; locals = update c.locals i l' })
            (record {
              shared = record a.shared {
                number = update a.shared.number cell 0;
                counter = update a.shared.counter i (add32 (a.shared.counter i) 1);
              };
              locals = update a.locals i next;
            })
    unfolding step
    storing-Simulates l cell next s l' e q h = record {
      places = λ j. ground (arith, places j, places i);
      alike = record {
        number = λ k. ground (arith, alike.number k);
        cur = ground (arith, alike.cur);
        done = ground (arith, alike.done);
        arrived = ground (arith, alike.arrived);
        started = ground (arith, alike.started);
        ended = ground (arith, alike.ended);
      };
      counter = λ j. ground (arith, counter j, counter i);
      free = λ f. ground (arith, free, busy i);
      busy = λ j w. ground (arith, busy j, busy i);
      one = λ j k w v. ground (arith, one j k, one i j, one i k);
      inside = λ j. ground (arith, inside j, inside i);
    }

    -- At a place that is no crossing.
    module _ (l l₁ : L) (s : Shared) (here : c.locals i ≡ plain l)
        (f : Follows base i (holds l) l l₁ c.shared s a.shared) where
      plain-busy :
          (j : ℕ) → works (c.locals j) ≡ true → j ≢ i → (s.lock ≡ true) × (f.state.lock ≡ false)
      plain-busy j w other = ground (arith, busy j, places i, safe i, f.lock_step)

      pub plain-Simulates :
          Simulates crosses
            (record { shared = s; locals = update c.locals i (plain l₁) })
            (record { shared = f.state; locals = update a.locals i l₁ })
      plain-Simulates = record {
        places = λ j. ground (arith, places j, places i);
        alike = f.alike;
        counter = λ j. ground (arith, counter j, counter i, f.counters j);
        free = λ u. ground (arith, free, f.lock_step);
        busy = λ j w. ground (arith, plain-busy j);
        one = λ j k w v. ground (arith, one j k);
        inside = λ j. ground (arith, inside j, inside i);
      }
