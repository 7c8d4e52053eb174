-- ===== src/Sieve/Guarded/Refinement.antt =====
-- The programs with a lock at each crossing refine those without: each run of one is a run of the
-- other with the same numbers.
use mathlib.Core.Path.{subst}
use c_operating_system.Prelude.{
  ℕ, ◌<◌, ◌≡◌, inl, inr, refl, sym, Bool, false, Option, none, some, List, [], ◌∷◌, ◌++◌, arith,
  Option-cases,
}
use c_operating_system.Threads.{Conf, Program, update, run}
use c_operating_system.Threads.Invariant.{run-keeps, run-append, turn_lem}
use c_operating_system.Sieve.Eratosthenes.{Shared}
use c_operating_system.Sieve.Guarded.{Pc, plain, locking, storing, releasing, step, lift}
use c_operating_system.Sieve.Guarded.Simulation.{
  Laws, Simulates, locking-Simulates, releasing-Simulates, testing-Simulates, storing-Simulates,
  plain-Simulates,
}

module _ {L : Type 0} where
  lifted :
      (o : Option (Shared × L)) (s : Shared) (l' : Pc L)
      → lift o ≡ some (s, l')
      → (l₁ : L) × (l' ≡ plain l₁) × (o ≡ some (s, l₁))
  lifted none s l' h = absurd (ground (arith, h))
  lifted (some (s₁, l₁)) s l' h = (l₁, ground (arith, h), ground (arith, h))

  module _ (n : ℕ) (base : Program Shared L) (crosses : L → Option (ℕ × L)) (holds : L → Bool)
      (laws : Laws base crosses holds) where
    -- What a turn is without the locks: no turn, or one of the same thread.
    abbrev Matched : Conf Shared (Pc L) → Conf Shared L → Type 0
    Matched c' a = (js : List ℕ) × Simulates crosses c' (run n base js a)

    alone : {c' : Conf Shared (Pc L)} {a : Conf Shared L} → Simulates crosses c' a → Matched c' a
    unfolding run
    alone sim = ([], sim)

    along :
        {c' : Conf Shared (Pc L)} (a : Conf Shared L) (i : ℕ) (l : L) (s : Shared) (l' : L)
        → i < n
        → a.locals i ≡ l
        → base i a.shared l ≡ some (s, l')
        → Simulates crosses c' (record { shared = s; locals = update a.locals i l' })
        → Matched c' a
    unfolding run
    along {c'} a i l s l' lt at moves sim =
        (i ∷ [], subst (Simulates crosses c') (sym (turn_lem n base a i l s l' lt at moves)) sim)

    module _ {c : Conf Shared (Pc L)} {a : Conf Shared L} (sim : Simulates crosses c a)
        (safe : (j : ℕ) → a.shared.lock ≡ false → holds (a.locals j) ≡ false) (i : ℕ)
        (lt : i < n) where
      plain-Matched :
          (l : L) (s : Shared) (l' : Pc L)
          → c.locals i ≡ plain l
          → step base crosses i c.shared (plain l) ≡ some (s, l')
          → crosses l ≡ none
          → Matched (record { shared = s; locals = update c.locals i l' }) a
      unfolding step
      plain-Matched l s l' e h q =
          let lifts : lift (base i c.shared l) ≡ some (s, l') = rw q at h in
          let (l₁, same, moves) = lifted (base i c.shared l) s l' lifts in
          let f = laws.follows i l l₁ c.shared s a.shared q sim.alike sim.free moves in
          along a i l f.state l₁ lt (ground (arith, sim.places i)) f.moves
            (rw same (plain-Simulates base crosses holds laws sim safe i l l₁ s e f))

      step-Matched :
          (l : Pc L)
          → c.locals i ≡ l
          → (s : Shared) (l' : Pc L) → step base crosses i c.shared l ≡ some (s, l')
          → Matched (record { shared = s; locals = update c.locals i l' }) a
      step-Matched (locking l) e s l' h =
          alone (locking-Simulates base crosses holds laws sim safe i l s l' e h)
      step-Matched (releasing l) e s l' h =
          alone (releasing-Simulates base crosses holds laws sim safe i l s l' e h)
      step-Matched (plain l) e s l' h = elim (Option-cases (crosses l)) [
        | inl q ↦ plain-Matched l s l' e h q
        | inr ((cell, next), q) ↦
            alone (testing-Simulates base crosses holds laws sim safe i l cell next s l' e q h)
      ]
      step-Matched (storing l) e s l' h = elim (Option-cases (crosses l)) [
        | inl q ↦ absurd (ground (arith, sim.inside i))
        | inr ((cell, next), q) ↦
            along a i l _ next lt (ground (arith, sim.places i))
              (laws.stores i a.shared l cell next q)
              (storing-Simulates base crosses holds laws sim safe i l cell next s l' e q h)
      ]

    module _ (a₀ : Conf Shared L) (unlocked : a₀.shared.lock ≡ false)
        (safe : (js : List ℕ) (j : ℕ)
          → (run n base js a₀).shared.lock ≡ false
          → holds ((run n base js a₀).locals j) ≡ false) where
      abbrev pub guarded : Conf Shared (Pc L)
      guarded = record { shared = a₀.shared; locals = λ i. plain (a₀.locals i) }

      start-Simulates : Simulates crosses guarded a₀
      start-Simulates = record {
        places = λ j. refl;
        alike = record {
          number = λ k. refl;
          cur = refl;
          done = refl;
          arrived = refl;
          started = refl;
          ended = refl;
        };
        counter = λ j. refl;
        free = λ f. f;
        busy = λ j w. absurd (ground arith);
        one = λ j k w v. absurd (ground arith);
        inside = λ j. tt;
      }

      -- Every schedule of the program with the locks has one of the program without them that ends
      -- alike.
      pub refines :
          (is : List ℕ)
          → (js : List ℕ) × Simulates crosses
              (run n (step base crosses) is guarded)
              (run n base js a₀)
      unfolding run
      refines is =
          run-keeps n (step base crosses) Reached
            (λ i c l lt (js, sim) e s' l' h.
              let (ks, sim') = step-Matched sim (safe js) i lt l e s' l' h in
              (js ++ ks, subst (Simulates crosses _) (sym (run-append n base js ks a₀)) sim'))
            is guarded ([], start-Simulates)
        where
          Reached : Conf Shared (Pc L) → Type 0
          Reached c = (js : List ℕ) × Simulates crosses c (run n base js a₀)
