-- ===== src/Threads/Ending.antt =====
-- The rule for ends: where a turn of some thread always leaves less to do, as many turns as there is to do
-- are enough.
use mathlib.Core.Path.{subst}
use c_operating_system.Prelude.{
  ℕ, zero, suc, ◌≤◌, ◌<◌, ◌≡◌, ◌⊎◌, refl, sym, some, List, [], ◌∷◌, ◌++◌, inl, inr, length, arith,
}
use c_operating_system.Threads.{Conf, Program, update, turn, run}
use c_operating_system.Threads.Invariant.{run-append, turn_lem}

module _ {S L : Type 0} (n : ℕ) (step : Program S L) (P Over : Conf S L → Type 0)
    (weight : Conf S L → ℕ) where
  -- A turn that keeps `P` and leaves less to do.
  pub TurnsFrom : Conf S L → Type 0
  TurnsFrom c = (i : ℕ) × P (turn n step i c) × (weight (turn n step i c) < weight c)

  pub step_turns :
      (i : ℕ) (c : Conf S L) (s' : S) (l' : L)
      → i < n
      → step i c.shared (c.locals i) ≡ some (s', l')
      → P (record { shared = s'; locals = update c.locals i l' })
      → weight (record { shared = s'; locals = update c.locals i l' }) < weight c
      → TurnsFrom c
  unfolding TurnsFrom
  step_turns i c s' l' lt e k less =
      let next : turn n step i c ≡ record { shared = s'; locals = update c.locals i l' } =
        turn_lem n step c i (c.locals i) s' l' lt refl e in
      (i, subst P (sym next) k, subst (λ d. weight d < weight c) (sym next) less)

  run-Over :
      ((c : Conf S L) → P c → Over c ⊎ TurnsFrom c)
      → (fuel : ℕ) (c : Conf S L) → P c
      → weight c ≤ fuel
      → (more : List ℕ) × (length more ≤ fuel) × Over (run n step more c)
  unfolding TurnsFrom run
  run-Over turns zero c k le = elim (turns c k) [
    | inl e ↦ ([], omega arith, e)
    | inr (i, keep, less) ↦ absurd (omega (arith, le, less))
  ]
  run-Over turns (suc fuel) c k le = elim (turns c k) [
    | inl e ↦ ([], omega arith, e)
    | inr (i, keep, less) ↦
        let (more, short, e) =
          run-Over turns fuel (turn n step i c) keep (omega (arith, le, less)) in
        (i ∷ more, omega (arith, short), e)
  ]

  -- The same after a schedule.
  pub schedule-Over :
      ((c : Conf S L) → P c → Over c ⊎ TurnsFrom c)
      → (bound : ℕ) (schedule : List ℕ) (c : Conf S L) → P (run n step schedule c)
      → weight (run n step schedule c) ≤ bound
      → (more : List ℕ) × (length more ≤ bound) × Over (run n step (schedule ++ more) c)
  schedule-Over turns bound schedule c k le =
      let (more, short, e) = run-Over turns bound (run n step schedule c) k le in
      (more, short, subst Over (sym (run-append n step schedule more c)) e)
