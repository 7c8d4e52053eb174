-- ===== src/Matrix/Signals/Runs.antt =====
-- signal.c: the product and the count, whenever the signals come.
use c_operating_system.Prelude.{ℕ, ◌+◌, ◌%◌, ◌^◌, ◌≤◌, ◌≡◌, refl, ap, ◌∙◌, List, [], ◌∷◌, arith}
use c_operating_system.Matrix.{multiply}
use c_operating_system.Matrix.Signals.{
  Place, at_print, Process, Event, proceed, sigint, happens, happen, start, turns, signals,
}
use c_operating_system.Matrix.Signals.Steps.{row_steps, proceeds, main_runs}

module _ {D : Type 0} (plus times : D → D → D) (n : ℕ) (A B : ℕ → D) where
  -- The handler touches nothing that the loops use.
  happens-proceeds :
      (events : List Event) (p : Process D)
      → ◌≡◌ {A = (ℕ → D) × Place D}
          ((happens plus times n A B events p).C, (happens plus times n A B events p).place)
          (proceeds plus times n A B (turns events) (p.C, p.place))
  unfolding happens happen proceeds
  happens-proceeds [] p = refl
  happens-proceeds (proceed ∷ events) p =
      happens-proceeds events (happen plus times n A B proceed p)
  happens-proceeds (sigint ∷ events) p = happens-proceeds events (happen plus times n A B sigint p)

  happens-count :
      (events : List Event) (p : Process D) (x : ℕ)
      → p.i ≡ x % 2 ^ 32
      → (happens plus times n A B events p).i ≡ (x + signals events) % 2 ^ 32
  unfolding happens happen
  happens-count [] p x e = omega (arith, e)
  happens-count (proceed ∷ events) p x e =
      happens-count events (happen plus times n A B proceed p) x e
  happens-count (sigint ∷ events) p x e =
      happens-count events (happen plus times n A B sigint p) (x + 1) (omega (arith, e))
      ∙ ap (λ (v : ℕ). v % 2 ^ 32) (omega arith)

  -- Whenever the signals come, once `main` has made as many steps as its loops take: it is at its last
  -- message, C has the product, as without signals, and the counter that it prints is the number of
  -- signals so far, modulo 2^32.
  pub signals_counted :
      (events : List Event) (C : ℕ → D)
      → row_steps n n ≤ turns events
      → ((happens plus times n A B events (start C)).place ≡ at_print)
        × ((happens plus times n A B events (start C)).C ≡ multiply plus times n A B C)
        × ((happens plus times n A B events (start C)).i ≡ signals events % 2 ^ 32)
  signals_counted events C le =
      let e = happens-proceeds events (start C) ∙ main_runs plus times n A B (turns events) C le in
      (ap (λ q. q.1) e, ap (λ q. q.0) e, omega (arith, happens-count events (start C) 0 refl))
