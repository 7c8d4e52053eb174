-- ===== src/Threads/Invariant.antt =====
-- The rule for invariants: what every step of every thread keeps holds after any schedule.
use c_operating_system.Prelude.{
  ℕ, zero, suc, replicate, ◌<◌, ◌≡◌, refl, Option, none, some, List, [], ◌∷◌, ◌++◌, inl, inr, ltb,
  ltb→lt, lt→ltb, Bool-cases,
}
use c_operating_system.Threads.{Conf, Program, update, moved, turn, run}

module _ {κ} {S L : Type 0} (n : ℕ) (step : Program S L) (P : Conf S L → Type κ) where
  -- One step of thread `i`, from its place `l` to `l'`, keeps `P`.
  abbrev pub KeepsAt : ℕ → Type κ
  KeepsAt i =
      (c : Conf S L) (l : L)
      → i < n
      → P c
      → c.locals i ≡ l
      → (s' : S) (l' : L) → step i c.shared l ≡ some (s', l')
      → P (record { shared = s'; locals = update c.locals i l' })

  abbrev pub Keeps : Type κ
  Keeps = (i : ℕ) → KeepsAt i

  moved-keeps :
      (i : ℕ) (c : Conf S L)
      → KeepsAt i
      → i < n
      → P c
      → (r : Option (S × L)) → step i c.shared (c.locals i) ≡ r
      → P (moved c i r)
  moved-keeps i c keep lt p none e = p
  moved-keeps i c keep lt p (some (s', l')) e = keep c (c.locals i) lt p refl s' l' e

  turn-keeps : (i : ℕ) (c : Conf S L) → KeepsAt i → P c → P (turn n step i c)
  unfolding turn
  turn-keeps i c keep p = elim (Bool-cases (ltb i n)) [
    | inl e ↦ rw e (moved-keeps i c keep (ltb→lt i n e) p _ refl)
    | inr e ↦ rw e p
  ]

  pub run-keeps : Keeps → (is : List ℕ) (c : Conf S L) → P c → P (run n step is c)
  unfolding run
  run-keeps keep [] c p = p
  run-keeps keep (i ∷ is) c p = run-keeps keep is (turn n step i c) (turn-keeps i c (keep i) p)

  -- The same where only thread `i` runs.
  pub alone-keeps :
      (i : ℕ) → KeepsAt i → (k : ℕ) (c : Conf S L) → P c → P (run n step (replicate k i) c)
  unfolding run
  alone-keeps i keep zero c p = p
  alone-keeps i keep (suc k) c p = alone-keeps i keep k (turn n step i c) (turn-keeps i c keep p)

module _ {S L : Type 0} (n : ℕ) (step : Program S L) where
  pub run-append :
      (is js : List ℕ) (c : Conf S L) → run n step (is ++ js) c ≡ run n step js (run n step is c)
  unfolding run
  run-append [] js c = refl
  run-append (i ∷ is) js c = run-append is js (turn n step i c)

  -- A turn of a thread that can move, as one step.
  pub turn_lem :
      (c : Conf S L) (i : ℕ) (l : L) (s' : S) (l' : L)
      → i < n
      → c.locals i ≡ l
      → step i c.shared l ≡ some (s', l')
      → turn n step i c ≡ record { shared = s'; locals = update c.locals i l' }
  unfolding turn
  turn_lem c i l s' l' lt e h = rw (lt→ltb i n lt, e, h)
