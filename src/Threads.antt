-- ===== src/Threads.antt =====
-- Threads over shared memory: one atomic step of one thread at a time, in the order of a schedule.
pub mod Total
pub mod Invariant
pub mod Ending
use c_operating_system.Prelude.{
  ℕ, ◌<◌, ◌≡◌, Option, none, some, List, [], ◌∷◌, ltb, ◌==◌, if◌then◌else◌,
}

abbrev pub update : {A : Type 0} → (ℕ → A) → ℕ → A → ℕ → A
update f i a j = if i == j then a else f j

-- Shared memory, and where each thread stands.
pub record Conf (S L : Type 0) : Type 0 where
  pub shared : S
  pub locals : ℕ → L

-- What one thread does next: `none` while it has to wait, and when it has ended.
abbrev pub Program : Type 0 → Type 0 → Type 0
Program S L = ℕ → S → L → Option (S × L)

module _ {S L : Type 0} where
  abbrev pub moved : Conf S L → ℕ → Option (S × L) → Conf S L
  moved c i none = c
  moved c i (some (s, l)) = record { shared = s; locals = update c.locals i l }

  -- The turn of thread `i`, of the threads 0, 1, …, `n` - 1.
  unfoldable pub turn : ℕ → Program S L → ℕ → Conf S L → Conf S L
  turn n step i c = if ltb i n then moved c i (step i c.shared (c.locals i)) else c

  unfoldable pub run : ℕ → Program S L → List ℕ → Conf S L → Conf S L
  run n step [] c = c
  run n step (i ∷ is) c = run n step is (turn n step i c)
