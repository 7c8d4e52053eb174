-- ===== src/Matrix/Signals.antt =====
-- studio15_linux_signals/signal.c: dense_mm.c with a handler of SIGINT that counts. The handler runs
-- between any two accesses of the three loops, and to its end.
pub mod Steps
pub mod Runs
use c_operating_system.Prelude.{ℕ, zero, suc, ◌+◌, List, [], ◌∷◌, ltb, if◌then◌else◌}
use c_operating_system.Prelude.Word.{add32}
use c_operating_system.Threads.{update}
use c_operating_system.Matrix.{entry, sum_at}

-- Where `main` stands in its loops; `+=` reads the entry of C and then writes it.
pub data Place (D : Type 0) : Type 0 where
  at_row : (row : ℕ) → Place D
  at_col : (row col : ℕ) → Place D
  at_index : (row col index : ℕ) → Place D
  at_store : (row col index : ℕ) (sum : D) → Place D
  at_print : Place D

pub record Process (D : Type 0) : Type 0 where
  pub C : ℕ → D
  pub i : ℕ
  pub place : Place D

pub data Event : Type 0 where
  proceed : Event
  sigint : Event

module _ {D : Type 0} (plus times : D → D → D) (matrix_size : ℕ) (A B : ℕ → D) where
  unfoldable pub advance : (ℕ → D) → Place D → (ℕ → D) × Place D
  advance C (at_row row) = (C, if ltb row matrix_size then at_col row 0 else at_print)
  advance C (at_col row col) =
      (C, if ltb col matrix_size then at_index row col 0 else at_row (suc row))
  advance C (at_index row col index) = (
    C,
    if ltb index matrix_size
        then at_store row col index (sum_at plus times matrix_size A B row col index C)
        else at_col row (suc col),
  )
  advance C (at_store row col index sum) =
      (update C (entry matrix_size row col) sum, at_index row col (suc index))
  advance C at_print = (C, at_print)

  -- A step of `main`, or `sigint_handler`.
  unfoldable pub happen : Event → Process D → Process D
  unfolding advance
  happen proceed p = let next = advance p.C p.place in record p { C = next.0; place = next.1 }
  happen sigint p = record p { i = add32 p.i 1 }

  unfoldable pub happens : List Event → Process D → Process D
  happens [] p = p
  happens (e ∷ events) p = happens events (happen e p)

abbrev pub start : {D : Type 0} → (ℕ → D) → Process D
start C = record { C = C; i = 0; place = at_row 0 }

-- How many of the events are steps of `main`, and how many are signals.
abbrev pub turns : List Event → ℕ
turns [] = 0
turns (proceed ∷ events) = suc (turns events)
turns (sigint ∷ events) = turns events

abbrev pub signals : List Event → ℕ
signals [] = 0
signals (proceed ∷ events) = signals events
signals (sigint ∷ events) = suc (signals events)
