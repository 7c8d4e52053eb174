-- ===== src/Tests/Signals.antt =====
-- signal.c on matrices of size 1, with signals before, between and after the accesses.
use c_operating_system.Prelude.{
  ℕ, ◌+◌, ◌*◌, ◌%◌, ◌^◌, ◌≡◌, refl, List, [], ◌∷◌, ◌++◌, replicate, arith,
}
use c_operating_system.Matrix.{multiply, entry}
use c_operating_system.Matrix.Signals.{
  at_print, Event, proceed, sigint, start, happens, happen, advance, signals,
}
use c_operating_system.Matrix.Signals.Runs.{signals_counted}

abbrev plus : ℕ → ℕ → ℕ
plus a b = a + b

abbrev times : ℕ → ℕ → ℕ
times a b = a * b

abbrev A : ℕ → ℕ
A i = 3

abbrev B : ℕ → ℕ
B i = 5

abbrev C : ℕ → ℕ
C i = 0

abbrev interrupted : List Event
interrupted = (sigint ∷ []) ++ replicate 3 proceed ++ (sigint ∷ sigint ∷ []) ++ replicate 5 proceed

interrupted_product : (happens plus times 1 A B interrupted (start C)).C 0 ≡ 15
unfolding happens happen advance entry
interrupted_product = refl

signals_counted_example :
    ((happens plus times 1 A B interrupted (start C)).place ≡ at_print)
    × ((happens plus times 1 A B interrupted (start C)).C ≡ multiply plus times 1 A B C)
    × ((happens plus times 1 A B interrupted (start C)).i ≡ signals interrupted % 2 ^ 32)
signals_counted_example = signals_counted plus times 1 A B interrupted C (omega arith)
