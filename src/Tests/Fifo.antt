-- ===== src/Tests/Fifo.antt =====
-- fifo_w.c and fifo_r.c with lines of one letter.
use c_operating_system.Prelude.{ℕ, ◌+◌, ◌≡◌, ◌⊎◌, refl, true, List, [], ◌∷◌, arith}
use c_operating_system.Threads.{run, turn}
use c_operating_system.Fifo.{start, step}
use c_operating_system.Fifo.Delivery.{Delivered, can_move, fifo_delivers, fifo_moves}

-- A letter, the end of the line and the NUL.
abbrev letters : ℕ → List (List ℕ) → List ℕ
letters i past = (65 + i) ∷ 10 ∷ 0 ∷ []

-- fifo_w.c opens the fifo, fifo_r.c opens it, the message goes over, and the answer comes back.
abbrev talk : List ℕ
talk = 0 ∷ 1 ∷ 0 ∷ 0 ∷ 1 ∷ 0 ∷ 0 ∷ 1 ∷ 1 ∷ 1 ∷ 0 ∷ 0 ∷ []

talk_heard :
    ((run 2 (step letters) talk start).shared.heard 1 ≡ (65 ∷ 10 ∷ 0 ∷ []) ∷ [])
    × ((run 2 (step letters) talk start).shared.heard 0 ≡ (66 ∷ 10 ∷ 0 ∷ []) ∷ [])
unfolding run turn step
talk_heard = (refl, refl)

fifo_delivers_example :
    Delivered (run 2 (step letters) talk start).shared 0 1
    × Delivered (run 2 (step letters) talk start).shared 1 0
fifo_delivers_example = fifo_delivers letters (λ i past. omega arith) (λ i past. omega arith) talk

fifo_moves_example :
    (can_move (
        step letters 0
          (run 2 (step letters) talk start).shared
          ((run 2 (step letters) talk start).locals 0))
      ≡ true)
    ⊎ (can_move (
          step letters 1
            (run 2 (step letters) talk start).shared
            ((run 2 (step letters) talk start).locals 1))
        ≡ true)
fifo_moves_example = fifo_moves letters (λ i past. omega arith) (λ i past. omega arith) talk
