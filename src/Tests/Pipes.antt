-- ===== src/Tests/Pipes.antt =====
-- pipes.c with two lines of one letter, the second line without its newline.
use c_operating_system.Prelude.{ℕ, ◌+◌, ◌*◌, ◌≤◌, ◌≡◌, refl, List, [], ◌∷◌, ◌++◌, length}
use c_operating_system.Threads.{run, turn}
use c_operating_system.Pipes.{finished, fgets, step, start}
use c_operating_system.Pipes.Printing.{pipe_printed}
use c_operating_system.Pipes.Ending.{pipe_finishes}

abbrev letters : List ℕ
letters = 77 ∷ 10 ∷ 78 ∷ []

-- The parent asks before the child has written, and again for each line and the end of file.
abbrev both : List ℕ
both = 0 ∷ 0 ∷ 1 ∷ 1 ∷ 0 ∷ 0 ∷ 0 ∷ 1 ∷ 0 ∷ 0 ∷ 0 ∷ []

parent_ends : (run 2 (step letters) both start).locals 0 ≡ finished
unfolding run turn step fgets
parent_ends = refl

pipe_printed_example :
    ((run 2 (step letters) both start).shared.printed ≡ letters)
    × ((run 2 (step letters) both start).locals 1 ≡ finished)
pipe_printed_example = pipe_printed letters both parent_ends

pipe_finishes_example :
    (more : List ℕ) × (length more ≤ 2 * length letters + 6)
    × ((run 2 (step letters) ((0 ∷ 0 ∷ 1 ∷ []) ++ more) start).locals 0 ≡ finished)
    × ((run 2 (step letters) ((0 ∷ 0 ∷ 1 ∷ []) ++ more) start).shared.printed ≡ letters)
pipe_finishes_example = pipe_finishes letters (0 ∷ 0 ∷ 1 ∷ [])
