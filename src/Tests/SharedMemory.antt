-- ===== src/Tests/SharedMemory.antt =====
-- leader.c and follower.c with an array of two numbers.
use c_operating_system.Prelude.{ℕ, ◌+◌, ◌≡◌, refl, List, [], ◌∷◌, ◌++◌, replicate, arith}
use c_operating_system.Threads.{run, turn}
use c_operating_system.SharedMemory.{step, start, unlinked}
use c_operating_system.SharedMemory.Handshake.{follower_copies}

abbrev random : ℕ → ℕ
random k = k + 40

abbrev found : ℕ → ℕ
found k = 9

-- The leader resets, the follower announces itself, and each works while the other waits.
abbrev in_order : List ℕ
in_order = 0 ∷ 1 ∷ (replicate 5 0 ++ (replicate 5 1 ++ (0 ∷ [])))

leader_ends : (run 2 (step 2 random) in_order (start found)).locals 0 ≡ unlinked
unfolding run turn step
leader_ends = refl

follower_copies_example : (run 2 (step 2 random) in_order (start found)).shared.copied 1 ≡ 41
unfolding run turn step
follower_copies_example = follower_copies 2 random found in_order 1 refl (omega arith)
