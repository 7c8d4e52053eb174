-- ===== src/Tests/Sockets.antt =====
-- socket_client.c with a letter, and then the digit 5, for socket_server.c.
use c_operating_system.Prelude.{ℕ, ◌≡◌, refl, Bool, true, [], ◌∷◌, List, ◌==◌, if◌then◌else◌}
use c_operating_system.Threads.{run}
use c_operating_system.Sockets.{number, scan, step, start}
use c_operating_system.Sockets.Silent.{socket_silent}

abbrev always : ℕ → Bool
always round = true

abbrev typed : ℕ → ℕ
typed round = if round == 0 then 97 else 53

abbrev both : List ℕ
both = 0 ∷ 1 ∷ 0 ∷ 1 ∷ 1 ∷ 0 ∷ 0 ∷ 0 ∷ 1 ∷ 0 ∷ []

-- With a byte after it, or the end, the number would be printed.
scan_whole : scan (32 ∷ 45 ∷ 52 ∷ 50 ∷ 10 ∷ []) ≡ number true 42
scan_whole = refl

socket_silent_example : (run 2 (step always typed) both start).shared.printed ≡ []
socket_silent_example = socket_silent always typed both
