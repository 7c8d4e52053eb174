-- ===== src/Servers/Calls.antt =====
-- The servers of studio17_io_event_handling: counting the descriptors in what they did.
use c_operating_system.Prelude.{ℕ, ◌+◌, Option, none, some, List, [], ◌∷◌, ◌==◌, if◌then◌else◌}
use c_operating_system.Servers.Wire.{Call, accepted, greeted, shown, echoed, closed}

-- How often `d` has been accepted and closed, and whether an entry has it.
abbrev pub same : ℕ → ℕ → ℕ
same d e = if d == e then 1 else 0

abbrev pub accepts : ℕ → List Call → ℕ
accepts d [] = 0
accepts d (accepted cfd ∷ calls) = same d cfd + accepts d calls
accepts d (greeted cfd ∷ calls) = accepts d calls
accepts d (shown buf ∷ calls) = accepts d calls
accepts d (echoed fd buf ∷ calls) = accepts d calls
accepts d (closed fd ∷ calls) = accepts d calls

abbrev pub closes : ℕ → List Call → ℕ
closes d [] = 0
closes d (accepted cfd ∷ calls) = closes d calls
closes d (greeted cfd ∷ calls) = closes d calls
closes d (shown buf ∷ calls) = closes d calls
closes d (echoed fd buf ∷ calls) = closes d calls
closes d (closed fd ∷ calls) = same d fd + closes d calls

abbrev pub held_slot : ℕ → Option ℕ → ℕ
held_slot d none = 0
held_slot d (some e) = same d e
