-- ===== src/Servers/Poll/Table.antt =====
-- What `run_poll` of studio17_poll.c keeps on every branch of its rounds.
use c_operating_system.Prelude.{ℕ, suc, ◌+◌, ◌≤◌, ◌<◌, ◌≡◌, Option, none, some, length}
use c_operating_system.Servers.Poll.{Server, Outcome, running, left, returned, failed, overrun}
use c_operating_system.Servers.Calls.{same, accepts, closes, held_slot}
use c_operating_system.Servers.Poll.Slots.{held, extent, fd_at}

-- A descriptor is in the table as often as it was accepted and not closed, but for one that found no
-- free entry: `lost`.
abbrev pub Bound : Option ℕ → ℕ → Type 0
Bound none boundry = boundry < 12
Bound (some d) boundry = boundry ≡ 12

pub record Table (lfd : ℕ) (lost : Option ℕ) (s : Server) : Type 0 where
  pub entries : length s.clients ≡ 12
  pub listening : fd_at s.clients 0 ≡ some lfd
  pub stdin : fd_at s.clients 1 ≡ some 0
  pub bound : Bound lost s.boundry
  pub covered : extent s.clients ≤ suc s.boundry
  pub conserved :
      (d : ℕ)
      → accepts d s.calls + same d lfd + same d 0
        ≡ closes d s.calls + held d s.clients + held_slot d lost

-- How the rounds end: they pass `poll` more entries than the array has only after a loss.
abbrev pub Sound : ℕ → Outcome → Type 0
Sound lfd (running s) = (lost : Option ℕ) × Table lfd lost s
Sound lfd (left s) = (lost : Option ℕ) × Table lfd lost s
Sound lfd (returned s) = (lost : Option ℕ) × Table lfd lost s
Sound lfd (failed s) = (lost : Option ℕ) × Table lfd lost s
Sound lfd (overrun s) = (d : ℕ) × Table lfd (some d) s
