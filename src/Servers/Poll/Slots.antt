-- ===== src/Servers/Poll/Slots.antt =====
-- The descriptors of studio17_poll.c: what each step of a round does to those in the table, and to
-- those that were accepted and closed.
use c_operating_system.Prelude.{
  ℕ, zero, suc, ◌+◌, ◌≤◌, ◌<◌, ◌≡◌, refl, Option, none, some, List, [], ◌∷◌, length, ◌==◌,
  if◌then◌else◌, arith,
}
use c_operating_system.Servers.Wire.{is_free}
use c_operating_system.Servers.Calls.{same, held_slot}
use c_operating_system.Servers.Poll.{Pollfd, polled, position, placed}

-- How often `d` stands in the table.
abbrev pub held : ℕ → List Pollfd → ℕ
held d [] = 0
held d (c ∷ cs) = held_slot d c.fd + held d cs

-- One more than the index of the last entry in use.
abbrev pub extent : List Pollfd → ℕ
extent [] = 0
extent (c ∷ cs) = let n = extent cs in if n == 0 then if is_free c.fd then 0 else 1 else suc n

abbrev pub fd_at : List Pollfd → ℕ → Option ℕ
fd_at [] i = none
fd_at (c ∷ cs) zero = c.fd
fd_at (c ∷ cs) (suc i) = fd_at cs i

-- Two tables with the descriptors of one are those of the other, in the same places.
pub polled-held : (r : ℕ → ℕ) (n d : ℕ) (cs : List Pollfd) → held d (polled r n cs) ≡ held d cs
polled-held r zero d cs = refl
polled-held r (suc n) d [] = refl
polled-held r (suc n) d (c ∷ cs) = omega (arith, polled-held (λ i. r (suc i)) n d cs)

pub polled-extent : (r : ℕ → ℕ) (n : ℕ) (cs : List Pollfd) → extent (polled r n cs) ≡ extent cs
polled-extent r zero cs = refl
polled-extent r (suc n) [] = refl
polled-extent r (suc n) (c ∷ cs) = rw (polled-extent (λ i. r (suc i)) n cs)

pub polled-length : (r : ℕ → ℕ) (n : ℕ) (cs : List Pollfd) → length (polled r n cs) ≡ length cs
polled-length r zero cs = refl
polled-length r (suc n) [] = refl
polled-length r (suc n) (c ∷ cs) = rw (polled-length (λ i. r (suc i)) n cs)

pub polled-fd_at :
    (r : ℕ → ℕ) (n : ℕ) (cs : List Pollfd) (i : ℕ) → fd_at (polled r n cs) i ≡ fd_at cs i
polled-fd_at r zero cs i = refl
polled-fd_at r (suc n) [] i = refl
polled-fd_at r (suc n) (c ∷ cs) zero = refl
polled-fd_at r (suc n) (c ∷ cs) (suc i) = polled-fd_at (λ i. r (suc i)) n cs i

-- Placing a descriptor.
pub placed-length : (cfd : ℕ) (cs : List Pollfd) → length (placed cfd cs) ≡ length cs
placed-length cfd [] = refl
placed-length cfd (c ∷ cs) = ground (arith, placed-length cfd cs)

pub position-le : (cs : List Pollfd) → position cs ≤ length cs
position-le [] = omega arith
position-le (c ∷ cs) = ground (arith, position-le cs)

pub placed_full : (cfd : ℕ) (cs : List Pollfd) → length cs ≤ position cs → placed cfd cs ≡ cs
placed_full cfd [] h = refl
placed_full cfd (c ∷ cs) h = ground (arith, placed_full cfd cs)

pub placed-held :
    (cfd d : ℕ) (cs : List Pollfd)
    → position cs < length cs
    → held d (placed cfd cs) ≡ same d cfd + held d cs
placed-held cfd d [] h = elim h [ ]
placed-held cfd d (c ∷ cs) h = ground (arith, placed-held cfd d cs)

pub extent-le : (cs : List Pollfd) → extent cs ≤ length cs
extent-le [] = omega arith
extent-le (c ∷ cs) = ground (arith, extent-le cs)

pub placed-extent :
    (cfd : ℕ) (cs : List Pollfd) (n : ℕ)
    → extent cs ≤ n
    → position cs < n
    → extent (placed cfd cs) ≤ n
placed-extent cfd [] n h h' = h
placed-extent cfd (c ∷ cs) zero h h' = ground arith
placed-extent cfd (c ∷ cs) (suc n) h h' = ground (arith, placed-extent cfd cs n)

-- The entries before the position keep their descriptors.
pub placed-fd_at :
    (cfd : ℕ) (cs : List Pollfd) (i fd : ℕ)
    → fd_at cs i ≡ some fd
    → fd_at (placed cfd cs) i ≡ some fd
placed-fd_at cfd [] i fd h = h
placed-fd_at cfd (c ∷ cs) zero fd h = ground arith
placed-fd_at cfd (c ∷ cs) (suc i) fd h = ground (arith, placed-fd_at cfd cs i fd h)
