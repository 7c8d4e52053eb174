-- ===== src/Servers/Poll/Full.antt =====
-- A connection to studio17_poll.c when each entry of the table is in use.
use c_operating_system.Prelude.{
  ℕ, zero, suc, ◌+◌, ◌<◌, ◌≡◌, refl, ◌∙◌, true, some, List, [], ◌∷◌, length, arith,
}
use c_operating_system.Servers.Wire.{accepted, greeted}
use c_operating_system.Servers.Poll.{
  Pollfd, Server, Answers, running, overrun, polled, position, placed, has_event, check_lfd, admit,
  answered, turn,
}
use c_operating_system.Servers.Poll.Slots.{polled-length, placed_full}

polled-position : (r : ℕ → ℕ) (n : ℕ) (cs : List Pollfd) → position (polled r n cs) ≡ position cs
polled-position r zero cs = refl
polled-position r (suc n) [] = refl
polled-position r (suc n) (c ∷ cs) = ground (arith, polled-position (λ i. r (suc i)) n cs)

polled-has_event :
    (r : ℕ → ℕ) (n : ℕ) (cs : List Pollfd)
    → r 0 ≡ 1
    → 0 < length cs
    → has_event (polled r (n + 1) cs) 0 ≡ true
polled-has_event r n [] e h = elim h [ ]
polled-has_event r n (c ∷ cs) e h = ground (arith, e)

-- What a round leaves in which `cfd` finds no entry: the table is as before.
abbrev pub after_loss : ℕ → (ℕ → ℕ) → Server → Server
after_loss cfd revents s = record {
  clients = polled revents (s.boundry + 1) s.clients;
  boundry = length s.clients;
  calls = greeted cfd ∷ accepted cfd ∷ s.calls;
}

admitted :
    (a : Answers) (cfd : ℕ) (s : Server) (cs : List Pollfd)
    → a.nready ≡ some 1
    → a.accept ≡ some cfd
    → has_event cs 0 ≡ true
    → placed cfd cs ≡ cs
    → position cs ≡ length s.clients
    → s.boundry < length s.clients
    → answered a (record s { clients = cs }) a.nready
      ≡ running (record {
        clients = cs;
        boundry = length s.clients;
        calls = greeted cfd ∷ accepted cfd ∷ s.calls;
      })
unfolding check_lfd admit
admitted a cfd s cs h h' e p i small = ground (arith, h, h', e, p, i)

-- In a table with no free entry a new connection is accepted and greeted, and stands in no entry;
-- `boundry` is then the length of the array, and the next call of `poll` goes beyond the array. (The
-- listening socket alone is ready, and `boundry` lies within the array before.)
pub poll_full :
    (a : Answers) (cfd : ℕ) (s : Server)
    → a.nready ≡ some 1
    → a.accept ≡ some cfd
    → a.revents 0 ≡ 1
    → position s.clients ≡ length s.clients
    → s.boundry < length s.clients
    → (turn a s ≡ running (after_loss cfd a.revents s))
      × ((b : Answers) → turn b (after_loss cfd a.revents s) ≡ overrun (after_loss cfd a.revents s))
unfolding turn
poll_full a cfd s h h' e i small =
    let cs = polled a.revents (s.boundry + 1) s.clients in
    let same_length = polled-length a.revents (s.boundry + 1) s.clients in
    let at_end : position cs ≡ length s.clients =
      polled-position a.revents (s.boundry + 1) s.clients ∙ i in
    let unchanged : placed cfd cs ≡ cs = placed_full cfd cs (omega (arith, same_length, at_end)) in
    let event = polled-has_event a.revents s.boundry s.clients e (omega arith) in
    (
      ground (arith, small, admitted a cfd s cs h h' event unchanged at_end small),
      λ b. ground (arith, same_length),
    )
