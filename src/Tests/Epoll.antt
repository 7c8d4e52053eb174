-- ===== src/Tests/Epoll.antt =====
-- studio17_epoll.c with concrete connections.
use c_operating_system.Prelude.{
  ℕ, ◌+◌, ◌≡◌, refl, true, none, some, List, [], ◌∷◌, Option, if◌then◌else◌,
}
use c_operating_system.Servers.Wire.{
  Call, accepted, greeted, shown, echoed, closed, refused, received, is_quit,
}
use c_operating_system.Servers.Calls.{same, accepts, closes}
use c_operating_system.Servers.Epoll.{
  Server, Outcome, running, returned, exited, crashed, Event, run_epoll, rounds, turn, handle_all,
  handle,
}
use c_operating_system.Servers.Epoll.Events.{epoll_watches}

-- How many messages went to clients.
abbrev echoes : List Call → ℕ
echoes [] = 0
echoes (accepted cfd ∷ calls) = echoes calls
echoes (greeted cfd ∷ calls) = echoes calls
echoes (shown buf ∷ calls) = echoes calls
echoes (echoed fd buf ∷ calls) = 1 + echoes calls
echoes (closed fd ∷ calls) = echoes calls

abbrev server : Outcome → Server
server (running s) = s
server (returned s) = s
server (exited s) = s
server (crashed s) = s

-- A connection on the listening socket 4, and bytes from a client.
abbrev connects : ℕ → Event
connects cfd = record { fd = 4; accept = some cfd; has_ctl = true; read = refused; buf = [] }

abbrev sends : ℕ → List ℕ → Event
sends fd bytes = record {
  fd = fd;
  accept = none;
  has_ctl = true;
  read = received bytes;
  buf = 0 ∷ 0 ∷ 0 ∷ 0 ∷ [];
}

-- Two clients; one sends a byte, the other leaves.
abbrev visit : List (Option (List Event))
visit =
    some (connects 5 ∷ [])
    ∷ some (connects 6 ∷ [])
    ∷ some (sends 5 (65 ∷ []) ∷ sends 6 [] ∷ [])
    ∷ []

visit_answered : echoes (server (run_epoll (some is_quit) true true true 4 visit)).calls ≡ 1
unfolding run_epoll rounds turn handle_all handle
visit_answered = refl

epoll_watches_example :
    (if (server (run_epoll (some is_quit) true true true 4 visit)).watched 6 then 1 else 0)
      + closes 6 (server (run_epoll (some is_quit) true true true 4 visit)).calls
    ≡ same 6 4
      + same 6 0
      + accepts 6 (server (run_epoll (some is_quit) true true true 4 visit)).calls
unfolding run_epoll rounds turn handle_all handle
epoll_watches_example =
    epoll_watches (some is_quit) 4 6 true true true visit
      (server (run_epoll (some is_quit) true true true 4 visit)) refl
