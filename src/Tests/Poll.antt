-- ===== src/Tests/Poll.antt =====
-- studio17_poll.c with concrete connections.
use c_operating_system.Prelude.{
  ℕ, ◌≡◌, refl, none, some, List, [], ◌∷◌, map, ◌==◌, if◌then◌else◌, arith,
}
use c_operating_system.Servers.Wire.{
  Call, accepted, greeted, shown, echoed, closed, refused, received,
}
use c_operating_system.Servers.Poll.{
  Pollfd, Server, Answers, Outcome, running, turn, check_lfd, admit, check_stdin, read_stdin,
  check_clients, rounds, start, serve,
}
use c_operating_system.Servers.Poll.Countdown.{serve_all, serve-serve_all}

abbrev stack : ℕ → ℕ
stack i = 0

abbrev zeros : List ℕ
zeros = 0 ∷ 0 ∷ 0 ∷ 0 ∷ 0 ∷ []

-- A round in which `cfd` connects.
abbrev connecting : ℕ → Answers
connecting cfd = record {
  nready = some 1;
  revents = λ i. if i == 0 then 1 else 0;
  accept = some cfd;
  stdin = refused;
  stdin_buf = zeros;
  read = λ fd. refused;
  buf = λ fd. zeros;
}

-- A round in which the first two clients are ready: the first has sent "quit", the second is gone.
abbrev leaving : Answers
leaving = record {
  nready = some 2;
  revents = λ i. if i == 2 then 1 else if i == 3 then 1 else 0;
  accept = none;
  stdin = refused;
  stdin_buf = zeros;
  read = λ fd. if fd == 5 then received (113 ∷ 117 ∷ 105 ∷ 116 ∷ []) else received [];
  buf = λ fd. zeros;
}

abbrev visit : List Answers
visit = connecting 5 ∷ connecting 6 ∷ leaving ∷ []

visited : Outcome → List Call
visited (running s) = s.calls
visited o = []

visit_calls :
    visited (rounds visit (start 4 stack))
    ≡ closed 6
      ∷ closed 5
      ∷ echoed 5 (113 ∷ 117 ∷ 105 ∷ 116 ∷ 0 ∷ [])
      ∷ shown (113 ∷ 117 ∷ 105 ∷ 116 ∷ 0 ∷ [])
      ∷ greeted 6
      ∷ accepted 6
      ∷ greeted 5
      ∷ accepted 5
      ∷ []
unfolding rounds turn serve start check_lfd admit check_stdin read_stdin check_clients visited
visit_calls = refl

abbrev two_ready : List Pollfd
two_ready =
    record { fd = some 5; revents = 1 }
    ∷ record { fd = none; revents = 1 }
    ∷ record { fd = some 6; revents = 1 }
    ∷ record { fd = some 7; revents = 0 }
    ∷ []

serve-serve_all_example : serve leaving 2 two_ready [] ≡ serve_all leaving two_ready []
serve-serve_all_example = serve-serve_all leaving 2 two_ready [] (omega arith) (omega arith)

-- Each of the twelve entries is in use.
abbrev full : Server
full = record {
  clients =
      map (λ fd. record { fd = some fd; revents = 0 })
        (4 ∷ 0 ∷ 5 ∷ 6 ∷ 7 ∷ 8 ∷ 9 ∷ 10 ∷ 11 ∷ 12 ∷ 13 ∷ 14 ∷ []);
  boundry = 11;
  calls = [];
}
