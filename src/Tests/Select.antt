-- ===== src/Tests/Select.antt =====
-- studio17_select_step3.c with concrete connections.
use c_operating_system.Prelude.{
  ℕ, ◌+◌, ◌≤◌, ◌≡◌, refl, true, false, none, some, List, [], ◌∷◌, ◌==◌, if◌then◌else◌, arith,
}
use c_operating_system.Servers.Wire.{refused, received}
use c_operating_system.Servers.Calls.{same, accepts, closes}
use c_operating_system.Servers.Select.{
  Answers, turn, rounds, serve, check_lfd, admit, check_stdin, check_clients, start,
}
use c_operating_system.Servers.Select.Watched.{bit, held, server}
use c_operating_system.Servers.Select.Lost.{select_watches}

-- A round in which `cfd` connects, with 4 the listening socket.
abbrev connecting : ℕ → Answers
connecting cfd = record {
  nready = some 1;
  tmpset = λ fd. fd == 4;
  accept = some cfd;
  stdin = refused;
  buf = 0 ∷ 0 ∷ 0 ∷ 0 ∷ [];
  read = λ fd. refused;
}

-- A round in which the first client sends "quit" and the second one byte.
abbrev sending : Answers
sending = record {
  nready = some 2;
  tmpset = λ fd. if fd == 5 then true else fd == 6;
  accept = none;
  stdin = refused;
  buf = 0 ∷ 0 ∷ 0 ∷ 0 ∷ [];
  read = λ fd. if fd == 5 then received (113 ∷ 117 ∷ 105 ∷ 116 ∷ []) else received (65 ∷ []);
}

abbrev visit : List Answers
visit = connecting 5 ∷ connecting 6 ∷ sending ∷ []

visit_ends :
    (closes 5 (server (rounds 4 visit (start 4))).calls ≡ 1)
    × ((server (rounds 4 visit (start 4))).reset 5 ≡ false)
    × ((server (rounds 4 visit (start 4))).reset 6 ≡ true)
unfolding rounds turn serve check_lfd admit check_stdin check_clients start
visit_ends = (refl, refl, refl)

select_watches_example :
    (bit ((server (rounds 4 visit (start 4))).reset 6)
        + closes 6 (server (rounds 4 visit (start 4))).calls
      ≡ same 6 4 + same 6 0 + accepts 6 (server (rounds 4 visit (start 4))).calls)
    × (held 6 (server (rounds 4 visit (start 4))).clients + same 6 4 + same 6 0
        ≤ bit ((server (rounds 4 visit (start 4))).reset 6))
unfolding rounds turn serve check_lfd admit check_stdin check_clients start
select_watches_example =
    select_watches 4 6 visit (omega arith) (refl, (refl, (omega arith, omega arith)))
