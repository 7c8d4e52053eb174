-- ===== src/Servers/Epoll.antt =====
-- studio17_io_event_handling/studio17_epoll.c: the server with `epoll`. What the calls of the system
-- answer is given for each event. `strncmp` is given the number 'quit' for a pointer: its parameter is
-- what the comparison with the text at that address answers, or `none` when the address is not mapped.
-- Of `epoll_ctl` the model has that it adds no descriptor twice and removes none that was not added.
pub mod Events
use c_operating_system.Prelude.{
  ℕ, Bool, true, false, ◌&&◌, not, Option, none, some, List, [], ◌∷◌, ◌==◌, if◌then◌else◌,
}
use c_operating_system.Threads.{update}
use c_operating_system.Servers.Wire.{
  Call, accepted, shown, echoed, closed, Read, refused, received, overlay,
}

-- The descriptors in the set of `epollfd`.
pub record Server : Type 0 where
  pub watched : ℕ → Bool
  pub calls : List Call

-- An entry of `clients`, with the answers of the calls that it leads to. `has_ctl` is whether
-- `epoll_ctl` has memory, and `buf` what the buffer holds before `read` fills it.
pub record Event : Type 0 where
  pub fd : ℕ
  pub accept : Option ℕ
  pub has_ctl : Bool
  pub read : Read
  pub buf : List ℕ

pub data Outcome : Type 0 where
  running : (s : Server) → Outcome
  returned : (s : Server) → Outcome
  exited : (s : Server) → Outcome  -- `exit(EXIT_FAILURE)`
  crashed : (s : Server) → Outcome

abbrev pub onward : (Server → Outcome) → Outcome → Outcome
onward go (running s) = go s
onward go (returned s) = returned s
onward go (exited s) = exited s
onward go (crashed s) = crashed s

-- `EPOLL_CTL_ADD` and `EPOLL_CTL_DEL`
abbrev pub add : Bool → ℕ → Server → (Server → Outcome) → Outcome
add has_ctl fd s go =
    if has_ctl && not (s.watched fd)
    then go (record s { watched = update s.watched fd true })
    else exited s

abbrev pub delete : Bool → ℕ → Server → (Server → Outcome) → Outcome
delete has_ctl fd s go =
    if has_ctl && s.watched fd
    then go (record s { watched = update s.watched fd false })
    else exited s

abbrev pub admit : Bool → Option ℕ → Server → Outcome
admit has_ctl none s = returned s
admit has_ctl (some cfd) s = add has_ctl cfd (record s { calls = accepted cfd ∷ s.calls }) running

-- What `if (strncmp('quit', buf, 4) == 0)` leads to.
abbrev pub compared : Option (List ℕ → Bool) → List ℕ → Server → Outcome → Outcome → Outcome
compared none buf s quit going = crashed s
compared (some equals) buf s quit going = if equals buf then quit else going

abbrev pub command : Option (List ℕ → Bool) → List ℕ → Read → Server → Outcome
command strncmp old refused s = exited s
command strncmp old (received bytes) s =
    let buf = overlay bytes old in
    let after : Server = record s { calls = shown buf ∷ s.calls } in
    compared strncmp buf after (returned after) (running after)

abbrev pub disconnect : Bool → ℕ → Server → Outcome
disconnect has_ctl fd s =
    delete has_ctl fd s (λ after. running (record after { calls = closed fd ∷ after.calls }))

abbrev pub answer : Option (List ℕ → Bool) → Bool → ℕ → List ℕ → Read → Server → Outcome
answer strncmp has_ctl fd old refused s = exited s
answer strncmp has_ctl fd old (received []) s = disconnect has_ctl fd s
answer strncmp has_ctl fd old (received (b ∷ bytes)) s =
    let buf = overlay (b ∷ bytes) old in
    compared strncmp buf s (disconnect has_ctl fd s)
      (running (record s { calls = echoed fd buf ∷ shown buf ∷ s.calls }))

-- A round of the loop over the events.
unfoldable pub handle : Option (List ℕ → Bool) → ℕ → Event → Server → Outcome
handle strncmp lfd e s =
    if e.fd == lfd
    then admit e.has_ctl e.accept s
    else if e.fd == 0
    then command strncmp e.buf e.read s
    else answer strncmp e.has_ctl e.fd e.buf e.read s

unfoldable pub handle_all : Option (List ℕ → Bool) → ℕ → List Event → Server → Outcome
handle_all strncmp lfd [] s = running s
handle_all strncmp lfd (e ∷ events) s =
    onward (handle_all strncmp lfd events) (handle strncmp lfd e s)

-- A round of the `while (1)`: `epoll_wait` fails, or fills `clients`.
unfoldable pub turn : Option (List ℕ → Bool) → ℕ → Option (List Event) → Server → Outcome
turn strncmp lfd none s = exited s
turn strncmp lfd (some events) s = handle_all strncmp lfd events s

unfoldable pub rounds : Option (List ℕ → Bool) → ℕ → List (Option (List Event)) → Server → Outcome
rounds strncmp lfd [] s = running s
rounds strncmp lfd (nready ∷ answers) s =
    onward (rounds strncmp lfd answers) (turn strncmp lfd nready s)

abbrev pub created : Bool → Bool → Bool → ℕ → Server → (Server → Outcome) → Outcome
created epollfd add_lfd add_stdin lfd s go =
    if epollfd then add add_lfd lfd s (λ t. add add_stdin 0 t go) else exited s

-- The calls before the loop, from which of them succeed, and the rounds.
unfoldable pub run_epoll :
    Option (List ℕ → Bool) → Bool → Bool → Bool → ℕ → List (Option (List Event)) → Outcome
run_epoll strncmp epollfd add_lfd add_stdin lfd answers =
    created epollfd add_lfd add_stdin lfd (record { watched = λ fd. false; calls = [] })
      (rounds strncmp lfd answers)
