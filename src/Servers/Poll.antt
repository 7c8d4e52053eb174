-- ===== src/Servers/Poll.antt =====
-- studio17_io_event_handling/studio17_poll.c: a server on one thread with a table of connections.
-- `turn` is a round of the `while (1)` of `run_poll`, from what the calls of the system answer in it.
-- A descriptor of -1 is `none`. Every entry in use asks for POLLIN, so `events` is left out.
pub mod Slots
pub mod Serving
pub mod Table
pub mod Countdown
pub mod Full
use c_operating_system.Prelude.{
  ℕ, zero, suc, ◌+◌, ◌-◌, Bool, true, false, Option, none, some, List, [], ◌∷◌, length, ltb, leb,
  ◌==◌, if◌then◌else◌,
}
use c_operating_system.Servers.Wire.{
  Call, accepted, greeted, shown, echoed, closed, Read, refused, received, backlog, is_quit,
  overlay, is_free,
}

pub record Pollfd : Type 0 where
  pub fd : Option ℕ
  pub revents : ℕ

pub record Server : Type 0 where
  pub clients : List Pollfd
  pub boundry : ℕ
  pub calls : List Call

-- What the calls of one round answer. The two buffers are not initialised: `stdin_buf` and `buf` are
-- what they hold before `read` fills them.
pub record Answers : Type 0 where
  pub nready : Option ℕ  -- of `poll`; -1 is `none`
  pub revents : ℕ → ℕ  -- what `poll` stores
  pub accept : Option ℕ
  pub stdin : Read
  pub stdin_buf : List ℕ
  pub read : ℕ → Read
  pub buf : ℕ → List ℕ

-- How a round ends.
pub data Outcome : Type 0 where
  running : (s : Server) → Outcome
  left : (s : Server) → Outcome  -- `break` after "quit" on stdin
  returned : (s : Server) → Outcome  -- accept has failed
  failed : (s : Server) → Outcome  -- exit(EXIT_FAILURE)
  overrun : (s : Server) → Outcome  -- `poll` is given more entries than the array has

abbrev pub pollin : ℕ
pollin = 1

-- `poll` writes `revents` in the first n entries.
abbrev pub polled : (ℕ → ℕ) → ℕ → List Pollfd → List Pollfd
polled revents zero cs = cs
polled revents (suc n) [] = []
polled revents (suc n) (c ∷ cs) =
    record c { revents = revents 0 } ∷ polled (λ i. revents (suc i)) n cs

-- The loop that finds a position for a new descriptor: where `i` stops, and the table after it.
abbrev pub position : List Pollfd → ℕ
position [] = 0
position (c ∷ cs) = if is_free c.fd then 0 else suc (position cs)

abbrev pub placed : ℕ → List Pollfd → List Pollfd
placed cfd [] = []
placed cfd (c ∷ cs) = if is_free c.fd then record c { fd = some cfd } ∷ cs else c ∷ placed cfd cs

abbrev pub has_event : List Pollfd → ℕ → Bool
has_event [] i = false
has_event (c ∷ cs) zero = c.revents == pollin
has_event (c ∷ cs) (suc i) = has_event cs i

-- One round of the loop over the clients, for an entry that is ready: the entry after it.
pub record Handled : Type 0 where
  pub fd : Option ℕ
  pub calls : List Call
  pub failed : Bool

abbrev pub answer : Answers → ℕ → Read → List Call → Handled
answer a fd refused calls = record { fd = some fd; calls = calls; failed = true }
answer a fd (received []) calls = record { fd = none; calls = closed fd ∷ calls; failed = false }
answer a fd (received (b ∷ bytes)) calls =
    let buf = overlay (b ∷ bytes) (a.buf fd) in
    let sent = echoed fd buf ∷ shown buf ∷ calls in
    if is_quit buf
    then record { fd = none; calls = closed fd ∷ sent; failed = false }
    else record { fd = some fd; calls = sent; failed = false }

abbrev pub respond : Answers → Option ℕ → List Call → Handled
respond a none calls = record { fd = none; calls = calls; failed = false }
respond a (some fd) calls = answer a fd (a.read fd) calls

abbrev pub ready : Pollfd → Bool
ready c = if is_free c.fd then false else c.revents == pollin

pub record Served : Type 0 where
  pub clients : List Pollfd
  pub calls : List Call
  pub failed : Bool

-- The loop over the clients. `nready` is at least 1 in it.
unfoldable pub serve : Answers → ℕ → List Pollfd → List Call → Served
serve a nready [] calls = record { clients = []; calls = calls; failed = false }
serve a nready (c ∷ cs) calls =
    let h = respond a c.fd calls in
    let rest =
      serve a (if ready c then nready - 1 else nready) cs (if ready c then h.calls else calls) in
    if ready c
    then if h.failed
      then record { clients = c ∷ cs; calls = calls; failed = true }
      else if nready == 1
      then record { clients = record c { fd = h.fd } ∷ cs; calls = h.calls; failed = false }
      else record rest { clients = record c { fd = h.fd } ∷ rest.clients }
    else record rest { clients = c ∷ rest.clients }

-- The loop starts at the third entry.
abbrev pub serve_clients : Answers → ℕ → List Pollfd → List Call → Served
serve_clients a nready [] calls = record { clients = []; calls = calls; failed = false }
serve_clients a nready (c ∷ []) calls = record { clients = c ∷ []; calls = calls; failed = false }
serve_clients a nready (c ∷ c' ∷ cs) calls =
    let rest = serve a nready cs calls in record rest { clients = c ∷ c' ∷ rest.clients }

unfoldable pub check_clients : Answers → ℕ → Server → Outcome
check_clients a nready s =
    let r = serve_clients a nready s.clients s.calls in
    let after = record s { clients = r.clients; calls = r.calls } in
    if r.failed then failed after else running after

unfoldable pub read_stdin : Answers → ℕ → Server → Read → Outcome
unfolding check_clients
read_stdin a nready s refused = failed s
read_stdin a nready s (received bytes) =
    let buf = overlay bytes a.stdin_buf in
    let after = record s { calls = shown buf ∷ s.calls } in
    if is_quit buf
    then left after
    else if nready == 1
    then running after
    else check_clients a (nready - 1) after

unfoldable pub check_stdin : Answers → ℕ → Server → Outcome
unfolding check_clients read_stdin
check_stdin a nready s =
    if has_event s.clients 1 then read_stdin a nready s a.stdin else check_clients a nready s

-- A new connection. Without a free entry `i` is the length of the array.
unfoldable pub admit : Answers → ℕ → Server → Option ℕ → Outcome
unfolding check_stdin
admit a nready s none = returned s
admit a nready s (some cfd) =
    let i = position s.clients in
    let after : Server = record {
      clients = placed cfd s.clients;
      boundry = if ltb s.boundry i then i else s.boundry;
      calls = greeted cfd ∷ accepted cfd ∷ s.calls;
    } in
    if nready == 1 then running after else check_stdin a (nready - 1) after

unfoldable pub check_lfd : Answers → ℕ → Server → Outcome
unfolding check_stdin admit
check_lfd a nready s =
    if has_event s.clients 0 then admit a nready s a.accept else check_stdin a nready s

abbrev pub answered : Answers → Server → Option ℕ → Outcome
answered a s none = failed s
answered a s (some zero) = running s
answered a s (some (suc n)) = check_lfd a (suc n) s

unfoldable pub turn : Answers → Server → Outcome
turn a s =
    if leb (length s.clients) s.boundry
    then overrun s
    else answered a (record s { clients = polled a.revents (s.boundry + 1) s.clients }) a.nready

-- The rounds of `run_poll`, until one leaves the loop.
abbrev pub onward : (Server → Outcome) → Outcome → Outcome
onward go (running s) = go s
onward go (left s) = left s
onward go (returned s) = returned s
onward go (failed s) = failed s
onward go (overrun s) = overrun s

unfoldable pub rounds : List Answers → Server → Outcome
rounds [] s = running s
rounds (a ∷ answers) s = onward (rounds answers) (turn a s)

-- The array that `run_poll` sets up on a stack with `stack` in the fields `revents`.
abbrev pub unused : (ℕ → ℕ) → ℕ → ℕ → List Pollfd
unused stack i zero = []
unused stack i (suc n) = record { fd = none; revents = stack i } ∷ unused stack (suc i) n

unfoldable pub start : ℕ → (ℕ → ℕ) → Server
start lfd stack = record {
  clients =
      record { fd = some lfd; revents = stack 0 }
      ∷ record { fd = some 0; revents = stack 1 }
      ∷ unused stack 2 backlog;
  boundry = 1;
  calls = [];
}
