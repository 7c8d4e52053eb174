-- ===== src/Servers/Select.antt =====
-- studio17_io_event_handling/studio17_select_step3.c: the server with `select`. `turn` is a round of the
-- `while (1)` of `main`. A descriptor of -1 is `none`, and so is a count of -1; a set of descriptors is a
-- function.
pub mod Watched
pub mod Lost
use c_operating_system.Prelude.{
  ℕ, zero, suc, ◌-◌, Bool, true, false, ◌&&◌, Option, none, some, List, [], ◌∷◌, replicate, ltb,
  ◌==◌, if◌then◌else◌,
}
use c_operating_system.Threads.{update}
use c_operating_system.Servers.Wire.{
  Call, accepted, greeted, shown, echoed, closed, Read, refused, received, backlog, is_quit,
  overlay, is_free,
}

pub record Server : Type 0 where
  pub clients : List (Option ℕ)
  pub maxfd : ℕ
  pub reset : ℕ → Bool
  pub calls : List Call

-- What the calls of one round answer. `tmpset` is the set that `select` leaves, and `buf` is what the
-- buffer for stdin holds before `read` fills it.
pub record Answers : Type 0 where
  pub nready : Option ℕ
  pub tmpset : ℕ → Bool
  pub accept : Option ℕ
  pub stdin : Read
  pub buf : List ℕ
  pub read : ℕ → Read

-- How a round ends.
pub data Outcome : Type 0 where
  running : (s : Server) → Outcome
  left : (s : Server) → Outcome  -- `break` after "quit" on stdin

-- `memset(buf,'0', sizeof(buf))`
abbrev pub cleared : List ℕ
cleared = replicate 25 48

-- The buffer after `read`, which may have failed.
abbrev pub filled : Read → List ℕ → List ℕ
filled refused buf = buf
filled (received bytes) buf = overlay bytes buf

-- `--nready == 0`, and `nready` after it
abbrev pub is_last : Option ℕ → Bool
is_last none = false
is_last (some n) = n == 1

abbrev pub counted : Option ℕ → Option ℕ
counted none = none
counted (some n) = some (n - 1)

-- The table after the loop that finds a position for `cfd`.
abbrev pub placed : ℕ → List (Option ℕ) → List (Option ℕ)
placed cfd [] = []
placed cfd (c ∷ cs) = if is_free c then some cfd ∷ cs else c ∷ placed cfd cs

abbrev pub is_ready : (ℕ → Bool) → Option ℕ → Bool
is_ready tmpset none = false
is_ready tmpset (some fd) = tmpset fd

-- What a round of the loop over the clients does for an entry that is ready. `broken` is a `break`.
pub record Handled : Type 0 where
  pub client : Option ℕ
  pub reset : ℕ → Bool
  pub calls : List Call
  pub broken : Bool

abbrev pub answer : ℕ → Read → (ℕ → Bool) → List Call → Handled
answer fd refused reset calls = record {
  client = some fd;
  reset = reset;
  calls = calls;
  broken = true;
}
answer fd (received []) reset calls = record {
  client = none;
  reset = update reset fd false;
  calls = closed fd ∷ calls;
  broken = false;
}
answer fd (received (b ∷ bytes)) reset calls =
    let buf = overlay (b ∷ bytes) cleared in
    let sent = echoed fd buf ∷ shown buf ∷ calls in
    if is_quit buf
    then record {
      client = none;
      reset = update reset fd false;
      calls = closed fd ∷ sent;
      broken = false;
    }
    else record { client = some fd; reset = reset; calls = sent; broken = false }

abbrev pub respond : Answers → Option ℕ → (ℕ → Bool) → List Call → Handled
respond a none reset calls = record { client = none; reset = reset; calls = calls; broken = false }
respond a (some fd) reset calls = answer fd (a.read fd) reset calls

pub record Served : Type 0 where
  pub clients : List (Option ℕ)
  pub reset : ℕ → Bool
  pub calls : List Call

-- The loop over the clients.
unfoldable pub serve :
    Answers → (ℕ → Bool) → Option ℕ → List (Option ℕ) → (ℕ → Bool) → List Call → Served
serve a tmpset nready [] reset calls = record { clients = []; reset = reset; calls = calls }
serve a tmpset nready (c ∷ cs) reset calls =
    let ready = is_ready tmpset c in
    let h = respond a c reset calls in
    let rest =
      serve a tmpset (if ready then counted nready else nready) cs
        (if ready then h.reset else reset) (if ready then h.calls else calls) in
    if ready
    then if h.broken
      then record { clients = c ∷ cs; reset = reset; calls = calls }
      else if is_last nready
      then record { clients = h.client ∷ cs; reset = h.reset; calls = h.calls }
      else record rest { clients = h.client ∷ rest.clients }
    else record rest { clients = c ∷ rest.clients }

unfoldable pub check_clients : Answers → (ℕ → Bool) → Option ℕ → Server → Outcome
check_clients a tmpset nready s =
    let r = serve a tmpset nready s.clients s.reset s.calls in
    running (record s { clients = r.clients; reset = r.reset; calls = r.calls })

unfoldable pub check_stdin : Answers → (ℕ → Bool) → Option ℕ → Server → Outcome
unfolding check_clients
check_stdin a tmpset nready s =
    let buf = filled a.stdin a.buf in
    let after : Server = record s { calls = shown buf ∷ s.calls } in
    if tmpset 0
    then if is_quit buf
      then left after
      else if is_last nready
      then running after
      else check_clients a tmpset (counted nready) after
    else check_clients a tmpset nready s

-- A new connection.
unfoldable pub admit : Answers → (ℕ → Bool) → Option ℕ → Server → Option ℕ → Outcome
unfolding check_stdin
admit a tmpset nready s none = running s
admit a tmpset nready s (some cfd) =
    let after : Server = record {
      clients = placed cfd s.clients;
      maxfd = if ltb s.maxfd cfd then cfd else s.maxfd;
      reset = update s.reset cfd true;
      calls = greeted cfd ∷ accepted cfd ∷ s.calls;
    } in
    if is_last nready then running after else check_stdin a tmpset (counted nready) after

unfoldable pub check_lfd : Answers → ℕ → (ℕ → Bool) → Option ℕ → Server → Outcome
unfolding check_stdin admit
check_lfd a lfd tmpset nready s =
    if tmpset lfd then admit a tmpset nready s a.accept else check_stdin a tmpset nready s

-- A `select` that fails leaves the set as it is, and the round goes on.
abbrev pub selected : Answers → ℕ → Server → Option ℕ → Outcome
selected a lfd s none = check_lfd a lfd s.reset none s
selected a lfd s (some zero) = running s
selected a lfd s (some (suc n)) = check_lfd a lfd a.tmpset (some (suc n)) s

unfoldable pub turn : ℕ → Answers → Server → Outcome
turn lfd a s = selected a lfd s a.nready

abbrev pub onward : (Server → Outcome) → Outcome → Outcome
onward go (running s) = go s
onward go (left s) = left s

unfoldable pub rounds : ℕ → List Answers → Server → Outcome
rounds lfd [] s = running s
rounds lfd (a ∷ answers) s = onward (rounds lfd answers) (turn lfd a s)

-- What `main` sets up before the loop.
unfoldable pub start : ℕ → Server
start lfd = record {
  clients = replicate backlog none;
  maxfd = lfd;
  reset = update (update (λ fd. false) 0 true) lfd true;
  calls = [];
}
