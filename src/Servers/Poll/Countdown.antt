-- ===== src/Servers/Poll/Countdown.antt =====
-- The countdown `--nready` in the loop over the clients of studio17_poll.c.
use c_operating_system.Prelude.{
  ℕ, ◌+◌, ◌-◌, ◌≤◌, ◌≡◌, refl, true, false, List, [], ◌∷◌, if◌then◌else◌, arith,
}
use c_operating_system.Servers.Wire.{Call}
use c_operating_system.Servers.Poll.{Pollfd, Answers, Served, respond, ready, serve}

-- The entries in use with an event to read.
abbrev pub ready_count : List Pollfd → ℕ
ready_count [] = 0
ready_count (c ∷ cs) = (if ready c then 1 else 0) + ready_count cs

-- The loop without the countdown: it goes on to the end of the table.
unfoldable pub serve_all : Answers → List Pollfd → List Call → Served
serve_all a [] calls = record { clients = []; calls = calls; failed = false }
serve_all a (c ∷ cs) calls =
    let h = respond a c.fd calls in
    let rest = serve_all a cs (if ready c then h.calls else calls) in
    if ready c
    then if h.failed
      then record { clients = c ∷ cs; calls = calls; failed = true }
      else record rest { clients = record c { fd = h.fd } ∷ rest.clients }
    else record rest { clients = c ∷ rest.clients }

-- Without a ready entry nothing happens.
serve_all-idle :
    (a : Answers) (cs : List Pollfd) (calls : List Call)
    → ready_count cs ≡ 0
    → serve_all a cs calls ≡ record { clients = cs; calls = calls; failed = false }
unfolding serve_all
serve_all-idle a [] calls h = refl
serve_all-idle a (c ∷ cs) calls h = ground (arith, serve_all-idle a cs calls)

-- When `nready` counts at least the ready entries, and is not 0, the loop that stops at the end of the
-- countdown does what the loop over the whole table does: no client that is ready is passed over.
pub serve-serve_all :
    (a : Answers) (n : ℕ) (cs : List Pollfd) (calls : List Call)
    → 1 ≤ n
    → ready_count cs ≤ n
    → serve a n cs calls ≡ serve_all a cs calls
unfolding serve serve_all
serve-serve_all a n [] calls h h' = refl
serve-serve_all a n (c ∷ cs) calls h h' = ground (
  arith,
  serve-serve_all a n cs calls,
  serve-serve_all a (n - 1) cs (respond a c.fd calls).calls,
  serve_all-idle a cs (respond a c.fd calls).calls,
)
