-- ===== src/Servers/Poll/Serving.antt =====
-- The loop over the clients in studio17_poll.c: what it does to the descriptors in the table and to
-- those that were closed.
use c_operating_system.Prelude.{
  ℕ, zero, suc, ◌+◌, ◌-◌, ◌≤◌, ◌<◌, ◌≡◌, refl, Option, none, some, List, [], ◌∷◌, length, arith,
}
use c_operating_system.Servers.Wire.{Call, Read, refused, received}
use c_operating_system.Servers.Poll.{Pollfd, Answers, answer, respond, serve, serve_clients}
use c_operating_system.Servers.Calls.{same, accepts, closes, held_slot}
use c_operating_system.Servers.Poll.Slots.{held, extent, fd_at}

-- A client that is ready.
answer-held :
    (a : Answers) (fd : ℕ) (r : Read) (calls : List Call) (d : ℕ)
    → closes d (answer a fd r calls).calls + held_slot d (answer a fd r calls).fd
      ≡ closes d calls + same d fd
answer-held a fd refused calls d = refl
answer-held a fd (received []) calls d = ground arith
answer-held a fd (received (b ∷ bytes)) calls d = ground arith

answer-accepts :
    (a : Answers) (fd : ℕ) (r : Read) (calls : List Call) (d : ℕ)
    → accepts d (answer a fd r calls).calls ≡ accepts d calls
answer-accepts a fd refused calls d = refl
answer-accepts a fd (received []) calls d = refl
answer-accepts a fd (received (b ∷ bytes)) calls d = ground arith

respond-held :
    (a : Answers) (o : Option ℕ) (calls : List Call) (d : ℕ)
    → closes d (respond a o calls).calls + held_slot d (respond a o calls).fd
      ≡ closes d calls + held_slot d o
respond-held a none calls d = refl
respond-held a (some fd) calls d = answer-held a fd (a.read fd) calls d

respond-accepts :
    (a : Answers) (o : Option ℕ) (calls : List Call) (d : ℕ)
    → accepts d (respond a o calls).calls ≡ accepts d calls
respond-accepts a none calls d = refl
respond-accepts a (some fd) calls d = answer-accepts a fd (a.read fd) calls d

-- The loop over the clients.
serve-held :
    (a : Answers) (n : ℕ) (cs : List Pollfd) (calls : List Call) (d : ℕ)
    → closes d (serve a n cs calls).calls + held d (serve a n cs calls).clients
      ≡ closes d calls + held d cs
unfolding serve
serve-held a n [] calls d = refl
serve-held a n (c ∷ cs) calls d = ground (
  arith,
  respond-held a c.fd calls d,
  serve-held a n cs calls d,
  serve-held a (n - 1) cs (respond a c.fd calls).calls d,
)

serve-accepts :
    (a : Answers) (n : ℕ) (cs : List Pollfd) (calls : List Call) (d : ℕ)
    → accepts d (serve a n cs calls).calls ≡ accepts d calls
unfolding serve
serve-accepts a n [] calls d = refl
serve-accepts a n (c ∷ cs) calls d = ground (
  arith,
  respond-accepts a c.fd calls d,
  serve-accepts a n cs calls d,
  serve-accepts a (n - 1) cs (respond a c.fd calls).calls d,
)

serve-length :
    (a : Answers) (n : ℕ) (cs : List Pollfd) (calls : List Call)
    → length (serve a n cs calls).clients ≡ length cs
unfolding serve
serve-length a n [] calls = refl
serve-length a n (c ∷ cs) calls =
    ground
      (arith, serve-length a n cs calls, serve-length a (n - 1) cs (respond a c.fd calls).calls)

-- An entry that is ready is in use.
serve-extent :
    (a : Answers) (n : ℕ) (cs : List Pollfd) (calls : List Call)
    → extent (serve a n cs calls).clients ≤ extent cs
unfolding serve
serve-extent a n [] calls = omega arith
serve-extent a n (c ∷ cs) calls =
    ground
      (arith, serve-extent a n cs calls, serve-extent a (n - 1) cs (respond a c.fd calls).calls)

-- The entries for the listening socket and stdin are skipped by the loop.
pub clients-held :
    (a : Answers) (n : ℕ) (cs : List Pollfd) (calls : List Call) (d : ℕ)
    → closes d (serve_clients a n cs calls).calls + held d (serve_clients a n cs calls).clients
      ≡ closes d calls + held d cs
clients-held a n [] calls d = refl
clients-held a n (c ∷ []) calls d = refl
clients-held a n (c ∷ c' ∷ cs) calls d = omega (arith, serve-held a n cs calls d)

pub clients-accepts :
    (a : Answers) (n : ℕ) (cs : List Pollfd) (calls : List Call) (d : ℕ)
    → accepts d (serve_clients a n cs calls).calls ≡ accepts d calls
clients-accepts a n [] calls d = refl
clients-accepts a n (c ∷ []) calls d = refl
clients-accepts a n (c ∷ c' ∷ cs) calls d = serve-accepts a n cs calls d

pub clients-extent :
    (a : Answers) (n : ℕ) (cs : List Pollfd) (calls : List Call)
    → extent (serve_clients a n cs calls).clients ≤ extent cs
clients-extent a n [] calls = omega arith
clients-extent a n (c ∷ []) calls = omega arith
clients-extent a n (c ∷ c' ∷ cs) calls = ground (arith, serve-extent a n cs calls)

pub clients-length :
    (a : Answers) (n : ℕ) (cs : List Pollfd) (calls : List Call)
    → length (serve_clients a n cs calls).clients ≡ length cs
clients-length a n [] calls = refl
clients-length a n (c ∷ []) calls = refl
clients-length a n (c ∷ c' ∷ cs) calls = omega (arith, serve-length a n cs calls)

pub clients-fd_at :
    (a : Answers) (n : ℕ) (cs : List Pollfd) (calls : List Call) (i : ℕ)
    → i < 2
    → fd_at (serve_clients a n cs calls).clients i ≡ fd_at cs i
clients-fd_at a n [] calls i h = refl
clients-fd_at a n (c ∷ []) calls i h = refl
clients-fd_at a n (c ∷ c' ∷ cs) calls zero h = refl
clients-fd_at a n (c ∷ c' ∷ cs) calls (suc zero) h = refl
clients-fd_at a n (c ∷ c' ∷ cs) calls (suc (suc i)) h = absurd (omega arith)
