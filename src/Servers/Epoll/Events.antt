-- ===== src/Servers/Epoll/Events.antt =====
-- studio17_epoll.c: the descriptors that it watches, and the answers that no client gets.
use c_operating_system.Prelude.{
  ℕ, ◌+◌, ◌≡◌, refl, ◌==◌, not, true, false, Bool, true, false, Option, none, some, List, [], ◌∷◌,
  if◌then◌else◌, arith,
}
use c_operating_system.Threads.{update}
use c_operating_system.Servers.Wire.{Read, refused, received}
use c_operating_system.Servers.Calls.{same, accepts, closes}
use c_operating_system.Servers.Epoll.{
  Server, Event, Outcome, running, returned, exited, crashed, onward, handle, handle_all, turn,
  rounds, run_epoll, command, answer, admit,
}

-- The set has the descriptors that were added or accepted, and not closed, each once.
abbrev pub Balance : ℕ → ℕ → Server → Type 0
Balance lfd d s =
    (if s.watched d then 1 else 0) + closes d s.calls ≡ same d lfd + same d 0 + accepts d s.calls

module _ (strncmp : Option (List ℕ → Bool)) (lfd d : ℕ) where
  admit-Balance :
      (has_ctl : Bool) (cfd : Option ℕ) (s s' : Server)
      → Balance lfd d s
      → admit has_ctl cfd s ≡ running s'
      → Balance lfd d s'
  admit-Balance has_ctl none s s' b h = ground arith
  admit-Balance has_ctl (some cfd) s s' b h = ground arith

  command-Balance :
      (old : List ℕ) (r : Read) (s s' : Server)
      → Balance lfd d s
      → command strncmp old r s ≡ running s'
      → Balance lfd d s'
  command-Balance old refused s s' b h = ground arith
  command-Balance old (received bytes) s s' b h = ground arith

  answer-Balance :
      (has_ctl : Bool) (fd : ℕ) (old : List ℕ) (r : Read) (s s' : Server)
      → Balance lfd d s
      → answer strncmp has_ctl fd old r s ≡ running s'
      → Balance lfd d s'
  answer-Balance has_ctl fd old refused s s' b h = ground arith
  answer-Balance has_ctl fd old (received []) s s' b h = ground arith
  answer-Balance has_ctl fd old (received (c ∷ bytes)) s s' b h = ground arith

  if-Balance :
      (test : Bool) (taken skipped : Outcome) (s' : Server)
      → (test ≡ true → taken ≡ running s' → Balance lfd d s')
      → (skipped ≡ running s' → Balance lfd d s')
      → (if test then taken else skipped) ≡ running s'
      → Balance lfd d s'
  if-Balance true x y s' f g h = f refl h
  if-Balance false x y s' f g h = g h

  handle-Balance :
      (e : Event) (s s' : Server)
      → Balance lfd d s
      → handle strncmp lfd e s ≡ running s'
      → Balance lfd d s'
  unfolding handle
  handle-Balance e s s' b h =
      if-Balance (e.fd == lfd) _ _ s' (λ _. admit-Balance e.has_ctl e.accept s s' b)
        (if-Balance (e.fd == 0) _ _ s' (λ _. command-Balance e.buf e.read s s' b)
          (answer-Balance e.has_ctl e.fd e.buf e.read s s' b))
        h

  onward-Balance :
      (go : Server → Outcome)
      → ((s s' : Server) → Balance lfd d s → go s ≡ running s' → Balance lfd d s')
      → (o : Outcome) → ((s : Server) → o ≡ running s → Balance lfd d s)
      → (s' : Server) → onward go o ≡ running s'
      → Balance lfd d s'
  onward-Balance go keeps (running s) b s' h = keeps s s' (b s refl) h
  onward-Balance go keeps (returned s) b s' h = ground arith
  onward-Balance go keeps (exited s) b s' h = ground arith
  onward-Balance go keeps (crashed s) b s' h = ground arith

  handle_all-Balance :
      (events : List Event) (s s' : Server)
      → Balance lfd d s
      → handle_all strncmp lfd events s ≡ running s'
      → Balance lfd d s'
  unfolding handle_all
  handle_all-Balance [] s s' b h = ground (arith, b)
  handle_all-Balance (e ∷ events) s s' b h =
      onward-Balance (handle_all strncmp lfd events) (handle_all-Balance events)
        (handle strncmp lfd e s) (λ t. handle-Balance e s t b) s' h

  turn-Balance :
      (nready : Option (List Event)) (s s' : Server)
      → Balance lfd d s
      → turn strncmp lfd nready s ≡ running s'
      → Balance lfd d s'
  unfolding turn
  turn-Balance none s s' b h = ground arith
  turn-Balance (some events) s s' b h = handle_all-Balance events s s' b h

  rounds-Balance :
      (answers : List (Option (List Event))) (s s' : Server)
      → Balance lfd d s
      → rounds strncmp lfd answers s ≡ running s'
      → Balance lfd d s'
  unfolding rounds
  rounds-Balance [] s s' b h = ground (arith, b)
  rounds-Balance (nready ∷ answers) s s' b h =
      onward-Balance (rounds strncmp lfd answers) (rounds-Balance answers)
        (turn strncmp lfd nready s) (λ t. turn-Balance nready s t b) s' h

  -- Whatever events come and whichever calls fail, as long as the server runs: its set has exactly the
  -- listening socket, stdin and the connections that were accepted and not closed, each once.
  pub epoll_watches :
      (epollfd add_lfd add_stdin : Bool) (answers : List (Option (List Event))) (s : Server)
      → run_epoll strncmp epollfd add_lfd add_stdin lfd answers ≡ running s
      → (if s.watched d then 1 else 0) + closes d s.calls
        ≡ same d lfd + same d 0 + accepts d s.calls
  unfolding run_epoll
  epoll_watches false add_lfd add_stdin answers s h = ground arith
  epoll_watches true false add_stdin answers s h = ground arith
  epoll_watches true true false answers s h = ground arith
  epoll_watches true true true answers s h =
      if-Balance (not (update (λ fd. false) lfd true 0)) _ _ s
        (λ free. rounds-Balance answers _ s (ground (arith, free))) (λ e. ground arith) h
