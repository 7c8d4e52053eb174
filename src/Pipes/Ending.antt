-- ===== src/Pipes/Ending.antt =====
-- pipes.c: neither process waits for ever.
use c_operating_system.Prelude.{ℕ, ◌+◌, ◌*◌, ◌≤◌, ◌≡◌, ◌⊎◌, inl, inr, List, ◌++◌, length, arith}
use c_operating_system.Threads.{Conf, run}
use c_operating_system.Threads.Ending.{TurnsFrom, step_turns, schedule-Over}
use c_operating_system.Pipes.{Shared, Pc, finished, step, start}
use c_operating_system.Pipes.Printing.{Inv, run-Inv, pipe_printed, parent-Good, child-Good}
use c_operating_system.Pipes.Weight.{Advances, ChildAdvances, weight, advances, weight_bound}

module _ (messages : List ℕ) where
  abbrev left_over : Conf Shared Pc → ℕ
  left_over c = weight messages c.shared (c.locals 0) (c.locals 1)

  abbrev Turns : Conf Shared Pc → Type 0
  Turns = TurnsFrom 2 (step messages) (Inv messages) (λ c. c.locals 0 ≡ finished) left_over

  parent-turns :
      (c : Conf Shared Pc)
      → Inv messages c
      → Advances messages c.shared (c.locals 0) (c.locals 1)
      → Turns c
  parent-turns c k (s', p', e, less) =
      step_turns 2 (step messages) (Inv messages) (λ d. d.locals 0 ≡ finished) left_over 0 c s' p'
        (omega arith) e (parent-Good messages c.shared s' (c.locals 0) p' (c.locals 1) k e) less

  child-turns :
      (c : Conf Shared Pc)
      → Inv messages c
      → ChildAdvances messages c.shared (c.locals 0) (c.locals 1)
      → Turns c
  child-turns c k (s', q', e, less) =
      step_turns 2 (step messages) (Inv messages) (λ d. d.locals 0 ≡ finished) left_over 1 c s' q'
        (omega arith) e (child-Good messages c.shared s' (c.locals 0) (c.locals 1) q' k e) less

  turns : (c : Conf Shared Pc) → Inv messages c → (c.locals 0 ≡ finished) ⊎ Turns c
  turns c k = elim (advances messages c.shared (c.locals 0) (c.locals 1) k) [
    | inl e ↦ inl e
    | inr (inl a) ↦ inr (parent-turns c k a)
    | inr (inr a) ↦ inr (child-turns c k a)
  ]

  -- Wherever a schedule has left the two processes, there are turns after which the parent has ended, and has
  -- printed the messages: at most six, and two for each byte of the messages.
  pub pipe_finishes :
      (schedule : List ℕ)
      → (more : List ℕ) × (length more ≤ 2 * length messages + 6)
        × ((run 2 (step messages) (schedule ++ more) start).locals 0 ≡ finished)
        × ((run 2 (step messages) (schedule ++ more) start).shared.printed ≡ messages)
  pipe_finishes schedule =
      let c : Conf Shared Pc = run 2 (step messages) schedule start in
      let k : Inv messages c = run-Inv messages schedule in
      let (more, short, e) =
        schedule-Over 2 (step messages) (Inv messages) (λ d. d.locals 0 ≡ finished) left_over turns
          (2 * length messages + 6) schedule start k
          (weight_bound messages c.shared (c.locals 0) (c.locals 1) k) in
      (more, short, e, (pipe_printed messages (schedule ++ more) e).0)
