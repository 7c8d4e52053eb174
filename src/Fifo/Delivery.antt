-- ===== src/Fifo/Delivery.antt =====
-- fifo_w.c and fifo_r.c: every message arrives, and neither side waits for ever.
use mathlib.Core.Path.{subst}
use c_operating_system.Prelude.{
  ℕ, ◌≤◌, ◌<◌, ◌≡◌, ◌⊎◌, inl, inr, refl, Bool, true, false, none, sym, zero, suc, Option, some,
  List, ◌∷◌, length, arith,
}
use c_operating_system.Threads.{Conf, update, run}
use c_operating_system.Threads.Invariant.{Keeps, run-keeps}
use c_operating_system.Fifo.{Shared, Pc, opening_w, step, start}
use c_operating_system.Fifo.Turns.{Talks, Legal, Fields, talker-Fields, listener-Fields, nonempty}

abbrev pub Inv : Conf Shared Pc → Type 0
Inv c = Talks c.shared 0 1 (c.locals 0) (c.locals 1) ⊎ Talks c.shared 1 0 (c.locals 1) (c.locals 0)

talks : (s : Shared) (t l : ℕ) (a b : Pc) → Fields s t l a b → Talks s t l a b
talks s t l a b (legal, back, readers, writers) = record {
  legal = legal;
  back = back;
  readers_eq = readers;
  writers_eq = writers;
}

module _ (line : ℕ → List (List ℕ) → List ℕ)
    (some_text : (i : ℕ) (past : List (List ℕ)) → 1 ≤ length (line i past))
    (fits : (i : ℕ) (past : List (List ℕ)) → length (line i past) ≤ 80) where
  Inv-step :
      (t l : ℕ)
      → ((t ≡ l) → ⊥)
      → (s s' : Shared) (a b : Pc) → Talks s t l a b
      → ((a' : Pc) → step line t s a ≡ some (s', a') → Talks s' t l a' b)
        × ((b' : Pc) → step line l s b ≡ some (s', b') → (Talks s' t l a b' ⊎ Talks s' l t b' a))
  Inv-step t l apart s s' a b k = (
    (λ a' h. talks s' t l a' b (talker-Fields line some_text fits t l apart s s' a b a' k h)),
    λ b' h. elim (listener-Fields line some_text fits t l apart s s' a b b' k h) [
      | inl f ↦ inl (talks s' t l a b' f)
      | inr f ↦ inr (talks s' l t b' a f)
    ],
  )

  Inv-keeps : Keeps 2 (step line) Inv
  Inv-keeps i c p lt k e s' p' h =
      moved_lem i lt c s' p' k (subst (λ q. step line i c.shared q ≡ some (s', p')) (sym e) h)
    where
      moved_lem :
          (i : ℕ)
          → i < 2
          → (c : Conf Shared Pc) (s' : Shared) (p' : Pc) → Inv c
          → step line i c.shared (c.locals i) ≡ some (s', p')
          → Inv (record { shared = s'; locals = update c.locals i p' })
      moved_lem zero lt c s' p' (inl k) h =
          inl ((Inv-step 0 1 (λ e. absurd (ground (arith, e))) c.shared s' _ _ k).0 p' h)
      moved_lem zero lt c s' p' (inr k) h =
          elim ((Inv-step 1 0 (λ e. absurd (ground (arith, e))) c.shared s' _ _ k).1 p' h) [
            | inl f ↦ inr f
            | inr f ↦ inl f
          ]
      moved_lem (suc zero) lt c s' p' (inl k) h =
          (Inv-step 0 1 (λ e. absurd (ground (arith, e))) c.shared s' _ _ k).1 p' h
      moved_lem (suc zero) lt c s' p' (inr k) h =
          inr ((Inv-step 1 0 (λ e. absurd (ground (arith, e))) c.shared s' _ _ k).0 p' h)
      moved_lem (suc (suc i)) lt c s' p' k h = absurd (omega (arith, lt))

  start-Inv : Inv start
  start-Inv = inl (talks _ 0 1 _ _ ((refl, refl), refl, refl, refl))

  run-Inv : (schedule : List ℕ) → Inv (run 2 (step line) schedule start)
  run-Inv schedule = run-keeps 2 (step line) Inv Inv-keeps schedule start start-Inv

-- All that a side has said was heard, or all but the message that the fifo holds.
abbrev pub Delivered : Shared → ℕ → ℕ → Type 0
Delivered s t l = (s.said t ≡ s.heard l) ⊎ (s.said t ≡ s.buffer ∷ s.heard l)

Legal-Delivered : (s : Shared) (t l : ℕ) (a b : Pc) → Legal s t l a b → Delivered s t l
Legal-Delivered s t l opening_w opening_w k = ground (arith, k)
Legal-Delivered s t l _ opening_w k = ground (arith, k)
Legal-Delivered s t l _ _ k = ground (arith, k)

Talks-Delivered :
    (s : Shared) (t l : ℕ) (a b : Pc) → Talks s t l a b → Delivered s t l × Delivered s l t
Talks-Delivered s t l a b k = (Legal-Delivered s t l a b k.legal, inl k.back)

-- The side is not waiting, and was not killed.
abbrev pub can_move : Option (Shared × Pc) → Bool
can_move none = false
can_move (some r) = true

module _ (line : ℕ → List (List ℕ) → List ℕ) where
  Talks-moves :
      (t l : ℕ) (s : Shared) (a b : Pc)
      → Talks s t l a b
      → (can_move (step line t s a) ≡ true) ⊎ (can_move (step line l s b) ≡ true)
  unfolding step
  Talks-moves t l s opening_w opening_w k = ground (arith, k)
  Talks-moves t l s _ opening_w k = ground (arith, k)
  Talks-moves t l s _ _ k = ground (arith, k, nonempty s.buffer)

module _ (line : ℕ → List (List ℕ) → List ℕ)
    (some_text : (i : ℕ) (past : List (List ℕ)) → 1 ≤ length (line i past))
    (fits : (i : ℕ) (past : List (List ℕ)) → length (line i past) ≤ 80) (schedule : List ℕ) where
  -- If every line has 1 to 80 bytes, then in every interleaving each of the two programs has printed
  -- exactly the messages that the other has written, in order, but perhaps for the last one, which
  -- the fifo then holds.
  pub fifo_delivers :
      Delivered (run 2 (step line) schedule start).shared 0 1
      × Delivered (run 2 (step line) schedule start).shared 1 0
  fifo_delivers = elim (run-Inv line some_text fits schedule) [
    | inl k ↦ Talks-Delivered _ 0 1 _ _ k
    | inr k ↦ let (back, forth) = Talks-Delivered _ 1 0 _ _ k in (forth, back)
  ]

  -- If every line has 1 to 80 bytes, then after any schedule one of the two programs can go on: they
  -- never both wait, and neither is killed while the other waits.
  pub fifo_moves :
      (can_move (
          step line 0
            (run 2 (step line) schedule start).shared
            ((run 2 (step line) schedule start).locals 0))
        ≡ true)
      ⊎ (can_move (
            step line 1
              (run 2 (step line) schedule start).shared
              ((run 2 (step line) schedule start).locals 1))
          ≡ true)
  fifo_moves = elim (run-Inv line some_text fits schedule) [
    | inl k ↦ Talks-moves line 0 1 _ _ _ k
    | inr k ↦ elim (Talks-moves line 1 0 _ _ _ k) [ inl m ↦ inr m | inr m ↦ inl m ]
  ]
