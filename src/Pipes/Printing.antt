-- ===== src/Pipes/Printing.antt =====
-- pipes.c: the parent prints what the child has written, and comes to its end.
use mathlib.Core.List.{append_assoc, append-nil}
use mathlib.Core.Path.{subst}
use c_operating_system.Prelude.{
  ℕ, zero, suc, ◌+◌, Bool-cases, ◌≡◌, inl, inr, refl, sym, true, Option, none, some, List, [], ◌∷◌,
  ◌++◌, ◌==◌, arith,
}
use c_operating_system.Threads.{Conf, run}
use c_operating_system.Threads.Invariant.{Keeps, run-keeps}
use c_operating_system.Pipes.{
  Shared, Pc, closing_unused_w, reading, closing_r, closing_unused_r, writing, closing_w, finished,
  consed, fgets, ended, refill, read_line, step, start,
}

consed-append :
    (c : ℕ) (cs line rest : List ℕ) (o : Option (List ℕ × List ℕ))
    → ((l r : List ℕ) → o ≡ some (l, r) → l ++ r ≡ cs)
    → consed c o ≡ some (line, rest)
    → line ++ rest ≡ c ∷ cs
consed-append c cs line rest none h e = ground arith
consed-append c cs line rest (some (l, r)) h e = ground (arith, h l r, e)

-- `fgets` loses nothing.
pub fgets-append :
    (left : ℕ) (held line rest : List ℕ) → fgets left held ≡ some (line, rest) → line ++ rest ≡ held
unfolding fgets
fgets-append zero held line rest e = ground (arith, e)
fgets-append (suc left) [] line rest e = ground (arith, e)
fgets-append (suc left) (c ∷ cs) line rest e =
    ground (arith, e, consed-append c cs line rest (fgets left cs) (fgets-append left cs))

abbrev pub reads : Pc → ℕ
reads closing_unused_w = 1
reads reading = 1
reads closing_r = 1
reads closing_unused_r = 1
reads _ = 0

abbrev pub writes : Pc → ℕ
writes closing_unused_w = 1
writes closing_unused_r = 1
writes writing = 1
writes closing_w = 1
writes _ = 0

-- Where the parent can stand, and what holds there: it ends after the child, with nothing left to print.
abbrev pub Parent : Shared → Pc → Pc → Type 0
Parent s closing_unused_w q = Unit
Parent s reading q = Unit
Parent s closing_r q = (s.held ≡ []) × (s.buffer ≡ []) × (q ≡ finished)
Parent s finished q = (s.held ≡ []) × (s.buffer ≡ []) × (q ≡ finished)
Parent s _ q = ⊥

abbrev pub Child : Pc → Type 0
Child closing_unused_r = Unit
Child writing = Unit
Child closing_w = Unit
Child finished = Unit
Child _ = ⊥

module _ (messages : List ℕ) where
  -- What the child has written.
  abbrev pub sent : Pc → List ℕ
  sent closing_w = messages
  sent finished = messages
  sent _ = []

  abbrev pub Good : Shared → Pc → Pc → Type 0
  Good s p q =
      Parent s p q
      × Child q
      × (s.readers ≡ reads p + reads q)
      × (s.writers ≡ writes p + writes q)
      × (s.printed ++ (s.held ++ s.buffer) ≡ sent q)

  ended-Good :
      (s s' : Shared) (p' q : Pc) (h : List ℕ)
      → s.held ≡ h
      → s.buffer ≡ []
      → (s.writers == 0) ≡ true
      → Good s reading q
      → ended s h ≡ (s', p')
      → Good s' p' q
  ended-Good s s' p' closing_unused_r h e f g k r = ground (arith, g, k)
  ended-Good s s' p' finished [] e f g k r = ground (arith, e, f, g, k, r)
  ended-Good s s' p' finished (c ∷ cs) e f g k r =
      ground (arith, e, f, g, k, r, append-nil (c ∷ cs), append-nil (s.printed ++ (c ∷ cs)))
  ended-Good s s' p' _ h e f g k r = ground (arith, g, k)

  refill-Good :
      (s s' : Shared) (p' q : Pc) (b : List ℕ)
      → s.buffer ≡ b
      → Good s reading q
      → refill s b ≡ some (s', p')
      → Good s' p' q
  refill-Good s s' p' q [] e k r = elim (Bool-cases (s.writers == 0)) [
    | inl g ↦ ended-Good s s' p' q s.held refl e g k (ground (arith, g, r))
    | inr g ↦ absurd (ground (arith, g, r))
  ]
  refill-Good s s' p' q (c ∷ cs) e k r = ground (arith, e, k, r, append-nil (s.held ++ (c ∷ cs)))

  read_line-Good :
      (s s' : Shared) (p' q : Pc) (o : Option (List ℕ × List ℕ))
      → ((line rest : List ℕ) → o ≡ some (line, rest) → line ++ rest ≡ s.held)
      → Good s reading q
      → read_line s o ≡ some (s', p')
      → Good s' p' q
  read_line-Good s s' p' q none h k r = refill-Good s s' p' q s.buffer refl k r
  read_line-Good s s' p' q (some (line, rest)) h k r = ground (
    arith,
    h line rest,
    k,
    r,
    append_assoc s.printed line (rest ++ s.buffer),
    append_assoc line rest s.buffer,
  )

  pub parent-Good :
      (s s' : Shared) (p p' q : Pc)
      → Good s p q
      → step messages 0 s p ≡ some (s', p')
      → Good s' p' q
  unfolding step
  parent-Good s s' closing_unused_w p' q k r = ground (arith, k, r)
  parent-Good s s' reading p' q k r =
      read_line-Good s s' p' q (fgets 9 s.held) (fgets-append 9 s.held) k r
  parent-Good s s' closing_r p' q k r = ground (arith, k, r)
  parent-Good s s' _ p' q k r = ground (arith, k, r)

  pub child-Good :
      (s s' : Shared) (p q q' : Pc)
      → Good s p q
      → step messages 1 s q ≡ some (s', q')
      → Good s' p q'
  unfolding step
  child-Good s s' closing_unused_w closing_unused_r q' k r = ground (arith, k, r)
  child-Good s s' closing_unused_w writing q' k r = ground (
    arith,
    k,
    r,
    append_assoc s.held s.buffer messages,
    append_assoc s.printed (s.held ++ s.buffer) messages,
  )
  child-Good s s' _ closing_unused_r q' k r = ground (arith, k, r)
  child-Good s s' _ writing q' k r = ground (
    arith,
    k,
    r,
    append_assoc s.held s.buffer messages,
    append_assoc s.printed (s.held ++ s.buffer) messages,
  )
  child-Good s s' _ _ q' k r = ground (arith, k, r)

  abbrev pub Inv : Conf Shared Pc → Type 0
  Inv c = Good c.shared (c.locals 0) (c.locals 1)

  Inv-keeps : Keeps 2 (step messages) Inv
  Inv-keeps zero c l lt k e s' l' h =
      parent-Good c.shared s' (c.locals 0) l' (c.locals 1) k
        (subst (λ q. step messages 0 c.shared q ≡ some (s', l')) (sym e) h)
  Inv-keeps (suc zero) c l lt k e s' l' h =
      child-Good c.shared s' (c.locals 0) (c.locals 1) l' k
        (subst (λ q. step messages 1 c.shared q ≡ some (s', l')) (sym e) h)
  Inv-keeps (suc (suc i)) c l lt k e s' l' h = absurd (omega (arith, lt))

  pub run-Inv : (schedule : List ℕ) → Inv (run 2 (step messages) schedule start)
  run-Inv schedule =
      run-keeps 2 (step messages) Inv Inv-keeps schedule start (tt, tt, refl, refl, refl)

  pub Parent-printed :
      (s : Shared) (q : Pc) → Good s finished q → (s.printed ≡ messages) × (q ≡ finished)
  Parent-printed s q k = ground (arith, k, append-nil s.printed)

  -- After any schedule, when the parent has ended: it has printed exactly the messages of the child,
  -- whatever their lines, and the child has ended.
  pub pipe_printed :
      (schedule : List ℕ)
      → (run 2 (step messages) schedule start).locals 0 ≡ finished
      → ((run 2 (step messages) schedule start).shared.printed ≡ messages)
        × ((run 2 (step messages) schedule start).locals 1 ≡ finished)
  pipe_printed schedule e =
      let c = run 2 (step messages) schedule start in
      Parent-printed c.shared (c.locals 1)
        (subst (λ p. Good c.shared p (c.locals 1)) e (run-Inv schedule))
