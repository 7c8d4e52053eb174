-- ===== src/Pipes/Weight.antt =====
-- pipes.c: until the parent has ended one of the two processes can move, and every move leaves less to do.
use c_operating_system.Prelude.{
  ℕ, suc, ◌+◌, ◌*◌, ◌≤◌, ◌<◌, ◌≡◌, ◌⊎◌, inl, inr, refl, ap, false, Bool-cases, Option, none, some,
  List, [], ◌∷◌, ◌++◌, ◌==◌, length, length-append, arith,
}
use c_operating_system.Pipes.{
  Shared, Pc, closing_unused_w, reading, closing_r, closing_unused_r, writing, closing_w, finished,
  consed, fgets, ended, refill, read_line, step,
}
use c_operating_system.Pipes.Printing.{Good, sent, sent, fgets-append, reads, writes}

-- A line that `fgets` returns has a byte.
consed-some :
    (c : ℕ) (line rest : List ℕ) (o : Option (List ℕ × List ℕ))
    → consed c o ≡ some (line, rest)
    → 1 ≤ length line
consed-some c line rest none e = ground (arith, e)
consed-some c line rest (some (l, r)) e = ground (arith, e)

fgets-some :
    (left : ℕ) (held line rest : List ℕ)
    → fgets (suc left) held ≡ some (line, rest)
    → 1 ≤ length line
unfolding fgets
fgets-some left [] line rest e = ground (arith, e)
fgets-some left (c ∷ cs) line rest e = ground (arith, e, consed-some c line rest (fgets left cs))

module _ (messages : List ℕ) where
  abbrev pub parent_weight : Pc → ℕ
  parent_weight closing_unused_w = 3
  parent_weight reading = 2
  parent_weight closing_r = 1
  parent_weight _ = 0

  abbrev pub child_weight : Pc → ℕ
  child_weight closing_unused_r = 2 * length messages + 3
  child_weight writing = 2 * length messages + 2
  child_weight closing_w = 1
  child_weight _ = 0

  -- What is left to do.
  abbrev pub weight : Shared → Pc → Pc → ℕ
  weight s p q = parent_weight p + child_weight q + 2 * length s.buffer + length s.held

  -- A move of the parent that leaves less to do.
  abbrev pub Advances : Shared → Pc → Pc → Type 0
  Advances s p q =
      (s' : Shared) × (p' : Pc) × (step messages 0 s p ≡ some (s', p'))
      × (weight s' p' q < weight s p q)

  abbrev pub ChildAdvances : Shared → Pc → Pc → Type 0
  ChildAdvances s p q =
      (s' : Shared) × (q' : Pc) × (step messages 1 s q ≡ some (s', q'))
      × (weight s' p q' < weight s p q)

  child-advances :
      (s : Shared) (p q : Pc)
      → Good messages s p q
      → 1 ≤ writes q
      → 1 ≤ reads p
      → ChildAdvances s p q
  unfolding step
  child-advances s p closing_unused_r k w r = (_, _, refl, omega arith)
  child-advances s p writing k w r = (
    record s { buffer = s.buffer ++ messages },
    closing_w,
    ground (arith, k, r),
    omega (arith, length-append s.buffer messages),
  )
  child-advances s p closing_w k w r = (_, _, refl, omega arith)
  child-advances s p _ k w r = absurd (ground (arith, k, w))

  ended-advances :
      (s : Shared) (q : Pc) (h : List ℕ)
      → s.held ≡ h
      → weight (ended s h).0 (ended s h).1 q < weight s reading q
  ended-advances s q [] e = omega arith
  ended-advances s q (c ∷ cs) e = ground (arith, e)

  refill-advances :
      (s : Shared) (q : Pc) (b : List ℕ)
      → s.buffer ≡ b
      → ((s' : Shared) × (p' : Pc) × (refill s b ≡ some (s', p'))
          × (weight s' p' q < weight s reading q))
        ⊎ ((s.writers == 0) ≡ false)
  refill-advances s q [] e = elim (Bool-cases (s.writers == 0)) [
    | inl g ↦
        inl (
          (ended s s.held).0,
          (ended s s.held).1,
          ground (arith, g),
          ended-advances s q s.held refl,
        )
    | inr g ↦ inr g
  ]
  refill-advances s q (c ∷ cs) e =
      inl (_, _, refl, ground (arith, e, length-append s.held (c ∷ cs)))

  read_line-advances :
      (s : Shared) (q : Pc) (o : Option (List ℕ × List ℕ))
      → ((line rest : List ℕ) → o ≡ some (line, rest) → (line ++ rest ≡ s.held) × (1 ≤ length line))
      → ((s' : Shared) × (p' : Pc) × (read_line s o ≡ some (s', p'))
          × (weight s' p' q < weight s reading q))
        ⊎ ((s.writers == 0) ≡ false)
  read_line-advances s q none h = refill-advances s q s.buffer refl
  read_line-advances s q (some (line, rest)) h =
      let (whole, some_byte) = h line rest refl in
      inl (_, _, refl, ground (arith, some_byte, length-append line rest, ap length whole))

  -- Until the parent has ended one of the two can move, and leaves less to do.
  pub advances :
      (s : Shared) (p q : Pc)
      → Good messages s p q
      → (p ≡ finished) ⊎ (Advances s p q ⊎ ChildAdvances s p q)
  unfolding step
  advances s closing_unused_w q k = inr (inl (_, _, refl, omega arith))
  advances s reading q k =
      elim (read_line-advances s q (fgets 9 s.held)
        (λ line rest e. (fgets-append 9 s.held line rest e, fgets-some 8 s.held line rest e))) [
          | inl m ↦ inr (inl m)
          | inr others ↦
              inr (inr (child-advances s reading q k (ground (arith, k, others)) (omega arith)))
        ]
  advances s closing_r q k = inr (inl (_, _, refl, omega arith))
  advances s finished q k = inl refl
  advances s _ q k = elim k.0 [ ]

  pub weight_bound :
      (s : Shared) (p q : Pc) → Good messages s p q → weight s p q ≤ 2 * length messages + 6
  weight_bound s p q k =
      let whole : length s.printed + (length s.held + length s.buffer) ≡ length (sent messages q) =
        ground (
          arith,
          length-append s.printed (s.held ++ s.buffer),
          length-append s.held s.buffer,
          ap length k.4,
        ) in
      ground (arith, whole, k)
