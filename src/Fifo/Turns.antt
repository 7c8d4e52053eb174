-- ===== src/Fifo/Turns.antt =====
-- fifo_w.c and fifo_r.c take turns: where the two stand, and what the fifo holds then.
use c_operating_system.Prelude.{
  ℕ, zero, suc, ◌+◌, ◌≤◌, ◌<◌, ◌≡◌, ◌⊎◌, inl, inr, refl, false, some, List, [], ◌∷◌, length, take,
  drop, arith,
}
use c_operating_system.Threads.{update}
use c_operating_system.Fifo.{
  Shared, Pc, opening_w, waiting_w, talking, closing_w, opening_r, waiting_r, listening, closing_r,
  is_empty, step,
}

abbrev pub reads : Pc → ℕ
reads (waiting_r seen) = 1
reads listening = 1
reads closing_r = 1
reads _ = 0

abbrev pub writes : Pc → ℕ
writes (waiting_w seen) = 1
writes talking = 1
writes closing_w = 1
writes _ = 0

-- All that `t` has said was heard, or all but what is in the fifo.
abbrev pub Quiet : Shared → ℕ → ℕ → Type 0
Quiet s t l = (s.buffer ≡ []) × (s.said t ≡ s.heard l)

abbrev pub Pending : Shared → ℕ → ℕ → Type 0
Pending s t l = (s.said t ≡ s.buffer ∷ s.heard l) × (1 ≤ length s.buffer) × (length s.buffer ≤ 80)

-- Where the side whose turn it is to talk, and the other one, can stand together.
abbrev pub Legal : Shared → ℕ → ℕ → Pc → Pc → Type 0
Legal s t l opening_w opening_r = Quiet s t l
Legal s t l opening_w (waiting_r seen) = (seen ≡ s.w_counter) × Quiet s t l
Legal s t l opening_w closing_w = Quiet s t l
Legal s t l (waiting_w seen) opening_r = (seen ≡ s.r_counter) × Quiet s t l
Legal s t l (waiting_w seen) closing_w = (seen ≡ s.r_counter) × Quiet s t l
Legal s t l (waiting_w seen) listening = (seen < s.r_counter) × Quiet s t l
Legal s t l talking (waiting_r seen) = (seen < s.w_counter) × Quiet s t l
Legal s t l talking listening = Quiet s t l
Legal s t l closing_w closing_r = Quiet s t l
Legal s t l opening_r closing_r = Quiet s t l
Legal s t l (waiting_r seen) closing_r = (seen ≡ s.w_counter) × Quiet s t l
Legal s t l closing_w (waiting_r seen) = (seen < s.w_counter) × Pending s t l
Legal s t l closing_w listening = Pending s t l
Legal s t l opening_r (waiting_r seen) = (seen < s.w_counter) × Pending s t l
Legal s t l opening_r listening = Pending s t l
Legal s t l (waiting_r seen) (waiting_r before) =
    (seen ≡ s.w_counter) × (before < s.w_counter) × Pending s t l
Legal s t l (waiting_r seen) listening = (seen ≡ s.w_counter) × Pending s t l
Legal s t l _ _ = ⊥

pub record Talks (s : Shared) (t l : ℕ) (talker listener : Pc) : Type 0 where
  pub legal : Legal s t l talker listener
  pub back : s.said l ≡ s.heard t
  pub readers_eq : s.readers ≡ reads talker + reads listener
  pub writers_eq : s.writers ≡ writes talker + writes listener

take-all : (n : ℕ) (bytes : List ℕ) → length bytes ≤ n → take n bytes ≡ bytes
take-all zero [] h = refl
take-all (suc n) [] h = refl
take-all zero (b ∷ bytes) h = ground arith
take-all (suc n) (b ∷ bytes) h = ground (arith, take-all n bytes)

drop-all : (n : ℕ) (bytes : List ℕ) → length bytes ≤ n → drop n bytes ≡ []
drop-all zero [] h = refl
drop-all (suc n) [] h = refl
drop-all zero (b ∷ bytes) h = ground arith
drop-all (suc n) (b ∷ bytes) h = ground (arith, drop-all n bytes)

pub nonempty : (bytes : List ℕ) → 1 ≤ length bytes → is_empty bytes ≡ false
nonempty [] h = ground arith
nonempty (b ∷ bytes) h = refl

-- The same as a product.
abbrev pub Fields : Shared → ℕ → ℕ → Pc → Pc → Type 0
Fields s t l a b =
    Legal s t l a b
    × (s.said l ≡ s.heard t)
    × (s.readers ≡ reads a + reads b)
    × (s.writers ≡ writes a + writes b)

module _ (line : ℕ → List (List ℕ) → List ℕ)
    (some_text : (i : ℕ) (past : List (List ℕ)) → 1 ≤ length (line i past))
    (fits : (i : ℕ) (past : List (List ℕ)) → length (line i past) ≤ 80) (t l : ℕ)
    (apart : (t ≡ l) → ⊥) where
  pub talker-Fields :
      (s s' : Shared) (a b a' : Pc)
      → Talks s t l a b
      → step line t s a ≡ some (s', a')
      → Fields s' t l a' b
  unfolding step
  talker-Fields s s' opening_w opening_w a' k h = ground (arith, k, h)
  talker-Fields s s' talking opening_w a' k h = ground (arith, k)
  talker-Fields s s' talking _ a' k h =
      ground (arith, k, h, some_text t (s.said t), fits t (s.said t), apart)
  talker-Fields s s' _ opening_w a' k h = ground (arith, k, h)
  talker-Fields s s' _ _ a' k h = ground (arith, k, h)

  -- A read that finds a message takes it whole.
  pub step-listening :
      (s s' : Shared) (b' : Pc)
      → Pending s t l
      → step line l s listening ≡ some (s', b')
      → (s' ≡ record s { buffer = []; heard = update s.heard l (s.buffer ∷ s.heard l) })
        × (b' ≡ closing_r)
  unfolding step
  step-listening s s' b' p h =
      ground
        (arith, p, h, nonempty s.buffer p.1, take-all 80 s.buffer p.2, drop-all 80 s.buffer p.2)

  pub listener-Fields :
      (s s' : Shared) (a b b' : Pc)
      → Talks s t l a b
      → step line l s b ≡ some (s', b')
      → (Fields s' t l a b' ⊎ Fields s' l t b' a)
  unfolding step
  listener-Fields s s' opening_w closing_r b' k h = inr (ground (arith, k, h, apart))
  listener-Fields s s' _ closing_r b' k h = inr (ground (arith, k, h, apart))
  listener-Fields s s' closing_w listening b' k h =
      inl (ground (arith, k, step-listening s s' b' k.legal h, apart))
  listener-Fields s s' opening_r listening b' k h =
      inl (ground (arith, k, step-listening s s' b' k.legal h, apart))
  listener-Fields s s' (waiting_r seen) listening b' k h =
      inl (ground (arith, k, step-listening s s' b' k.legal.1 h, apart))
  listener-Fields s s' _ opening_r b' k h = inl (ground (arith, k, h, apart))
  listener-Fields s s' _ _ b' k h = inl (ground (arith, k, h, apart))
