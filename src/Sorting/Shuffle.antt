-- ===== src/Sorting/Shuffle.antt =====
-- The exchanges of entries by which sort.c moves its values.
use c_operating_system.Prelude.{◌⊎◌, inl, inr, Bool-cases, ℕ, ◌≤◌, ◌<◌, ◌≡◌, refl, ◌==◌, arith}
use c_operating_system.Threads.{update}

abbrev pub exchange : {D : Type 0} → ℕ → ℕ → (ℕ → D) → ℕ → D
exchange a b A = update (update A a (A b)) b (A a)

-- The array at the end comes from the first by exchanges of entries in the slice from s to e.
pub data Shuffled {D : Type 0} (s e : ℕ) : (ℕ → D) → (ℕ → D) → Type 0 where
  same : (A : ℕ → D) → Shuffled s e A A
  further :
      (A A' : ℕ → D) (a b : ℕ)
      → s ≤ a
      → a ≤ e
      → s ≤ b
      → b ≤ e
      → Shuffled s e A A'
      → Shuffled s e A (exchange a b A')

module _ {D : Type 0} {s e : ℕ} where
  pub shuffled_trans :
      {A A' A'' : ℕ → D} → Shuffled s e A A' → Shuffled s e A' A'' → Shuffled s e A A''
  shuffled_trans p (same A) = p
  shuffled_trans p (further A A' a b h h' i i' q) = further _ A' a b h h' i i' (shuffled_trans p q)

  pub shuffled_widen :
      {s' e' : ℕ} {A A' : ℕ → D} → s' ≤ s → e ≤ e' → Shuffled s e A A' → Shuffled s' e' A A'
  shuffled_widen l l' (same A) = same A
  shuffled_widen l l' (further A A' a b h h' i i' p) =
      further A A' a b (omega (arith, l, h)) (omega (arith, l', h')) (omega (arith, l, i))
        (omega (arith, l', i')) (shuffled_widen l l' p)

  pub shuffled_outside :
      {A A' : ℕ → D} → Shuffled s e A A' → (j : ℕ) → (j < s) ⊎ (e < j) → A' j ≡ A j
  shuffled_outside (same A) j o = refl
  shuffled_outside (further A A' a b h h' i i' p) j o =
      ground (arith, h, h', i, i', o, shuffled_outside p j o)

  -- What holds of each value in the slice holds of each one after.
  pub shuffled_all :
      {A A' : ℕ → D} (P : D → Type 0)
      → Shuffled s e A A'
      → ((j : ℕ) → s ≤ j → j ≤ e → P (A j))
      → (j : ℕ) → s ≤ j
      → j ≤ e
      → P (A' j)
  shuffled_all P (same A) all j l l' = all j l l'
  shuffled_all P (further A A' a b h h' i i' p) all j l l' =
      let before = shuffled_all P p all in
      elim (Bool-cases (b == j)) [
        | inl e1 ↦ rw e1 (before a h h')
        | inr e1 ↦ elim (Bool-cases (a == j)) [
          | inl e2 ↦ rw (e1, e2) (before b i i')
          | inr e2 ↦ rw (e1, e2) (before j l l')
        ]
      ]
