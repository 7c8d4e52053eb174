-- ===== src/Threads/Total.antt =====
-- Sums of a weight over the threads, and how they change when one thread moves.
use c_operating_system.Prelude.{
  ℕ, zero, suc, ◌+◌, ◌*◌, ◌≤◌, ◌<◌, ◌≡◌, arith, dec_lt, ltb, if◌then◌else◌,
}
use c_operating_system.Threads.{update}

module _ {A : Type 0} (w : A → ℕ) where
  unfoldable pub total : ℕ → (ℕ → A) → ℕ
  total zero f = 0
  total (suc n) f = w (f n) + total n f

  -- What the sum gains and loses when thread `i`, one of the first `n` or not, moves.
  update_balance :
      (n i : ℕ) (f : ℕ → A) (a : A)
      → total n (update f i a) + (if ltb i n then w (f i) else 0)
        ≡ total n f + (if ltb i n then w a else 0)
  unfolding total
  update_balance zero i f a = ground arith
  update_balance (suc n) i f a = ground (arith, update_balance n i f a)

  -- The sum changes by the weight of the thread that moves.
  pub total-update :
      (n i : ℕ) (f : ℕ → A) (a : A) → i < n → total n (update f i a) + w (f i) ≡ total n f + w a
  total-update n i f a lt = ground (arith, update_balance n i f a)

  pub total-update_beyond :
      (n i : ℕ) (f : ℕ → A) (a : A) → n ≤ i → total n (update f i a) ≡ total n f
  total-update_beyond n i f a le = ground (arith, update_balance n i f a)

  pub total-le-total :
      (n : ℕ) (f g : ℕ → A) → ((i : ℕ) → i < n → w (f i) ≤ w (g i)) → total n f ≤ total n g
  unfolding total
  total-le-total zero f g h = omega arith
  total-le-total (suc n) f g h =
      omega (arith, h n (omega arith), total-le-total n f g (λ i lt. h i (omega arith)))

  pub total-cong :
      (n : ℕ) (f g : ℕ → A) → ((i : ℕ) → i < n → w (f i) ≡ w (g i)) → total n f ≡ total n g
  unfolding total
  total-cong zero f g h = omega arith
  total-cong (suc n) f g h =
      omega (arith, h n (omega arith), total-cong n f g (λ i lt. h i (omega arith)))

  pub total-le : (n : ℕ) (f : ℕ → A) → ((a : A) → w a ≤ 1) → total n f ≤ n
  unfolding total
  total-le zero f small = omega arith
  total-le (suc n) f small = omega (arith, small (f n), total-le n f small)

  -- Every thread has the same weight.
  pub total-eq-mul : (k n : ℕ) (f : ℕ → A) → ((i : ℕ) → i < n → w (f i) ≡ k) → total n f ≡ n * k
  unfolding total
  total-eq-mul k zero f h = omega arith
  total-eq-mul k (suc n) f h =
      grind (arith, h n (omega arith), total-eq-mul k n f (λ i lt. h i (omega arith)))

  pub total-eq-zero : (n : ℕ) (f : ℕ → A) → ((i : ℕ) → w (f i) ≡ 0) → total n f ≡ 0
  total-eq-zero n f none_weighs = omega (arith, total-eq-mul 0 n f (λ i lt. none_weighs i))

  pub total-le-mul : (k n : ℕ) (f : ℕ → A) → ((i : ℕ) → w (f i) ≤ k) → total n f ≤ n * k
  unfolding total
  total-le-mul k zero f h = omega arith
  total-le-mul k (suc n) f h = grind (arith, h n, total-le-mul k n f h)

  pub total-ge-mul : (k n : ℕ) (f : ℕ → A) → ((i : ℕ) → i < n → k ≤ w (f i)) → n * k ≤ total n f
  unfolding total
  total-ge-mul k zero f h = omega arith
  total-ge-mul k (suc n) f h =
      grind (arith, h n (omega arith), total-ge-mul k n f (λ i lt. h i (omega arith)))

  total-le-below : (k n : ℕ) (f : ℕ → A) → ((i : ℕ) → i < n → w (f i) ≤ k) → total n f ≤ n * k
  unfolding total
  total-le-below k zero f h = omega arith
  total-le-below k (suc n) f h =
      grind (arith, h n (omega arith), total-le-below k n f (λ i lt. h i (omega arith)))

  -- A sum that reaches its greatest value has every weight at its greatest.
  pub total-full :
      (k n : ℕ) (f : ℕ → A)
      → ((i : ℕ) → i < n → w (f i) ≤ k)
      → n * k ≤ total n f
      → (i : ℕ) → i < n
      → w (f i) ≡ k
  unfolding total
  total-full k zero f small h i lt = elim lt [ ]
  total-full k (suc n) f small h i lt = elim (dec_lt i n) [
    | yes below ↦
        total-full k n f (λ j b. small j (omega arith)) (grind (arith, small n (omega arith))) i
          below
    | no last ↦
        let e : i ≡ n = omega arith in
        rw e (
          grind (arith, small n (omega arith), total-le-below k n f (λ j b. small j (omega arith))))
  ]
