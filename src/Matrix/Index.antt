-- ===== src/Matrix/Index.antt =====
-- The indices of the entries of a matrix: they fit an `unsigned`, and two entries have two indices.
use native.Mathlib.Nat.{mul-le-mul, mul-le-mul_right}
use c_operating_system.Prelude.{ℕ, suc, ◌+◌, ◌*◌, ◌≤◌, ◌<◌, ◌≡◌, ◌⊎◌, inl, inr, ap, arith}
use c_operating_system.Matrix.{sqrt_of_uint32_max, squared_size, entry}

pub last-or-before : (i k : ℕ) → i < suc k → (i ≡ k) ⊎ (i < k)
last-or-before i k h = omega arith

module _ (n : ℕ) (small : n ≤ sqrt_of_uint32_max) where
  square_small : n * n ≤ 4294967296
  square_small = omega (arith, mul-le-mul small small)

  row-le : (row : ℕ) → row < n → row * n + n ≤ n * n
  row-le row h = omega (arith, mul-le-mul_right n h)

  pub entry-eq : (row col : ℕ) → row < n → col < n → entry n row col ≡ row * n + col
  unfolding entry
  entry-eq row col h h' = omega (arith, row-le row h, square_small)

  pub entry-lt : (row col : ℕ) → row < n → col < n → entry n row col < n * n
  entry-lt row col h h' = omega (arith, entry-eq row col h h', row-le row h)

  lt-or-ge : (a b : ℕ) → (a < b) ⊎ (b ≤ a)
  lt-or-ge a b = omega arith

  pub entry-inj :
      (row col row' col' : ℕ)
      → row < n
      → col < n
      → row' < n
      → col' < n
      → entry n row col ≡ entry n row' col'
      → (row ≡ row') × (col ≡ col')
  entry-inj row col row' col' h i h' i' e =
      let before = λ (a b : ℕ) (lt : a < b). mul-le-mul_right {m = suc a} {n = b} n lt in
      let sums : row * n + col ≡ row' * n + col' =
        omega (arith, entry-eq row col h i, entry-eq row' col' h' i', e) in
      let rows : row ≡ row' = elim (lt-or-ge row row') [
        | inl lt ↦ absurd (omega (arith, before row row' lt, sums))
        | inr ge ↦ elim (lt-or-ge row' row) [
          | inl lt ↦ absurd (omega (arith, before row' row lt, sums))
          | inr le ↦ omega arith
        ]
      ] in
      (rows, omega (arith, sums, ap (λ r. r * n) rows))

pub entry-allocated :
    (n : ℕ)
    → n < sqrt_of_uint32_max
    → (row col : ℕ) → row < n
    → col < n
    → entry n row col < squared_size n
entry-allocated n small row col h h' =
    let most : n ≤ 65535 = omega arith in
    omega (arith, mul-le-mul most most, entry-lt n (omega arith) row col h h')
