-- ===== src/PageArray/Order.antt =====
-- kernel_memory.c: the order of a number of pages.
use c_operating_system.Prelude.{
  ℕ, zero, suc, ◌+◌, ◌-◌, ◌*◌, ◌/◌, ◌^◌, ◌≤◌, ◌<◌, ◌≡◌, refl, Bool, true, false, ◌&&◌, arith, ◌==◌,
  Bool-cases, inl, inr, dec_lt, ℕ_discrete,
}
use Prim.Native.Nat.{bit_and}
use native.Mathlib.Nat.{pow-suc}
use c_operating_system.Prelude.Word.{add32}
use c_operating_system.PageArray.{shift_out, my_get_order}

-- `k` is the least exponent of a power of two above `value`.
record IsLog (value k : ℕ) : Type 0 where
  above : value < 2 ^ k
  least : (j : ℕ) → value < 2 ^ j → k ≤ j

IsLog-half : (value k : ℕ) → 0 < value → IsLog (value / 2) k → IsLog value (suc k)
IsLog-half value k more log = record {
  above = omega (arith, log.above, pow-suc 2 k);
  least = λ j lt. below j lt;
}
  where
    below : (j : ℕ) → value < 2 ^ j → suc k ≤ j
    below zero lt = absurd (omega arith)
    below (suc j) lt =
        let e : 2 ^ suc j ≡ 2 ^ j * 2 = pow-suc 2 j in omega (arith, log.least j (omega (arith, e)))

shift_out_lem :
    (left value shifts : ℕ)
    → value < 2 ^ left
    → shifts + left < 2 ^ 32
    → (k : ℕ) × (shift_out left value shifts ≡ shifts + k) × IsLog value k
unfolding shift_out
shift_out_lem zero value shifts small few =
    (0, omega arith, record { above = small; least = λ j lt. omega arith })
shift_out_lem (suc left) value shifts small few = elim (ℕ_discrete value 0) [
  | yes e ↦ (0, ground arith, record { above = omega arith; least = λ j lt. omega arith })
  | no more ↦
      let e : 2 ^ suc left ≡ 2 ^ left * 2 = pow-suc 2 left in
      let (k, reached, log) =
        shift_out_lem left (value / 2) (add32 shifts 1) (omega (arith, e)) (omega arith) in
      (suc k, ground arith, IsLog-half value k (omega arith) log)
]

powers : ℕ → Bool
powers zero = true
powers (suc k) = (bit_and (2 ^ k) (2 ^ k - 1) == 0) && powers k

powers_table : powers 32 ≡ true
unfolding powers
powers_table = refl

powers_all : (n k : ℕ) → powers n ≡ true → k < n → (bit_and (2 ^ k) (2 ^ k - 1) == 0) ≡ true
unfolding powers
powers_all zero k h lt = absurd (omega arith)
powers_all (suc n) k h lt = elim (ℕ_discrete k n) [
  | yes e ↦ rw e (ground arith)
  | no less ↦ powers_all n k (ground arith) (omega arith)
]

order-IsLog :
    (value : ℕ)
    → 1 ≤ value
    → value < 2 ^ 32
    → (bit_and value (value - 1) == 0) ≡ true
    → IsLog (value - 1) (my_get_order value)
unfolding my_get_order
order-IsLog value some_page small power =
    let (k, reached, log) = shift_out_lem 32 (value - 1) 0 (omega arith) (omega arith) in
    let order : my_get_order value ≡ k = ground arith in rw (my_get_order, order) log

other-IsLog :
    (value : ℕ)
    → 1 ≤ value
    → value < 2 ^ 32
    → (bit_and value (value - 1) == 0) ≡ false
    → IsLog value (my_get_order value)
unfolding my_get_order
other-IsLog value some_page small other =
    let (k, reached, log) = shift_out_lem 32 value 0 (omega arith) (omega arith) in
    let order : my_get_order value ≡ k = ground arith in rw (my_get_order, order) log

-- A power of two passes the test on the digits.
other-least :
    (value k : ℕ)
    → value < 2 ^ 32
    → (bit_and value (value - 1) == 0) ≡ false
    → IsLog value (my_get_order value)
    → value ≤ 2 ^ k
    → my_get_order value ≤ k
other-least value k small other log le = elim (ℕ_discrete value (2 ^ k)) [
  | no less ↦ log.least k (omega arith)
  | yes e ↦ elim (dec_lt k 32) [
    | yes lt ↦
        let power : (bit_and value (value - 1) == 0) ≡ true =
          rw e (powers_all 32 k powers_table lt) in
        absurd (ground arith)
    | no more ↦ omega (arith, log.least 32 small)
  ]
]

-- `my_get_order` of a number of pages from 1 to below 2^32 is the least order whose block of pages
-- has room for them.
pub my_get_order_least :
    (value : ℕ)
    → 1 ≤ value
    → value < 2 ^ 32
    → (value ≤ 2 ^ my_get_order value) × ((k : ℕ) → value ≤ 2 ^ k → my_get_order value ≤ k)
my_get_order_least value some_page small = elim (Bool-cases (bit_and value (value - 1) == 0)) [
  | inl power ↦
      let log = order-IsLog value some_page small power in
      (omega (arith, log.above), λ k le. log.least k (omega arith))
  | inr other ↦
      let log = other-IsLog value some_page small other in
      (omega (arith, log.above), λ k le. other-least value k small other log le)
]
