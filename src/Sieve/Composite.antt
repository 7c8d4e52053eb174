-- ===== src/Sieve/Composite.antt =====
-- Composite numbers, by a proper divisor.
use c_operating_system.Prelude.{ℕ, ◌+◌, ◌%◌, ◌≤◌, ◌<◌, ◌≡◌, ◌≢◌, arith}
use native.Mathlib.Nat.{dvd_trans, dvd_of_mod-eq-zero, mod-eq-zero_of_dvd}

-- `d` is a proper divisor of `v`, and not 1.
abbrev pub Divides : ℕ → ℕ → Type 0
Divides d v = (2 ≤ d) × (d < v) × (v % d ≡ 0)

abbrev pub IsComposite : ℕ → Type 0
IsComposite v = (d : ℕ) × Divides d v

-- The next multiple, and the first one to cross out.
pub mod-next : (v d : ℕ) → v % d ≡ 0 → (v + d) % d ≡ 0
mod-next v d h = grind arith

pub mod-double : (d : ℕ) → (d + d) % d ≡ 0
mod-double d = grind arith

pub mod_trans : (a b c : ℕ) → b % a ≡ 0 → c % b ≡ 0 → c % a ≡ 0
mod_trans a b c h k =
    mod-eq-zero_of_dvd a (dvd_trans a (dvd_of_mod-eq-zero a h) (dvd_of_mod-eq-zero b k))

-- Between two multiples of `d` there is none.
pub mod-between : (v w d : ℕ) → v % d ≡ 0 → v < w → w < v + d → w % d ≢ 0
mod-between v w d h lt less = grind arith

pub Divides-trans : {a b c : ℕ} → Divides a b → Divides b c → Divides a c
Divides-trans {a} {b} {c} h k = (h.0, omega arith, mod_trans a b c h.2 k.2)
