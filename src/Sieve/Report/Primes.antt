-- ===== src/Sieve/Report/Primes.antt =====
-- The primes up to a bound, by trial division: what the sieve has to find.
use c_operating_system.Prelude.{
  ℕ, zero, suc, ◌+◌, ◌%◌, ◌<◌, ◌≡◌, ◌↔◌, Bool, true, false, ◌&&◌, ◌||◌, List, [], ◌∷◌, arith, leb,
  ltb, ◌==◌, if◌then◌else◌, Bool-cases, inl, inr,
}
use c_operating_system.Sieve.Composite.{Divides, IsComposite}

-- Some number below `d` divides `v` properly.
unfoldable pub divisor_below : ℕ → ℕ → Bool
divisor_below zero v = false
divisor_below (suc d) v = (leb 2 d && ltb d v && (v % d == 0)) || divisor_below d v

abbrev pub is_composite : ℕ → Bool
is_composite v = divisor_below v v

-- The primes among `left` numbers from `v` on.
unfoldable pub primes_from : ℕ → ℕ → List ℕ
primes_from zero v = []
primes_from (suc left) v =
    let rest : List ℕ = primes_from left (v + 1) in if is_composite v then rest else v ∷ rest

divisor_found : (n v : ℕ) → divisor_below n v ≡ true → IsComposite v
unfolding divisor_below
divisor_found zero v h = absurd (ground arith)
divisor_found (suc d) v h = elim (Bool-cases (leb 2 d && ltb d v && (v % d == 0))) [
  | inl e ↦ (d, ground arith)
  | inr e ↦ divisor_found d v (ground arith)
]

divisor_counts : (n v d : ℕ) → d < n → Divides d v → divisor_below n v ≡ true
unfolding divisor_below
divisor_counts zero v d lt h = absurd (omega arith)
divisor_counts (suc n) v d lt h = ground (arith, divisor_counts n v d)

pub is_composite_iff : (v : ℕ) → (is_composite v ≡ true) ↔ IsComposite v
is_composite_iff v = (divisor_found v v, λ (d, h). divisor_counts v v d (omega (arith, h.1)) h)
