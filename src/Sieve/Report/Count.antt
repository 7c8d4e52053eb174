-- ===== src/Sieve/Report/Count.antt =====
-- `showinfo`: its loops over the array find the same numbers.
use c_operating_system.Prelude.{
  ℕ, zero, suc, ◌+◌, ◌%◌, ◌^◌, ◌≤◌, ◌<◌, ◌≡◌, refl, ap, ◌∙◌, true, not, ◌&&◌, List, [], ◌∷◌, ◌++◌,
  length, arith, ltb, ◌==◌, if◌then◌else◌, Bool-cases, inl, inr, Bool,
}
use c_operating_system.Prelude.Word.{add32}
use c_operating_system.Sieve.Report.{
  Output, prime, newline, count_primes, print_prime, print_primes,
}
use c_operating_system.Sieve.Report.Primes.{is_composite}

-- The numbers of a run of the array that are not 0.
unfoldable pub kept : ℕ → ℕ → (ℕ → ℕ) → List ℕ
kept zero index number = []
kept (suc left) index number =
    let rest : List ℕ = kept left (index + 1) number in
    if number index == 0 then rest else number index ∷ rest

-- The numbers that are printed, in order.
unfoldable pub values : List Output → List ℕ
values [] = []
values (prime v ∷ out) = v ∷ values out
values (newline ∷ out) = values out

-- The printed lines have eight numbers each, and the last one fewer; `n` are on this line so far.
unfoldable pub lined : ℕ → List Output → Bool
lined n [] = ltb n 8
lined n (prime v ∷ out) = ltb n 8 && lined (n + 1) out
lined n (newline ∷ out) = (n == 8) && lined 0 out

unfoldable pub without_composites : List ℕ → List ℕ
without_composites [] = []
without_composites (v ∷ vs) =
    let rest : List ℕ = without_composites vs in if is_composite v then rest else v ∷ rest

pub count_primes_lem :
    (left index : ℕ) (number : ℕ → ℕ) (isprime : ℕ)
    → isprime + left < 2 ^ 32
    → count_primes left index number isprime ≡ isprime + length (kept left index number)
unfolding count_primes kept
count_primes_lem zero index number isprime few = omega arith
count_primes_lem (suc left) index number isprime few = elim (Bool-cases (number index == 0)) [
  | inl e ↦ rw e (count_primes_lem left (index + 1) number isprime (omega arith))
  | inr e ↦
      rw e (omega (arith, count_primes_lem left (index + 1) number (add32 isprime 1) (omega arith)))
]

pub length-kept : (left index : ℕ) (number : ℕ → ℕ) → length (kept left index number) ≤ left
unfolding kept
length-kept zero index number = omega arith
length-kept (suc left) index number = ground (arith, length-kept left (index + 1) number)

values-print_prime :
    (value index iter : ℕ) (out : List Output)
    → values (print_prime value index iter ++ out) ≡ value ∷ values out
unfolding values print_prime
values-print_prime value index iter out = elim (Bool-cases (not (index == 0) && (iter % 8 == 0))) [
  | inl e ↦ rw e refl
  | inr e ↦ rw e refl
]

pub values-print_primes :
    (left index : ℕ) (number : ℕ → ℕ) (iter : ℕ)
    → values (print_primes left index number iter) ≡ kept left index number
unfolding values print_primes kept
values-print_primes zero index number iter = refl
values-print_primes (suc left) index number iter = elim (Bool-cases (number index == 0)) [
  | inl e ↦ rw e (values-print_primes left (index + 1) number iter)
  | inr e ↦ rw e (
      values-print_prime (number index) index (add32 iter 1) _
      ∙ ap (λ vs. number index ∷ vs) (values-print_primes left (index + 1) number (add32 iter 1)))
]

lined-print_prime :
    (value index iter : ℕ) (out : List Output)
    → iter ≤ index
    → index < 2 ^ 31
    → lined (add32 iter 1 % 8) out ≡ true
    → lined (iter % 8) (print_prime value index (add32 iter 1) ++ out) ≡ true
unfolding lined print_prime
lined-print_prime value index iter out le small h =
    elim (Bool-cases (not (index == 0) && (add32 iter 1 % 8 == 0))) [
      | inl e ↦
          let full : iter % 8 + 1 ≡ 8 = ground arith in
          let start : add32 iter 1 % 8 ≡ 0 = ground arith in
          let here : lined 0 out ≡ true = rw start at h in rw e (rw (full, here) (ground arith))
      | inr e ↦
          let next : iter % 8 + 1 ≡ add32 iter 1 % 8 = ground arith in
          rw e (rw (next, h) (ground arith))
    ]

pub lined-print_primes :
    (left index : ℕ) (number : ℕ → ℕ) (iter : ℕ)
    → iter ≤ index
    → index + left < 2 ^ 31
    → lined (iter % 8) (print_primes left index number iter) ≡ true
unfolding lined print_primes
lined-print_primes zero index number iter le small = ground arith
lined-print_primes (suc left) index number iter le small = elim (Bool-cases (number index == 0)) [
  | inl e ↦ rw e (lined-print_primes left (index + 1) number iter (omega arith) (omega arith))
  | inr e ↦ rw e (
      lined-print_prime (number index) index iter _ le (omega arith)
        (lined-print_primes left (index + 1) number (add32 iter 1) (omega arith) (omega arith)))
]
