-- ===== src/Sieve/Sundaram/Printing.antt =====
-- sundrama_atomic.c: the numbers that `showinfo` prints.
use mathlib.Core.Path.{subst}
use c_operating_system.Prelude.{
  ℕ, zero, suc, ◌+◌, ◌-◌, ◌*◌, ◌/◌, ◌%◌, ◌^◌, ◌≤◌, ◌<◌, ◌≡◌, ◌≢◌, ◌⊎◌, inl, inr, refl, sym, ◌∙◌,
  true, arith, ◌==◌, if◌then◌else◌, ℕ_discrete,
}
use c_operating_system.Sieve.Time.{Timespec}
use c_operating_system.Sieve.Eratosthenes.{Params, Shared}
use c_operating_system.Sieve.Report.Primes.{is_composite, is_composite_iff, primes_from}
use c_operating_system.Sieve.Report.Count.{kept, values, without_composites, values-print_primes}
use c_operating_system.Sieve.Report.Printing.{without_composites-kept}
use c_operating_system.Sieve.Sundaram.Invariant.{IsCell}
use c_operating_system.Sieve.Sundaram.Report.{mark, cleared, rewritten, showinfo}

-- An even place of `tmp` is not written, nor is one before the loop's range.
mark-other :
    (left index upper : ℕ) (number tmp : ℕ → ℕ) (k : ℕ)
    → index + left < 2 ^ 31
    → ((m : ℕ) → index ≤ m → k ≢ m * 2 + 1)
    → mark left index upper number tmp k ≡ tmp k
unfolding mark
mark-other zero index upper number tmp k small other = refl
mark-other (suc left) index upper number tmp k small other =
    mark-other left (index + 1) upper number _ k (omega arith) (λ m le. other m (omega arith))
    ∙ ground (arith, other index)

-- An odd place in the range is marked exactly if its cell is left.
mark-odd :
    (left index upper : ℕ) (number tmp : ℕ → ℕ) (m : ℕ)
    → index + left < 2 ^ 30
    → index ≤ m
    → m < index + left
    → m * 2 + 1 ≤ upper
    → mark left index upper number tmp (m * 2 + 1)
      ≡ (if number m == 0 then tmp (m * 2 + 1) else m * 2 + 1)
unfolding mark
mark-odd zero index upper number tmp m small le lt fits = absurd (omega arith)
mark-odd (suc left) index upper number tmp m small le lt fits = elim (ℕ_discrete index m) [
  | yes here ↦
      mark-other left (index + 1) upper number _ (m * 2 + 1) (omega arith)
        (λ n more. λ e. absurd (omega arith))
      ∙ rw here (ground arith)
  | no later ↦
      mark-odd left (index + 1) upper number _ m (omega arith) (omega arith) (omega arith) fits
      ∙ ground arith
]

kept-shift :
    (left index : ℕ) (number : ℕ → ℕ)
    → kept left (index + 2) number ≡ kept left index (λ k. number (k + 2))
unfolding kept
kept-shift zero index number = refl
kept-shift (suc left) index number =
    let next : index + 2 + 1 ≡ index + 1 + 2 = omega arith in
    rw (next, kept-shift left (index + 1) number) refl

kept-skip :
    (left index : ℕ) (number : ℕ → ℕ)
    → number index ≡ 0
    → kept (suc left) index number ≡ kept left (index + 1) number
unfolding kept
kept-skip left index number gone = rw gone refl

module _ (p : Params) (found number : ℕ → ℕ) (small : p.upper_bound < 2 ^ 16) where
  new : ℕ → ℕ
  new = rewritten p.upper_bound found number

  rewritten_one : 2 ≤ p.upper_bound → new 1 ≡ 0
  unfolding new rewritten
  rewritten_one two = ground (
    arith,
    mark-other p.upper_bound 1 p.upper_bound number (cleared p.upper_bound found) 1 (omega arith)
        (λ m le e. absurd (omega arith)),
  )

  rewritten_even :
      (k : ℕ) → 2 < k → k ≤ p.upper_bound → k % 2 ≡ 0 → (new k ≡ 0) × (is_composite k ≡ true)
  unfolding new rewritten
  rewritten_even k more le even = (
    ground (
      arith,
      mark-other p.upper_bound 1 p.upper_bound number (cleared p.upper_bound found) k (omega arith)
          (λ m le' e. absurd (omega arith)),
    ),
    (is_composite_iff k).1 (2, (omega arith, more, even)),
  )

  rewritten_odd :
      (m : ℕ)
      → 1 ≤ m
      → m * 2 + 1 ≤ p.upper_bound
      → new (m * 2 + 1) ≡ (if number m == 0 then 0 else m * 2 + 1)
  unfolding new rewritten
  rewritten_odd m some_m le = ground (
    arith,
    mark-odd p.upper_bound 1 p.upper_bound number (cleared p.upper_bound found) m (omega arith)
        some_m (omega arith) le,
  )

  rewritten_two : new 2 ≡ 2
  unfolding new rewritten
  rewritten_two = refl

  rewritten_half :
      (m : ℕ)
      → 1 ≤ m
      → m * 2 + 1 ≤ p.upper_bound
      → IsCell p (number m) m
      → (new (m * 2 + 1) ≡ m * 2 + 1) ⊎ ((new (m * 2 + 1) ≡ 0) × (is_composite (m * 2 + 1) ≡ true))
  rewritten_half m some_m le (inl same) = inl (ground (arith, rewritten_odd m some_m le))
  rewritten_half m some_m le (inr (gone, composite)) =
      let order : m * 2 + 1 ≡ 2 * m + 1 = omega arith in
      inr (
        ground (arith, rewritten_odd m some_m le),
        (is_composite_iff (m * 2 + 1)).1 (rw order composite),
      )

  -- What is printed at an index is the index, or nothing and the index is composite.
  rewritten-IsCell :
      ((m : ℕ) → m ≤ p.upper_bound → IsCell p (number m) m)
      → (k : ℕ) → 2 ≤ k
      → k ≤ p.upper_bound
      → (new k ≡ k) ⊎ ((new k ≡ 0) × (is_composite k ≡ true))
  rewritten-IsCell cell k two le = elim (ℕ_discrete k 2) [
    | yes e ↦ inl (rw e rewritten_two)
    | no more ↦ elim (ℕ_discrete (k % 2) 0) [
      | yes even ↦ inr (rewritten_even k (omega arith) le even)
      | no odd ↦
          let e : k ≡ k / 2 * 2 + 1 = omega arith in
          subst (λ v. (new v ≡ v) ⊎ ((new v ≡ 0) × (is_composite v ≡ true))) (sym e)
            (rewritten_half (k / 2) (omega arith) (omega arith) (cell (k / 2) (omega arith)))
    ]
  ]

  new-kept :
      2 ≤ p.upper_bound
      → ((m : ℕ) → m ≤ p.upper_bound → IsCell p (number m) m)
      → without_composites (kept p.upper_bound 1 new) ≡ primes_from (p.upper_bound - 1) 2
  new-kept two cell =
      let first : p.upper_bound ≡ suc (p.upper_bound - 1) = omega arith in
      let skipped : kept p.upper_bound 1 new ≡ kept (p.upper_bound - 1) 2 new =
        subst (λ n. kept n 1 new ≡ kept (p.upper_bound - 1) 2 new) (sym first)
          (kept-skip (p.upper_bound - 1) 1 new (rewritten_one two)) in
      rw (skipped, kept-shift (p.upper_bound - 1) 0 new)
        (without_composites-kept (p.upper_bound - 1) 0 (λ k. new (k + 2))
          λ k le lt. rewritten-IsCell cell (k + 2) (omega arith) (omega arith))

-- For an upper bound from 2 to below 2^16 and an array whose cells are safe: the numbers that
-- `showinfo` prints without the composite ones are the primes up to the bound, in order.
pub sundaram_printed :
    (p : Params) (found : ℕ → ℕ) (start_module : Timespec) (s : Shared)
    → 2 ≤ p.upper_bound
    → p.upper_bound < 2 ^ 16
    → ((m : ℕ) → m ≤ p.upper_bound → IsCell p (s.number m) m)
    → without_composites (values (showinfo p found start_module s).primes)
      ≡ primes_from (p.upper_bound - 1) 2
unfolding showinfo new
sundaram_printed p found start_module s two small cell =
    rw (values-print_primes p.upper_bound 1 (rewritten p.upper_bound found s.number) 0)
      (new-kept p found s.number small two cell)
