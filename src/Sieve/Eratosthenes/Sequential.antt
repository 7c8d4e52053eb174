-- ===== src/Sieve/Eratosthenes/Sequential.antt =====
-- atomic.c with one thread: what the array holds at each place of the program.
use c_operating_system.Prelude.{
  ℕ, ◌+◌, ◌-◌, ◌%◌, ◌^◌, ◌≤◌, ◌<◌, ◌≡◌, ◌≢◌, inl, inr, Bool, true, false, Option, none, some, arith,
  ltb, leb, Bool-cases, ◌&&◌, ◌*◌, ◌==◌, if◌then◌else◌, dec_lt, ℕ_discrete,
}
use c_operating_system.Prelude.Word.{add32, ulong}
use c_operating_system.Sieve.Composite.{Divides, IsComposite, Divides-trans, mod-between}
use c_operating_system.Sieve.Eratosthenes.{
  Params, Shared, Pc, entering, arriving, leaving, spinning, claiming, reading, counting, scanning,
  unlocking, checking, crossing, ending, finished, last, step, take, mybarrier, scan, check, cross,
}
use c_operating_system.Sieve.Eratosthenes.Invariant.{IsSmall, Fits}

module _ (p : Params) where
  -- Every proper multiple of the numbers at positions below `m` is crossed out.
  abbrev pub Done : Shared → ℕ → Type 0
  Done s m = (k d : ℕ) → k < last p → Divides d (k + 2) → d < m + 2 → s.number k ≡ 0

  -- What is crossed out is a multiple of a number at a position below `m`.
  abbrev pub Zero : Shared → ℕ → Type 0
  Zero s m = (k : ℕ) → k < last p → s.number k ≡ 0 → (d : ℕ) × Divides d (k + 2) × (d < m + 2)

  -- The positions between `b` and `cur` were passed because they were crossed out.
  abbrev pub Gap : Shared → ℕ → Type 0
  Gap s b = (k : ℕ) → k < last p → b < k → k < s.cur → (d : ℕ) × Divides d (k + 2) × (d < b + 2)

  -- The multiples of `d` below position `x` are crossed out.
  abbrev pub Part : Shared → ℕ → ℕ → Type 0
  Part s x d = (k : ℕ) → k < last p → k < x → Divides d (k + 2) → s.number k ≡ 0

  abbrev pub All : Shared → Type 0
  All s = (k : ℕ) → k < last p → IsComposite (k + 2) → s.number k ≡ 0

  abbrev pub Sofar : Shared → Pc → Type 0
  Sofar s (entering flag) = if flag then All s else Done s s.cur × Zero s s.cur
  Sofar s (arriving flag) = if flag then All s else Done s s.cur × Zero s s.cur
  Sofar s (leaving flag) = if flag then All s else Done s s.cur × Zero s s.cur
  Sofar s (spinning flag) = if flag then All s else Done s s.cur × Zero s s.cur
  Sofar s claiming = Done s s.cur × Zero s s.cur
  Sofar s reading = Done s s.cur × Zero s s.cur
  Sofar s (counting b) = Done s b × Zero s b
  Sofar s (scanning b) = Done s b × Zero s b × Gap s b
  Sofar s (unlocking b) = Done s b × Zero s b × Gap s b
  Sofar s (checking b) = Done s b × Zero s b × Gap s b
  Sofar s (crossing x d) = Done s (d - 2) × Zero s (d - 1) × Gap s (d - 2) × Part s x d
  Sofar s ending = All s
  Sofar s finished = All s

-- A multiple of a number that was passed is a multiple of one at a position up to `b`.
module _ (p : Params) (s : Shared) (b : ℕ) (complete : Done p s b) (gap : Gap p s b) where
  gap-Done : (k d : ℕ) → k < last p → Divides d (k + 2) → b + 2 < d → d < s.cur + 2 → s.number k ≡ 0
  gap-Done k d lt div above below =
      let (d', div', small) = gap (d - 2) (omega arith) (omega arith) (omega arith) in
      let same : d - 2 + 2 ≡ d = omega arith in
      complete k d' lt (Divides-trans (rw same at div') div) small

  gap-All : last p ≤ s.cur → All p s
  gap-All ended k lt (d, div) = elim (dec_lt b k) [
    | yes above ↦
        let (d', div', small) = gap k lt above (omega arith) in complete k d' lt div' small
    | no below ↦ complete k d lt div (omega arith)
  ]

-- The first multiple of `b + 2` to cross out is the one at position `b + (b + 2)`.
first_crossing :
    (p : Params) (s : Shared) (b x d : ℕ)
    → d ≡ b + 2
    → x ≡ b + d
    → Done p s b × Zero p s b × Gap p s b
    → Done p s (d - 2) × Zero p s (d - 1) × Gap p s (d - 2) × Part p s x d
first_crossing p s b x d ed ex (complete, zeros, gap) = (
  (λ k e lt div below. complete k e lt div (omega arith)),
  (λ k lt is_zero. let (e, div, below) = zeros k lt is_zero in (e, div, omega arith)),
  (λ k lt above below. let (e, div, under) = gap k lt (omega arith) below in (e, div, omega arith)),
  (λ k lt below div. absurd (mod-between d (k + 2) d (grind arith) div.1 (omega arith) div.2)),
)

module _ (p : Params) where
  abbrev pub After : Option (Shared × Pc) → Type 0
  After none = Unit
  After (some (s, l)) = Sofar p s l

  take-After : (s : Shared) (l : Pc) → Sofar p (record s { lock = true }) l → After (take s l)
  take-After s l sofar = elim (Bool-cases s.lock) [ inl e ↦ rw e tt | inr e ↦ rw e sofar ]

  mybarrier-After :
      (flag : Bool) (s : Shared) → Sofar p s (spinning flag) → Sofar p s (mybarrier p flag s)
  unfolding mybarrier
  mybarrier-After true s sofar =
      elim (Bool-cases (ltb (ulong s.arrive_barrier) (p.num_threads * 2 % 2 ^ 64))) [
        | inl e ↦ rw e sofar
        | inr e ↦ rw e sofar
      ]
  mybarrier-After false s sofar = elim (Bool-cases (ltb (ulong s.arrive_barrier) p.num_threads)) [
    | inl e ↦ rw e sofar
    | inr e ↦ rw e sofar
  ]

  module _ (small : IsSmall p) where
    counting-After :
        (s : Shared) (b : ℕ)
        → s.cur < 2 ^ 30
        → b ≡ s.cur
        → Sofar p s (counting b)
        → Sofar p (record s { cur = add32 s.cur 1 }) (scanning b)
    counting-After s b bound fit (complete, zeros) =
        (complete, zeros, λ k lt above below. absurd (omega arith))

    scan-After :
        (s : Shared) (b : ℕ) → s.cur < 2 ^ 30 → Sofar p s (scanning b) → After (some (scan p b s))
    unfolding scan
    scan-After s b bound (complete, zeros, gap) =
        elim (Bool-cases ((s.number s.cur == 0) && ltb (ulong s.cur) (last p))) [
          | inl e ↦ rw e (
            complete,
            zeros,
            λ k lt above below. elim (ℕ_discrete k s.cur) [
              | yes same ↦ zeros k lt (ground arith)
              | no other ↦ gap k lt above (omega arith)
            ],
          )
          | inr e ↦ rw e (complete, zeros, gap)
        ]

    check-After :
        (s : Shared) (b : ℕ)
        → s.cur < 2 ^ 30
        → b < s.cur
        → Sofar p s (checking b)
        → Sofar p s (check p b s)
    unfolding check
    check-After s b bound fit (complete, zeros, gap) =
        elim (Bool-cases (leb (last p) (ulong s.cur))) [
          | inl e ↦ rw e (gap-All p s b complete gap (ground arith))
          | inr e ↦ rw e (
              first_crossing p s b (add32 b (add32 b 2)) (add32 b 2) (omega arith) (omega arith)
                (complete, zeros, gap))
        ]

    cross-After :
        (s : Shared) (x d : ℕ)
        → s.cur < 2 ^ 30
        → Fits p s.cur (crossing x d)
        → Sofar p s (crossing x d)
        → After (some (cross p 0 x d s))
    unfolding cross
    cross-After s x d bound fit (complete, zeros, gap, part) =
        elim (Bool-cases (ltb (ulong x) (last p))) [
          | inl e ↦ rw e (
            (λ k e' lt div below. ground (arith, complete k e' lt div below)),
            (λ k lt is_zero. elim (ℕ_discrete x k) [
              | yes same ↦ (d, (fit.0, omega arith, crossed k same), omega arith)
              | no other ↦ zeros k lt (ground arith)
            ]),
            gap,
            (λ k lt below div. elim (ℕ_discrete x k) [
              | yes same ↦ ground arith
              | no other ↦ ground (arith, part k lt (before k e lt other below div) div)
            ]),
          )
          | inr e ↦ rw e (
            (λ k e' lt div below. elim (dec_lt e' d) [
              | yes less ↦ complete k e' lt div (omega arith)
              | no more ↦ elim (ℕ_discrete e' d) [
                | yes same ↦ part k lt (ground arith) (rw same at div)
                | no other ↦
                    gap-Done p s (d - 2) complete gap k e' lt div (omega arith) (omega arith)
              ]
            ]),
            (λ k lt is_zero. let (e', div, below) = zeros k lt is_zero in (e', div, omega arith)),
          )
        ]
      where
        crossed : (k : ℕ) → x ≡ k → (k + 2) % d ≡ 0
        crossed k same = rw same at fit.5

        before :
            (k : ℕ)
            → ltb (ulong x) (last p) ≡ true
            → k < last p
            → x ≢ k
            → k < add32 x d
            → Divides d (k + 2)
            → k < x
        before k e lt other below div = elim (dec_lt k x) [
          | yes less ↦ less
          | no more ↦ absurd (
              mod-between (x + 2) (k + 2) d fit.5 (omega arith) (ground (arith, small.fits_int))
                div.2)
        ]

    -- The step of the only thread keeps what its place says of the array.
    pub step-After :
        (s : Shared) (l : Pc) → s.cur < 2 ^ 30 → Fits p s.cur l → Sofar p s l → After (step p 0 s l)
    unfolding step
    step-After s (entering true) bound fit sofar = take-After s (arriving true) sofar
    step-After s (entering false) bound fit sofar = take-After s (arriving false) sofar
    step-After s (arriving true) bound fit sofar = sofar
    step-After s (arriving false) bound fit sofar = sofar
    step-After s (leaving true) bound fit sofar = sofar
    step-After s (leaving false) bound fit sofar = sofar
    step-After s (spinning flag) bound fit sofar = mybarrier-After flag s sofar
    step-After s claiming bound fit sofar = take-After s reading sofar
    step-After s reading bound fit sofar = sofar
    step-After s (counting b) bound fit sofar = counting-After s b bound fit sofar
    step-After s (scanning b) bound fit sofar = scan-After s b bound sofar
    step-After s (unlocking b) bound fit sofar = sofar
    step-After s (checking b) bound fit sofar = check-After s b bound fit sofar
    step-After s (crossing x d) bound fit sofar = cross-After s x d bound fit sofar
    step-After s ending bound fit sofar = sofar
    step-After s finished bound fit sofar = tt
