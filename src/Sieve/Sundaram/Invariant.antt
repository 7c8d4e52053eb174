-- ===== src/Sieve/Sundaram/Invariant.antt =====
-- sundrama_atomic.c: which positions the threads work on, and what the array holds.
use c_operating_system.Prelude.{
  ℕ, ◌+◌, ◌*◌, ◌/◌, ◌%◌, ◌^◌, ◌≤◌, ◌<◌, ◌≡◌, ◌⊎◌, inl, inr, refl, sym, Bool, true, false, some,
  List, arith, leb, if◌then◌else◌, ℕ_discrete,
}
use native.Mathlib.Nat.{mul-mod_right}
use c_operating_system.Threads.{Conf, update, run}
use c_operating_system.Threads.Invariant.{Keeps, run-keeps}
use c_operating_system.Threads.Total.{total, total-update, total-le}
use c_operating_system.Sieve.Time.{Timespec}
use c_operating_system.Sieve.Composite.{IsComposite}
use c_operating_system.Sieve.Eratosthenes.{Params, Shared, arrive}
use c_operating_system.Sieve.Sundaram.{
  Pc, entering, arriving, leaving, spinning, reading, counting, scanning, unlocking, checking,
  crossing, ending, finished, step, start, position,
}

abbrev pub holds : Pc → Bool
holds (arriving _) = true
holds (leaving _) = true
holds reading = true
holds (counting _) = true
holds (scanning _) = true
holds (unlocking _) = true
holds _ = false

module _ (p : Params) where
  -- A thread that found no position left to claim.
  abbrev pub late : ℕ → ℕ
  late b = if leb (p.upper_bound / 4 + 1) b then 1 else 0

  abbrev pub over : Pc → ℕ
  over (scanning b) = late b
  over (unlocking b) = late b
  over (checking b) = late b
  over (entering flag) = if flag then 1 else 0
  over (arriving flag) = if flag then 1 else 0
  over (leaving flag) = if flag then 1 else 0
  over (spinning flag) = if flag then 1 else 0
  over ending = 1
  over finished = 1
  over _ = 0

  -- What the local variables of a thread say about `cur`.
  abbrev pub Fits : ℕ → Pc → Type 0
  Fits cur (counting b) = b ≡ cur
  Fits cur (scanning b) = (1 ≤ b) × (b < cur)
  Fits cur (unlocking b) = (1 ≤ b) × (b < cur)
  Fits cur (checking b) = (1 ≤ b) × (b < cur)
  Fits cur (crossing i j) =
      (1 ≤ i) × (i ≤ j) × (i ≤ p.upper_bound / 4) × (j ≤ p.upper_bound / 4 + 1)
  Fits cur _ = Unit

  -- A cell holds its index, or 0 and the odd number that stands for it is composite.
  abbrev pub IsCell : ℕ → ℕ → Type 0
  IsCell v k = (v ≡ k) ⊎ ((v ≡ 0) × IsComposite (2 * k + 1))

  pub record Inv (c : Conf Shared Pc) : Type 0 where
    pub positive : 1 ≤ c.shared.cur
    pub bounded : c.shared.cur ≤ p.upper_bound / 4 + 1 + total over p.num_threads c.locals
    pub free : (i : ℕ) → c.shared.lock ≡ false → holds (c.locals i) ≡ false
    pub one : (i j : ℕ) → holds (c.locals i) ≡ true → holds (c.locals j) ≡ true → i ≡ j
    pub fits : (i : ℕ) → Fits c.shared.cur (c.locals i)
    pub cell : (k : ℕ) → k ≤ p.upper_bound → IsCell (c.shared.number k) k

over-le-one : (p : Params) (l : Pc) → over p l ≤ 1
over-le-one p (entering flag) = ground arith
over-le-one p _ = ground arith

-- The `int`s of the program do not overflow: neither `j+i+2*i*j` nor `cur*4`.
pub record IsSmall (p : Params) : Type 0 where
  pub two : 2 ≤ p.upper_bound
  pub fits_product : p.upper_bound < 2 ^ 16
  pub fits_int : p.num_threads < 2 ^ 28

mul-le-mul : (a b m n : ℕ) → a ≤ m → b ≤ n → a * b ≤ m * n
mul-le-mul a b m n p q = grind arith

-- The position crossed out, without overflow, and its divisor.
pub position_lem : (i j : ℕ) → i ≤ 2 ^ 14 → j ≤ 2 ^ 14 → position i j ≡ i + j + 2 * (i * j)
position_lem i j hi hj =
    let least : i * j ≤ 2 ^ 28 = mul-le-mul i j (2 ^ 14) (2 ^ 14) hi hj in
    let single : 2 * i % 2 ^ 32 ≡ 2 * i = omega arith in
    let twice : 2 * i * j ≡ 2 * (i * j) = grind arith in rw (single, twice) (omega (arith, least))

pub position-IsComposite : (i j : ℕ) → 1 ≤ i → 1 ≤ j → IsComposite (2 * (i + j + 2 * (i * j)) + 1)
position-IsComposite i j hi hj =
    let factors : 2 * (i + j + 2 * (i * j)) + 1 ≡ (2 * i + 1) * (2 * j + 1) = grind arith in
    (
      2 * i + 1,
      (
        omega arith,
        omega (arith, mul-le-mul 1 1 i j hi hj),
        rw factors (mul-mod_right (2 * i + 1) (2 * j + 1)),
      ),
    )

module _ {p : Params} (small : IsSmall p) {c : Conf Shared Pc} (inv : Inv p c) (i : ℕ) where
  open inv use {positive, bounded, free, one, fits, cell}

  pub cur_bound : c.shared.cur < 2 ^ 29
  cur_bound = omega (
    arith,
    bounded,
    small.fits_int,
    small.fits_product,
    total-le (over p) p.num_threads c.locals (over-le-one p),
  )

  keeps-positive :
      (l : Pc)
      → c.locals i ≡ l
      → (s : Shared) (l' : Pc) → step p i c.shared l ≡ some (s, l')
      → 1 ≤ s.cur
  unfolding step arrive
  keeps-positive (entering flag) e s l' h = ground (arith, positive)
  keeps-positive _ e s l' h = ground (arith, positive, cur_bound)

  keeps-bounded :
      i < p.num_threads
      → (l : Pc) → c.locals i ≡ l
      → (s : Shared) (l' : Pc) → step p i c.shared l ≡ some (s, l')
      → s.cur ≤ p.upper_bound / 4 + 1 + total (over p) p.num_threads (update c.locals i l')
  unfolding step arrive
  keeps-bounded lt (entering flag) e s l' h =
      ground (arith, cur_bound, total-update (over p) p.num_threads i c.locals l' lt)
  keeps-bounded lt _ e s l' h =
      ground (arith, cur_bound, fits i, total-update (over p) p.num_threads i c.locals l' lt)

  keeps-free :
      (l : Pc)
      → c.locals i ≡ l
      → (s : Shared) (l' : Pc) → step p i c.shared l ≡ some (s, l')
      → (j : ℕ) → s.lock ≡ false
      → holds (update c.locals i l' j) ≡ false
  unfolding step arrive
  keeps-free (entering flag) e s l' h j u = ground (arith, free j, free i, one i j)
  keeps-free _ e s l' h j u = ground (arith, free j, free i, one i j)

  keeps-one :
      (l : Pc)
      → c.locals i ≡ l
      → (s : Shared) (l' : Pc) → step p i c.shared l ≡ some (s, l')
      → (j k : ℕ) → holds (update c.locals i l' j) ≡ true
      → holds (update c.locals i l' k) ≡ true
      → j ≡ k
  unfolding step arrive
  keeps-one (entering flag) e s l' h j k hj hk =
      ground (arith, free j, free k, one i j, one i k, one j k)
  keeps-one _ e s l' h j k hj hk = ground (arith, free j, free k, one i j, one i k, one j k)

  keeps-Fits :
      (l : Pc)
      → c.locals i ≡ l
      → (s : Shared) (l' : Pc) → step p i c.shared l ≡ some (s, l')
      → (j : ℕ) → Fits p s.cur (update c.locals i l' j)
  unfolding step arrive
  keeps-Fits (entering flag) e s l' h j = ground (arith, fits j)
  keeps-Fits (checking b) e s l' h j = ground (arith, fits i, fits j, cur_bound)
  keeps-Fits (crossing x y) e s l' h j = ground (arith, fits i, fits j, small.fits_product)
  keeps-Fits _ e s l' h j =
      ground (arith, fits i, fits j, cur_bound, positive, free i, free j, one i j)

  crossing-cases :
      (x y : ℕ)
      → c.locals i ≡ crossing x y
      → (s : Shared) (l' : Pc) → step p i c.shared (crossing x y) ≡ some (s, l')
      → (k : ℕ) → (s.number k ≡ 0) ⊎ (s.number k ≡ c.shared.number k)
  unfolding step arrive
  crossing-cases x y e s l' h k = ground arith

  keeps-IsCell :
      (l : Pc)
      → c.locals i ≡ l
      → (s : Shared) (l' : Pc) → step p i c.shared l ≡ some (s, l')
      → (k : ℕ) → k ≤ p.upper_bound
      → IsCell p (s.number k) k
  unfolding step arrive
  keeps-IsCell (entering flag) e s l' h k le = ground (arith, cell k)
  keeps-IsCell (crossing x y) e s l' h k le = elim (ℕ_discrete (position x y) k) [
    | yes same ↦
        let crossed : IsComposite (2 * k + 1) =
          rw
            (
              sym same,
              position_lem x y (ground (arith, fits i, small.fits_product))
                  (ground (arith, fits i, small.fits_product)),
            )
            (position-IsComposite x y (ground (arith, fits i)) (ground (arith, fits i))) in
        elim (crossing-cases x y e s l' h k) [
          | inl zeroed ↦ inr (zeroed, crossed)
          | inr kept ↦ rw kept (cell k le)
        ]
    | no other ↦ ground (arith, cell k)
  ]
  keeps-IsCell _ e s l' h k le = ground (arith, cell k)

module _ (p : Params) (small : IsSmall p) where
  Inv-keeps : Keeps p.num_threads (step p) (Inv p)
  Inv-keeps i c l lt inv e s' l' h = record {
    positive = keeps-positive small inv i l e s' l' h;
    bounded = keeps-bounded small inv i lt l e s' l' h;
    free = keeps-free small inv i l e s' l' h;
    one = keeps-one small inv i l e s' l' h;
    fits = keeps-Fits small inv i l e s' l' h;
    cell = keeps-IsCell small inv i l e s' l' h;
  }

  Inv-start : (rest : ℕ → ℕ) (t : Timespec) → Inv p (start p rest t)
  Inv-start rest t = record {
    positive = omega arith;
    bounded = omega arith;
    free = λ i h. refl;
    one = λ i j h k. cc;
    fits = λ i. tt;
    cell = λ k le. inl (ground arith);
  }

  pub Inv-run :
      (rest : ℕ → ℕ) (t : Timespec) (is : List ℕ)
      → Inv p (run p.num_threads (step p) is (start p rest t))
  Inv-run rest t is =
      run-keeps p.num_threads (step p) (Inv p) Inv-keeps is (start p rest t) (Inv-start rest t)

module _ (p : Params) (rest : ℕ → ℕ) (t : Timespec) (is : List ℕ) where
  abbrev pub after : Conf Shared Pc
  after = run p.num_threads (step p) is (start p rest t)

  -- For small parameters, whatever the schedule: each cell of the array of sundrama_atomic.c holds its
  -- index `k`, or it holds 0 and `2 * k + 1` is composite.
  pub sundaram-IsCell : IsSmall p → (k : ℕ) → k ≤ p.upper_bound → IsCell p (after.shared.number k) k
  sundaram-IsCell small = (Inv-run p small rest t is).cell
