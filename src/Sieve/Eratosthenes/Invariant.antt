-- ===== src/Sieve/Eratosthenes/Invariant.antt =====
-- atomic.c: who holds the lock, which positions the threads work on, and what the array holds.
use c_operating_system.Prelude.{
  ℕ, ◌+◌, ◌-◌, ◌%◌, ◌^◌, ◌≤◌, ◌<◌, ◌≡◌, ◌⊎◌, inr, Bool, true, false, Option, none, some, arith, leb,
  if◌then◌else◌, ℕ_discrete,
}
use c_operating_system.Threads.{Conf, update}
use c_operating_system.Threads.Total.{total, total-update, total-le}
use c_operating_system.Sieve.Composite.{IsComposite, mod-next, mod-double}
use c_operating_system.Sieve.Eratosthenes.{
  Params, Shared, Pc, entering, arriving, leaving, spinning, reading, counting, scanning, unlocking,
  checking, crossing, ending, finished, last, step,
}

abbrev pub holds : Pc → Bool
holds (arriving _) = true
holds (leaving _) = true
holds reading = true
holds (counting _) = true
holds (scanning _) = true
holds (unlocking _) = true
holds _ = false

-- The position that a thread has claimed and works on.
abbrev pub base : Pc → Option ℕ
base (counting b) = some b
base (scanning b) = some b
base (unlocking b) = some b
base (checking b) = some b
base (crossing x d) = some (d - 2)
base _ = none

module _ (p : Params) where
  -- A thread that found no position left to claim.
  abbrev pub late : ℕ → ℕ
  late b = if leb (last p) b then 1 else 0

  abbrev pub over : Pc → ℕ
  over (scanning b) = late b
  over (unlocking b) = late b
  over (checking b) = late b
  over (entering flag) = if flag then 1 else 0
  over (arriving flag) = if flag then 1 else 0
  over (leaving flag) = if flag then 1 else 0
  over (spinning flag) = if flag then 1 else 0
  over ending = 1
  over finished = 1
  over _ = 0

  -- What the local variables of a thread say about `cur`.
  abbrev pub Fits : ℕ → Pc → Type 0
  Fits cur (counting b) = b ≡ cur
  Fits cur (scanning b) = b < cur
  Fits cur (unlocking b) = b < cur
  Fits cur (checking b) = b < cur
  Fits cur (crossing x d) =
      (2 ≤ d)
      × (d < cur + 2)
      × (d < x + 2)
      × (d < last p + 2)
      × (x < last p + d)
      × ((x + 2) % d ≡ 0)
  Fits cur _ = Unit

  -- A cell holds its number, or 0 and its number is composite.
  abbrev pub IsCell : ℕ → ℕ → Type 0
  IsCell v k = (v ≡ k + 2) ⊎ ((v ≡ 0) × IsComposite (k + 2))

  pub record Inv (c : Conf Shared Pc) : Type 0 where
    pub bounded : c.shared.cur ≤ last p + total over p.num_threads c.locals
    pub free : (i : ℕ) → c.shared.lock ≡ false → holds (c.locals i) ≡ false
    pub one : (i j : ℕ) → holds (c.locals i) ≡ true → holds (c.locals j) ≡ true → i ≡ j
    pub fits : (i : ℕ) → Fits c.shared.cur (c.locals i)
    pub apart : (i j b : ℕ) → base (c.locals i) ≡ some b → base (c.locals j) ≡ some b → i ≡ j
    pub cell : (k : ℕ) → k < last p → IsCell (c.shared.number k) k

over-le-one : (p : Params) (l : Pc) → over p l ≤ 1
over-le-one p (entering flag) = ground arith
over-le-one p _ = ground arith

-- `upper_bound` and `num_threads` are small enough for `int` variables.
pub record IsSmall (p : Params) : Type 0 where
  pub two : 2 ≤ p.upper_bound
  pub fits_int : p.upper_bound + p.num_threads < 2 ^ 30

module _ {p : Params} (small : IsSmall p) {c : Conf Shared Pc} (inv : Inv p c) (i : ℕ) where
  open inv use {bounded, free, one, fits, apart, cell}

  pub cur_bound : c.shared.cur < 2 ^ 30
  cur_bound =
      omega
        (arith, bounded, small.fits_int, total-le (over p) p.num_threads c.locals (over-le-one p))

  pub keeps-bounded :
      i < p.num_threads
      → (l : Pc) → c.locals i ≡ l
      → (s : Shared) (l' : Pc) → step p i c.shared l ≡ some (s, l')
      → s.cur ≤ last p + total (over p) p.num_threads (update c.locals i l')
  unfolding step
  keeps-bounded lt (entering flag) e s l' h =
      ground (arith, cur_bound, total-update (over p) p.num_threads i c.locals l' lt)
  keeps-bounded lt _ e s l' h =
      ground (arith, cur_bound, fits i, total-update (over p) p.num_threads i c.locals l' lt)

  pub keeps-free :
      (l : Pc)
      → c.locals i ≡ l
      → (s : Shared) (l' : Pc) → step p i c.shared l ≡ some (s, l')
      → (j : ℕ) → s.lock ≡ false
      → holds (update c.locals i l' j) ≡ false
  unfolding step
  keeps-free (entering flag) e s l' h j u = ground (arith, free j, free i, one i j)
  keeps-free _ e s l' h j u = ground (arith, free j, free i, one i j)

  pub keeps-one :
      (l : Pc)
      → c.locals i ≡ l
      → (s : Shared) (l' : Pc) → step p i c.shared l ≡ some (s, l')
      → (j k : ℕ) → holds (update c.locals i l' j) ≡ true
      → holds (update c.locals i l' k) ≡ true
      → j ≡ k
  unfolding step
  keeps-one (entering flag) e s l' h j k hj hk =
      ground (arith, free j, free k, one i j, one i k, one j k)
  keeps-one _ e s l' h j k hj hk = ground (arith, free j, free k, one i j, one i k, one j k)

  pub keeps-Fits :
      (l : Pc)
      → c.locals i ≡ l
      → (s : Shared) (l' : Pc) → step p i c.shared l ≡ some (s, l')
      → (j : ℕ) → Fits p s.cur (update c.locals i l' j)
  unfolding step
  keeps-Fits (entering flag) e s l' h j = ground (arith, fits j)
  keeps-Fits (checking b) e s l' h j =
      ground (arith, fits i, fits j, cur_bound, small.fits_int, mod-double (b + 2))
  keeps-Fits (crossing x d) e s l' h j =
      ground (arith, fits i, fits j, cur_bound, small.fits_int, mod-next (x + 2) d)
  keeps-Fits _ e s l' h j = ground (arith, fits i, fits j, cur_bound, free i, free j, one i j)

  pub keeps-apart :
      (l : Pc)
      → c.locals i ≡ l
      → (s : Shared) (l' : Pc) → step p i c.shared l ≡ some (s, l')
      → (j k b : ℕ) → base (update c.locals i l' j) ≡ some b
      → base (update c.locals i l' k) ≡ some b
      → j ≡ k
  unfolding step
  keeps-apart (entering flag) e s l' h j k b hj hk = ground (arith, apart j k b)
  keeps-apart reading e s l' h j k b hj hk =
      ground (arith, apart j k b, fits j, fits k, one i j, one i k)
  keeps-apart (checking x) e s l' h j k b hj hk =
      ground (arith, cur_bound, fits i, apart j k b, apart i k b, apart i j b)
  keeps-apart _ e s l' h j k b hj hk = ground (arith, apart j k b, apart i k b, apart i j b)

  pub keeps-IsCell :
      (l : Pc)
      → c.locals i ≡ l
      → (s : Shared) (l' : Pc) → step p i c.shared l ≡ some (s, l')
      → (k : ℕ) → k < last p
      → IsCell p (s.number k) k
  unfolding step
  keeps-IsCell (entering flag) e s l' h k lt = ground (arith, cell k)
  keeps-IsCell (crossing x d) e s l' h k lt = elim (ℕ_discrete x k) [
    | yes same ↦
        inr (ground (arith, fits i, small.fits_int), (d, ground (arith, fits i, small.fits_int)))
    | no other ↦ ground (arith, cell k lt)
  ]
  keeps-IsCell _ e s l' h k lt = ground (arith, cell k)
