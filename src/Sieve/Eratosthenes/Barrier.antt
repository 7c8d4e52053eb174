-- ===== src/Sieve/Eratosthenes/Barrier.antt =====
-- atomic.c: the two barriers, the time stamps and `done`.
use c_operating_system.Prelude.{
  ℕ, ◌*◌, ◌≤◌, ◌<◌, ◌≡◌, refl, sym, ap, Bool, true, false, some, List, arith, if◌then◌else◌, dec_lt,
  ℕ_discrete,
}
use Prim.Native.Nat.{min}
use c_operating_system.Threads.{Conf, run, update}
use c_operating_system.Threads.Invariant.{Keeps, run-keeps}
use c_operating_system.Threads.Total.{
  total, total-update, total-full, total-ge-mul, total-le-mul, total-eq-mul, total-eq-zero,
}
use c_operating_system.Sieve.Time.{Timespec}
use c_operating_system.Sieve.Eratosthenes.{
  Params, Shared, Pc, entering, arriving, leaving, spinning, ending, finished, step, start,
}
use c_operating_system.Sieve.Eratosthenes.Invariant.{IsSmall}

-- how often a thread has incremented `arrive_barrier`
abbrev pub arrivals : Pc → ℕ
arrivals (entering flag) = if flag then 1 else 0
arrivals (arriving flag) = if flag then 1 else 0
arrivals (leaving flag) = if flag then 2 else 1
arrivals (spinning flag) = if flag then 2 else 1
arrivals ending = 2
arrivals finished = 2
arrivals _ = 1

-- A thread that has returned from `mybarrier(0)`, and from `mybarrier(1)`.
abbrev pub past_first : Pc → Bool
past_first (entering flag) = flag
past_first (arriving flag) = flag
past_first (leaving flag) = flag
past_first (spinning flag) = flag
past_first _ = true

abbrev pub past_second : Pc → Bool
past_second ending = true
past_second finished = true
past_second _ = false

-- How many barriers a thread has returned from.
abbrev pub passed : Pc → ℕ
passed l = if past_second l then 2 else if past_first l then 1 else 0

abbrev pub completed : Pc → ℕ
completed finished = 1
completed _ = 0

arrivals-le-two : (l : Pc) → arrivals l ≤ 2
arrivals-le-two (entering flag) = ground arith
arrivals-le-two _ = ground arith

completed-le-one : (l : Pc) → completed l ≤ 1
completed-le-one (entering flag) = ground arith
completed-le-one _ = ground arith

module _ (p : Params) where
  record Inv (c : Conf Shared Pc) : Type 0 where
    counted : c.shared.arrive_barrier ≡ total arrivals p.num_threads c.locals
    first :
        (i j : ℕ) → j < p.num_threads → past_first (c.locals i) ≡ true → 1 ≤ arrivals (c.locals j)
    second :
        (i j : ℕ) → j < p.num_threads → past_second (c.locals i) ≡ true → arrivals (c.locals j) ≡ 2
    ended : c.shared.done ≡ total completed p.num_threads c.locals
    started_at :
        0 < c.shared.arrive_barrier
        → c.shared.start_compute ≡ p.clock (min c.shared.arrive_barrier p.num_threads)
    ended_at :
        p.num_threads < c.shared.arrive_barrier
        → c.shared.end_compute ≡ p.clock c.shared.arrive_barrier

module _ {p : Params} (small : IsSmall p) {c : Conf Shared Pc} (inv : Inv p c) (i : ℕ)
    (lt : i < p.num_threads) where
  open inv use {counted, first, second, ended, started_at, ended_at}

  few : total arrivals p.num_threads c.locals ≤ p.num_threads * 2
  few = total-le-mul arrivals 2 p.num_threads c.locals (λ j. arrivals-le-two (c.locals j))

  few_done : total completed p.num_threads c.locals ≤ p.num_threads * 1
  few_done = total-le-mul completed 1 p.num_threads c.locals (λ j. completed-le-one (c.locals j))

  -- While a thread has not arrived, nobody has passed, and not all have arrived.
  lone :
      (k : ℕ)
      → k < p.num_threads
      → arrivals (c.locals k) ≡ 0
      → total arrivals p.num_threads c.locals < p.num_threads
  lone k below away = elim (dec_lt (total arrivals p.num_threads c.locals) p.num_threads) [
    | yes less ↦ less
    | no full ↦ absurd (
        omega (
          arith,
          away,
          total-full arrivals 1 p.num_threads c.locals (λ j b. ground (arith, first j k))
              (omega arith) k below,
        ))
  ]

  all_arrived :
      p.num_threads ≤ total arrivals p.num_threads c.locals
      → (k : ℕ) → k < p.num_threads
      → 1 ≤ arrivals (c.locals k)
  all_arrived full k below = elim (ℕ_discrete (arrivals (c.locals k)) 0) [
    | yes away ↦ absurd (omega (arith, lone k below away))
    | no here ↦ omega arith
  ]

  all_twice :
      p.num_threads * 2 ≤ total arrivals p.num_threads c.locals
      → (k : ℕ) → k < p.num_threads
      → arrivals (c.locals k) ≡ 2
  all_twice = total-full arrivals 2 p.num_threads c.locals (λ j b. arrivals-le-two (c.locals j))

  enough :
      past_first (c.locals i) ≡ true → p.num_threads * 1 ≤ total arrivals p.num_threads c.locals
  enough past = total-ge-mul arrivals 1 p.num_threads c.locals (λ j b. first i j b past)

  keeps-counted :
      (l : Pc)
      → c.locals i ≡ l
      → (s : Shared) (l' : Pc) → step p i c.shared l ≡ some (s, l')
      → s.arrive_barrier ≡ total arrivals p.num_threads (update c.locals i l')
  unfolding step
  keeps-counted (entering flag) e s l' h =
      ground (arith, few, small.fits_int, total-update arrivals p.num_threads i c.locals l' lt)
  keeps-counted _ e s l' h =
      ground (arith, few, small.fits_int, total-update arrivals p.num_threads i c.locals l' lt)

  keeps-ended :
      (l : Pc)
      → c.locals i ≡ l
      → (s : Shared) (l' : Pc) → step p i c.shared l ≡ some (s, l')
      → s.done ≡ total completed p.num_threads (update c.locals i l')
  unfolding step
  keeps-ended (entering flag) e s l' h =
      ground (arith, total-update completed p.num_threads i c.locals l' lt)
  keeps-ended _ e s l' h =
      ground
        (arith, few_done, small.fits_int, total-update completed p.num_threads i c.locals l' lt)

  keeps-first :
      (l : Pc)
      → c.locals i ≡ l
      → (s : Shared) (l' : Pc) → step p i c.shared l ≡ some (s, l')
      → (j k : ℕ) → k < p.num_threads
      → past_first (update c.locals i l' j) ≡ true
      → 1 ≤ arrivals (update c.locals i l' k)
  unfolding step
  keeps-first (entering flag) e s l' h j k below past = ground (arith, first j k, first i k)
  keeps-first (spinning flag) e s l' h j k below past =
      elim (dec_lt (total arrivals p.num_threads c.locals) p.num_threads) [
        | yes less ↦ ground (arith, few, small.fits_int, first j k, first i k)
        | no full ↦ ground (arith, all_arrived (omega arith) k below)
      ]
  keeps-first _ e s l' h j k below past = ground (arith, first j k, first i k)

  keeps-second :
      (l : Pc)
      → c.locals i ≡ l
      → (s : Shared) (l' : Pc) → step p i c.shared l ≡ some (s, l')
      → (j k : ℕ) → k < p.num_threads
      → past_second (update c.locals i l' j) ≡ true
      → arrivals (update c.locals i l' k) ≡ 2
  unfolding step
  keeps-second (entering flag) e s l' h j k below past = ground (arith, second j k, second j i)
  keeps-second (spinning flag) e s l' h j k below past =
      elim (dec_lt (total arrivals p.num_threads c.locals) (p.num_threads * 2)) [
        | yes less ↦ ground (arith, few, small.fits_int, second j k, second j i)
        | no full ↦ ground (arith, all_twice (omega arith) k below)
      ]
  keeps-second _ e s l' h j k below past = ground (arith, second j k, second j i, second i k)

  keeps-started_at :
      (l : Pc)
      → c.locals i ≡ l
      → (s : Shared) (l' : Pc) → step p i c.shared l ≡ some (s, l')
      → 0 < s.arrive_barrier
      → s.start_compute ≡ p.clock (min s.arrive_barrier p.num_threads)
  unfolding step
  keeps-started_at (entering flag) e s l' h some_arrived = ground arith
  keeps-started_at (arriving flag) e s l' h some_arrived =
      ground (arith, few, small.fits_int, counted, lone i lt, enough)
  keeps-started_at _ e s l' h some_arrived = ground arith

  keeps-ended_at :
      (l : Pc)
      → c.locals i ≡ l
      → (s : Shared) (l' : Pc) → step p i c.shared l ≡ some (s, l')
      → p.num_threads < s.arrive_barrier
      → s.end_compute ≡ p.clock s.arrive_barrier
  unfolding step
  keeps-ended_at (entering flag) e s l' h some_arrived = ground arith
  keeps-ended_at (arriving flag) e s l' h some_arrived =
      ground (arith, few, small.fits_int, counted, lone i lt, enough)
  keeps-ended_at _ e s l' h some_arrived = ground arith

module _ (p : Params) (rest : ℕ → ℕ) (t : Timespec) (is : List ℕ) where
  abbrev pub after : Conf Shared Pc
  after = run p.num_threads (step p) is (start p rest t)

  Inv-keeps : IsSmall p → Keeps p.num_threads (step p) (Inv p)
  Inv-keeps small i c l lt inv e s' l' h = record {
    counted = keeps-counted small inv i lt l e s' l' h;
    first = keeps-first small inv i lt l e s' l' h;
    second = keeps-second small inv i lt l e s' l' h;
    ended = keeps-ended small inv i lt l e s' l' h;
    started_at = keeps-started_at small inv i lt l e s' l' h;
    ended_at = keeps-ended_at small inv i lt l e s' l' h;
  }

  Inv-after : IsSmall p → Inv p after
  Inv-after small =
      run-keeps p.num_threads (step p) (Inv p) (Inv-keeps small) is (start p rest t) (record {
        counted = sym (total-eq-zero arrivals p.num_threads (λ i. entering false) (λ i. refl));
        first = λ i j b h. cc;
        second = λ i j b h. cc;
        ended = sym (total-eq-zero completed p.num_threads (λ i. entering false) (λ i. refl));
        started_at = λ h. absurd (omega arith);
        ended_at = λ h. absurd (omega arith);
      })

  pub arrived : IsSmall p → after.shared.arrive_barrier ≡ total arrivals p.num_threads after.locals
  arrived small = (Inv-after small).counted

  -- For small parameters, a thread that has returned from the first barrier has been joined there by every thread.
  pub first_barrier :
      (i j : ℕ)
      → IsSmall p
      → j < p.num_threads
      → past_first (after.locals i) ≡ true
      → 1 ≤ arrivals (after.locals j)
  first_barrier i j small = (Inv-after small).first i j

  -- For small parameters, a thread that has returned from the second barrier has been joined there
  -- by every thread.
  pub second_barrier :
      (i j : ℕ)
      → IsSmall p
      → j < p.num_threads
      → past_second (after.locals i) ≡ true
      → arrivals (after.locals j) ≡ 2
  second_barrier i j small = (Inv-after small).second i j

  -- For small parameters, whatever the schedule: a thread has returned from at most as many barriers
  -- as each thread has arrived at.
  pub passed-le-arrivals :
      (i j : ℕ)
      → IsSmall p
      → j < p.num_threads
      → passed (after.locals i) ≤ arrivals (after.locals j)
  passed-le-arrivals i j small lt =
      ground (arith, first_barrier i j small lt, second_barrier i j small lt)

  -- For small parameters, the test of `simple_exit`, `done == num_threads`, passes only when every
  -- thread has finished.
  pub done_finished :
      (i : ℕ)
      → IsSmall p
      → after.shared.done ≡ p.num_threads
      → i < p.num_threads
      → after.locals i ≡ finished
  done_finished i small all lt =
      let one : completed (after.locals i) ≡ 1 =
        total-full completed 1 p.num_threads after.locals (λ j b. completed-le-one (after.locals j))
          (omega (arith, (Inv-after small).ended)) i lt in
      ground (arith, completed)

  -- For small parameters, when `simple_exit` finds every thread done, `start_compute` is the time of the last arrival at
  -- the first barrier and `end_compute` that of the last arrival at the second.
  pub stamps :
      IsSmall p
      → 1 ≤ p.num_threads
      → after.shared.done ≡ p.num_threads
      → (after.shared.start_compute ≡ p.clock p.num_threads)
        × (after.shared.end_compute ≡ p.clock (p.num_threads * 2))
  stamps small some_thread all = (
    ground (arith, at_end, (Inv-after small).started_at),
    ground (arith, at_end, (Inv-after small).ended_at),
  )
    where
      at_end : after.shared.arrive_barrier ≡ p.num_threads * 2
      at_end = omega (
        arith,
        (Inv-after small).counted,
        total-eq-mul arrivals 2 p.num_threads after.locals
            (λ i lt. ap arrivals (done_finished i small all lt)),
      )

  pub done_all :
      IsSmall p
      → ((i : ℕ) → i < p.num_threads → after.locals i ≡ finished)
      → after.shared.done ≡ p.num_threads
  done_all small each = omega (
    arith,
    (Inv-after small).ended,
    total-eq-mul completed 1 p.num_threads after.locals (λ i lt. ap completed (each i lt)),
  )
