-- ===== src/Sieve/Eratosthenes/OneThread.antt =====
-- atomic.c with one thread: the sieve is complete.
use c_operating_system.Prelude.{
  ℕ, ◌+◌, ◌<◌, ◌≡◌, ◌↔◌, inl, inr, refl, true, false, some, List, [], ◌∷◌, ◌++◌, replicate, arith,
}
use c_operating_system.Threads.{Conf, turn, run}
use c_operating_system.Threads.Invariant.{Keeps, run-keeps, run-append}
use c_operating_system.Threads.Total.{total-eq-mul}
use c_operating_system.Sieve.Composite.{IsComposite}
use c_operating_system.Sieve.Time.{Timespec}
use c_operating_system.Sieve.Eratosthenes.{
  Params, Shared, Pc, entering, claiming, finished, last, step, start, mybarrier,
}
use c_operating_system.Sieve.Eratosthenes.Invariant.{Inv, IsSmall, IsCell, cur_bound}
use c_operating_system.Sieve.Eratosthenes.Safety.{Inv-keeps, Inv-start, after}
use c_operating_system.Sieve.Eratosthenes.Barrier.{arrivals, arrived}
use c_operating_system.Sieve.Eratosthenes.Alone.{Out, Reaches, alone}
use c_operating_system.Sieve.Eratosthenes.Sequential.{Sofar, After, All, step-After}

module _ (p : Params) (small : IsSmall p) (one : p.num_threads ≡ 1) where
  abbrev Both : Conf Shared Pc → Type 0
  Both c = Inv p c × Sofar p c.shared (c.locals 0)

  Both-keeps : Keeps p.num_threads (step p) Both
  Both-keeps i c l lt (inv, sofar) e s' l' h =
      let zeroth : i ≡ 0 = omega arith in
      let at : c.locals 0 ≡ l = rw zeroth at e in
      let moved : step p 0 c.shared l ≡ some (s', l') = rw zeroth at h in
      let sofar' : After p (step p 0 c.shared l) =
        step-After p small c.shared l (cur_bound small inv 0) (rw at at (inv.fits 0))
          (rw at at sofar) in
      (Inv-keeps p small i c l lt inv e s' l' h, rw zeroth (rw moved at sofar'))

  Both-start : (rest : ℕ → ℕ) (t : Timespec) → Both (start p rest t)
  Both-start rest t = (
    Inv-start p small rest t,
    ((λ k d lt div below. absurd (omega arith)), λ k lt is_zero. absurd (ground arith)),
  )

  Both-run : (rest : ℕ → ℕ) (t : Timespec) (is : List ℕ) → Both (after p rest t is)
  Both-run rest t is =
      run-keeps p.num_threads (step p) Both Both-keeps is (start p rest t) (Both-start rest t)

  -- For one thread and small parameters: when the thread has finished, a cell of the array holds 0
  -- exactly if its number is composite.
  pub one_thread_exact :
      (rest : ℕ → ℕ) (t : Timespec) (is : List ℕ) (k : ℕ)
      → (after p rest t is).locals 0 ≡ finished
      → k < last p
      → ((after p rest t is).shared.number k ≡ 0) ↔ IsComposite (k + 2)
  one_thread_exact rest t is k ended lt = (crossed ((Both-run rest t is).0.cell k lt), all k lt)
    where
      all : All p (after p rest t is).shared
      all = rw ended at (Both-run rest t is).1

      crossed :
          IsCell p ((after p rest t is).shared.number k) k
          → (after p rest t is).shared.number k ≡ 0
          → IsComposite (k + 2)
      crossed (inl kept) is_zero = absurd (omega arith)
      crossed (inr (_, composite)) is_zero = composite

  abbrev opening : List ℕ
  opening = 0 ∷ 0 ∷ 0 ∷ 0 ∷ []

  abbrev closing : List ℕ
  closing = 0 ∷ 0 ∷ 0 ∷ 0 ∷ 0 ∷ []

  opens :
      (rest : ℕ → ℕ) (t : Timespec)
      → ((after p rest t opening).locals 0 ≡ claiming)
        × ((after p rest t opening).shared.lock ≡ false)
  unfolding run turn step mybarrier
  opens rest t = (ground arith, ground arith)

  closes :
      (c : Conf Shared Pc)
      → c.locals 0 ≡ entering true
      → c.shared.lock ≡ false
      → c.shared.arrive_barrier ≡ 1
      → (run p.num_threads (step p) closing c).locals 0 ≡ finished
  unfolding run turn step mybarrier
  closes c at free arrive = ground arith

  lt_one : 0 < p.num_threads
  lt_one = omega arith

  -- For one thread and small parameters there is a schedule after which the thread has finished.
  pub one_thread_finishes :
      (rest : ℕ → ℕ) (t : Timespec) → (is : List ℕ) × ((after p rest t is).locals 0 ≡ finished)
  one_thread_finishes rest t = (
    (opening ++ replicate k 0) ++ closing,
    rw (run-append p.num_threads (step p) (opening ++ replicate k 0) closing (start p rest t)) (
        closes (after p rest t (opening ++ replicate k 0)) (rw joined o.out) (rw joined o.free)
          arrive),
  )
    where
      ready : Conf Shared Pc
      ready = after p rest t opening

      leaves : (k : ℕ) × Reaches p small 0 k ready
      leaves =
          alone p small 0 lt_one ready (Both-run rest t opening).0 (rw ((opens rest t).0) refl)
            (rw ((opens rest t).0, (opens rest t).1) refl)

      k : ℕ
      k = leaves.0

      o : Out p small 0 ready (run p.num_threads (step p) (replicate k 0) ready)
      o = leaves.1

      joined :
          after p rest t (opening ++ replicate k 0)
          ≡ run p.num_threads (step p) (replicate k 0) ready
      joined = run-append p.num_threads (step p) opening (replicate k 0) (start p rest t)

      arrive : (after p rest t (opening ++ replicate k 0)).shared.arrive_barrier ≡ 1
      arrive =
          let counted = arrived p rest t (opening ++ replicate k 0) small in
          let at : (after p rest t (opening ++ replicate k 0)).locals 0 ≡ entering true =
            rw joined o.out in
          let single =
            total-eq-mul arrivals 1 p.num_threads (after p rest t (opening ++ replicate k 0)).locals
              (λ i lt. let zeroth : i ≡ 0 = omega arith in rw (zeroth, at) refl) in
          omega (arith, counted, single)
