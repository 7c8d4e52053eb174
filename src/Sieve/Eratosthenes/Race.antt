-- ===== src/Sieve/Eratosthenes/Race.antt =====
-- atomic.c with two threads: `compute` reads `cur` for its test after it has freed the lock, and a
-- thread that is delayed there drops the position that it has claimed.
use c_operating_system.Prelude.{
  ℕ, ◌≤◌, ◌<◌, ◌≡◌, refl, true, false, List, [], ◌∷◌, ◌++◌, replicate, arith, ℕ_discrete,
}
use c_operating_system.Threads.{Conf, turn, run}
use c_operating_system.Threads.Invariant.{KeepsAt, alone-keeps, run-append}
use c_operating_system.Threads.Total.{total-eq-mul}
use c_operating_system.Sieve.Time.{Timespec}
use c_operating_system.Sieve.Eratosthenes.{
  Params, Shared, Pc, entering, claiming, checking, finished, last, step, start,
}
use c_operating_system.Sieve.Eratosthenes.Invariant.{Inv, IsSmall, cur_bound}
use c_operating_system.Sieve.Eratosthenes.Safety.{Inv-keeps, Inv-run, after}
use c_operating_system.Sieve.Eratosthenes.Barrier.{arrivals, arrived}
use c_operating_system.Sieve.Eratosthenes.Alone.{Out, Reaches, alone}

module _ (p : Params) (small : IsSmall p) (two : p.num_threads ≡ 2) (four : 4 ≤ p.upper_bound) where
  -- Both threads pass the first barrier, and thread 0 claims position 0, the number 2.
  abbrev opening : List ℕ
  opening = 0 ∷ 0 ∷ 0 ∷ 1 ∷ 1 ∷ 1 ∷ 0 ∷ 1 ∷ 0 ∷ 0 ∷ 0 ∷ 0 ∷ 0 ∷ []

  record Delayed (c : Conf Shared Pc) : Type 0 where
    inv : Inv p c
    zeroth : c.locals 0 ≡ checking 0
    kept : c.shared.number 2 ≡ 4
    ended : c.locals 1 ≡ entering true → last p ≤ c.shared.cur

  Delayed-keeps : KeepsAt p.num_threads (step p) Delayed 1
  unfolding step
  Delayed-keeps c (entering flag) lt d e s' l' h = record {
    inv = Inv-keeps p small 1 c (entering flag) lt d.inv e s' l' h;
    zeroth = ground (arith, d.zeroth);
    kept = ground (arith, d.kept);
    ended = λ q. ground arith;
  }
  Delayed-keeps c (checking b) lt d e s' l' h = record {
    inv = Inv-keeps p small 1 c (checking b) lt d.inv e s' l' h;
    zeroth = ground (arith, d.zeroth);
    kept = ground (arith, d.kept);
    ended = λ q. ground (arith, cur_bound small d.inv 1);
  }
  Delayed-keeps c _ lt d e s' l' h = record {
    inv = Inv-keeps p small 1 c _ lt d.inv e s' l' h;
    zeroth = ground (arith, d.zeroth);
    kept = ground (arith, d.kept, d.inv.fits 1, d.inv.apart 0 1 0);
    ended = λ q. ground arith;
  }

  opens :
      (rest : ℕ → ℕ) (t : Timespec)
      → ((after p rest t opening).locals 0 ≡ checking 0)
        × ((after p rest t opening).locals 1 ≡ claiming)
        × ((after p rest t opening).shared.lock ≡ false)
        × ((after p rest t opening).shared.number 2 ≡ 4)
  unfolding run turn step
  opens rest t = (ground arith, ground arith, ground arith, ground arith)

  -- Thread 0 finds `cur` past the bound and gives up its position; both threads end.
  abbrev closing : List ℕ
  closing = 0 ∷ 0 ∷ 0 ∷ 0 ∷ 1 ∷ 1 ∷ 1 ∷ 0 ∷ 0 ∷ 1 ∷ 1 ∷ []

  record Ends (c : Conf Shared Pc) : Type 0 where
    zeroth : c.locals 0 ≡ finished
    first : c.locals 1 ≡ finished
    kept : c.shared.number 2 ≡ 4

  closes :
      (c : Conf Shared Pc)
      → Delayed c
      → c.locals 1 ≡ entering true
      → c.shared.lock ≡ false
      → c.shared.arrive_barrier ≡ 2
      → Ends (run p.num_threads (step p) closing c)
  unfolding run turn step
  closes c d at free arrive = record {
    zeroth = ground (arith, cur_bound small d.inv 1);
    first = ground (arith, cur_bound small d.inv 1);
    kept = ground (arith, cur_bound small d.inv 1);
  }

  lt_two : 1 < p.num_threads
  lt_two = omega arith

  races : (rest : ℕ → ℕ) (t : Timespec) → (is : List ℕ) × Ends (after p rest t is)
  races rest t = (
    (opening ++ replicate k 1) ++ closing,
    rw (run-append p.num_threads (step p) (opening ++ replicate k 1) closing (start p rest t)) (
        closes (after p rest t (opening ++ replicate k 1)) (rw joined delayed) (rw joined o.out)
          (rw joined o.free) arrive),
  )
    where
      ready : Conf Shared Pc
      ready = after p rest t opening

      here : Delayed ready
      here = record {
        inv = Inv-run p small rest t opening;
        zeroth = (opens rest t).0;
        kept = (opens rest t).3;
        ended = λ q. cc ((opens rest t).1);
      }

      leaves : (k : ℕ) × Reaches p small 1 k ready
      leaves =
          alone p small 1 lt_two ready here.inv (rw ((opens rest t).1) refl)
            (rw ((opens rest t).1, (opens rest t).2) refl)

      k : ℕ
      k = leaves.0

      o : Out p small 1 ready (run p.num_threads (step p) (replicate k 1) ready)
      o = leaves.1

      delayed : Delayed (run p.num_threads (step p) (replicate k 1) ready)
      delayed = alone-keeps p.num_threads (step p) Delayed 1 Delayed-keeps k ready here

      joined :
          after p rest t (opening ++ replicate k 1)
          ≡ run p.num_threads (step p) (replicate k 1) ready
      joined = run-append p.num_threads (step p) opening (replicate k 1) (start p rest t)

      each :
          (i : ℕ)
          → i < p.num_threads
          → arrivals ((after p rest t (opening ++ replicate k 1)).locals i) ≡ 1
      each i lt = elim (ℕ_discrete i 0) [
        | yes zeroth ↦ rw (zeroth, joined, delayed.zeroth) refl
        | no other ↦ let first : i ≡ 1 = omega arith in rw (first, joined, o.out) refl
      ]

      arrive : (after p rest t (opening ++ replicate k 1)).shared.arrive_barrier ≡ 2
      arrive = omega (
        arith,
        arrived p rest t (opening ++ replicate k 1) small,
        total-eq-mul arrivals 1 p.num_threads _ each,
      )

  -- With two threads, small parameters and an upper bound of at least 4 there is a schedule that both threads run to
  -- their end and that leaves the composite number 4 in the array, among the primes.
  pub race_keeps_four :
      (rest : ℕ → ℕ) (t : Timespec)
      → (is : List ℕ) × ((after p rest t is).locals 0 ≡ finished)
        × ((after p rest t is).locals 1 ≡ finished)
        × ((after p rest t is).shared.number 2 ≡ 4)
  race_keeps_four rest t = let (is, ends) = races rest t in (is, ends.zeroth, ends.first, ends.kept)
