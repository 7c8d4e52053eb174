-- ===== src/SharedMemory/Handshake.antt =====
-- leader.c and follower.c: what the guards protect, and what they do not.
use c_operating_system.Prelude.{
  ℕ, ◌<◌, ◌≡◌, ◌≢◌, refl, Bool, true, false, List, [], ◌∷◌, ◌++◌, arith, some,
}
use c_operating_system.Threads.{Conf, update, run, turn}
use c_operating_system.Threads.Invariant.{Keeps, run-keeps, run-append}
use c_operating_system.SharedMemory.{
  Shared, Pc, resetting, awaiting_follower, writing, notifying, awaiting_end, unlinked,
  awaiting_data, reading, finishing, finished, write, read, step, start,
}

-- the numbers that the leader has written, and the follower read
abbrev written : ℕ → Pc → ℕ
written size (writing index) = index
written size notifying = size
written size awaiting_end = size
written size unlinked = size
written size _ = 0

abbrev got : ℕ → Pc → ℕ
got size (reading index) = index
got size finishing = size
got size finished = size
got size _ = 0

abbrev leads : Pc → Bool
leads resetting = true
leads awaiting_follower = true
leads (writing index) = true
leads notifying = true
leads awaiting_end = true
leads unlinked = true
leads _ = false

abbrev notified : Pc → Bool
notified awaiting_end = true
notified unlinked = true
notified _ = false

abbrev reads : Pc → Bool
reads (reading index) = true
reads _ = false

record Inv (size : ℕ) (random : ℕ → ℕ) (c : Conf Shared Pc) : Type 0 where
  leader : leads (c.locals 0) ≡ true
  follower : leads (c.locals 1) ≡ false
  filled : (k : ℕ) → k < written size (c.locals 0) → c.shared.data_cells k ≡ random k
  guarded : c.shared.read_guard ≢ 0 → notified (c.locals 0) ≡ true
  after_guard : reads (c.locals 1) ≡ true → notified (c.locals 0) ≡ true
  passed : (k : ℕ) → k < got size (c.locals 1) → k < size → c.shared.copied k ≡ random k

module _ (size : ℕ) (random : ℕ → ℕ) {c : Conf Shared Pc} (inv : Inv size random c) (i : ℕ)
    (lt : i < 2) where
  open inv use {leader, follower, filled, guarded, after_guard, passed}

  keeps :
      (l : Pc)
      → c.locals i ≡ l
      → (s : Shared) (l' : Pc) → step size random i c.shared l ≡ some (s, l')
      → Inv size random (record { shared = s; locals = update c.locals i l' })
  unfolding step write read
  keeps resetting e s l' h = record {
    leader = ground (arith, leader, follower);
    follower = ground (arith, leader, follower);
    filled = λ k less. ground (arith, leader, follower, filled k);
    guarded = λ g. ground (arith, leader, follower, guarded);
    after_guard = λ r. ground (arith, leader, follower, after_guard);
    passed = λ k less in_range. ground (arith, leader, follower, passed k);
  }
  keeps _ e s l' h = record {
    leader = ground (arith, leader, follower);
    follower = ground (arith, leader, follower);
    filled = λ k less. ground (arith, leader, follower, filled k);
    guarded = λ g. ground (arith, leader, follower, guarded);
    after_guard = λ r. ground (arith, leader, follower, after_guard, guarded);
    passed = λ k less in_range. ground (arith, leader, follower, passed k, filled k, after_guard);
  }

Inv-run :
    (size : ℕ) (random found : ℕ → ℕ) (is : List ℕ)
    → Inv size random (run 2 (step size random) is (start found))
Inv-run size random found is =
    run-keeps 2 (step size random) (Inv size random)
      (λ i c l lt inv e s' l' h. keeps size random inv i lt l e s' l' h) is (start found)
      (record {
        leader = refl;
        follower = refl;
        filled = λ k lt. absurd (omega arith);
        guarded = λ g. absurd (g refl);
        after_guard = λ r. absurd (ground arith);
        passed = λ k lt in_range. absurd (omega arith);
      })

-- In a new region, whatever the order of the steps: when the follower has finished, its array holds
-- the numbers that the leader drew.
pub follower_copies :
    (size : ℕ) (random found : ℕ → ℕ) (is : List ℕ) (k : ℕ)
    → (run 2 (step size random) is (start found)).locals 1 ≡ finished
    → k < size
    → (run 2 (step size random) is (start found)).shared.copied k ≡ random k
follower_copies size random found is k ended lt =
    (Inv-run size random found is).passed k (ground arith) lt

record Stuck (c : Conf Shared Pc) : Type 0 where
  leader : c.locals 0 ≡ awaiting_follower
  follower : c.locals 1 ≡ awaiting_data
  no_follower : c.shared.write_guard ≡ 0
  no_data : c.shared.read_guard ≡ 0

Stuck-keeps : (size : ℕ) (random : ℕ → ℕ) → Keeps 2 (step size random) Stuck
unfolding step
Stuck-keeps size random i c l lt stuck e s' l' h = record {
  leader = ground (arith, stuck.leader, stuck.follower, stuck.no_follower, stuck.no_data);
  follower = ground (arith, stuck.leader, stuck.follower, stuck.no_follower, stuck.no_data);
  no_follower = ground (arith, stuck.leader, stuck.follower, stuck.no_follower, stuck.no_data);
  no_data = ground (arith, stuck.leader, stuck.follower, stuck.no_follower, stuck.no_data);
}

first-Stuck :
    (size : ℕ) (random found : ℕ → ℕ) → Stuck (run 2 (step size random) (1 ∷ 0 ∷ []) (start found))
unfolding run turn step
first-Stuck size random found = record {
  leader = refl;
  follower = refl;
  no_follower = refl;
  no_data = refl;
}

-- When the follower announces itself before the leader resets `write_guard`, both wait for ever.
pub early_follower :
    (size : ℕ) (random found : ℕ → ℕ) (is : List ℕ)
    → ((run 2 (step size random) ((1 ∷ 0 ∷ []) ++ is) (start found)).locals 0 ≡ awaiting_follower)
      × ((run 2 (step size random) ((1 ∷ 0 ∷ []) ++ is) (start found)).locals 1 ≡ awaiting_data)
early_follower size random found is = (after.leader, after.follower)
  where
    after : Stuck (run 2 (step size random) ((1 ∷ 0 ∷ []) ++ is) (start found))
    after = rw (run-append 2 (step size random) (1 ∷ 0 ∷ []) is (start found)) (
        run-keeps 2 (step size random) Stuck (Stuck-keeps size random) is
          (run 2 (step size random) (1 ∷ 0 ∷ []) (start found)) (first-Stuck size random found))
