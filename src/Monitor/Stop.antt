-- ===== src/Monitor/Stop.antt =====
-- single_threaded_mod.c: `kthread_stop` comes to its end, also where its own wake-up is lost.
use mathlib.Core.Path.{subst}
use c_operating_system.Prelude.{
  ℕ, ◌<◌, ◌≡◌, ◌≢◌, refl, sym, ◌⊎◌, Bool, true, false, some, List, [], ◌∷◌, ◌++◌, replicate, arith,
}
use c_operating_system.Threads.{Conf, update, turn, run}
use c_operating_system.Threads.Invariant.{Keeps, run-keeps, run-append}
use c_operating_system.Monitor.{
  task, Shared, Pc, created, scheduling, finished, idle, faulted, joining, stopping, wake_core,
  create_core, start_core, stop_core, step, single_step, start, single_threaded,
}
use c_operating_system.Monitor.Unload.{Inv, Inv-start, Inv-keeps, role, has_finished}
use c_operating_system.Monitor.Faults.{Armed, Armed-run}

module _ (granted : ℕ → Bool) where
  abbrev Asked : Conf Shared Pc → Type 0
  Asked c =
      (core : ℕ)
      → c.locals 2 ≡ joining core
      → (core ≡ 0) × (c.shared.should_stop 0 ≡ true) × (c.shared.task_pointer 0 ≡ task)

  record Stopping (c : Conf Shared Pc) : Type 0 where
    inv : Inv (single_threaded granted) c
    asked : Asked c

  keeps-asked :
      {c : Conf Shared Pc} (i : ℕ)
      → Stopping c
      → i < 3
      → (l : Pc) → c.locals i ≡ l
      → (s : Shared) (l' : Pc) → single_step granted i c.shared l ≡ some (s, l')
      → Asked (record { shared = s; locals = update c.locals i l' })
  unfolding step wake_core create_core start_core stop_core
  keeps-asked i k lt created e s l' h core j = ground (arith, k.inv.roles i, k.asked core)
  keeps-asked i k lt _ e s l' h core j = ground (arith, k.inv.roles i, k.asked core)

  Stopping-keeps : Keeps 3 (single_step granted) Stopping
  Stopping-keeps i c l lt k e s l' h = record {
    inv = Inv-keeps (single_threaded granted) i c l lt k.inv e s l' h;
    asked = keeps-asked i k lt l e s l' h;
  }

  Stopping-run :
      (is : List ℕ) → Stopping (run 3 (single_step granted) is (start (single_threaded granted)))
  Stopping-run is =
      run-keeps 3 (single_step granted) Stopping Stopping-keeps is (start (single_threaded granted))
        (record { inv = Inv-start (single_threaded granted); asked = λ core j. ground arith })

  -- The thread has returned, or waits to be woken; the rest is as at first.
  record Calm (h : Pc) (c : Conf Shared Pc) : Type 0 where
    thread :
        ((c.locals 0 ≡ finished) × (c.shared.exited 0 ≡ true))
        ⊎ ((c.locals 0 ≡ scheduling) × (c.shared.exited 0 ≡ false))
        ⊎ ((c.locals 0 ≡ created) × (c.shared.exited 0 ≡ false))
    timer : (c.locals 1 ≡ h) × (c.shared.armed ≡ true)
    control : c.locals 2 ≡ joining 0
    asked : (c.shared.should_stop 0 ≡ true) × (c.shared.task_pointer 0 ≡ task)

  module _ (c : Conf Shared Pc) (control : c.locals 2 ≡ joining 0) (armed : c.shared.armed ≡ true)
      (asked : (c.shared.should_stop 0 ≡ true) × (c.shared.task_pointer 0 ≡ task)) (p : Pc)
      (timer : c.locals 1 ≡ p) where
    calms :
        (l : Pc)
        → c.locals 0 ≡ l
        → role l ≡ 0
        → c.shared.exited 0 ≡ has_finished l
        → Calm p (run 3 (single_step granted) (replicate 5 0) c)
    unfolding run turn step
    calms created e r x = record {
      thread = ground arith;
      timer = ground arith;
      control = ground arith;
      asked = ground arith;
    }
    calms _ e r x = record {
      thread = ground arith;
      timer = ground arith;
      control = ground arith;
      asked = ground arith;
    }

  -- The handler runs once, or comes to its end and runs again: the thread, which has not returned, is woken.
  record Woken (c : Conf Shared Pc) : Type 0 where
    thread :
        ((c.locals 0 ≡ scheduling) × (c.shared.running 0 ≡ true))
        ⊎ ((c.locals 0 ≡ created) × (c.shared.running 0 ≡ true))
    timer : c.locals 1 ≢ faulted
    control : c.locals 2 ≡ joining 0
    asked : c.shared.should_stop 0 ≡ true

  wakes_up :
      (c : Conf Shared Pc) (p : Pc)
      → Calm p c
      → c.shared.exited 0 ≡ false
      → role p ≡ 1
      → p ≢ faulted
      → Woken (run 3 (single_step granted) (replicate 4 1) c)
  unfolding run turn step wake_core
  wakes_up c idle k x r ne = record {
    thread = ground (arith, k, x);
    timer = ground (arith, k, x);
    control = ground (arith, k, x);
    asked = ground (arith, k, x);
  }
  wakes_up c _ k x r ne = record {
    thread = ground (arith, k, x, ne);
    timer = ground (arith, k, x, ne);
    control = ground (arith, k, x, ne);
    asked = ground (arith, k, x, ne);
  }

  abbrev pub Ended : Conf Shared Pc → Type 0
  Ended c = (c.locals 2 ≡ stopping 1) × (c.locals 1 ≢ faulted)

  returns :
      (c : Conf Shared Pc) → Woken c → Ended (run 3 (single_step granted) (0 ∷ 0 ∷ 0 ∷ 2 ∷ []) c)
  unfolding run turn step
  returns c k = (ground (arith, k), ground (arith, k))

  -- The thread has returned, and `kthread_stop` with it.
  joins :
      (c : Conf Shared Pc) (p : Pc)
      → Calm p c
      → c.shared.exited 0 ≡ true
      → p ≢ faulted
      → Ended (run 3 (single_step granted) (2 ∷ []) c)
  unfolding run turn step
  joins c p k x ne = (ground (arith, k, x), ground (arith, k, ne))

  -- The turns that let `kthread_stop` return, where `x` says whether the thread has returned after five of its
  -- own.
  abbrev pub rescue : Bool → List ℕ
  rescue true = replicate 5 0 ++ (2 ∷ [])
  rescue false = replicate 5 0 ++ (replicate 4 1 ++ (0 ∷ 0 ∷ 0 ∷ 2 ∷ []))

  rescued-calm :
      (c : Conf Shared Pc) (p : Pc) (x : Bool)
      → Calm p (run 3 (single_step granted) (replicate 5 0) c)
      → (run 3 (single_step granted) (replicate 5 0) c).shared.exited 0 ≡ x
      → role p ≡ 1
      → p ≢ faulted
      → Ended (run 3 (single_step granted) (rescue x) c)
  rescued-calm c p true calm e r ne =
      let st = single_step granted in
      subst Ended (sym (run-append 3 st (replicate 5 0) (2 ∷ []) c))
        (joins (run 3 st (replicate 5 0) c) p calm e ne)
  rescued-calm c p false calm e r ne =
      let st = single_step granted in
      let c1 = run 3 st (replicate 5 0) c in
      subst Ended (sym (run-append 3 st (replicate 5 0) (replicate 4 1 ++ (0 ∷ 0 ∷ 0 ∷ 2 ∷ [])) c))
        (subst Ended (sym (run-append 3 st (replicate 4 1) (0 ∷ 0 ∷ 0 ∷ 2 ∷ []) c1))
          (returns (run 3 st (replicate 4 1) c1) (wakes_up c1 p calm e r ne)))

  rescued :
      (c : Conf Shared Pc)
      → Stopping c
      → Armed (single_threaded granted) c
      → c.locals 2 ≡ joining 0
      → c.locals 1 ≢ faulted
      → (more : List ℕ) × Ended (run 3 (single_step granted) more c)
  rescued c k a waits ne =
      let asked = k.asked 0 waits in
      let armed : c.shared.armed ≡ true = ground (arith, a.armed, waits) in
      let calm =
        calms c waits armed (asked.1, asked.2) (c.locals 1) refl (c.locals 0) refl
          (k.inv.roles 0 (omega arith)) (k.inv.exits 0 (omega arith)) in
      let c1 = run 3 (single_step granted) (replicate 5 0) c in
      (
        rescue (c1.shared.exited 0),
        rescued-calm c (c.locals 1) (c1.shared.exited 0) calm refl (k.inv.roles 1 (omega arith)) ne,
      )

-- Wherever the thread of single_threaded_mod.c stands when `simple_exit` waits for it in
-- `kthread_stop`, and if the timer has not failed before: there are turns after which `kthread_stop` has
-- returned and the timer has not failed, since the timer, which is cancelled only later, wakes a thread
-- that has slept over the wake-up.
pub stop_finishes :
    (granted : ℕ → Bool) (is : List ℕ)
    → (run 3 (single_step granted) is (start (single_threaded granted))).locals 2 ≡ joining 0
    → (run 3 (single_step granted) is (start (single_threaded granted))).locals 1 ≢ faulted
    → (more : List ℕ) × ((run 3
            (single_step granted)
            (is ++ more)
            (start (single_threaded granted))).locals
          2
        ≡ stopping 1)
      × ((run 3 (single_step granted) (is ++ more) (start (single_threaded granted))).locals 1
          ≢ faulted)
stop_finishes granted is waits ne =
    let c = run 3 (single_step granted) is (start (single_threaded granted)) in
    let (more, ends) =
      rescued granted c (Stopping-run granted is) (Armed-run (single_threaded granted) is) waits
        ne in
    let (returns_there, fine) =
      subst (Ended granted)
        (sym (run-append 3 (single_step granted) is more (start (single_threaded granted)))) ends in
    (more, returns_there, fine)
