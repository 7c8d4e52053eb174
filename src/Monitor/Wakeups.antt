-- ===== src/Monitor/Wakeups.antt =====
-- How often the threads of the monitoring modules print.
use c_operating_system.Prelude.{ℕ, ◌+◌, ◌≤◌, ◌<◌, ◌≡◌, Bool, some, List, if◌then◌else◌, arith}
use c_operating_system.Threads.{Conf, update, run}
use c_operating_system.Threads.Invariant.{Keeps, run-keeps}
use c_operating_system.Monitor.{
  Variant, Shared, Pc, created, testing, printing, scheduling, wake_core, create_core, start_core,
  stop_core, step, start, threads,
}
use c_operating_system.Monitor.Unload.{Inv, Inv-start, Inv-keeps}

-- The messages that a thread may print before it is woken again.
abbrev credit : Pc → Bool → ℕ
credit created running = if running then 1 else 0
credit testing running = 1
credit printing running = 1
credit scheduling running = if running then 1 else 0
credit _ running = 0

record Counted (v : Variant) (c : Conf Shared Pc) : Type 0 where
  inv : Inv v c
  counted :
      (j : ℕ)
      → j < v.cores
      → c.shared.iter j + credit (c.locals j) (c.shared.running j) ≤ v.first_iter + c.shared.wakes j

keeps-counted :
    (v : Variant) {c : Conf Shared Pc}
    → Inv v c
    → (i : ℕ) → i < threads v
    → (l : Pc) → c.locals i ≡ l
    → (s : Shared) (l' : Pc) → step v i c.shared l ≡ some (s, l')
    → (j : ℕ) → j < v.cores
    → c.shared.iter j + credit (c.locals j) (c.shared.running j) ≤ v.first_iter + c.shared.wakes j
    → s.iter j + credit (update c.locals i l' j) (s.running j) ≤ v.first_iter + s.wakes j
unfolding step wake_core create_core start_core stop_core
keeps-counted v inv i lt created e s l' h j lt' le = ground (arith, inv.roles i, inv.roles j)
keeps-counted v inv i lt _ e s l' h j lt' le = ground (arith, inv.roles i, inv.roles j)

Counted-keeps : (v : Variant) → Keeps (threads v) (step v) (Counted v)
Counted-keeps v i c l lt k e s l' h = record {
  inv = Inv-keeps v i c l lt k.inv e s l' h;
  counted = λ j lt'. keeps-counted v k.inv i lt l e s l' h j lt' (k.counted j lt');
}

-- However the threads are scheduled and whenever the timer expires: the thread of a core prints at
-- most once for each call of `wake_up_process` for it, so a wake-up while it runs adds no message.
pub iter-le-wakes :
    (v : Variant) (is : List ℕ) (core : ℕ)
    → core < v.cores
    → (run (threads v) (step v) is (start v)).shared.iter core
      ≤ v.first_iter + (run (threads v) (step v) is (start v)).shared.wakes core
iter-le-wakes v is core lt =
    let k =
      run-keeps (threads v) (step v) (Counted v) (Counted-keeps v) is (start v)
        (record { inv = Inv-start v; counted = λ j lt'. ground arith }) in
    omega (arith, k.counted core lt)
