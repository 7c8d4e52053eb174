-- ===== src/Monitor/Faults.antt =====
-- The timer of the monitoring modules expires at a wrong time.
use c_operating_system.Prelude.{
  ℕ, suc, ◌<◌, ◌≡◌, ◌∙◌, ap, ◌⊎◌, inl, inr, Bool, true, false, some, List, [], ◌∷◌, ◌++◌, arith,
}
use c_operating_system.Threads.{Conf, update, turn, run}
use c_operating_system.Threads.Invariant.{Keeps, run-keeps, run-append}
use c_operating_system.Monitor.{
  Variant, Shared, Pc, created, idle, faulted, initialising, creating, stopping, unloaded,
  wake_core, create_core, start_core, stop_core, step, start, threads,
}
use c_operating_system.Monitor.Unload.{Inv, Inv-start, Inv-keeps}

-- The timer is armed from `hrtimer_start` to `hrtimer_cancel`.
abbrev pub on : Bool → Pc → Bool
on timer initialising = false
on timer unloaded = false
on timer _ = timer

pub record Armed (v : Variant) (c : Conf Shared Pc) : Type 0 where
  pub inv : Inv v c
  pub armed : c.shared.armed ≡ on v.timer (c.locals (suc v.cores))

keeps-armed :
    (v : Variant) {c : Conf Shared Pc}
    → Armed v c
    → (i : ℕ) → i < threads v
    → (l : Pc) → c.locals i ≡ l
    → (s : Shared) (l' : Pc) → step v i c.shared l ≡ some (s, l')
    → s.armed ≡ on v.timer (update c.locals i l' (suc v.cores))
unfolding step wake_core create_core start_core stop_core
keeps-armed v k i lt created e s l' h = ground (arith, k.inv.roles i, k.armed)
keeps-armed v k i lt _ e s l' h = ground (arith, k.inv.roles i, k.armed)

pub Armed-keeps : (v : Variant) → Keeps (threads v) (step v) (Armed v)
Armed-keeps v i c l lt k e s l' h = record {
  inv = Inv-keeps v i c l lt k.inv e s l' h;
  armed = keeps-armed v k i lt l e s l' h;
}

pub Armed-run : (v : Variant) (is : List ℕ) → Armed v (run (threads v) (step v) is (start v))
Armed-run v is =
    run-keeps (threads v) (step v) (Armed v) (Armed-keeps v) is (start v)
      (record { inv = Inv-start v; armed = ground arith })

-- The control thread stands before the first kthread_create, or behind the first kthread_stop.
abbrev pub Outside : Pc → Type 0
Outside l = (l ≡ creating 0) ⊎ ((core : ℕ) × (l ≡ stopping (suc core)))

expires :
    (v : Variant) {c : Conf Shared Pc}
    → Armed v c
    → v.timer ≡ true
    → 0 < v.cores
    → c.locals v.cores ≡ idle
    → Outside (c.locals (suc v.cores))
    → (run (threads v) (step v) (v.cores ∷ v.cores ∷ []) c).locals v.cores ≡ faulted
unfolding run turn step wake_core
expires v k on_timer some_core e (inl early) = ground (arith, k.armed, k.inv.fresh 0)
expires v k on_timer some_core e (inr (core, late)) = ground (arith, k.armed, k.inv.gone 0)

-- When the timer of a module expires after `hrtimer_start` and before the first `kthread_create`, or
-- after the first `kthread_stop` and before the next step of `simple_exit`, its handler uses a pointer
-- to no task: `task_pointer[0]` is not set yet, or its thread has returned.
pub timer_faults :
    (v : Variant) (is : List ℕ)
    → v.timer ≡ true
    → 0 < v.cores
    → (run (threads v) (step v) is (start v)).locals v.cores ≡ idle
    → Outside ((run (threads v) (step v) is (start v)).locals (suc v.cores))
    → (run (threads v) (step v) (is ++ v.cores ∷ v.cores ∷ []) (start v)).locals v.cores ≡ faulted
timer_faults v is on_timer some_core e o =
    ap (λ c. c.locals v.cores)
      (run-append (threads v) (step v) is (v.cores ∷ v.cores ∷ []) (start v))
    ∙ expires v (Armed-run v is) on_timer some_core e o
