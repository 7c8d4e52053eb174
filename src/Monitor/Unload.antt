-- ===== src/Monitor/Unload.antt =====
-- `simple_exit` of the monitoring modules: what can still run when it has returned.
use mathlib.Core.Path.{subst}
use c_operating_system.Prelude.{
  ℕ, suc, ◌≤◌, ◌<◌, ◌≡◌, refl, ◌⊎◌, Bool, true, false, none, some, List, ltb, ◌==◌, if◌then◌else◌,
  arith,
}
use c_operating_system.Threads.{Conf, update, run}
use c_operating_system.Threads.Invariant.{Keeps, run-keeps}
use c_operating_system.Monitor.{
  Variant, Pointer, null, task, Shared, Pc, created, testing, printing, settling, scheduling,
  returning, finished, idle, waking, faulted, initialising, creating, starting, stopping, joining,
  cancelling, unloaded, wake_core, create_core, start_core, stop_core, step, start, threads,
}

-- Which of the threads stands at a place: one of a core, the timer, or the control thread.
abbrev pub role : Pc → ℕ
role created = 0
role testing = 0
role printing = 0
role settling = 0
role scheduling = 0
role returning = 0
role finished = 0
role idle = 1
role (waking core) = 1
role faulted = 1
role _ = 2

abbrev pub role_of : ℕ → ℕ → ℕ
role_of n i = if ltb i n then 0 else if i == n then 1 else 2

abbrev pub is_task : Pointer → Bool
is_task task = true
is_task _ = false

abbrev pub busy : Pc → Bool
busy idle = false
busy _ = true

abbrev pub has_finished : Pc → Bool
has_finished finished = true
has_finished _ = false

-- The cores whose entry the control thread has filled, and whose thread it has stopped.
abbrev pub made : Bool → ℕ → Pc → ℕ
made checked n initialising = 0
made checked n (creating core) = core
made checked n (starting core) = if checked then core else suc core
made checked n _ = n

abbrev pub stopped : ℕ → Pc → ℕ
stopped n (stopping core) = core
stopped n (joining core) = core
stopped n cancelling = n
stopped n unloaded = n
stopped n _ = 0

-- `kthread_run` has woken the thread and has not returned.
abbrev pub awaits : ℕ → Pc → Bool
awaits j (starting core) = core == j
awaits j _ = false

abbrev pub Awaited : Variant → ℕ → Pc → Type 0
Awaited v j p = (v.checked ≡ true) × (v.granted j ≡ true) × (awaits j p ≡ true)

pub record Inv (v : Variant) (c : Conf Shared Pc) : Type 0 where
  pub roles : (i : ℕ) → i < threads v → role (c.locals i) ≡ role_of v.cores i
  pub handling : c.shared.handling ≡ busy (c.locals v.cores)
  pub exits : (j : ℕ) → j < v.cores → c.shared.exited j ≡ has_finished (c.locals j)
  pub unborn :
      (j : ℕ)
      → j < v.cores
      → is_task (c.shared.task_pointer j) ≡ false
      → Awaited v j (c.locals (suc v.cores))
        ⊎ ((c.shared.running j ≡ false) × (c.locals j ≡ created))
  pub fresh :
      (j : ℕ)
      → made v.checked v.cores (c.locals (suc v.cores)) ≤ j
      → j < v.cores
      → c.shared.task_pointer j ≡ null
  pub gone :
      (j : ℕ)
      → j < stopped v.cores (c.locals (suc v.cores))
      → j < v.cores
      → (c.shared.exited j ≡ true) ⊎ (is_task (c.shared.task_pointer j) ≡ false)
  pub off :
      c.locals (suc v.cores) ≡ unloaded → (c.shared.armed ≡ false) × (c.shared.handling ≡ false)

pub Inv-start : (v : Variant) → Inv v (start v)
Inv-start v = record {
  roles = λ i lt. ground arith;
  handling = ground arith;
  exits = λ j lt. ground arith;
  unborn = λ j lt h. ground arith;
  fresh = λ j le lt. refl;
  gone = λ j lt lt'. ground arith;
  off = λ h. (refl, refl);
}

module _ (v : Variant) {c : Conf Shared Pc} (inv : Inv v c) (i : ℕ) (lt : i < threads v) where
  keeps-roles :
      (l : Pc)
      → c.locals i ≡ l
      → (s : Shared) (l' : Pc) → step v i c.shared l ≡ some (s, l')
      → (j : ℕ) → j < threads v
      → role (update c.locals i l' j) ≡ role_of v.cores j
  unfolding step wake_core create_core start_core stop_core
  keeps-roles created e s l' h j lt' = ground (arith, inv.roles i, inv.roles j)
  keeps-roles _ e s l' h j lt' = ground (arith, inv.roles i, inv.roles j)

  keeps-handling :
      (l : Pc)
      → c.locals i ≡ l
      → (s : Shared) (l' : Pc) → step v i c.shared l ≡ some (s, l')
      → s.handling ≡ busy (update c.locals i l' v.cores)
  unfolding step wake_core create_core start_core stop_core
  keeps-handling created e s l' h = ground (arith, inv.roles i, inv.handling)
  keeps-handling _ e s l' h = ground (arith, inv.roles i, inv.handling)

  keeps-exits :
      (l : Pc)
      → c.locals i ≡ l
      → (s : Shared) (l' : Pc) → step v i c.shared l ≡ some (s, l')
      → (j : ℕ) → j < v.cores
      → s.exited j ≡ has_finished (update c.locals i l' j)
  unfolding step wake_core create_core start_core stop_core
  keeps-exits created e s l' h j lt' = ground (arith, inv.roles i, inv.exits j)
  keeps-exits _ e s l' h j lt' = ground (arith, inv.roles i, inv.exits j)

  keeps-unborn :
      (l : Pc)
      → c.locals i ≡ l
      → (s : Shared) (l' : Pc) → step v i c.shared l ≡ some (s, l')
      → (j : ℕ) → j < v.cores
      → is_task (s.task_pointer j) ≡ false
      → Awaited v j (update c.locals i l' (suc v.cores))
        ⊎ ((s.running j ≡ false) × (update c.locals i l' j ≡ created))
  unfolding step wake_core create_core start_core stop_core
  keeps-unborn created e s l' h j lt' un = ground (arith, inv.roles i, inv.unborn j, inv.fresh j)
  keeps-unborn (creating core) e s l' h j lt' un =
      ground (arith, inv.roles i, inv.unborn j, inv.fresh j)
  keeps-unborn (starting core) e s l' h j lt' un =
      let stands : c.locals (suc v.cores) ≡ starting core = ground (arith, inv.roles i) in
      let before : is_task (c.shared.task_pointer j) ≡ false
          → Awaited v j (starting core) ⊎ ((c.shared.running j ≡ false) × (c.locals j ≡ created)) =
        λ f.
          subst (λ p. Awaited v j p ⊎ ((c.shared.running j ≡ false) × (c.locals j ≡ created)))
            stands (inv.unborn j lt' f) in
      let empty : made v.checked v.cores (starting core) ≤ core
          → core < v.cores
          → c.shared.task_pointer core ≡ null =
        λ le below.
          subst
            (λ p.
              made v.checked v.cores p ≤ core → core < v.cores → c.shared.task_pointer core ≡ null)
            stands (inv.fresh core) le below in
      ground (arith, inv.roles i, before, empty)
  keeps-unborn _ e s l' h j lt' un = ground (arith, inv.roles i, inv.unborn j, inv.fresh j)

  keeps-fresh :
      (l : Pc)
      → c.locals i ≡ l
      → (s : Shared) (l' : Pc) → step v i c.shared l ≡ some (s, l')
      → (j : ℕ) → made v.checked v.cores (update c.locals i l' (suc v.cores)) ≤ j
      → j < v.cores
      → s.task_pointer j ≡ null
  unfolding step wake_core create_core start_core stop_core
  keeps-fresh created e s l' h j le lt' = ground (arith, inv.roles i, inv.fresh j)
  keeps-fresh _ e s l' h j le lt' = ground (arith, inv.roles i, inv.fresh j)

  keeps-gone :
      (l : Pc)
      → c.locals i ≡ l
      → (s : Shared) (l' : Pc) → step v i c.shared l ≡ some (s, l')
      → (j : ℕ) → j < stopped v.cores (update c.locals i l' (suc v.cores))
      → j < v.cores
      → (s.exited j ≡ true) ⊎ (is_task (s.task_pointer j) ≡ false)
  unfolding step wake_core create_core start_core stop_core
  keeps-gone created e s l' h j lt' lt'' = ground (arith, inv.roles i, inv.gone j)
  keeps-gone _ e s l' h j lt' lt'' = ground (arith, inv.roles i, inv.gone j)

  keeps-off :
      (l : Pc)
      → c.locals i ≡ l
      → (s : Shared) (l' : Pc) → step v i c.shared l ≡ some (s, l')
      → update c.locals i l' (suc v.cores) ≡ unloaded
      → (s.armed ≡ false) × (s.handling ≡ false)
  unfolding step wake_core create_core start_core stop_core
  keeps-off created e s l' h u = ground (arith, inv.roles i, inv.off, inv.handling)
  keeps-off _ e s l' h u = ground (arith, inv.roles i, inv.off, inv.handling)

pub Inv-keeps : (v : Variant) → Keeps (threads v) (step v) (Inv v)
Inv-keeps v i c l lt inv e s l' h = record {
  roles = keeps-roles v inv i lt l e s l' h;
  handling = keeps-handling v inv i lt l e s l' h;
  exits = keeps-exits v inv i lt l e s l' h;
  unborn = keeps-unborn v inv i lt l e s l' h;
  fresh = keeps-fresh v inv i lt l e s l' h;
  gone = keeps-gone v inv i lt l e s l' h;
  off = keeps-off v inv i lt l e s l' h;
}

pub Inv-run : (v : Variant) (is : List ℕ) → Inv v (run (threads v) (step v) is (start v))
Inv-run v is = run-keeps (threads v) (step v) (Inv v) (Inv-keeps v) is (start v) (Inv-start v)

stuck_after :
    (v : Variant) {c : Conf Shared Pc}
    → Inv v c
    → c.locals (suc v.cores) ≡ unloaded
    → (i : ℕ) → i < threads v
    → (l : Pc) → c.locals i ≡ l
    → step v i c.shared l ≡ none
unfolding step
stuck_after v inv u i lt created e =
    ground (arith, inv.roles i, inv.gone i, inv.exits i, inv.unborn i)
stuck_after v inv u i lt _ e =
    ground (arith, inv.roles i, inv.gone i, inv.exits i, inv.unborn i, inv.off, inv.handling)

-- When `simple_exit` has returned, in whatever order the threads, the timer and the control thread ran
-- and whichever threads could be created: no thread of the module can make a step any more, so none
-- runs code that is no longer there, and the timer does not expire again.
pub unload_safe :
    (v : Variant) (is : List ℕ)
    → (run (threads v) (step v) is (start v)).locals (suc v.cores) ≡ unloaded
    → (i : ℕ) → i < threads v
    → step v i
        (run (threads v) (step v) is (start v)).shared
        ((run (threads v) (step v) is (start v)).locals i)
      ≡ none
unload_safe v is u i lt = stuck_after v (Inv-run v is) u i lt _ refl
