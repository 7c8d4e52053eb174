-- ===== src/Monitor/Hang.antt =====
-- race.c and atomic_race.c have no timer: a wake-up that comes between the test of
-- `kthread_should_stop` and `set_current_state` is lost.
use c_operating_system.Prelude.{
  ℕ, ◌<◌, ◌≡◌, Bool, refl, ◌∙◌, ap, true, false, some, List, [], ◌∷◌, ◌++◌, replicate, arith,
}
use c_operating_system.Threads.{Conf, update, turn, run}
use c_operating_system.Threads.Invariant.{Keeps, run-keeps, run-append}
use c_operating_system.Monitor.{
  Variant, Shared, Pc, created, scheduling, idle, joining, wake_core, create_core, start_core,
  stop_core, step, start, race, race_step,
}
use c_operating_system.Monitor.Unload.{Inv, Inv-run, Inv-keeps}

abbrev pub all_granted : ℕ → Bool
all_granted core = true

abbrev pub race_module : Variant
race_module = race all_granted

-- The first thread sleeps, and the control thread waits for it.
record Hung (c : Conf Shared Pc) : Type 0 where
  inv : Inv race_module c
  waits : c.locals 5 ≡ joining 0
  sleeps : c.locals 0 ≡ scheduling
  still : c.shared.running 0 ≡ false
  quiet : (c.locals 4 ≡ idle) × (c.shared.armed ≡ false)

module _ {c : Conf Shared Pc} (k : Hung c) (i : ℕ) (lt : i < 6) where
  keeps-Hung :
      (l : Pc)
      → c.locals i ≡ l
      → (s : Shared) (l' : Pc) → race_step all_granted i c.shared l ≡ some (s, l')
      → (update c.locals i l' 5 ≡ joining 0)
        × (update c.locals i l' 0 ≡ scheduling)
        × (s.running 0 ≡ false)
        × (update c.locals i l' 4 ≡ idle)
        × (s.armed ≡ false)
  unfolding step wake_core create_core start_core stop_core
  keeps-Hung created e s l' h = ground (arith, k, k.inv.roles i, k.inv.exits 0)
  keeps-Hung _ e s l' h = ground (arith, k, k.inv.roles i, k.inv.exits 0)

Hung-keeps : Keeps 6 (race_step all_granted) Hung
Hung-keeps i c l lt k e s l' h =
    let (waits, sleeps, still, quiet, off) = keeps-Hung k i lt l e s l' h in
    record {
      inv = Inv-keeps race_module i c l lt k.inv e s l' h;
      waits = waits;
      sleeps = sleeps;
      still = still;
      quiet = (quiet, off);
    }

-- The module is loaded; the first thread tests `kthread_should_stop` and prints; it is stopped; it
-- goes on and sleeps.
abbrev pub losing : List ℕ
losing = replicate 10 5 ++ (0 ∷ 0 ∷ 5 ∷ 5 ∷ 0 ∷ 0 ∷ [])

abbrev pub lost : Conf Shared Pc
lost = run 6 (race_step all_granted) losing (start race_module)

lost-Hung : Hung lost
unfolding run turn step wake_core create_core start_core stop_core
lost-Hung = record {
  inv = Inv-run race_module losing;
  waits = refl;
  sleeps = refl;
  still = refl;
  quiet = (refl, refl);
}

-- Where `kthread_stop` comes after the first thread has tested `kthread_should_stop` and before it
-- sets its state, the module of race.c is never removed: whatever runs afterwards, `simple_exit`
-- waits in its first `kthread_stop`.
pub unload_hangs :
    (js : List ℕ)
    → (run 6 (race_step all_granted) (losing ++ js) (start race_module)).locals 5 ≡ joining 0
unload_hangs js =
    ap (λ c. c.locals 5) (run-append 6 (race_step all_granted) losing js (start race_module))
    ∙ (run-keeps 6 (race_step all_granted) Hung Hung-keeps js lost lost-Hung).waits
