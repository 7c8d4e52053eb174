-- ===== src/Tests/Monitor.antt =====
-- The monitoring modules at concrete schedules.
use c_operating_system.Prelude.{ℕ, ◌≡◌, ◌≢◌, refl, none, List, [], ◌∷◌, ◌++◌, replicate, arith}
use c_operating_system.Threads.{turn, run}
use c_operating_system.Monitor.{
  faulted, joining, stopping, unloaded, wake_core, create_core, start_core, stop_core, step,
  single_step, start, single_threaded, race, race_step,
}
use c_operating_system.Monitor.Unload.{unload_safe}
use c_operating_system.Monitor.Hang.{all_granted, losing, unload_hangs}
use c_operating_system.Monitor.Stop.{stop_finishes}

-- The single thread prints, is woken by the timer, prints again, and is stopped.
abbrev visit : List ℕ
visit = replicate 4 2 ++ replicate 4 0 ++ replicate 3 1 ++ replicate 4 0

abbrev whole : List ℕ
whole = visit ++ replicate 2 2 ++ replicate 4 0 ++ replicate 4 2

visit_prints :
    (run 3 (single_step all_granted) visit (start (single_threaded all_granted))).shared.iter 0 ≡ 3
unfolding run turn step wake_core create_core start_core stop_core
visit_prints = refl

whole_ends :
    (run 3 (single_step all_granted) whole (start (single_threaded all_granted))).locals 2
    ≡ unloaded
unfolding run turn step wake_core create_core start_core stop_core
whole_ends = refl

unload_safe_example :
    step
      (single_threaded all_granted)
      1
      (run 3 (single_step all_granted) whole (start (single_threaded all_granted))).shared
      ((run 3 (single_step all_granted) whole (start (single_threaded all_granted))).locals 1)
    ≡ none
unload_safe_example = unload_safe (single_threaded all_granted) whole whole_ends 1 (omega arith)

unload_hangs_example :
    (run 6 (race_step all_granted) (losing ++ replicate 100 0) (start (race all_granted))).locals 5
    ≡ joining 0
unload_hangs_example = unload_hangs (replicate 100 0)

-- The thread has tested `kthread_should_stop` when it is stopped.
abbrev asked : List ℕ
asked = replicate 4 2 ++ (0 ∷ 0 ∷ 2 ∷ 2 ∷ [])

stop_finishes_example :
    (more : List ℕ) × ((run 3
          (single_step all_granted)
          (asked ++ more)
          (start (single_threaded all_granted))).locals
        2
      ≡ stopping 1)
    × ((run 3
            (single_step all_granted)
            (asked ++ more)
            (start (single_threaded all_granted))).locals
          1
        ≢ faulted)
unfolding run turn step wake_core create_core start_core stop_core
stop_finishes_example = stop_finishes all_granted asked refl (λ e. cc)
