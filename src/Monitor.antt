-- ===== src/Monitor.antt =====
-- project1_kernel_monitoring_framework: modules whose kernel threads print and sleep, woken by a timer.
-- The control thread is the kernel that loads and removes the module. The modules of studio 10 have
-- the same functions and no timer. Of the scheduler the model has what its documentation says:
-- `schedule` returns when the state is TASK_RUNNING, `wake_up_process` sets that state, `kthread_stop`
-- also waits for the thread to return, and after it the task may be freed; `hrtimer_cancel` waits for
-- the handler.
pub mod Unload
pub mod Wakeups
pub mod Faults
pub mod Hang
pub mod Stop
use c_operating_system.Prelude.{
  ℕ, suc, ◌+◌, Bool, true, false, none, some, ltb, ◌==◌, if◌then◌else◌,
}
use c_operating_system.Prelude.Word.{add32}
use c_operating_system.Threads.{Conf, Program, update}

-- What tells the modules apart. `granted` says for which cores `kthread_create` succeeds.
pub record Variant : Type 0 where
  pub cores : ℕ
  pub timer : Bool
  pub first_iter : ℕ  -- what `iter` starts from
  pub checked : Bool  -- `kthread_run` wakes no task that it could not create
  pub granted : ℕ → Bool

-- An entry of `task_pointer`.
pub data Pointer : Type 0 where
  null : Pointer
  error : Pointer  -- IS_ERR
  task : Pointer

-- `running` is the state of a task, and `wakes` counts the calls of `wake_up_process` for it.
pub record Shared : Type 0 where
  pub task_pointer : ℕ → Pointer
  pub running : ℕ → Bool
  pub should_stop : ℕ → Bool
  pub exited : ℕ → Bool
  pub armed : Bool
  pub handling : Bool
  pub iter : ℕ → ℕ
  pub wakes : ℕ → ℕ

pub data Pc : Type 0 where
  created : Pc  -- `mythreads`: not yet woken
  testing : Pc  -- at kthread_should_stop
  printing : Pc  -- at the message and `iter++`
  settling : Pc  -- at set_current_state(TASK_INTERRUPTIBLE)
  scheduling : Pc  -- in `schedule`
  returning : Pc  -- behind the loop
  finished : Pc
  idle : Pc  -- `mytimer_restart`: the timer has not expired
  waking : (core : ℕ) → Pc  -- at wake_up_process
  faulted : Pc  -- a pointer to no task was used
  crashed : Pc  -- the same in the control thread
  initialising : Pc  -- `simple_init`: at hrtimer_start
  creating : (core : ℕ) → Pc  -- at kthread_create
  starting : (core : ℕ) → Pc  -- at kthread_bind and wake_up_process
  loaded : Pc
  stopping : (core : ℕ) → Pc  -- `simple_exit`: at kthread_stop
  joining : (core : ℕ) → Pc  -- in kthread_stop, where it waits
  cancelling : Pc  -- at hrtimer_cancel
  unloaded : Pc

pub wake_up_process : ℕ → Shared → Shared
wake_up_process core s = record s {
  running = update s.running core true;
  wakes = update s.wakes core (suc (s.wakes core));
}

-- The handler wakes what `task_pointer` has; a task that has returned may be gone.
unfoldable pub wake_core : ℕ → Shared → Pointer → Shared × Pc
unfolding wake_up_process
wake_core core s task =
    if s.exited core then (s, faulted) else (wake_up_process core s, waking (suc core))
wake_core core s _ = (s, faulted)

-- What `kthread_create` and `kthread_run` answer.
abbrev pub answered : Bool → Pointer
answered created_it = if created_it then task else error

-- `kthread_create`, whose result is assigned at once, and `kthread_run`, which wakes the task before it
-- returns.
unfoldable pub create_core : Bool → Bool → ℕ → Shared → Shared
unfolding wake_up_process
create_core false created_it core s = record s {
  task_pointer = update s.task_pointer core (answered created_it);
}
create_core true created_it core s = if created_it then wake_up_process core s else s

-- `kthread_bind` and `wake_up_process`, or the assignment of what `kthread_run` has returned.
unfoldable pub start_core : Bool → Bool → ℕ → Shared → Pointer → Shared × Pc
unfolding wake_up_process
start_core true created_it core s p = (
  record s { task_pointer = update s.task_pointer core (answered created_it) },
  creating (suc core),
)
start_core false created_it core s task = (wake_up_process core s, creating (suc core))
start_core false created_it core s _ = (s, crashed)

unfoldable pub stop_core : ℕ → Shared → Pointer → Shared × Pc
unfolding wake_up_process
stop_core core s error = (s, stopping (suc core))
stop_core core s task =
    (wake_up_process core (record s { should_stop = update s.should_stop core true }), joining core)
stop_core core s null = (s, crashed)

-- The threads 0, 1, … are those of the cores; then the timer, then the control thread.
unfoldable pub step : Variant → Program Shared Pc
unfolding wake_core start_core stop_core
step v i s created = if s.running i then some (s, testing) else none
step v i s testing = some (s, if s.should_stop i then returning else printing)
step v i s printing = some (record s { iter = update s.iter i (add32 (s.iter i) 1) }, settling)
step v i s settling = some (record s { running = update s.running i false }, scheduling)
step v i s scheduling = if s.running i then some (s, testing) else none
step v i s returning = some (record s { exited = update s.exited i true }, finished)
step v i s finished = none
step v i s idle = if s.armed then some (record s { handling = true }, waking 0) else none
step v i s (waking core) =
    if ltb core v.cores
    then some (wake_core core s (s.task_pointer core))
    else some (record s { handling = false }, idle)
step v i s faulted = none
step v i s crashed = none
step v i s initialising = some (record s { armed = v.timer }, creating 0)
step v i s (creating core) =
    if ltb core v.cores
    then some (create_core v.checked (v.granted core) core s, starting core)
    else some (s, loaded)
step v i s (starting core) =
    some (start_core v.checked (v.granted core) core s (s.task_pointer core))
step v i s loaded = some (s, stopping 0)
step v i s (stopping core) =
    if ltb core v.cores then some (stop_core core s (s.task_pointer core)) else some (s, cancelling)
step v i s (joining core) = if s.exited core then some (s, stopping (suc core)) else none
step v i s cancelling = if s.handling then none else some (record s { armed = false }, unloaded)
step v i s unloaded = none

-- Before the module is loaded.
abbrev pub start_place : ℕ → ℕ → Pc
start_place cores i = if ltb i cores then created else if i == cores then idle else initialising

abbrev pub start : Variant → Conf Shared Pc
start v = record {
  shared = record {
    task_pointer = λ core. null;
    running = λ core. false;
    should_stop = λ core. false;
    exited = λ core. false;
    armed = false;
    handling = false;
    iter = λ core. v.first_iter;
    wakes = λ core. 0;
  };
  locals = start_place v.cores;
}

abbrev pub threads : Variant → ℕ
threads v = v.cores + 2

-- multiple_threaded_module.c, whose functions are `step` and what it calls.
abbrev pub multiple_threaded : (ℕ → Bool) → Variant
multiple_threaded granted = record {
  cores = 4;
  timer = true;
  first_iter = 0;
  checked = false;
  granted = granted;
}

-- single_threaded_mod.c
abbrev pub single_threaded : (ℕ → Bool) → Variant
single_threaded granted = record {
  cores = 1;
  timer = true;
  first_iter = 1;
  checked = true;
  granted = granted;
}

-- `mytimer_restart`, `mythreads`, `single_init` and `single_exit`
abbrev pub single_step : (ℕ → Bool) → Program Shared Pc
single_step granted = step (single_threaded granted)

-- race.c and atomic_race.c of studio 10, where `iter++` stands for a pass of the loop.
abbrev pub race : (ℕ → Bool) → Variant
race granted = record {
  cores = 4;
  timer = false;
  first_iter = 0;
  checked = false;
  granted = granted;
}

-- `mythreads`, `simple_init` and `simple_exit`
abbrev pub race_step : (ℕ → Bool) → Program Shared Pc
race_step granted = step (race granted)
