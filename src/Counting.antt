-- ===== src/Counting.antt =====
-- The shared counters of studio10_synchronization: race.c and atomic_race.c.
-- Modelled is the kernel thread `mythreads` up to its `schedule()`: no other code of the modules
-- wakes it before `kthread_stop`, so `asleep` is where its first pass ends.

pub mod Race
pub mod Atomic
