-- ===== src/Tests/Locks.antt =====
-- lock.c and sleeplock.c at concrete schedules.
use c_operating_system.Prelude.{ℕ, ◌≡◌, refl, false, List, [], ◌∷◌, ◌++◌, arith}
use c_operating_system.Threads.{Conf, turn, run}
use c_operating_system.Locks.SpinLock
use c_operating_system.Locks.SpinLock.{Pc}
use c_operating_system.Locks.SpinLock.Exclusion.{spin-exclusion}
use c_operating_system.Locks.SleepLock
use c_operating_system.Locks.SleepLock.Exclusion.{holds as sleep_holds, sleep-exclusion}
use c_operating_system.Locks.SleepLock.LostWakeup.{losing, lost_wakeup}

-- Thread 1 gets the lock, thread 0 spins.
abbrev contended : List ℕ
contended = 1 ∷ 0 ∷ 0 ∷ 1 ∷ []

abbrev spun : Conf ℕ Pc
spun = run 2 SpinLock.step contended SpinLock.start

spun_places : (spun.locals 0 ≡ SpinLock.locking) × (spun.locals 1 ≡ SpinLock.critical 1)
unfolding run turn SpinLock.step
spun_places = (refl, refl)

spin-exclusion_example : ◌≡◌ {A = ℕ} 1 1
unfolding run turn SpinLock.step
spin-exclusion_example = spin-exclusion 2 contended 1 1 refl refl

sleep-exclusion_example : ◌≡◌ {A = ℕ} 1 1
unfolding run turn SleepLock.step
sleep-exclusion_example = sleep-exclusion 2 contended 1 1 (omega arith) refl refl

lost_wakeup_example :
    ((run 2 SleepLock.step (losing SleepLock.iters ++ contended) SleepLock.start).locals 1
      ≡ SleepLock.sleeping)
    × ((j : ℕ)
        → sleep_holds
            ((run 2 SleepLock.step (losing SleepLock.iters ++ contended) SleepLock.start).locals j)
          ≡ false)
lost_wakeup_example = lost_wakeup 2 contended (omega arith) (omega arith)
