-- ===== src/Locks.antt =====
-- The two user-space locks of studio11_build_own_locks.
pub mod SpinLock
pub mod SleepLock
