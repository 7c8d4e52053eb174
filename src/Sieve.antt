-- ===== src/Sieve.antt =====
-- project2_kernel_memory_concurrent_use: kernel modules that compute the primes up to a bound with
-- several kernel threads.
pub mod Time
pub mod Composite
pub mod Eratosthenes
pub mod Report
pub mod Lifecycle
pub mod Guarded
pub mod Spinlock
pub mod Sundaram
pub mod SundaramLock
