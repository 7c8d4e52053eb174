-- ===== src/Tests.antt =====
-- Runs of the models at concrete inputs, and the theorems applied there.
mod Family
mod Signals
mod Pipes
mod Fifo
mod Epoll
mod Sieve
mod Paging
mod Locks
mod Counting
mod Lifecycle
mod Sundaram
mod PageArray
mod PageModule
mod SharedMemory
mod Poll
mod Matrix
mod Sockets
mod Sorting
mod Monitor
mod Select
