-- ===== src/Servers.antt =====
-- studio17_io_event_handling: the servers that wait for many descriptors at once.
pub mod Wire
pub mod Calls
pub mod Poll
pub mod Select
pub mod Epoll
