-- ===== src/Concurrency.antt =====
-- mini_os_simulator/concurrency: the mutex, the counting semaphore and the bounded buffer.
pub mod SyncPorts
pub mod Locks
pub mod Semaphore
pub mod SharedBuffer
