-- ===== src/Examples.antt =====
-- Concrete processes, memories, locks, files and simulations.
pub mod Processes
pub mod Memories
pub mod Locking
pub mod Runs
pub mod Files
pub mod Handovers
pub mod Events
pub mod Service
pub mod Demos
pub mod Work
