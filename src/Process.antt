-- ===== src/Process.antt =====
-- mini_os_simulator/process: the process control block, the process table and the schedulers.
pub mod Pcb
pub mod Manager
pub mod Scheduler
