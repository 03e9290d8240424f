-- ===== src/Simulation.antt =====
-- mini_os_simulator/os_core/simulation.py: the simulation that wires the subsystems.
pub mod State
pub mod Callbacks
pub mod FileIo
pub mod Cpu
pub mod Isolation
pub mod Work
pub mod Order
pub mod Serving
pub mod Demos
