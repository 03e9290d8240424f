-- ===== src/Simulation/Demos/Frames.antt =====
-- mini_os_simulator/os_core/simulation.py: the producer and the consumer of `run_phase3_demo` and
-- `run_final_demo`, with the objects that they share.
pub mod Balance
pub mod Runs
use smart_device_io_t_operat.Prelude.{ℕ, pos, String, Bool, true, false, Option, some, List, []}
use smart_device_io_t_operat.Concurrency.SyncPorts.{Lock, SyncPorts}
use smart_device_io_t_operat.Concurrency.Locks.{new_lock, acquire, release}
use smart_device_io_t_operat.Concurrency.Semaphore.{CountingSemaphore, new_semaphore, wait, signal}
use smart_device_io_t_operat.Concurrency.SharedBuffer
use smart_device_io_t_operat.Concurrency.SharedBuffer.{
  SharedBuffer, Result, new_buffer, produce, consume,
}
use smart_device_io_t_operat.Simulation.State.{Simulation}
use smart_device_io_t_operat.Simulation.Demos.{
  Answer, ok, runtime_error, Action, ◌>>=◌, ◌>>◌, pure, expect,
}

-- The local objects of a demo, beside the simulation.
pub record Desk : Type 0 where
  pub sim : Simulation
  pub buf : SharedBuffer String
  pub mtx : Lock
  pub empty : CountingSemaphore
  pub full : CountingSemaphore

-- A buffer for `capacity` frames, with its semaphores.
abbrev pub new_desk : ℕ → String → String → Simulation → Desk
new_desk capacity buffer_name mutex_name s = record {
  sim = s;
  buf = record { name = buffer_name; capacity = capacity; items = [] };
  mtx = new_lock mutex_name;
  empty = new_semaphore "empty_slots" capacity;
  full = new_semaphore "full_slots" 0;
}

-- An action on the simulation.
abbrev pub on_sim : {A : Type 0} → Action Simulation A → Action Desk A
on_sim m d = ((m d.sim).0, record d { sim = (m d.sim).1 })

module _ (ports : SyncPorts Simulation) where
  unfoldable pub wait_empty : ℕ → Action Desk Bool
  wait_empty pid d =
      let (b, sem, s) = wait ports pid d.empty d.sim in (ok b, record d { empty = sem; sim = s })

  unfoldable pub wait_full : ℕ → Action Desk Bool
  wait_full pid d =
      let (b, sem, s) = wait ports pid d.full d.sim in (ok b, record d { full = sem; sim = s })

  unfoldable pub signal_empty : ℕ → Action Desk (Unit {0})
  signal_empty pid d =
      let (sem, s) = signal ports pid d.empty d.sim in (ok tt, record d { empty = sem; sim = s })

  unfoldable pub signal_full : ℕ → Action Desk (Unit {0})
  signal_full pid d =
      let (sem, s) = signal ports pid d.full d.sim in (ok tt, record d { full = sem; sim = s })

  unfoldable pub acquire_mutex : ℕ → Action Desk Bool
  acquire_mutex pid d =
      let (b, lock, s) = acquire pid (some ports) d.mtx d.sim in
      (ok b, record d { mtx = lock; sim = s })

  unfoldable pub release_mutex : ℕ → Action Desk Bool
  release_mutex pid d =
      let (b, lock, s) = release pid (some ports) d.mtx d.sim in
      (ok b, record d { mtx = lock; sim = s })

  abbrev pub after_produce : Result (SharedBuffer String) → Action Desk (Unit {0})
  after_produce (Result.ok b) d = (ok tt, record d { buf = b })
  after_produce (Result.raise e) d = (runtime_error e, d)

  abbrev pub after_consume : Result (String × SharedBuffer String) → Action Desk String
  after_consume (Result.ok (item, b)) d = (ok item, record d { buf = b })
  after_consume (Result.raise e) d = (runtime_error e, d)

  unfoldable pub put_item : String → Action Desk (Unit {0})
  put_item tag d = after_produce (produce tag d.buf) d

  unfoldable pub take_item : Action Desk String
  take_item d = after_consume (consume d.buf) d

  -- `produce_frame` after its wait, as the demos also write it out.
  unfoldable pub store_frame : ℕ → String → Action Desk (Unit {0})
  unfolding put_item acquire_mutex release_mutex signal_full
  store_frame pid tag = do
    granted ← acquire_mutex pid
    expect granted
    put_item tag
    release_mutex pid
    signal_full pid

  unfoldable pub produce_frame : ℕ → String → Action Desk (Unit {0})
  unfolding store_frame wait_empty
  produce_frame pid tag = do slot ← wait_empty pid; expect slot; store_frame pid tag

  -- `consume_frame` after its wait.
  unfoldable pub fetch_frame : ℕ → Action Desk String
  unfolding take_item acquire_mutex release_mutex signal_empty
  fetch_frame pid = do
    granted ← acquire_mutex pid
    expect granted
    item ← take_item
    release_mutex pid
    signal_empty pid
    pure item

  unfoldable pub consume_frame : ℕ → Action Desk String
  unfolding fetch_frame wait_full
  consume_frame pid = do slot ← wait_full pid; expect slot; fetch_frame pid
