-- ===== src/Simulation/Callbacks.antt =====
-- mini_os_simulator/os_core/simulation.py: the callbacks that the simulation gives to memory,
-- locks and files.
pub mod Inheritance
pub mod Wakeups
pub mod Handoffs
use smart_device_io_t_operat.Prelude.{
  nat_key, ℕ, suc, ◌+◌, ℤ, pos, ◌+ℤ◌, max_ℤ, ltb_ℤ, pos_part, neg_part, Dict, String, Bool, true,
  false, not, ◌&&◌, ◌||◌, Option, none, some, List, [], ◌∷◌, ◌++◌, ◌==◌, if◌then◌else◌,
}
use smart_device_io_t_operat.Prelude.Table
use smart_device_io_t_operat.Process.Pcb.{
  ProcessState, ready, running, blocked, terminated, same_state, Pcb,
}
use smart_device_io_t_operat.Concurrency.SyncPorts.{Lock, SyncPorts}
use smart_device_io_t_operat.Memory.{MemoryPorts}
use smart_device_io_t_operat.FileSystem.{FileSystemPorts}
use smart_device_io_t_operat.FileSystem.Paths.{FilePath}
use smart_device_io_t_operat.Observability.{
  memory, filesystem, concurrency, priority, increment_path,
}
use smart_device_io_t_operat.Simulation.State.{
  Simulation, pcb_of, note, count, change_state, update_pcb, enqueue_pid, leave_cpu_blocked,
}

-- `_memory_on_fifo_eviction`
unfoldable pub memory_on_fifo_eviction : ℕ → ℕ → ℕ → Simulation → Simulation
memory_on_fifo_eviction victim_pid page frame s =
    note memory "PAGE_REPLACEMENT" (victim_pid ∷ [])
      (count (λ m. record m { total_page_replacements = m.total_page_replacements + 1 }) s)

-- `_memory_clear_mapping`
unfoldable pub memory_clear_mapping : ℕ → ℕ → Simulation → Simulation
memory_clear_mapping pid page =
    update_pcb pid (λ p. record p { page_table = Table.remove page p.page_table })

-- `_memory_install_mapping`
unfoldable pub memory_install_mapping : ℕ → ℕ → ℕ → Simulation → Simulation
memory_install_mapping pid page frame =
    update_pcb pid (λ p. record p { page_table = Table.put page frame p.page_table })

-- `_memory_ready_after_fault`
unfoldable pub memory_ready_after_fault : ℕ → Simulation → Simulation
memory_ready_after_fault pid s = elim (pcb_of pid s) [
  | none ↦ s
  | some pcb ↦
      if same_state pcb.state blocked then enqueue_pid pid (change_state pid ready s) else s
]

-- `_wire_memory_ports`
abbrev pub memory_ports : MemoryPorts Simulation
memory_ports = record {
  clear_page_mapping = some memory_clear_mapping;
  install_page_mapping = some memory_install_mapping;
  mark_ready_and_enqueue = some memory_ready_after_fault;
  on_fifo_eviction = some memory_on_fifo_eviction;
}

abbrev pub is_current : ℕ → Option ℕ → Bool
is_current pid none = false
is_current pid (some current) = current == pid

-- `_sync_block_process`
unfoldable pub sync_block_process : ℕ → Simulation → Simulation
sync_block_process pid s = elim (pcb_of pid s) [
  | none ↦ s
  | some pcb ↦
      if same_state pcb.state terminated
      then s
      else let s₁ =
          (if same_state pcb.state running || same_state pcb.state ready
            then change_state pid blocked s
            else s) in
        if is_current pid s.current_pid then leave_cpu_blocked s₁ else s₁
]

-- `_sync_wake_process`
unfoldable pub sync_wake_process : ℕ → Simulation → Simulation
sync_wake_process pid s = elim (pcb_of pid s) [
  | none ↦ s
  | some pcb ↦
      if same_state pcb.state terminated
      then s
      else if same_state pcb.state blocked
      then enqueue_pid pid (change_state pid ready s)
      else if same_state pcb.state ready
      then enqueue_pid pid s
      else s
]

-- The largest base priority with aging among the waiters, and at least 0.
unfoldable pub highest_waiter : Simulation → ℤ → List ℕ → ℤ
highest_waiter s mx [] = mx
highest_waiter s mx (w ∷ ws) = elim (pcb_of w s) [
  | none ↦ highest_waiter s mx ws
  | some p ↦ highest_waiter s (max_ℤ mx (p.priority +ℤ pos p.aging_bonus)) ws
]

-- The event of `_recompute_mutex_inheritance`, from the floor before and after.
abbrev pub note_inheritance : ℕ → ℤ → ℤ → Simulation → Simulation
note_inheritance owner prev floor s =
    if ltb_ℤ prev floor
    then note priority "INHERITANCE" (owner ∷ []) (
        count
          (λ m. record m {
            total_priority_inheritance_activations = m.total_priority_inheritance_activations + 1;
          })
          s)
    else if ltb_ℤ (pos 0) prev && (not (ltb_ℤ floor (pos 0)) && not (ltb_ℤ (pos 0) floor))
    then note priority "INHERITANCE_CLEAR" (owner ∷ []) s
    else s

-- `_recompute_mutex_inheritance`
unfoldable pub recompute_mutex_inheritance : Lock → Simulation → Simulation
unfolding highest_waiter
recompute_mutex_inheritance lock s = elim lock.owner [
  | none ↦ s
  | some owner_pid ↦ elim (pcb_of owner_pid s) [
    | none ↦ s
    | some owner ↦
        let floor = highest_waiter s (pos 0) lock.waiting_queue in
        note_inheritance owner_pid owner.mutex_inheritance_floor floor
          (update_pcb owner_pid (λ p. record p { mutex_inheritance_floor = floor }) s)
  ]
]

-- `_clear_mutex_inheritance_for_holder`
unfoldable pub clear_mutex_inheritance_for_holder : ℕ → Simulation → Simulation
clear_mutex_inheritance_for_holder pid =
    update_pcb pid (λ p. record p { mutex_inheritance_floor = pos 0 })

-- `_obs_on_semaphore_blocked`
unfoldable pub obs_on_semaphore_blocked : String → ℕ → Simulation → Simulation
obs_on_semaphore_blocked name pid s =
    note concurrency "SEMAPHORE_WAIT" (pid ∷ [])
      (count (λ m. record m { total_semaphore_waits = m.total_semaphore_waits + 1 }) s)

-- `_obs_on_semaphore_signal_handoff`
unfoldable pub obs_on_semaphore_signal_handoff : String → ℕ → ℕ → Simulation → Simulation
obs_on_semaphore_signal_handoff name signaler wakee =
    note concurrency "SEMAPHORE_SIGNAL" (signaler ∷ wakee ∷ [])

-- `_obs_on_mutex_blocked`
unfoldable pub obs_on_mutex_blocked : String → ℕ → ℕ → Simulation → Simulation
obs_on_mutex_blocked name waiter owner s =
    note concurrency "MUTEX_WAIT" (waiter ∷ owner ∷ [])
      (count (λ m. record m { total_lock_contentions = m.total_lock_contentions + 1 }) s)

-- `_obs_on_file_lock_blocked`
unfoldable pub obs_on_file_lock_blocked : FilePath → ℕ → ℕ → Simulation → Simulation
obs_on_file_lock_blocked path waiter holder s =
    note filesystem "FILE_LOCK_WAIT" (waiter ∷ holder ∷ []) (
      count
        (λ m. record m {
          total_lock_contentions = m.total_lock_contentions + 1;
          file_lock_contention_by_path = increment_path path m.file_lock_contention_by_path;
        })
        s)

-- `_make_sync_ports`: the inheritance callbacks are there only when inheritance is enabled.
unfoldable pub make_sync_ports : Bool → SyncPorts Simulation
make_sync_ports mutex_inheritance_enabled = record {
  block_process = sync_block_process;
  wake_process = sync_wake_process;
  recompute_mutex_inheritance =
      if mutex_inheritance_enabled then some recompute_mutex_inheritance else none;
  clear_mutex_inheritance_for_holder =
      if mutex_inheritance_enabled then some clear_mutex_inheritance_for_holder else none;
  on_semaphore_blocked = some obs_on_semaphore_blocked;
  on_semaphore_signal_handoff = some obs_on_semaphore_signal_handoff;
  on_mutex_blocked = some obs_on_mutex_blocked;
}

-- `_make_fs_ports`
unfoldable pub make_fs_ports : FileSystemPorts Simulation
make_fs_ports = record {
  block_process = sync_block_process;
  wake_process = sync_wake_process;
  on_file_lock_blocked = some obs_on_file_lock_blocked;
}
