-- ===== src/Examples/Demos.antt =====
-- The demos of mini_os_simulator/main.py, run to their end: no assertion of theirs fails.
use smart_device_io_t_operat.Prelude.{
  max_ℤ, ◌+ℤ◌, ◌≡◌, refl, Bool, true, false, [], ◌∷◌, ◌&&◌, ℕ, mem, not, Option, none, some,
}
use smart_device_io_t_operat.Prelude.Table
use smart_device_io_t_operat.Process.Pcb
use smart_device_io_t_operat.Process.Manager
use smart_device_io_t_operat.Process.Scheduler
use smart_device_io_t_operat.Memory
use smart_device_io_t_operat.Memory.Translate
use smart_device_io_t_operat.FileSystem
use smart_device_io_t_operat.FileSystem.Paths
use smart_device_io_t_operat.Observability
use smart_device_io_t_operat.Concurrency.Locks
use smart_device_io_t_operat.Concurrency.Semaphore
use smart_device_io_t_operat.Concurrency.SharedBuffer
use smart_device_io_t_operat.Simulation.State
use smart_device_io_t_operat.Simulation.Callbacks
use smart_device_io_t_operat.Simulation.FileIo
use smart_device_io_t_operat.Simulation.Cpu
use smart_device_io_t_operat.Simulation.Demos as Script
use smart_device_io_t_operat.Simulation.Demos.Frames
use smart_device_io_t_operat.Simulation.Demos.Phases
use smart_device_io_t_operat.Simulation.Demos.Sharing
use smart_device_io_t_operat.Simulation.Demos.Inversion
use smart_device_io_t_operat.Simulation.Demos.Final
use smart_device_io_t_operat.Simulation.State.{Simulation, pcb_of}
use smart_device_io_t_operat.Simulation.Callbacks.{is_current}
use smart_device_io_t_operat.Process.Pcb.{Pcb, ready, same_state}
use smart_device_io_t_operat.Simulation.Demos.{Answer, ok}
use smart_device_io_t_operat.Simulation.Demos.Final.{main}

abbrev completes : Answer Simulation → Bool
completes (ok s) = true
completes _ = false

abbrev every_demo_completes : Bool
every_demo_completes =
    completes (main ("--phase0" ∷ []))
    && completes (main ("--phase1" ∷ []))
    && completes (main ("--phase2" ∷ []))
    && completes (main ("--phase3" ∷ []))
    && completes (main ("--phase4" ∷ []))
    && completes (main [])
    && completes (main ("--final" ∷ []))

every_demo_completes_test : every_demo_completes ≡ true
unfolding max_ℤ ◌+ℤ◌ Table.get Table.put Table.remove Table.modify Pcb.post_init
    Pcb.effective_priority Pcb.on_first_cpu_dispatch Pcb.finalize_metrics Manager.create_process
    Manager.change_state Manager.terminate Scheduler.enqueue Scheduler.candidate
    Scheduler.pick_first Scheduler.stage Scheduler.before Scheduler.insert_staged
    Scheduler.sort_staged Scheduler.put_back Scheduler.pick_highest Scheduler.pick_next
    Scheduler.round_robin_scheduler Scheduler.create_scheduler Memory.default_page_size
    Memory.with_page_size Memory.init Memory.pages_for Memory.allocate Memory.release_frames
    Memory.free Memory.oldest_from Memory.evict_fifo Memory.pick_frame_for_load Memory.load_page
    Memory.complete_fault_load Memory.advance_jobs Memory.advance_fault_timers Memory.is_pending
    Memory.begin_fault_resolution Translate.translate_address Translate.access_page
    Translate.try_access Translate.deterministic_logical_address FileSystem.touch_meta_size
    FileSystem.mkdir FileSystem.insert_text FileSystem.sort_texts FileSystem.list_dir
    FileSystem.create FileSystem.file_exists FileSystem.get_metadata FileSystem.read
    FileSystem.store FileSystem.write FileSystem.append FileSystem.delete FileSystem.contend
    FileSystem.acquire_inode FileSystem.try_acquire_exclusive_lock FileSystem.hand_over
    FileSystem.release_exclusive_lock FileSystem.note_open FileSystem.note_close Paths.is_space
    Paths.lstrip Paths.before_stripped Paths.rstrip Paths.to_posix Paths.split_slash Paths.visit
    Paths.resolve Paths.join_parts Paths.normalize_path Paths.rsplit_slash Paths.parent_dir
    Paths.basename Observability.trim Observability.obs_record Observability.on_process_state_change
    Observability.max_from Observability.analyze_system Observability.sum_metrics Locks.contend
    Locks.acquire Locks.hand_over Locks.give_up Locks.release Semaphore.wait Semaphore.signal
    SharedBuffer.new_buffer SharedBuffer.produce SharedBuffer.consume SharedBuffer.peek
    State.change_state State.enqueue_pid Callbacks.memory_on_fifo_eviction
    Callbacks.memory_clear_mapping Callbacks.memory_install_mapping
    Callbacks.memory_ready_after_fault Callbacks.sync_block_process Callbacks.sync_wake_process
    Callbacks.highest_waiter Callbacks.recompute_mutex_inheritance
    Callbacks.clear_mutex_inheritance_for_holder Callbacks.obs_on_semaphore_blocked
    Callbacks.obs_on_semaphore_signal_handoff Callbacks.obs_on_mutex_blocked
    Callbacks.obs_on_file_lock_blocked Callbacks.make_sync_ports Callbacks.make_fs_ports
    FileIo.open_file FileIo.close_file FileIo.file_blocking FileIo.perform FileIo.complete_file_io
    FileIo.advance_io_jobs FileIo.advance_file_io_timers Cpu.age Cpu.age_all Cpu.maybe_apply_aging
    Cpu.advance_memory Cpu.free_memory Cpu.note_context_switch_if_needed Cpu.start_tick Cpu.select
    Cpu.begin_slice Cpu.access Cpu.page_fault Cpu.finish Cpu.expire Cpu.end_tick Cpu.execute
    Cpu.run_current Cpu.cpu_loop Cpu.cpu_step Cpu.run_ticks Cpu.phase_cpu_ticks
    Cpu.run_until_all_terminated Cpu.reset_cpu_execution_state Script.spawn Script.reserve
    Script.make_ready Script.reserve_all Script.admit Script.partial_ticks Script.cpu_ticks
    Script.drain Script.make_simulation Script.acquire_lock Script.release_lock Frames.wait_empty
    Frames.wait_full Frames.signal_empty Frames.signal_full Frames.acquire_mutex
    Frames.release_mutex Frames.put_item Frames.take_item Frames.store_frame Frames.produce_frame
    Frames.fetch_frame Frames.consume_frame Phases.pass_lock Phases.run_phase0_demo
    Phases.create_phase1_iot_processes Phases.create_phase2_iot_processes
    Phases.collect_policy_stats Phases.policy_run Phases.run_phase1_demo Phases.paging_run
    Phases.run_phase2_demo Sharing.finish_third Sharing.exchange_frames Sharing.run_phase3_demo
    Sharing.make_files Sharing.file_traffic Sharing.run_phase4_demo Inversion.start_scenario
    Inversion.spawn_crew Inversion.invert Inversion.first_dispatch Inversion.collect_metrics
    Inversion.run_stress_scenario Inversion.inversion_part Inversion.run_phase5_demo Final.prepare
    Final.capture Final.contend Final.run_final_demo Final.choose_demo Final.main
every_demo_completes_test = refl

-- The reset and the new scheduler between two parts of phase 5 leave the low process of the first
-- part READY, in no queue and off the CPU.
abbrev is_stranded : ℕ → Simulation → Bool
is_stranded pid s =
    ready_block (pcb_of pid s)
    && not (mem pid s.scheduler.ready_queue)
    && not (is_current pid s.current_pid)
  where
    ready_block : Option Pcb → Bool
    ready_block none = false
    ready_block (some p) = same_state p.state ready

abbrev leaves_stranded : Answer Simulation → Bool
leaves_stranded (ok s) = is_stranded 1 s
leaves_stranded _ = false

default_demo_strands : leaves_stranded (main []) ≡ true
unfolding max_ℤ ◌+ℤ◌ Table.get Table.put Table.remove Table.modify Pcb.post_init
    Pcb.effective_priority Pcb.on_first_cpu_dispatch Pcb.finalize_metrics Manager.create_process
    Manager.change_state Manager.terminate Scheduler.enqueue Scheduler.candidate
    Scheduler.pick_first Scheduler.stage Scheduler.before Scheduler.insert_staged
    Scheduler.sort_staged Scheduler.put_back Scheduler.pick_highest Scheduler.pick_next
    Scheduler.round_robin_scheduler Scheduler.create_scheduler Memory.default_page_size
    Memory.with_page_size Memory.init Memory.pages_for Memory.allocate Memory.release_frames
    Memory.free Memory.oldest_from Memory.evict_fifo Memory.pick_frame_for_load Memory.load_page
    Memory.complete_fault_load Memory.advance_jobs Memory.advance_fault_timers Memory.is_pending
    Memory.begin_fault_resolution Translate.translate_address Translate.access_page
    Translate.try_access Translate.deterministic_logical_address FileSystem.touch_meta_size
    FileSystem.mkdir FileSystem.insert_text FileSystem.sort_texts FileSystem.list_dir
    FileSystem.create FileSystem.file_exists FileSystem.get_metadata FileSystem.read
    FileSystem.store FileSystem.write FileSystem.append FileSystem.delete FileSystem.contend
    FileSystem.acquire_inode FileSystem.try_acquire_exclusive_lock FileSystem.hand_over
    FileSystem.release_exclusive_lock FileSystem.note_open FileSystem.note_close Paths.is_space
    Paths.lstrip Paths.before_stripped Paths.rstrip Paths.to_posix Paths.split_slash Paths.visit
    Paths.resolve Paths.join_parts Paths.normalize_path Paths.rsplit_slash Paths.parent_dir
    Paths.basename Observability.trim Observability.obs_record Observability.on_process_state_change
    Observability.max_from Observability.analyze_system Observability.sum_metrics Locks.contend
    Locks.acquire Locks.hand_over Locks.give_up Locks.release Semaphore.wait Semaphore.signal
    SharedBuffer.new_buffer SharedBuffer.produce SharedBuffer.consume SharedBuffer.peek
    State.change_state State.enqueue_pid Callbacks.memory_on_fifo_eviction
    Callbacks.memory_clear_mapping Callbacks.memory_install_mapping
    Callbacks.memory_ready_after_fault Callbacks.sync_block_process Callbacks.sync_wake_process
    Callbacks.highest_waiter Callbacks.recompute_mutex_inheritance
    Callbacks.clear_mutex_inheritance_for_holder Callbacks.obs_on_semaphore_blocked
    Callbacks.obs_on_semaphore_signal_handoff Callbacks.obs_on_mutex_blocked
    Callbacks.obs_on_file_lock_blocked Callbacks.make_sync_ports Callbacks.make_fs_ports
    FileIo.open_file FileIo.close_file FileIo.file_blocking FileIo.perform FileIo.complete_file_io
    FileIo.advance_io_jobs FileIo.advance_file_io_timers Cpu.age Cpu.age_all Cpu.maybe_apply_aging
    Cpu.advance_memory Cpu.free_memory Cpu.note_context_switch_if_needed Cpu.start_tick Cpu.select
    Cpu.begin_slice Cpu.access Cpu.page_fault Cpu.finish Cpu.expire Cpu.end_tick Cpu.execute
    Cpu.run_current Cpu.cpu_loop Cpu.cpu_step Cpu.run_ticks Cpu.phase_cpu_ticks
    Cpu.run_until_all_terminated Cpu.reset_cpu_execution_state Script.spawn Script.reserve
    Script.make_ready Script.reserve_all Script.admit Script.partial_ticks Script.cpu_ticks
    Script.drain Script.make_simulation Script.acquire_lock Script.release_lock Frames.wait_empty
    Frames.wait_full Frames.signal_empty Frames.signal_full Frames.acquire_mutex
    Frames.release_mutex Frames.put_item Frames.take_item Frames.store_frame Frames.produce_frame
    Frames.fetch_frame Frames.consume_frame Phases.pass_lock Phases.run_phase0_demo
    Phases.create_phase1_iot_processes Phases.create_phase2_iot_processes
    Phases.collect_policy_stats Phases.policy_run Phases.run_phase1_demo Phases.paging_run
    Phases.run_phase2_demo Sharing.finish_third Sharing.exchange_frames Sharing.run_phase3_demo
    Sharing.make_files Sharing.file_traffic Sharing.run_phase4_demo Inversion.start_scenario
    Inversion.spawn_crew Inversion.invert Inversion.first_dispatch Inversion.collect_metrics
    Inversion.run_stress_scenario Inversion.inversion_part Inversion.run_phase5_demo Final.prepare
    Final.capture Final.contend Final.run_final_demo Final.choose_demo Final.main
default_demo_strands = refl
