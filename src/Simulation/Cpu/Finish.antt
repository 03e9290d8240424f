-- ===== src/Simulation/Cpu/Finish.antt =====
-- mini_os_simulator/os_core/simulation.py, the end of `_cpu_step` for a process that has done
-- its work.
use smart_device_io_t_operat.Prelude.{
  nat_key, ℕ, suc, ◌+◌, ◌≤◌, ◌≡◌, refl, inl, inr, Dict, true, false, Option, none, some, List, [],
  ◌∷◌, ◌==◌, get_elem?, arith, Bool-cases,
}
use smart_device_io_t_operat.Prelude.Table
use smart_device_io_t_operat.Prelude.Table.{get-modify, get-remove}
use smart_device_io_t_operat.Process.Pcb.{terminated, Pcb, finalize_metrics}
use smart_device_io_t_operat.Memory.{FrameEntry, release_frames, free, reserved}
use smart_device_io_t_operat.Memory.Frames.{release_frames-IsReleased}
use smart_device_io_t_operat.Simulation.State.{Simulation, pcb_of, update_pcb, change_state}
use smart_device_io_t_operat.Simulation.Callbacks.{memory_ports, memory_clear_mapping}
use smart_device_io_t_operat.Simulation.State.Blocks.{pcb_of-update_pcb, pcb_of-change_state}
use smart_device_io_t_operat.Simulation.Isolation.{holds}
use smart_device_io_t_operat.Simulation.Cpu.{
  execute, end_tick, finish, work, free_memory, advance_sim_clock,
}

-- The loop of `free` changes nothing of the block but its page table.
pcb_of-release_frames :
    (pid fi : ℕ) (table : List (Option FrameEntry)) (s : Simulation) (p : Pcb)
    → pcb_of pid s ≡ some p
    → (t : Dict ℕ ℕ) × (pcb_of pid (release_frames memory_ports pid fi table s).2
        ≡ some (record p { page_table = t }))
unfolding release_frames memory_clear_mapping
pcb_of-release_frames pid fi [] s p e = (p.page_table, e)
pcb_of-release_frames pid fi (none ∷ rest) s p e = pcb_of-release_frames pid (suc fi) rest s p e
pcb_of-release_frames pid fi (some x ∷ rest) s p e = elim (Bool-cases (x.pid == pid)) [
  | inr h ↦ rw (h, release_frames) (pcb_of-release_frames pid (suc fi) rest s p e)
  | inl h ↦
      rw (h, release_frames)
        (pcb_of-release_frames pid (suc fi) rest (memory_clear_mapping pid x.logical_page s)
          (record p { page_table = Table.remove x.logical_page p.page_table })
          (cleared x.logical_page))
]
  where
    cleared :
        (page : ℕ)
        → pcb_of pid (memory_clear_mapping pid page s)
          ≡ some (record p { page_table = Table.remove page p.page_table })
    cleared page =
        pcb_of-update_pcb pid (λ b. record b { page_table = Table.remove page b.page_table }) s p e

-- `self.memory.free(pid)` leaves the process no frame and no reservation.
pub record IsFreed (pid : ℕ) (s : Simulation) : Type 0 where
  pub no_frame : (page frame : ℕ) → holds pid page (get_elem? s.memory.frame_table frame) ≡ false
  pub no_bytes : reserved pid s.memory ≡ 0

free_memory-IsFreed : (pid : ℕ) (s : Simulation) → IsFreed pid (free_memory pid s)
unfolding free_memory free
free_memory-IsFreed pid s = record {
  no_frame = λ page frame.
      let r = release_frames-IsReleased memory_ports pid 0 s.memory.frame_table s in
      ground (arith, r.slot frame);
  no_bytes = ground (arith, get-remove pid pid s.memory.reservation_bytes);
}

-- A tick that executes the process of a block with at most one unit of work left leaves it
-- TERMINATED, with the metrics of the next clock and otherwise unchanged but for its page table;
-- it has no frame and no reserved byte, and the CPU is free.
pub execute_finishes :
    (p : Pcb) (s : Simulation)
    → pcb_of p.pid s ≡ some p
    → p.remaining_time ≤ 1
    → (t : Dict ℕ ℕ) × (pcb_of p.pid (execute p s)
        ≡ some (record (finalize_metrics (s.sim_clock + 1) (work p)) {
          state = terminated;
          page_table = t;
        }))
      × IsFreed p.pid (execute p s)
      × ((execute p s).current_pid ≡ none)
unfolding execute end_tick finish free_memory free
execute_finishes p s e few =
    let s₁ =
      advance_sim_clock
        (record (update_pcb p.pid work s) { ticks_in_slice = s.ticks_in_slice + 1 }) in
    let s₂ = update_pcb p.pid (finalize_metrics (s.sim_clock + 1)) s₁ in
    let q = finalize_metrics (s.sim_clock + 1) (work p) in
    let at₁ : pcb_of p.pid s₁ ≡ some (work p) = pcb_of-update_pcb p.pid work s p e in
    let at₂ : pcb_of p.pid s₂ ≡ some q =
      pcb_of-update_pcb p.pid (finalize_metrics (s.sim_clock + 1)) s₁ (work p) at₁ in
    let at₃ = pcb_of-change_state p.pid terminated s₂ q at₂ in
    let s₃ = change_state p.pid terminated s₂ in
    let (t, last) =
      pcb_of-release_frames p.pid 0 s₃.memory.frame_table s₃ (record q { state = terminated })
        at₃ in
    let freed = free_memory-IsFreed p.pid s₃ in
    let done : ((work p).remaining_time == 0) ≡ true = ground (arith, few) in
    rw (done, end_tick)
      (t, last, record { no_frame = freed.no_frame; no_bytes = freed.no_bytes }, refl)
