-- ===== src/Simulation/Isolation.antt =====
-- mini_os_simulator/memory/memory_manager.py with the ports of
-- mini_os_simulator/os_core/simulation.py: page tables and the frames that they point at.
pub mod Loads
pub mod Ticks
pub mod Runs
use smart_device_io_t_operat.Prelude.{
  nat_key, ℕ, zero, suc, ◌+◌, ◌≡◌, refl, sym, ◌∙◌, ap, inl, inr, Dict, Bool, true, false, not, ◌&&◌,
  Option, none, some, List, [], ◌∷◌, ◌==◌, ==_iff, if◌then◌else◌, is_some, map_option, get_elem?,
  set, arith, Option-cases, Bool-cases,
}
use smart_device_io_t_operat.Prelude.Table
use smart_device_io_t_operat.Prelude.Table.{get-modify, get-put, get-remove}
use smart_device_io_t_operat.Process.Pcb.{Pcb, ProcessState, ready}
use smart_device_io_t_operat.Process.Manager
use smart_device_io_t_operat.Memory.{MemoryManager, FrameEntry}
use smart_device_io_t_operat.Simulation.State.{
  Simulation, pcb_of, update_pcb, change_state, enqueue_pid,
}
use smart_device_io_t_operat.Simulation.Callbacks.{
  memory_clear_mapping, memory_install_mapping, memory_ready_after_fault,
}

-- The frame that the page table of a process gives for a page.
abbrev pub page_of : ℕ → Option Pcb → Option ℕ
page_of page none = none
page_of page (some p) = Table.get page p.page_table

abbrev pub frame_of : ℕ → ℕ → Simulation → Option ℕ
frame_of pid page s = page_of page (pcb_of pid s)

-- The frame holds that page of that process.
abbrev pub holds : ℕ → ℕ → Option (Option FrameEntry) → Bool
holds pid page none = false
holds pid page (some none) = false
holds pid page (some (some e)) = e.pid == pid && e.logical_page == page

-- Every page table points only at frames that hold its own page.
abbrev pub IsMapped : List (Option FrameEntry) → Simulation → Type 0
IsMapped frames s =
    (pid page frame : ℕ)
    → frame_of pid page s ≡ some frame
    → holds pid page (get_elem? frames frame) ≡ true

pub frame_of-update_pcb :
    (k pid page : ℕ) (f : Pcb → Pcb) (s : Simulation)
    → ((p : Pcb) → (f p).page_table ≡ p.page_table)
    → frame_of pid page (update_pcb k f s) ≡ frame_of pid page s
frame_of-update_pcb k pid page f s same = elim (Option-cases (pcb_of pid s)) [
  | inl e ↦ ground (arith, get-modify k pid f s.processes.processes)
  | inr (p, e) ↦ ground (arith, get-modify k pid f s.processes.processes, same p)
]

pub frame_of-change_state :
    (k pid page : ℕ) (state : ProcessState) (s : Simulation)
    → frame_of pid page (change_state k state s) ≡ frame_of pid page s
unfolding change_state Manager.change_state
frame_of-change_state k pid page state s = elim (Option-cases (pcb_of k s)) [
  | inl e ↦ rw (e, Manager.change_state) refl
  | inr (p, e) ↦
      rw (e, Manager.change_state)
        (frame_of-update_pcb k pid page (λ b. record b { state = state }) s (λ b. refl))
]

pub frame_of-clear :
    (k q pid page : ℕ) (s : Simulation)
    → frame_of pid page (memory_clear_mapping k q s)
      ≡ (if k == pid && q == page then none else frame_of pid page s)
unfolding memory_clear_mapping
frame_of-clear k q pid page s = elim (Option-cases (pcb_of pid s)) [
  | inl e ↦ ground (
    arith,
    e,
    get-modify k pid (λ b. record b { page_table = Table.remove q b.page_table })
        s.processes.processes,
  )
  | inr (p, e) ↦ ground (
    arith,
    e,
    get-remove q page p.page_table,
    get-modify k pid (λ b. record b { page_table = Table.remove q b.page_table })
        s.processes.processes,
  )
]

-- A mapping that is there after an installation is the new one, or was there before.
pub frame_of-install :
    (k q f pid page frame : ℕ) (s : Simulation)
    → frame_of pid page (memory_install_mapping k q f s) ≡ some frame
    → (if k == pid && q == page then some f else frame_of pid page s) ≡ some frame
unfolding memory_install_mapping
frame_of-install k q f pid page frame s h = elim (Option-cases (pcb_of pid s)) [
  | inl e ↦ ground (
    arith,
    e,
    get-modify k pid (λ b. record b { page_table = Table.put q f b.page_table })
        s.processes.processes,
  )
  | inr (p, e) ↦ ground (
    arith,
    e,
    get-put q page f p.page_table,
    get-modify k pid (λ b. record b { page_table = Table.put q f b.page_table })
        s.processes.processes,
  )
]
