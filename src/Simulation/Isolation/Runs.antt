-- ===== src/Simulation/Isolation/Runs.antt =====
-- mini_os_simulator/os_core/simulation.py, `_cpu_step`: page tables and frames over whole ticks.

use smart_device_io_t_operat.Prelude.{
  nat_key, path_key, ℕ, ◌+◌, ◌≡◌, refl, sym, ◌∙◌, inl, inr, Option, none, some, ◌==◌, leb, arith,
  Option-cases, Bool-cases,
}
use smart_device_io_t_operat.Process.Pcb.{
  Pcb, running, blocked, terminated, finalize_metrics, on_first_cpu_dispatch,
}
use smart_device_io_t_operat.Memory.{MemoryManager, begin_fault_resolution, is_pending}
use smart_device_io_t_operat.Memory.Accounting.{free-IsAccounted}
use smart_device_io_t_operat.Memory.Bookkeeping.{SameBooks-IsAccounted, begin_fault-SameBooks}
use smart_device_io_t_operat.Memory.Frames.{IsFrames, free-IsFrames}
use smart_device_io_t_operat.Simulation.Cpu.Invariants.{
  Afterwards, Chosen, PartsKeep, run_until_all_terminated_keeps,
}
use smart_device_io_t_operat.Simulation.State.{Simulation, pcb_of, update_pcb, change_state}
use smart_device_io_t_operat.Simulation.Callbacks.{memory_ports}
use smart_device_io_t_operat.Simulation.Cpu.{
  free_memory, select, begin_slice, page_fault, execute, end_tick, finish, expire, work,
  run_current, after_access, faulting_page, access, dispatch, note_context_switch_if_needed,
  run_until_all_terminated, work_pending,
}
use smart_device_io_t_operat.Simulation.Isolation.{frame_of}
use smart_device_io_t_operat.Simulation.Isolation.Loads.{free-IsMapped}
use smart_device_io_t_operat.Process.Scheduler
use smart_device_io_t_operat.Simulation.Cpu.{quantum_of, advance_sim_clock}
use smart_device_io_t_operat.Simulation.State.{leave_cpu_blocked}
use smart_device_io_t_operat.Simulation.Isolation.Ticks.{
  IsIsolated, Same, Same-refl, Same-trans, Same-IsIsolated, Same-update_pcb, Same-change_state,
  Same-ready, start_tick-IsIsolated,
}

-- The tick of a process.
on_first_cpu_dispatch_keeps :
    (clock : ℕ) (p : Pcb) → (on_first_cpu_dispatch clock p).page_table ≡ p.page_table
unfolding on_first_cpu_dispatch
on_first_cpu_dispatch_keeps clock p = ground arith

finalize_metrics_keeps :
    (clock : ℕ) (p : Pcb) → (finalize_metrics clock p).page_table ≡ p.page_table
unfolding finalize_metrics
finalize_metrics_keeps clock p = refl

work_keeps : (p : Pcb) → (work p).page_table ≡ p.page_table
work_keeps p = ground arith

Same-note_context_switch : (pid : ℕ) (s : Simulation) → Same s (note_context_switch_if_needed pid s)
unfolding note_context_switch_if_needed
Same-note_context_switch pid s = record { memory = ground arith; tables = λ k page. ground arith }

Same-begin_slice : (pid : ℕ) (s : Simulation) → Same s (begin_slice pid s)
unfolding begin_slice
Same-begin_slice pid s = elim (Bool-cases (s.ticks_in_slice == 0)) [
  | inr e ↦ rw e (Same-refl s)
  | inl e ↦
      let s₁ = note_context_switch_if_needed pid s in
      rw e (
        Same-trans s s₁ _ (Same-note_context_switch pid s) (
          Same-trans s₁ (update_pcb pid (on_first_cpu_dispatch s.sim_clock) s₁) _
            (Same-update_pcb pid (on_first_cpu_dispatch s.sim_clock) s₁
              (on_first_cpu_dispatch_keeps s.sim_clock))
            (Same-change_state pid running _)))
]

begin_fault-frame_table :
    (pid page : ℕ) (m : MemoryManager)
    → (begin_fault_resolution pid page m).frame_table ≡ m.frame_table
unfolding begin_fault_resolution
begin_fault-frame_table pid page m = ground arith

begin_fault-IsFrames :
    (pid page : ℕ) (m : MemoryManager) → IsFrames m → IsFrames (begin_fault_resolution pid page m)
unfolding begin_fault_resolution
begin_fault-IsFrames pid page m v = elim (Bool-cases (is_pending pid page m.fault_jobs)) [
  | inl e ↦ rw e v
  | inr e ↦
      rw e (record { size = v.size; once = v.once; empty_iff = v.empty_iff; loaded = v.loaded })
]

block_on_fault-IsIsolated :
    (pid page : ℕ) (t : Simulation)
    → IsIsolated t
    → IsIsolated (
        leave_cpu_blocked (record (change_state pid blocked t) {
          memory = begin_fault_resolution pid page t.memory;
        }))
unfolding change_state
block_on_fault-IsIsolated pid page t v =
    let k = Same-change_state pid blocked t in
    record {
      frames = begin_fault-IsFrames pid page t.memory v.frames;
      accounted =
          SameBooks-IsAccounted t.memory (begin_fault_resolution pid page t.memory)
            (begin_fault-SameBooks pid page t.memory) v.accounted;
      mapped = λ j q f e.
          rw (begin_fault-frame_table pid page t.memory) (v.mapped j q f (sym (k.tables j q) ∙ e));
    }

page_fault-IsIsolated :
    (pid page : ℕ) (s : Simulation) → IsIsolated s → IsIsolated (page_fault pid page s)
unfolding page_fault change_state
page_fault-IsIsolated pid page s v =
    block_on_fault-IsIsolated pid page (record s { observer = _ })
      (record { frames = v.frames; accounted = v.accounted; mapped = v.mapped })

finish-IsIsolated : (pid : ℕ) (s : Simulation) → IsIsolated s → IsIsolated (finish pid s)
unfolding finish free_memory
finish-IsIsolated pid s v =
    let s₁ = update_pcb pid (finalize_metrics s.sim_clock) s in
    let s₂ = change_state pid terminated s₁ in
    let w =
      Same-IsIsolated s s₂
        (Same-trans s s₁ s₂
          (Same-update_pcb pid (finalize_metrics s.sim_clock) s
            (finalize_metrics_keeps s.sim_clock))
          (Same-change_state pid terminated s₁))
        v in
    record {
      frames = free-IsFrames memory_ports pid s₂.memory s₂ w.frames;
      accounted = free-IsAccounted memory_ports pid s₂.memory s₂ w.accounted;
      mapped = free-IsMapped pid s₂.memory s₂ w.mapped;
    }

expire-IsIsolated : (pid : ℕ) (s : Simulation) → IsIsolated s → IsIsolated (expire pid s)
unfolding expire
expire-IsIsolated pid s v =
    let k = Same-ready pid s in
    Same-IsIsolated s _ (record { memory = k.memory; tables = k.tables }) v

execute-IsIsolated : (p : Pcb) (s : Simulation) → IsIsolated s → IsIsolated (execute p s)
unfolding execute end_tick
execute-IsIsolated p s v =
    let s₁ =
      advance_sim_clock
        (record (update_pcb p.pid work s) { ticks_in_slice = s.ticks_in_slice + 1 }) in
    let k = Same-update_pcb p.pid work s work_keeps in
    let w : IsIsolated s₁ =
      Same-IsIsolated s s₁ (record { memory = k.memory; tables = k.tables }) v in
    elim (Bool-cases ((work p).remaining_time == 0)) [
      | inl e ↦ rw (e, end_tick) (finish-IsIsolated p.pid s₁ w)
      | inr e ↦ elim (Bool-cases (leb (quantum_of s.scheduler.policy) (s.ticks_in_slice + 1))) [
        | inl f ↦ rw (e, end_tick) (rw f (expire-IsIsolated p.pid s₁ w))
        | inr f ↦ rw (e, end_tick) (rw f w)
      ]
    ]

-- The rounds of the loop.
after_access-IsIsolated :
    (p : Pcb) (page : Option ℕ) (s : Simulation)
    → IsIsolated s
    → Afterwards IsIsolated (after_access p page s)
after_access-IsIsolated p none s v = execute-IsIsolated p s v
after_access-IsIsolated p (some page) s v = page_fault-IsIsolated p.pid page s v

run_current-IsIsolated :
    (pid : ℕ) (s : Simulation) → IsIsolated s → Afterwards IsIsolated (run_current pid s)
unfolding run_current
run_current-IsIsolated pid s v =
    let t = begin_slice pid s in
    let w = Same-IsIsolated s t (Same-begin_slice pid s) v in
    elim (Option-cases (pcb_of pid t)) [
      | inl e ↦ rw (e, run_current) w
      | inr (p, e) ↦
          rw (e, run_current) (after_access-IsIsolated p (faulting_page (access p t)) t w)
    ]

dispatch-IsIsolated :
    (chosen : Option Pcb) (s : Simulation) → IsIsolated s → Chosen IsIsolated (dispatch chosen s)
dispatch-IsIsolated none s v = elim (Bool-cases (work_pending s)) [
  | inl e ↦ rw e (record { frames = v.frames; accounted = v.accounted; mapped = v.mapped })
  | inr e ↦ rw e v
]
dispatch-IsIsolated (some p) s v = record {
  frames = v.frames;
  accounted = v.accounted;
  mapped = v.mapped;
}

select-IsIsolated : (s : Simulation) → IsIsolated s → Chosen IsIsolated (select s)
unfolding select
select-IsIsolated s v = elim (Option-cases s.current_pid) [
  | inr (pid, e) ↦ rw (e, select) v
  | inl e ↦
      let (chosen, scheduler) = Scheduler.pick_next s.processes.processes s.scheduler in
      rw (e, select)
        (dispatch-IsIsolated chosen (record s { scheduler = scheduler })
          (record { frames = v.frames; accounted = v.accounted; mapped = v.mapped }))
]

parts_keep : PartsKeep IsIsolated
parts_keep = record {
  starts = start_tick-IsIsolated;
  selects = select-IsIsolated;
  runs = λ pid s v _. run_current-IsIsolated pid s v;
}

-- A frame belongs to one page of one process.
pub NoSharing : Simulation → Type 0
NoSharing s =
    (pid pid' page page' frame : ℕ)
    → frame_of pid page s ≡ some frame
    → frame_of pid' page' s ≡ some frame
    → (pid ≡ pid') × (page ≡ page')

IsIsolated-NoSharing : (s : Simulation) → IsIsolated s → NoSharing s
unfolding NoSharing
IsIsolated-NoSharing s v pid pid' page page' frame e f =
    ground (arith, v.mapped pid page frame e, v.mapped pid' page' frame f)

-- The loop that runs the simulation until every process has terminated, for any bound on its
-- steps, from a state with its frames in order, reservations that add up and fit, and page
-- tables that point only at frames holding their own page, returns a state in which that is
-- still so, and in which no frame is mapped by two processes or for two pages.
pub run_until_all_terminated-NoSharing :
    (n : ℕ) (s : Simulation)
    → IsIsolated s
    → (t : Simulation) × (run_until_all_terminated n s ≡ some t) × IsIsolated t × NoSharing t
run_until_all_terminated-NoSharing n s v =
    let (t, e, w) = run_until_all_terminated_keeps IsIsolated parts_keep n s v in
    (t, e, w, IsIsolated-NoSharing t w)
