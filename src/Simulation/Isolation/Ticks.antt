-- ===== src/Simulation/Isolation/Ticks.antt =====
-- mini_os_simulator/os_core/simulation.py: page tables and frames through aging, timers and file
-- operations.
use smart_device_io_t_operat.Prelude.{
  nat_key, path_key, ℕ, ◌+◌, ◌≡◌, refl, sym, ◌∙◌, inl, inr, List, [], ◌∷◌, Option-cases, Bool-cases,
}
use smart_device_io_t_operat.Process.Pcb.{Pcb, ProcessState, ready, same_state}
use smart_device_io_t_operat.Process.Manager.{list_processes}
use smart_device_io_t_operat.Memory.Accounting.{IsAccounted}
use smart_device_io_t_operat.Memory.Bookkeeping.{
  SameBooks-IsAccounted, advance_fault_timers-SameBooks,
}
use smart_device_io_t_operat.Memory.Frames.{IsFrames, advance_fault_timers-IsFrames}
use smart_device_io_t_operat.Simulation.State.{
  Simulation, pcb_of, update_pcb, change_state, enqueue_pid,
}
use smart_device_io_t_operat.Simulation.Callbacks.{memory_ports}
use smart_device_io_t_operat.Simulation.FileIo.{advance_file_io_timers}
use smart_device_io_t_operat.Simulation.FileIo.Invariants.{JobsKeep, advance_io_jobs_keeps}
use smart_device_io_t_operat.Simulation.Cpu.{
  age, age_all, maybe_apply_aging, aging_due, advance_memory, start_tick,
}
use smart_device_io_t_operat.Simulation.Isolation.{
  IsMapped, frame_of, frame_of-update_pcb, frame_of-change_state,
}
use smart_device_io_t_operat.Simulation.Isolation.Loads.{
  frame_of-enqueue_pid, advance_fault_timers-IsMapped,
}

-- The memory manager's frames are in order and its reservations add up, and every page table points
-- only at its own pages.
pub record IsIsolated (s : Simulation) : Type 0 where
  pub frames : IsFrames s.memory
  pub accounted : IsAccounted s.memory
  pub mapped : IsMapped s.memory.frame_table s

-- The memory and the page tables are the same.
pub record Same (s s' : Simulation) : Type 0 where
  pub memory : s'.memory ≡ s.memory
  pub tables : (pid page : ℕ) → frame_of pid page s' ≡ frame_of pid page s

pub Same-refl : (s : Simulation) → Same s s
Same-refl s = record { memory = refl; tables = λ pid page. refl }

pub Same-trans : (s t u : Simulation) → Same s t → Same t u → Same s u
Same-trans s t u h k = record {
  memory = k.memory ∙ h.memory;
  tables = λ pid page. k.tables pid page ∙ h.tables pid page;
}

pub Same-IsIsolated : (s s' : Simulation) → Same s s' → IsIsolated s → IsIsolated s'
Same-IsIsolated s s' h v = record {
  frames = rw h.memory v.frames;
  accounted = rw h.memory v.accounted;
  mapped = λ pid page frame e. rw h.memory (v.mapped pid page frame (sym (h.tables pid page) ∙ e));
}

pub Same-update_pcb :
    (k : ℕ) (f : Pcb → Pcb) (s : Simulation)
    → ((p : Pcb) → (f p).page_table ≡ p.page_table)
    → Same s (update_pcb k f s)
Same-update_pcb k f s same = record {
  memory = refl;
  tables = λ pid page. frame_of-update_pcb k pid page f s same;
}

pub Same-change_state :
    (k : ℕ) (state : ProcessState) (s : Simulation) → Same s (change_state k state s)
unfolding change_state
Same-change_state k state s = record {
  memory = refl;
  tables = λ pid page. frame_of-change_state k pid page state s;
}

Same-enqueue_pid : (k : ℕ) (s : Simulation) → Same s (enqueue_pid k s)
unfolding enqueue_pid
Same-enqueue_pid k s = record {
  memory = kept;
  tables = λ pid page. frame_of-enqueue_pid k pid page s;
}
  where
    kept : (enqueue_pid k s).memory ≡ s.memory
    kept = elim (Option-cases (pcb_of k s)) [
      | inl e ↦ rw (e, enqueue_pid) refl
      | inr (p, e) ↦ rw (e, enqueue_pid) refl
    ]

pub Same-ready : (k : ℕ) (s : Simulation) → Same s (enqueue_pid k (change_state k ready s))
Same-ready k s =
    Same-trans s (change_state k ready s) _ (Same-change_state k ready s)
      (Same-enqueue_pid k (change_state k ready s))

-- Aging.
Same-age_all : (ps : List Pcb) (s : Simulation) → Same s (age_all ps s)
unfolding age_all age
Same-age_all [] s = Same-refl s
Same-age_all (p ∷ ps) s = Same-trans s (age p s) _ here (Same-age_all ps (age p s))
  where
    here : Same s (age p s)
    here = elim (Bool-cases (same_state p.state ready)) [
      | inl e ↦ rw e (record {
        memory = refl;
        tables = λ pid page.
            frame_of-update_pcb p.pid pid page (λ b. record b { aging_bonus = b.aging_bonus + 1 }) s
              (λ b. refl);
      })
      | inr e ↦ rw e (Same-refl s)
    ]

-- Wake-ups and file operations that end.
jobs_keep : (s : Simulation) → JobsKeep (Same s)
jobs_keep s = record {
  wakes = record {
    requeues = λ pid t h. Same-trans s t _ h (Same-enqueue_pid pid t);
    readies = λ pid p t e h. Same-trans s t _ h (Same-ready pid t);
  };
  ignores = λ o fs t h. record { memory = h.memory; tables = h.tables };
}

advance_memory-IsIsolated : (s : Simulation) → IsIsolated s → IsIsolated (advance_memory s)
unfolding advance_memory
advance_memory-IsIsolated s v = record {
  frames = advance_fault_timers-IsFrames memory_ports s.memory s v.frames;
  accounted =
      SameBooks-IsAccounted s.memory (advance_memory s).memory
        (advance_fault_timers-SameBooks memory_ports s.memory s) v.accounted;
  mapped = advance_fault_timers-IsMapped s.memory s v.frames v.mapped;
}

maybe_apply_aging-IsIsolated : (s : Simulation) → IsIsolated s → IsIsolated (maybe_apply_aging s)
unfolding maybe_apply_aging
maybe_apply_aging-IsIsolated s v = elim (Bool-cases (aging_due s)) [
  | inl e ↦ rw e (Same-IsIsolated s _ (Same-age_all (list_processes s.processes) s) v)
  | inr e ↦ rw e v
]

pub start_tick-IsIsolated : (s : Simulation) → IsIsolated s → IsIsolated (start_tick s)
unfolding start_tick advance_file_io_timers
start_tick-IsIsolated s v =
    let s₁ = advance_memory (maybe_apply_aging s) in
    let w = advance_memory-IsIsolated (maybe_apply_aging s) (maybe_apply_aging-IsIsolated s v) in
    let k = advance_io_jobs_keeps (Same s₁) (jobs_keep s₁) s₁.pending_file_io s₁ (Same-refl s₁) in
    Same-IsIsolated s₁ _ (record { memory = k.memory; tables = k.tables }) w
