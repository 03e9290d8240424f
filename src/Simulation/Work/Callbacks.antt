-- ===== src/Simulation/Work/Callbacks.antt =====
-- mini_os_simulator/os_core/simulation.py: the work and the clock under the callbacks, which leave
-- both alone.

use smart_device_io_t_operat.Prelude.{
  nat_key, ℕ, ◌+◌, ◌≡◌, refl, inl, inr, false, List, [], ◌∷◌, arith, Bool-cases, Option-cases, Dict,
}
use smart_device_io_t_operat.Prelude.Table
use smart_device_io_t_operat.Prelude.Table.{get-modify}
use smart_device_io_t_operat.Process.Pcb.{Pcb, ProcessState, ready, terminated, same_state}
use smart_device_io_t_operat.Process.Manager
use smart_device_io_t_operat.Process.Manager.{list_processes}
use smart_device_io_t_operat.Memory.Owner.{CallbacksKeep}
use smart_device_io_t_operat.Simulation.State.{Simulation, pcb_of, change_state, enqueue_pid}
use smart_device_io_t_operat.Simulation.Callbacks.{
  memory_ports, memory_clear_mapping, memory_install_mapping, memory_on_fifo_eviction,
}
use smart_device_io_t_operat.Simulation.FileIo.Invariants.{JobsKeep, ready_after_fault_keeps}
use smart_device_io_t_operat.Simulation.Cpu.{age, age_all}
use smart_device_io_t_operat.Simulation.Work.{IsPaced, KeepsWork, modify-IsPaced}

abbrev pub Paced : ℕ → Simulation → Type 0
Paced burst s = IsPaced burst s.sim_clock s.processes.processes

module _ (burst : ℕ) where
  -- A new state that is not the end.
  state-KeepsWork :
      (st : ProcessState)
      → same_state st terminated ≡ false
      → KeepsWork (λ p. record p { state = st })
  state-KeepsWork st h = record {
    pid = λ p. refl;
    counter = λ p. refl;
    remaining = λ p. refl;
    burst = λ p. refl;
    state = λ p e. ground (arith, h, e);
  }

  pub change_state-Paced :
      (pid : ℕ) (st : ProcessState) (s : Simulation)
      → same_state st terminated ≡ false
      → Paced burst s
      → Paced burst (change_state pid st s)
  unfolding change_state Manager.change_state
  change_state-Paced pid st s h v = elim (Option-cases (pcb_of pid s)) [
    | inl e ↦ rw (e, Manager.change_state) v
    | inr (p, e) ↦
        rw (e, Manager.change_state)
          (modify-IsPaced burst s.sim_clock pid (λ b. record b { state = st }) s.processes.processes
            (state-KeepsWork st h) v)
  ]

  pub enqueue_pid-Paced :
      (pid : ℕ) (s : Simulation) → Paced burst s → Paced burst (enqueue_pid pid s)
  unfolding enqueue_pid
  enqueue_pid-Paced pid s v = elim (Option-cases (pcb_of pid s)) [
    | inl e ↦ rw (e, enqueue_pid) v
    | inr (p, e) ↦ rw (e, enqueue_pid) v
  ]

  pub jobs_keep : JobsKeep (Paced burst)
  jobs_keep = record {
    wakes = record {
      requeues = enqueue_pid-Paced;
      readies = λ pid p s e v.
          enqueue_pid-Paced pid (change_state pid ready s) (change_state-Paced pid ready s refl v);
    };
    ignores = λ o fs s v. v;
  }

  -- An assignment to fields that have no part in the work.
  aside-KeepsWork :
      (g : Pcb → ℕ) (h : Pcb → Dict ℕ ℕ)
      → KeepsWork (λ p. record p { aging_bonus = g p; page_table = h p })
  aside-KeepsWork g h = record {
    pid = λ p. refl;
    counter = λ p. refl;
    remaining = λ p. refl;
    burst = λ p. refl;
    state = λ p e. e;
  }

  pub memory_ports_keep : CallbacksKeep memory_ports (Paced burst)
  unfolding memory_clear_mapping memory_install_mapping memory_on_fifo_eviction
  memory_ports_keep = record {
    clears = λ pid page s v.
        modify-IsPaced burst s.sim_clock pid _ s.processes.processes
          (aside-KeepsWork (λ p. p.aging_bonus) (λ p. Table.remove page p.page_table)) v;
    installs = λ pid page frame s v.
        modify-IsPaced burst s.sim_clock pid _ s.processes.processes
          (aside-KeepsWork (λ p. p.aging_bonus) (λ p. Table.put page frame p.page_table)) v;
    readies = ready_after_fault_keeps (Paced burst) jobs_keep.wakes;
    evicts = λ pid page frame s v. v;
  }

  pub age_all-Paced : (ps : List Pcb) (s : Simulation) → Paced burst s → Paced burst (age_all ps s)
  unfolding age_all age
  age_all-Paced [] s v = v
  age_all-Paced (p ∷ ps) s v = elim (Bool-cases (same_state p.state ready)) [
    | inl e ↦
        rw (e, age_all)
          (age_all-Paced ps _ (
            modify-IsPaced burst s.sim_clock p.pid _ s.processes.processes
              (aside-KeepsWork (λ b. b.aging_bonus + 1) (λ b. b.page_table)) v))
    | inr e ↦ rw (e, age_all) (age_all-Paced ps s v)
  ]
