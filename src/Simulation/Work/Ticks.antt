-- ===== src/Simulation/Work/Ticks.antt =====
-- mini_os_simulator/os_core/simulation.py, `_cpu_step`: the work of a tick.
use mathlib.Core.Option.{some-injective}
use smart_device_io_t_operat.Prelude.{
  nat_key, ℕ, ◌+◌, ◌≡◌, refl, sym, ◌∙◌, ap, inl, inr, Option, none, some, ◌==◌, ==_iff, leb, arith,
  Bool-cases, Option-cases,
}
use smart_device_io_t_operat.Process.Pcb.{
  Pcb, ready, running, blocked, terminated, on_first_cpu_dispatch, finalize_metrics,
}
use smart_device_io_t_operat.Process.Manager
use smart_device_io_t_operat.Process.Manager.{list_processes}
use smart_device_io_t_operat.Process.Scheduler.{pick_next}
use smart_device_io_t_operat.Memory.Owner.{free_keeps, advance_fault_timers_keeps}
use smart_device_io_t_operat.Simulation.State.{Simulation, pcb_of, update_pcb, change_state}
use smart_device_io_t_operat.Simulation.State.Blocks.{pcb_of-update_pcb}
use smart_device_io_t_operat.Simulation.Callbacks.{memory_ports}
use smart_device_io_t_operat.Simulation.FileIo.{advance_file_io_timers}
use smart_device_io_t_operat.Simulation.FileIo.Invariants.{advance_io_jobs_keeps}
use smart_device_io_t_operat.Simulation.Cpu.Invariants.{Afterwards, Chosen, PartsKeep}
use smart_device_io_t_operat.Simulation.Cpu.{
  maybe_apply_aging, aging_due, advance_memory, free_memory, start_tick, select, begin_slice,
  page_fault, execute, end_tick, finish, expire, work, run_current, after_access, faulting_page,
  access, dispatch, note_context_switch_if_needed, work_pending, quantum_of, advance_sim_clock,
  is_previous,
}
use smart_device_io_t_operat.Simulation.Work.{
  KeepsWork, modify-IsPaced, terminate-IsPaced, work-IsPaced, later-IsPaced, get-IsWorked,
}
use smart_device_io_t_operat.Simulation.Work.Callbacks.{
  Paced, change_state-Paced, enqueue_pid-Paced, jobs_keep, memory_ports_keep, age_all-Paced,
}

module _ (burst : ℕ) where
  -- The parts of a tick.
  start_tick-Paced : (s : Simulation) → Paced burst s → Paced burst (start_tick s)
  unfolding start_tick advance_file_io_timers maybe_apply_aging advance_memory
  start_tick-Paced s v =
      let s₀ = maybe_apply_aging s in
      let v₀ : Paced burst s₀ = elim (Bool-cases (aging_due s)) [
        | inl e ↦ rw e ((age_all-Paced burst) (list_processes s.processes) s v)
        | inr e ↦ rw e v
      ] in
      let v₁ =
        advance_fault_timers_keeps memory_ports (Paced burst) (memory_ports_keep burst) s₀.memory s₀
          v₀ in
      let s₁ = advance_memory s₀ in
      advance_io_jobs_keeps (Paced burst) (jobs_keep burst) s₁.pending_file_io s₁ v₁

  select-Paced : (s : Simulation) → Paced burst s → Chosen (Paced burst) (select s)
  unfolding select
  select-Paced s v = elim (Option-cases s.current_pid) [
    | inr (pid, e) ↦ rw (e, select) v
    | inl e ↦
        let (chosen, scheduler) = pick_next s.processes.processes s.scheduler in
        rw (e, select) (dispatched chosen (record s { scheduler = scheduler }) v)
  ]
    where
      dispatched :
          (chosen : Option Pcb) (t : Simulation)
          → Paced burst t
          → Chosen (Paced burst) (dispatch chosen t)
      dispatched none t w = elim (Bool-cases (work_pending t)) [
        | inl e ↦ rw e (later-IsPaced burst t.sim_clock t.processes.processes w)
        | inr e ↦ rw e w
      ]
      dispatched (some p) t w = w

  dispatch-KeepsWork : (clock : ℕ) → KeepsWork (on_first_cpu_dispatch clock)
  unfolding on_first_cpu_dispatch
  dispatch-KeepsWork clock = record {
    pid = λ p. ground arith;
    counter = λ p. ground arith;
    remaining = λ p. ground arith;
    burst = λ p. ground arith;
    state = λ p e. ground (arith, e);
  }

  note_context_switch-Paced :
      (pid : ℕ) (s : Simulation) → Paced burst s → Paced burst (note_context_switch_if_needed pid s)
  unfolding note_context_switch_if_needed
  note_context_switch-Paced pid s v = elim (Bool-cases (is_previous pid s.cs_prev_pid)) [
    | inl e ↦ rw e v
    | inr e ↦ rw e v
  ]

  begin_slice-Paced : (pid : ℕ) (s : Simulation) → Paced burst s → Paced burst (begin_slice pid s)
  unfolding begin_slice
  begin_slice-Paced pid s v = elim (Bool-cases (s.ticks_in_slice == 0)) [
    | inr e ↦ rw e v
    | inl e ↦
        let s₁ = note_context_switch_if_needed pid s in
        rw e (
          (change_state-Paced burst) pid running
            (update_pcb pid (on_first_cpu_dispatch s.sim_clock) s₁) refl
            (modify-IsPaced burst s₁.sim_clock pid (on_first_cpu_dispatch s.sim_clock)
              s₁.processes.processes (dispatch-KeepsWork s.sim_clock)
              (note_context_switch-Paced pid s v)))
  ]

  finalize-KeepsWork : (clock : ℕ) → KeepsWork (finalize_metrics clock)
  unfolding finalize_metrics
  finalize-KeepsWork clock = record {
    pid = λ p. refl;
    counter = λ p. refl;
    remaining = λ p. refl;
    burst = λ p. refl;
    state = λ p e. e;
  }

  -- The end of a process whose block has no work left.
  finish-Paced :
      (pid : ℕ) (s : Simulation) (p : Pcb)
      → pcb_of pid s ≡ some p
      → p.remaining_time ≡ 0
      → Paced burst s
      → Paced burst (finish pid s)
  unfolding finish free_memory change_state Manager.change_state
  finish-Paced pid s p e over v =
      let f = finalize_metrics s.sim_clock in
      let s₁ = update_pcb pid f s in
      let v₁ : Paced burst s₁ =
        modify-IsPaced burst s.sim_clock pid f s.processes.processes
          (finalize-KeepsWork s.sim_clock) v in
      let e₁ : pcb_of pid s₁ ≡ some (f p) = pcb_of-update_pcb pid f s p e in
      let done : (q : Pcb) → pcb_of pid s₁ ≡ some q → q.remaining_time ≡ 0 = λ q h.
        ap (λ b. b.remaining_time) (some-injective q (f p) (sym h ∙ e₁))
        ∙ (finalize-KeepsWork s.sim_clock).remaining p
        ∙ over in
      let s₂ = change_state pid terminated s₁ in
      let v₂ : Paced burst s₂ =
        rw (e₁, Manager.change_state)
          (terminate-IsPaced burst s.sim_clock pid s₁.processes.processes done v₁) in
      free_keeps memory_ports (Paced burst) (memory_ports_keep burst) pid s₂.memory s₂ v₂

  execute-Paced :
      (p : Pcb) (s : Simulation)
      → pcb_of p.pid s ≡ some p
      → Paced burst s
      → Paced burst (execute p s)
  unfolding execute end_tick expire
  execute-Paced p s e v =
      let s₁ =
        advance_sim_clock
          (record (update_pcb p.pid work s) { ticks_in_slice = s.ticks_in_slice + 1 }) in
      let v₁ : Paced burst s₁ = work-IsPaced burst s.sim_clock p.pid s.processes.processes v in
      let e₁ : pcb_of p.pid s₁ ≡ some (work p) = pcb_of-update_pcb p.pid work s p e in
      elim (Bool-cases ((work p).remaining_time == 0)) [
        | inl f ↦
            let over : (work p).remaining_time ≡ 0 = (==_iff (work p).remaining_time 0).0 f in
            rw (f, end_tick) (finish-Paced p.pid s₁ (work p) e₁ over v₁)
        | inr f ↦ elim (Bool-cases (leb (quantum_of s.scheduler.policy) (s.ticks_in_slice + 1))) [
          | inl g ↦
              rw (f, end_tick)
                (rw g (
                  (enqueue_pid-Paced burst) p.pid (change_state p.pid ready s₁)
                    ((change_state-Paced burst) p.pid ready s₁ refl v₁)))
          | inr g ↦ rw (f, end_tick) (rw g v₁)
        ]
      ]

  run_current-Paced :
      (pid : ℕ) (s : Simulation) → Paced burst s → Afterwards (Paced burst) (run_current pid s)
  unfolding run_current page_fault
  run_current-Paced pid s v =
      let t = begin_slice pid s in
      let w = begin_slice-Paced pid s v in
      elim (Option-cases (pcb_of pid t)) [
        | inl e ↦ rw (e, run_current) w
        | inr (p, e) ↦
            let own : p.pid ≡ pid = (get-IsWorked pid t.processes.processes p w.worked e).own_pid in
            let here : pcb_of p.pid t ≡ some p = ap (λ k. pcb_of k t) own ∙ e in
            rw (e, run_current) (after p (faulting_page (access p t)) t here w)
      ]
    where
      after :
          (p : Pcb) (page : Option ℕ) (t : Simulation)
          → pcb_of p.pid t ≡ some p
          → Paced burst t
          → Afterwards (Paced burst) (after_access p page t)
      after p none t e w = execute-Paced p t e w
      after p (some page) t e w =
          (change_state-Paced burst) p.pid blocked (record t { observer = _ }) refl w

  pub parts_keep : PartsKeep (Paced burst)
  parts_keep = record {
    starts = start_tick-Paced;
    selects = select-Paced;
    runs = λ pid s v _. run_current-Paced pid s v;
  }
