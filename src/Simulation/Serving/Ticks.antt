-- ===== src/Simulation/Serving/Ticks.antt =====
-- mini_os_simulator/os_core/simulation.py, `_cpu_step` before its loop: every process that can run
-- is queued or has the CPU.
use smart_device_io_t_operat.Prelude.{
  nat_key, ℕ, ◌+◌, ◌≡◌, refl, sym, ◌∙◌, ap, subst, inl, inr, Option, List, [], ◌∷◌, map_option,
  arith, Option-cases, Bool-cases,
}
use smart_device_io_t_operat.Prelude.Table
use smart_device_io_t_operat.Process.Pcb.{Pcb, ready, same_state}
use smart_device_io_t_operat.Process.Manager.{list_processes}
use smart_device_io_t_operat.Memory.Owner.{CallbacksKeep, advance_fault_timers_keeps}
use smart_device_io_t_operat.Simulation.State.{
  Simulation, pcb_of, update_pcb, change_state, enqueue_pid,
}
use smart_device_io_t_operat.Simulation.Callbacks.{
  sync_wake_process, memory_ports, memory_clear_mapping, memory_install_mapping,
  memory_on_fifo_eviction,
}
use smart_device_io_t_operat.Simulation.FileIo.{advance_file_io_timers}
use smart_device_io_t_operat.Simulation.FileIo.Invariants.{
  JobsKeep, wake_keeps, ready_after_fault_keeps, advance_io_jobs_keeps,
}
use smart_device_io_t_operat.Simulation.Cpu.{
  age, age_all, maybe_apply_aging, aging_due, advance_memory, start_tick,
}
use smart_device_io_t_operat.Simulation.Serving.{
  IsServed, kept-IsServed, update_pcb-IsServed, memory_ports_keep, jobs_keep,
}

-- The invariant of the loop: where the simulation's own current process has the CPU.
abbrev pub Served : Simulation → Type 0
Served s = IsServed s.current_pid s

pub IsServed-Served :
    (cur : Option ℕ) (s : Simulation) → s.current_pid ≡ cur → IsServed cur s → Served s
IsServed-Served cur s e v = subst (λ c. IsServed c s) (sym e) v

-- A state that differs in neither the processes, the queue nor the CPU.
pub alike-IsServed :
    (cur : Option ℕ) (s s' : Simulation)
    → s'.processes ≡ s.processes
    → s'.scheduler ≡ s.scheduler
    → IsServed cur s
    → IsServed cur s'
alike-IsServed cur s s' p q v =
    kept-IsServed cur s s'
      (record { registry = rw p v.ordered.registry; once = rw q v.ordered.once })
      (λ k. ap (λ m. map_option (λ b. b.state) (Table.get k m.processes)) p) q v

age_all-IsServed :
    (cur : Option ℕ) (ps : List Pcb) (s : Simulation) → IsServed cur s → IsServed cur (age_all ps s)
unfolding age_all age
age_all-IsServed cur [] s v = v
age_all-IsServed cur (p ∷ ps) s v = age_all-IsServed cur ps (age p s) here
  where
    here : IsServed cur (age p s)
    here = elim (Bool-cases (same_state p.state ready)) [
      | inl e ↦
          let f : Pcb → Pcb = λ b. record b { aging_bonus = b.aging_bonus + 1 } in
          let w = update_pcb-IsServed cur p.pid f s (λ b. refl) (λ b. refl) v in
          rw e (alike-IsServed cur (update_pcb p.pid f s) _ refl refl w)
      | inr e ↦ rw e v
    ]

age_all-current : (ps : List Pcb) (s : Simulation) → (age_all ps s).current_pid ≡ s.current_pid
unfolding age_all age
age_all-current [] s = refl
age_all-current (p ∷ ps) s = age_all-current ps (age p s) ∙ here
  where
    here : (age p s).current_pid ≡ s.current_pid
    here = ground arith

-- Who has the CPU does not change before the loop.
abbrev pub HasOnCpu : Option ℕ → Simulation → Type 0
HasOnCpu cur s = s.current_pid ≡ cur

pub enqueue_pid-current :
    (pid : ℕ) (s : Simulation) → (enqueue_pid pid s).current_pid ≡ s.current_pid
unfolding enqueue_pid
enqueue_pid-current pid s = elim (Option-cases (pcb_of pid s)) [
  | inl e ↦ rw (e, enqueue_pid) refl
  | inr (p, e) ↦ rw (e, enqueue_pid) refl
]

current_jobs : (cur : Option ℕ) → JobsKeep (HasOnCpu cur)
unfolding change_state
current_jobs cur = record {
  wakes = record {
    requeues = λ pid s h. enqueue_pid-current pid s ∙ h;
    readies = λ pid p s e h. enqueue_pid-current pid (change_state pid ready s) ∙ h;
  };
  ignores = λ o fs s h. h;
}

pub current_ports : (cur : Option ℕ) → CallbacksKeep memory_ports (HasOnCpu cur)
unfolding memory_clear_mapping memory_install_mapping memory_on_fifo_eviction
current_ports cur = record {
  clears = λ pid page s h. h;
  installs = λ pid page frame s h. h;
  readies = ready_after_fault_keeps (HasOnCpu cur) (current_jobs cur).wakes;
  evicts = λ pid page frame s h. h;
}

aged-current : (s : Simulation) → (maybe_apply_aging s).current_pid ≡ s.current_pid
unfolding maybe_apply_aging
aged-current s = elim (Bool-cases (aging_due s)) [
  | inl e ↦ rw e (age_all-current (list_processes s.processes) s)
  | inr e ↦ rw e refl
]

pub start_tick-current : (s : Simulation) → (start_tick s).current_pid ≡ s.current_pid
unfolding start_tick advance_file_io_timers advance_memory
start_tick-current s =
    let cur = s.current_pid in
    let s₀ = maybe_apply_aging s in
    let h₁ =
      advance_fault_timers_keeps memory_ports (HasOnCpu cur) (current_ports cur) s₀.memory s₀
        (aged-current s) in
    let s₁ = advance_memory s₀ in
    advance_io_jobs_keeps (HasOnCpu cur) (current_jobs cur) s₁.pending_file_io s₁ h₁

aged-IsServed :
    (cur : Option ℕ) (s : Simulation) → IsServed cur s → IsServed cur (maybe_apply_aging s)
unfolding maybe_apply_aging
aged-IsServed cur s v = elim (Bool-cases (aging_due s)) [
  | inl e ↦ rw e (age_all-IsServed cur (list_processes s.processes) s v)
  | inr e ↦ rw e v
]

pub start_tick-IsServed :
    (cur : Option ℕ) (s : Simulation) → IsServed cur s → IsServed cur (start_tick s)
unfolding start_tick advance_file_io_timers advance_memory
start_tick-IsServed cur s v =
    let s₀ = maybe_apply_aging s in
    let v₁ =
      advance_fault_timers_keeps memory_ports (IsServed cur) (memory_ports_keep cur) s₀.memory s₀
        (aged-IsServed cur s v) in
    let s₁ = advance_memory s₀ in
    let v₂ =
      advance_io_jobs_keeps (IsServed cur) (jobs_keep cur) s₁.pending_file_io s₁
        (alike-IsServed cur _ s₁ refl refl v₁) in
    alike-IsServed cur _ (start_tick s) refl refl v₂

pub wake-current :
    (pid : ℕ) (s : Simulation) → (sync_wake_process pid s).current_pid ≡ s.current_pid
wake-current pid s =
    wake_keeps (HasOnCpu s.current_pid) (current_jobs s.current_pid).wakes pid s refl
