-- ===== src/Simulation/Serving/Rounds.antt =====
-- mini_os_simulator/os_core/simulation.py, `_cpu_step`: every process that can run is queued or has
-- the CPU, over a round of the loop.
use smart_device_io_t_operat.Prelude.{
  nat_key, ℕ, ◌+◌, ◌≡◌, refl, sym, ◌∙◌, ap, subst, inl, inr, true, false, Option, none, some, ◌==◌,
  ==_iff, leb, arith, Option-cases, Bool-cases,
}
use smart_device_io_t_operat.Process.Pcb.{
  Pcb, running, blocked, terminated, on_first_cpu_dispatch, finalize_metrics,
}
use smart_device_io_t_operat.Memory.Owner.{free_keeps}
use smart_device_io_t_operat.Simulation.Cpu.Invariants.{Afterwards}
use smart_device_io_t_operat.Simulation.State.{Simulation, pcb_of, update_pcb, change_state}
use smart_device_io_t_operat.Simulation.State.Blocks.{pcb_of-update_pcb}
use smart_device_io_t_operat.Simulation.Callbacks.{memory_ports, is_current}
use smart_device_io_t_operat.Simulation.Cpu.{
  free_memory, begin_slice, page_fault, execute, end_tick, finish, expire, work, run_current,
  after_access, faulting_page, access, note_context_switch_if_needed, quantum_of, advance_sim_clock,
}
use smart_device_io_t_operat.Simulation.Order.Rounds.{dispatched_pid}
use smart_device_io_t_operat.Simulation.Serving.{
  IsServed, update_pcb-IsServed, change_state-IsServed, ready-IsServed, memory_ports_keep,
}
use smart_device_io_t_operat.Simulation.Serving.Ticks.{Served, IsServed-Served, alike-IsServed}

-- The process on the CPU is made RUNNING.
note_context_switch-IsServed :
    (cur : Option ℕ) (pid : ℕ) (s : Simulation)
    → IsServed cur s
    → IsServed cur (note_context_switch_if_needed pid s)
unfolding note_context_switch_if_needed
note_context_switch-IsServed cur pid s v =
    alike-IsServed cur s (note_context_switch_if_needed pid s) (ground arith) (ground arith) v

begin_slice-IsServed :
    (pid : ℕ) (s : Simulation)
    → s.current_pid ≡ some pid
    → IsServed (some pid) s
    → IsServed (some pid) (begin_slice pid s)
unfolding begin_slice on_first_cpu_dispatch
begin_slice-IsServed pid s on v = elim (Bool-cases (s.ticks_in_slice == 0)) [
  | inr e ↦ rw e v
  | inl e ↦
      let s₁ = note_context_switch_if_needed pid s in
      let f = on_first_cpu_dispatch s.sim_clock in
      let w =
        update_pcb-IsServed (some pid) pid f s₁ (dispatched_pid s.sim_clock) (λ p. ground arith)
          (note_context_switch-IsServed (some pid) pid s v) in
      rw e (
        change_state-IsServed (some pid) (some pid) pid running (update_pcb pid f s₁)
          ((==_iff pid pid).1 refl) (λ k h c. c) w)
]

-- Nobody else had the CPU.
others_off :
    (pid : ℕ) (k : ℕ)
    → (pid == k) ≡ false
    → is_current k (some pid) ≡ true
    → is_current k none ≡ true
others_off pid k h c = cc

page_fault-IsServed :
    (pid page : ℕ) (s : Simulation) → IsServed (some pid) s → Served (page_fault pid page s)
unfolding page_fault
page_fault-IsServed pid page s v = alike-IsServed none _ (page_fault pid page s) refl refl (
    change_state-IsServed (some pid) none pid blocked (record s { observer = _ }) tt
      (others_off pid) (alike-IsServed (some pid) s (record s { observer = _ }) refl refl v))

finish-IsServed : (pid : ℕ) (s : Simulation) → IsServed (some pid) s → Served (finish pid s)
unfolding finish free_memory finalize_metrics
finish-IsServed pid s v =
    let f = finalize_metrics s.sim_clock in
    let s₁ = update_pcb pid f s in
    let w₁ = update_pcb-IsServed (some pid) pid f s (λ p. refl) (λ p. refl) v in
    let s₂ = change_state pid terminated s₁ in
    let w₂ = change_state-IsServed (some pid) none pid terminated s₁ tt (others_off pid) w₁ in
    let w₃ = free_keeps memory_ports (IsServed none) (memory_ports_keep none) pid s₂.memory s₂ w₂ in
    alike-IsServed none _ (finish pid s) refl refl w₃

expire-IsServed :
    (pid : ℕ) (p : Pcb) (s : Simulation)
    → pcb_of pid s ≡ some p
    → IsServed (some pid) s
    → Served (expire pid s)
unfolding expire
expire-IsServed pid p s e v =
    alike-IsServed none _ (expire pid s) refl refl
      (ready-IsServed (some pid) none pid p s e (others_off pid) v)

execute-IsServed :
    (p : Pcb) (s : Simulation)
    → pcb_of p.pid s ≡ some p
    → s.current_pid ≡ some p.pid
    → IsServed (some p.pid) s
    → Served (execute p s)
unfolding execute end_tick
execute-IsServed p s at on v =
    let s₀ = update_pcb p.pid work s in
    let s₁ = advance_sim_clock (record s₀ { ticks_in_slice = s.ticks_in_slice + 1 }) in
    let own : (b : Pcb) → (work b).pid ≡ b.pid = λ b. ground arith in
    let same : (b : Pcb) → (work b).state ≡ b.state = λ b. ground arith in
    let w =
      alike-IsServed (some p.pid) s₀ s₁ refl refl
        (update_pcb-IsServed (some p.pid) p.pid work s own same v) in
    let at₁ : pcb_of p.pid s₁ ≡ some (work p) = pcb_of-update_pcb p.pid work s p at in
    elim (Bool-cases ((work p).remaining_time == 0)) [
      | inl e ↦ rw (e, end_tick) (finish-IsServed p.pid s₁ w)
      | inr e ↦ elim (Bool-cases (leb (quantum_of s.scheduler.policy) (s.ticks_in_slice + 1))) [
        | inl f ↦ rw (e, end_tick) (rw f (expire-IsServed p.pid (work p) s₁ at₁ w))
        | inr f ↦ rw (e, end_tick) (rw f (IsServed-Served (some p.pid) s₁ on w))
      ]
    ]

after_access-IsServed :
    (p : Pcb) (page : Option ℕ) (s : Simulation)
    → pcb_of p.pid s ≡ some p
    → s.current_pid ≡ some p.pid
    → IsServed (some p.pid) s
    → Afterwards Served (after_access p page s)
after_access-IsServed p none s at on v = execute-IsServed p s at on v
after_access-IsServed p (some page) s at on v = page_fault-IsServed p.pid page s v

begin_slice-current : (pid : ℕ) (s : Simulation) → (begin_slice pid s).current_pid ≡ s.current_pid
unfolding begin_slice change_state note_context_switch_if_needed
begin_slice-current pid s = ground arith

pub run_current-IsServed :
    (pid : ℕ) (s : Simulation)
    → Served s
    → s.current_pid ≡ some pid
    → Afterwards Served (run_current pid s)
unfolding run_current
run_current-IsServed pid s v on =
    let t = begin_slice pid s in
    let w = begin_slice-IsServed pid s on (subst (λ c. IsServed c s) on v) in
    let on' : t.current_pid ≡ some pid = begin_slice-current pid s ∙ on in
    elim (Option-cases (pcb_of pid t)) [
      | inl e ↦ rw (e, run_current) (IsServed-Served (some pid) t on' w)
      | inr (p, e) ↦
          let own : p.pid ≡ pid = w.ordered.registry.own_pid pid p e in
          rw (e, run_current)
            (after_access-IsServed p (faulting_page (access p t)) t
              (subst (λ k. pcb_of k t ≡ some p) (sym own) e) (on' ∙ ap some (sym own))
              (subst (λ k. IsServed (some k) t) (sym own) w))
    ]
