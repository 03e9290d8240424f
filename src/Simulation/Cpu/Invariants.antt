-- ===== src/Simulation/Cpu/Invariants.antt =====
-- mini_os_simulator/os_core/simulation.py: from properties of the parts of a tick to whole ticks
-- and runs.
use mathlib.Core.Option.{some-injective}
use smart_device_io_t_operat.Prelude.{
  ℕ, zero, suc, ◌≡◌, refl, sym, ap, ◌∙◌, inl, inr, Bool, true, false, Option, none, some,
  Bool-cases, Option-cases,
}
use smart_device_io_t_operat.Process.Pcb.{Pcb}
use smart_device_io_t_operat.Process.Manager.{list_processes}
use smart_device_io_t_operat.Process.Scheduler.{pick_next}
use smart_device_io_t_operat.Simulation.State.{Simulation}
use smart_device_io_t_operat.Simulation.Cpu.{
  Selection, idle, selected, Outcome, ticked, again, start_tick, select, run_current, cpu_loop,
  cpu_step, fuel_for, run_until_all_terminated, all_terminated, dispatch, work_pending,
}
use smart_device_io_t_operat.Simulation.Cpu.Progress.{Selection-cases, Outcome-cases, step_cases}

module _ (P : Simulation → Type 0) where
  abbrev pub Afterwards : Outcome → Type 0
  Afterwards (ticked s) = P s
  Afterwards (again s) = P s

  abbrev pub Chosen : Selection → Type 0
  Chosen (idle answer s) = P s
  Chosen (selected pid s) = P s

  -- The three parts of a tick keep the property.
  pub record PartsKeep : Type 0 where
    pub starts : (s : Simulation) → P s → P (start_tick s)
    pub selects : (s : Simulation) → P s → Chosen (select s)
    pub runs :
        (pid : ℕ) (s : Simulation) → P s → s.current_pid ≡ some pid → Afterwards (run_current pid s)

-- The process that a round runs has the CPU.
abbrev HasCpu : Selection → Type 0
HasCpu (idle answer s) = Unit {0}
HasCpu (selected pid s) = s.current_pid ≡ some pid

dispatch-HasCpu : (chosen : Option Pcb) (s : Simulation) → HasCpu (dispatch chosen s)
dispatch-HasCpu none s = elim (Bool-cases (work_pending s)) [ inl e ↦ rw e tt | inr e ↦ rw e tt ]
dispatch-HasCpu (some p) s = refl

select-HasCpu : (s : Simulation) → HasCpu (select s)
unfolding select
select-HasCpu s = elim (Option-cases s.current_pid) [
  | inl e ↦
      let (chosen, scheduler) = pick_next s.processes.processes s.scheduler in
      rw (e, select) (dispatch-HasCpu chosen (record s { scheduler = scheduler }))
  | inr (pid, e) ↦ rw (e, select) e
]

module _ (P : Simulation → Type 0) (k : PartsKeep P) where
  cpu_loop_keeps :
      (fuel : ℕ) (s : Simulation) (r : Bool × Simulation) → P s → cpu_loop fuel s ≡ some r → P r.1
  unfolding cpu_loop
  cpu_loop_keeps zero s r v e = cc
  cpu_loop_keeps (suc fuel) s r v e = elim (Selection-cases (select s)) [
    | inl (answer, s', f) ↦
        let w : P s' = rw f at (k.selects s v) in
        let same : (answer, s') ≡ r =
          some-injective (answer, s') r (sym (rw (f, cpu_loop) refl) ∙ e) in
        rw (← same) w
    | inr (pid, s', f) ↦
        let w : P s' = rw f at (k.selects s v) in
        let on : s'.current_pid ≡ some pid = rw f at (select-HasCpu s) in
        elim (Outcome-cases (run_current pid s')) [
          | inl (t, g) ↦
              let u : P t = rw g at (k.runs pid s' w on) in
              let same : (true, t) ≡ r =
                some-injective (true, t) r (sym (rw (f, cpu_loop) (rw g refl)) ∙ e) in
              rw (← same) u
          | inr (t, g) ↦
              let u : P t = rw g at (k.runs pid s' w on) in
              cpu_loop_keeps fuel t r u (sym (rw (f, cpu_loop) (rw g refl)) ∙ e)
        ]
  ]

  pub cpu_step_keeps : (s : Simulation) (r : Bool × Simulation) → P s → cpu_step s ≡ some r → P r.1
  unfolding cpu_step
  cpu_step_keeps s r v e =
      cpu_loop_keeps (fuel_for (start_tick s)) (start_tick s) r (k.starts s v) e

  pub run_until_all_terminated_keeps :
      (n : ℕ) (s : Simulation)
      → P s
      → (t : Simulation) × (run_until_all_terminated n s ≡ some t) × P t
  unfolding run_until_all_terminated
  run_until_all_terminated_keeps zero s v = (s, refl, v)
  run_until_all_terminated_keeps (suc n) s v =
      elim (Bool-cases (all_terminated (list_processes s.processes))) [
        | inl d ↦ (s, rw (d, run_until_all_terminated) refl, v)
        | inr d ↦ elim (step_cases s) [
          | inl (s', e) ↦
              let (t, f, w) =
                run_until_all_terminated_keeps n s' (cpu_step_keeps s (true, s') v e) in
              (t, rw (d, run_until_all_terminated) (rw e f), w)
          | inr (s', e) ↦
              (s', rw (d, run_until_all_terminated) (rw e refl), cpu_step_keeps s (false, s') v e)
        ]
      ]

  -- A loop that answers False does so where nobody is chosen in a state with the property.
  cpu_loop-idle :
      (fuel : ℕ) (s t : Simulation)
      → P s
      → cpu_loop fuel s ≡ some (false, t)
      → (u : Simulation) × P u × (select u ≡ idle false t)
  unfolding cpu_loop
  cpu_loop-idle zero s t v e = cc
  cpu_loop-idle (suc fuel) s t v e = elim (Selection-cases (select s)) [
    | inl (answer, s', f) ↦
        let same : (answer, s') ≡ (false, t) =
          some-injective (answer, s') (false, t) (sym (rw (f, cpu_loop) refl) ∙ e) in
        (s, v, f ∙ ap (λ r. idle r.0 r.1) same)
    | inr (pid, s', f) ↦
        let w : P s' = rw f at (k.selects s v) in
        let on : s'.current_pid ≡ some pid = rw f at (select-HasCpu s) in
        elim (Outcome-cases (run_current pid s')) [
          | inl (u, g) ↦
              let same : ◌≡◌ {A = Bool × Simulation} (true, u) (false, t) =
                some-injective (true, u) (false, t) (sym (rw (f, cpu_loop) (rw g refl)) ∙ e) in
              cc
          | inr (u, g) ↦
              let x : P u = rw g at (k.runs pid s' w on) in
              cpu_loop-idle fuel u t x (sym (rw (f, cpu_loop) (rw g refl)) ∙ e)
        ]
  ]

  pub cpu_step-idle :
      (s t : Simulation)
      → P s
      → cpu_step s ≡ some (false, t)
      → (u : Simulation) × P u × (select u ≡ idle false t)
  unfolding cpu_step
  cpu_step-idle s t v e = cpu_loop-idle (fuel_for (start_tick s)) (start_tick s) t (k.starts s v) e
