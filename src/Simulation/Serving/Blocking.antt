-- ===== src/Simulation/Serving/Blocking.antt =====
-- mini_os_simulator/os_core/simulation.py: every process that can run is queued or has the CPU,
-- when processes block and wake.
use smart_device_io_t_operat.Prelude.{
  nat_key, path_key, ℕ, ◌≡◌, refl, ap, inl, inr, Bool, true, false, ◌||◌, Option, none, some,
  map_option, ◌==◌, ==_iff, if◌then◌else◌, arith, Option-cases, Bool-cases,
}
use smart_device_io_t_operat.Process.Pcb.{
  Pcb, ProcessState, new, ready, running, blocked, terminated, same_state,
}
use smart_device_io_t_operat.Simulation.State.{Simulation, pcb_of, change_state, leave_cpu_blocked}
use smart_device_io_t_operat.Simulation.State.Blocks.{state_of, pcb_of-change_state}
use smart_device_io_t_operat.Simulation.Callbacks.{
  is_current, sync_block_process, sync_wake_process,
}
use smart_device_io_t_operat.Simulation.FileIo.Invariants.{wake_keeps}
use smart_device_io_t_operat.Simulation.Serving.{Placed, IsServed, change_state-IsServed, jobs_keep}
use smart_device_io_t_operat.Simulation.Serving.Ticks.{
  Served, IsServed-Served, alike-IsServed, wake-current,
}

pub wake-Served : (pid : ℕ) (s : Simulation) → Served s → Served (sync_wake_process pid s)
wake-Served pid s v =
    IsServed-Served s.current_pid (sync_wake_process pid s) (wake-current pid s)
      (wake_keeps (IsServed s.current_pid) (jobs_keep s.current_pid).wakes pid s v)

-- What touches neither the processes, the queue nor the CPU.
pub alike-Served :
    (s s' : Simulation)
    → s'.processes ≡ s.processes
    → s'.scheduler ≡ s.scheduler
    → s'.current_pid ≡ s.current_pid
    → Served s
    → Served s'
alike-Served s s' p q c v =
    IsServed-Served s.current_pid s' c (alike-IsServed s.current_pid s s' p q v)

-- A process that can do without the CPU leaves it.
leave-Served :
    (pid : ℕ) (s : Simulation)
    → (is_current pid s.current_pid ≡ true)
    → Placed pid (state_of pid s) s.scheduler.ready_queue none
    → Served s
    → Served (leave_cpu_blocked s)
leave-Served pid s c free v = record {
  ordered = record { registry = v.ordered.registry; once = v.ordered.once };
  placed = λ k. elim (Bool-cases (pid == k)) [
    | inl h ↦ rw (← (==_iff pid k).0 h) free
    | inr h ↦ others k (state_of k s) (away k h c) (v.placed k)
  ];
}
  where
    away :
        (k : ℕ)
        → (pid == k) ≡ false
        → is_current pid s.current_pid ≡ true
        → is_current k s.current_pid ≡ false
    away k h c = at s.current_pid c
      where
        at : (cur : Option ℕ) → is_current pid cur ≡ true → is_current k cur ≡ false
        at none e = cc
        at (some j) e = ground (arith, h)

    others :
        (k : ℕ) (o : Option ProcessState)
        → is_current k s.current_pid ≡ false
        → Placed k o s.scheduler.ready_queue s.current_pid
        → Placed k o s.scheduler.ready_queue none
    others k none e p = tt
    others k (some new) e p = tt
    others k (some ready) e p = ground (arith, e, p)
    others k (some running) e p = cc
    others k (some blocked) e p = tt
    others k (some terminated) e p = tt

-- The end of `_sync_block_process`.
off-Served :
    (pid : ℕ) (b : Bool) (s : Simulation)
    → (b ≡ true → is_current pid s.current_pid ≡ true)
    → Placed pid (state_of pid s) s.scheduler.ready_queue none
    → Served s
    → Served (if b then leave_cpu_blocked s else s)
off-Served pid true s c free v = leave-Served pid s (c refl) free v
off-Served pid false s c free v = v

stop-Served :
    (pid : ℕ) (p : Pcb) (s : Simulation)
    → pcb_of pid s ≡ some p
    → Served s
    → Served (
        if is_current pid s.current_pid
        then leave_cpu_blocked (change_state pid blocked s)
        else change_state pid blocked s)
unfolding change_state
stop-Served pid p s e v =
    let s₁ = change_state pid blocked s in
    let w = change_state-IsServed s.current_pid s.current_pid pid blocked s tt (λ k h c. c) v in
    let at_self : state_of pid s₁ ≡ some blocked =
      ap (map_option (λ b. b.state)) (pcb_of-change_state pid blocked s p e) in
    off-Served pid (is_current pid s.current_pid) s₁ (λ c. c) (rw at_self tt) w

pub block-Served : (pid : ℕ) (s : Simulation) → Served s → Served (sync_block_process pid s)
unfolding sync_block_process
block-Served pid s v = elim (Option-cases (pcb_of pid s)) [
  | inl e ↦ rw (e, sync_block_process) v
  | inr (p, e) ↦
      rw (e, sync_block_process)
        (by_state p.state (ap (map_option (λ b. b.state)) e) (stop-Served pid p s e v))
]
  where
    by_state :
        (st : ProcessState)
        → state_of pid s ≡ some st
        → Served (
            if is_current pid s.current_pid
            then leave_cpu_blocked (change_state pid blocked s)
            else change_state pid blocked s)
        → Served (
            if same_state st terminated
            then s
            else let s₁ =
                (if same_state st running || same_state st ready
                  then change_state pid blocked s
                  else s) in
              if is_current pid s.current_pid then leave_cpu_blocked s₁ else s₁)
    by_state new e w = off-Served pid (is_current pid s.current_pid) s (λ c. c) (rw e tt) v
    by_state ready e w = w
    by_state running e w = w
    by_state blocked e w = off-Served pid (is_current pid s.current_pid) s (λ c. c) (rw e tt) v
    by_state terminated e w = v
