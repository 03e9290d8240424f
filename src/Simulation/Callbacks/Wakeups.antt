-- ===== src/Simulation/Callbacks/Wakeups.antt =====
-- mini_os_simulator/concurrency/locks.py with the ports of
-- mini_os_simulator/os_core/simulation.py: the process that a mutex passes to.
use smart_device_io_t_operat.Prelude.{
  nat_key, ℕ, ◌≡◌, refl, sym, ◌∙◌, ap, inl, inr, pos, Bool, true, false, Option, some, List, [],
  ◌∷◌, ◌==◌, mem, mem-append, map_option, arith, Option-cases, Bool-cases,
}
use smart_device_io_t_operat.Prelude.Table
use smart_device_io_t_operat.Prelude.Table.{get-modify}
use smart_device_io_t_operat.Process.Pcb.{ProcessState, ready, blocked, Pcb}
use smart_device_io_t_operat.Process.Scheduler.{enqueue}
use smart_device_io_t_operat.Concurrency.SyncPorts.{Lock, recompute, clear_holder}
use smart_device_io_t_operat.Concurrency.Locks.{release}
use smart_device_io_t_operat.Concurrency.Locks.Line.{release_hands_over}
use smart_device_io_t_operat.Simulation.State.{
  Simulation, pcb_of, update_pcb, change_state, enqueue_pid,
}
use smart_device_io_t_operat.Simulation.Callbacks.{
  highest_waiter, recompute_mutex_inheritance, clear_mutex_inheritance_for_holder, make_sync_ports,
  sync_wake_process,
}
use smart_device_io_t_operat.Simulation.Callbacks.Inheritance.{processes-note_inheritance}
use smart_device_io_t_operat.Simulation.State.Blocks.{pcb_of-change_state}

-- The pid and the state that a block shows.
abbrev pub status : Pcb → ℕ × ProcessState
status p = (p.pid, p.state)

abbrev pub status_of : ℕ → Simulation → Option (ℕ × ProcessState)
status_of pid s = map_option status (pcb_of pid s)

pub status_of-update_pcb :
    (k pid : ℕ) (f : Pcb → Pcb) (s : Simulation)
    → ((p : Pcb) → status (f p) ≡ status p)
    → status_of pid (update_pcb k f s) ≡ status_of pid s
status_of-update_pcb k pid f s same = elim (Option-cases (pcb_of pid s)) [
  | inl e ↦ ground (arith, e, get-modify k pid f s.processes.processes)
  | inr (p, e) ↦ elim (Bool-cases (k == pid)) [
    | inl h ↦
        let changed : pcb_of pid (update_pcb k f s) ≡ some (f p) =
          ground (arith, e, h, get-modify k pid f s.processes.processes) in
        ap (map_option status) changed ∙ ap some (same p) ∙ sym (ap (map_option status) e)
    | inr h ↦
        ap (map_option status) (ground (arith, e, h, get-modify k pid f s.processes.processes))
  ]
]

status_of-recompute :
    (l : Lock) (pid : ℕ) (s : Simulation)
    → status_of pid (recompute_mutex_inheritance l s) ≡ status_of pid s
unfolding recompute_mutex_inheritance
status_of-recompute l pid s = elim (Option-cases l.owner) [
  | inl e ↦ simp (e, recompute_mutex_inheritance) refl
  | inr (owner, e) ↦ elim (Option-cases (pcb_of owner s)) [
    | inl g ↦ simp (e, g, recompute_mutex_inheritance) refl
    | inr (p, g) ↦
        let floor = highest_waiter s (pos 0) l.waiting_queue in
        simp (e, g, recompute_mutex_inheritance)
          (ap (λ m. map_option status (Table.get pid m.processes))
              (processes-note_inheritance owner p.mutex_inheritance_floor floor _)
            ∙ status_of-update_pcb owner pid (λ b. record b { mutex_inheritance_floor = floor }) s
                (λ b. refl))
  ]
]

-- A blocked process that is woken is ready and queued.
pub record IsRunnable (pid : ℕ) (s : Simulation) : Type 0 where
  pub is_ready : status_of pid s ≡ some (pid, ready)
  pub queued : mem pid s.scheduler.ready_queue ≡ true

pub enqueue_pid-IsRunnable :
    (pid : ℕ) (s : Simulation) (p : Pcb)
    → pcb_of pid s ≡ some p
    → p.pid ≡ pid
    → p.state ≡ ready
    → IsRunnable pid (enqueue_pid pid s)
unfolding enqueue_pid enqueue
enqueue_pid-IsRunnable pid s p e own st =
    simp (e, enqueue_pid)
      (record {
        is_ready =
            ap (map_option status) e ∙ ap (λ k. some (k, p.state)) own ∙ ap (λ x. some (pid, x)) st;
        queued = ground (arith, own, st, mem-append pid s.scheduler.ready_queue (p.pid ∷ []));
      })

pub parts_of :
    (pid k : ℕ) (a b : ProcessState)
    → ◌≡◌ {A = Option (ℕ × ProcessState)} (some (k, a)) (some (pid, b))
    → (k ≡ pid) × (a ≡ b)
parts_of pid k a b h = ground arith

pub sync_wake_process-IsRunnable :
    (pid : ℕ) (s : Simulation)
    → status_of pid s ≡ some (pid, blocked)
    → IsRunnable pid (sync_wake_process pid s)
unfolding sync_wake_process
sync_wake_process-IsRunnable pid s h = elim (Option-cases (pcb_of pid s)) [
  | inl e ↦ ground (arith, e, h)
  | inr (p, e) ↦
      let (own, st) = parts_of pid p.pid p.state blocked (sym (ap (map_option status) e) ∙ h) in
      rw (e, sync_wake_process)
        (simp st (
          enqueue_pid-IsRunnable pid (change_state pid ready s) (record p { state = ready })
            (pcb_of-change_state pid ready s p e) own refl))
]

status_of-clear_holder :
    (b : Bool) (k pid : ℕ) (s : Simulation)
    → status_of pid (clear_holder (make_sync_ports b) k s) ≡ status_of pid s
unfolding make_sync_ports clear_mutex_inheritance_for_holder
status_of-clear_holder true k pid s =
    status_of-update_pcb k pid (λ p. record p { mutex_inheritance_floor = pos 0 }) s (λ p. refl)
status_of-clear_holder false k pid s = refl

status_of-recompute_port :
    (b : Bool) (l : Lock) (pid : ℕ) (s : Simulation)
    → status_of pid (recompute (make_sync_ports b) l s) ≡ status_of pid s
unfolding make_sync_ports
status_of-recompute_port true l pid s = status_of-recompute l pid s
status_of-recompute_port false l pid s = refl

-- With the simulation's ports, with and without inheritance: when the owner of a mutex with
-- waiters releases it and the first waiter is blocked under its own pid, that waiter becomes the
-- owner, the others keep their order, and it is READY and in the ready queue.
pub release-IsRunnable :
    (inheritance : Bool) (pid next_pid : ℕ) (rest : List ℕ) (l : Lock) (s : Simulation)
    → l.owner ≡ some pid
    → l.waiting_queue ≡ next_pid ∷ rest
    → status_of next_pid s ≡ some (next_pid, blocked)
    → let r = release pid (some (make_sync_ports inheritance)) l s in
      (r.1.owner ≡ some next_pid) × (r.1.waiting_queue ≡ rest) × IsRunnable next_pid r.2
unfolding make_sync_ports
release-IsRunnable b pid next_pid rest l s o w h =
    let ports = make_sync_ports b in
    let l' = record l { owner = some next_pid; waiting_queue = rest } in
    let s₁ = clear_holder ports pid s in
    let s₂ = recompute ports l' s₁ in
    let still : status_of next_pid s₂ ≡ some (next_pid, blocked) =
      status_of-recompute_port b l' next_pid s₁ ∙ status_of-clear_holder b pid next_pid s ∙ h in
    rw (release_hands_over ports pid next_pid rest l s o w)
      (refl, refl, sync_wake_process-IsRunnable next_pid s₂ still)
