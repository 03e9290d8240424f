-- ===== src/Simulation/Serving/Ports.antt =====
-- mini_os_simulator/os_core/simulation.py: every process that can run is queued or has the CPU,
-- when processes block and wake through the ports of locks and semaphores.
use smart_device_io_t_operat.Prelude.{
  nat_key, path_key, ℕ, ℤ, pos, mem, ltb, ◌≡◌, refl, inl, inr, Bool, true, false, none, some, List,
  [], ◌∷◌, ◌==◌, arith, Option-cases, Bool-cases,
}
use smart_device_io_t_operat.Concurrency.SyncPorts.{Lock, recompute, clear_holder}
use smart_device_io_t_operat.Concurrency.Locks.{acquire, contend, release, give_up, hand_over}
use smart_device_io_t_operat.Concurrency.Semaphore.{CountingSemaphore, wait, signal}
use smart_device_io_t_operat.Simulation.State.{Simulation, pcb_of, update_pcb}
use smart_device_io_t_operat.Simulation.Callbacks.{
  sync_block_process, sync_wake_process, make_sync_ports, highest_waiter,
  recompute_mutex_inheritance, clear_mutex_inheritance_for_holder, note_inheritance,
  obs_on_semaphore_blocked, obs_on_semaphore_signal_handoff, obs_on_mutex_blocked,
}
use smart_device_io_t_operat.Simulation.Serving.{update_pcb-IsServed}
use smart_device_io_t_operat.Simulation.Serving.Ticks.{Served}
use smart_device_io_t_operat.Simulation.Serving.Blocking.{wake-Served, alike-Served, block-Served}

-- The callbacks of priority inheritance.
note_inheritance-Served :
    (owner : ℕ) (prev floor : ℤ) (s : Simulation)
    → Served s
    → Served (note_inheritance owner prev floor s)
note_inheritance-Served owner prev floor s v =
    alike-Served s (note_inheritance owner prev floor s) (ground arith) (ground arith)
      (ground arith) v

floor-Served :
    (pid : ℕ) (floor : ℤ) (s : Simulation)
    → Served s
    → Served (update_pcb pid (λ p. record p { mutex_inheritance_floor = floor }) s)
floor-Served pid floor s v =
    update_pcb-IsServed s.current_pid pid (λ p. record p { mutex_inheritance_floor = floor }) s
      (λ p. refl) (λ p. refl) v

recompute-Served : (l : Lock) (s : Simulation) → Served s → Served (recompute_mutex_inheritance l s)
unfolding recompute_mutex_inheritance
recompute-Served l s v = elim (Option-cases l.owner) [
  | inl e ↦ simp (e, recompute_mutex_inheritance) v
  | inr (owner, e) ↦ elim (Option-cases (pcb_of owner s)) [
    | inl g ↦ simp (e, g, recompute_mutex_inheritance) v
    | inr (p, g) ↦
        let floor = highest_waiter s (pos 0) l.waiting_queue in
        simp (e, g, recompute_mutex_inheritance)
          (note_inheritance-Served owner p.mutex_inheritance_floor floor _
            (floor-Served owner floor s v))
  ]
]

-- The ports, with and without inheritance.
module _ (b : Bool) where
  recompute_port-Served :
      (l : Lock) (s : Simulation) → Served s → Served (recompute (make_sync_ports b) l s)
  unfolding make_sync_ports
  recompute_port-Served l s v = by_flag b
    where
      by_flag : (c : Bool) → Served (recompute (make_sync_ports c) l s)
      by_flag true = recompute-Served l s v
      by_flag false = v

  clear_holder-Served :
      (pid : ℕ) (s : Simulation) → Served s → Served (clear_holder (make_sync_ports b) pid s)
  unfolding make_sync_ports clear_mutex_inheritance_for_holder
  clear_holder-Served pid s v = by_flag b
    where
      by_flag : (c : Bool) → Served (clear_holder (make_sync_ports c) pid s)
      by_flag true = floor-Served pid (pos 0) s v
      by_flag false = v

  contend-Served :
      (pid owner : ℕ) (l : Lock) (s : Simulation)
      → Served s
      → Served (contend pid owner (some (make_sync_ports b)) l s).2
  unfolding contend make_sync_ports obs_on_mutex_blocked
  contend-Served pid owner l s v =
      let s₁ = sync_block_process pid s in
      recompute_port-Served _ _ (alike-Served s₁ _ refl refl refl (block-Served pid s v))

  pub acquire-Served :
      (pid : ℕ) (l : Lock) (s : Simulation)
      → Served s
      → Served (acquire pid (some (make_sync_ports b)) l s).2
  unfolding acquire
  acquire-Served pid l s v = elim (Option-cases l.owner) [
    | inl e ↦ simp (e, acquire) v
    | inr (owner, e) ↦ elim (Bool-cases (owner == pid)) [
      | inl h ↦ simp (e, h, acquire) v
      | inr h ↦
          simp (e, h, acquire) (contend-Served pid owner (record l { owner = some owner }) s v)
    ]
  ]

  hand_over-Served :
      (waiters : List ℕ) (l : Lock) (s : Simulation)
      → Served s
      → Served (hand_over (make_sync_ports b) waiters l s).2
  unfolding hand_over make_sync_ports
  hand_over-Served [] l s v = v
  hand_over-Served (w ∷ rest) l s v = wake-Served w _ (recompute_port-Served _ s v)

  pub release-Served :
      (pid : ℕ) (l : Lock) (s : Simulation)
      → Served s
      → Served (release pid (some (make_sync_ports b)) l s).2
  unfolding release give_up
  release-Served pid l s v = elim (Option-cases l.owner) [
    | inl e ↦ simp (e, release) v
    | inr (owner, e) ↦ elim (Bool-cases (owner == pid)) [
      | inl h ↦
          simp (e, h, release)
            (hand_over-Served l.waiting_queue (record l { owner = none }) _
              (clear_holder-Served pid s v))
      | inr h ↦ simp (e, h, release) v
    ]
  ]

  pub wait-Served :
      (pid : ℕ) (sem : CountingSemaphore) (s : Simulation)
      → Served s
      → Served (wait (make_sync_ports b) pid sem s).2
  unfolding wait make_sync_ports obs_on_semaphore_blocked
  wait-Served pid sem s v = elim (Bool-cases (mem pid sem.pending_grants)) [
    | inl g ↦ simp g v
    | inr g ↦ elim (Bool-cases (ltb 0 sem.count)) [
      | inl h ↦ simp (g, h) v
      | inr h ↦
          let s₁ = sync_block_process pid s in
          simp (g, h) (alike-Served s₁ _ refl refl refl (block-Served pid s v))
    ]
  ]

  pub signal-Served :
      (pid : ℕ) (sem : CountingSemaphore) (s : Simulation)
      → Served s
      → Served (signal (make_sync_ports b) pid sem s).1
  unfolding signal make_sync_ports obs_on_semaphore_signal_handoff
  signal-Served pid sem s v = by_queue sem.waiting_queue refl
    where
      by_queue :
          (q : List ℕ) → sem.waiting_queue ≡ q → Served (signal (make_sync_ports b) pid sem s).1
      by_queue [] e = simp (e, signal) v
      by_queue (w ∷ rest) e =
          simp (e, signal)
            (alike-Served (sync_wake_process w s) _ refl refl refl (wake-Served w s v))
