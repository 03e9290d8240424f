-- ===== src/Simulation/Cpu/Awaits.antt =====
-- mini_os_simulator/memory/memory_manager.py with the ports of
-- mini_os_simulator/os_core/simulation.py: a process that waits for its page, under the callbacks.

use smart_device_io_t_operat.Prelude.{
  nat_key, ℕ, ◌≡◌, ◌≢◌, refl, sym, ◌∙◌, ap, ◌⊎◌, inl, inr, true, false, some, ◌==◌, ==_iff, mem,
  map_option, arith, Option-cases, Bool-cases, Dict,
}
use smart_device_io_t_operat.Prelude.Table
use smart_device_io_t_operat.Prelude.Table.{get-modify}
use smart_device_io_t_operat.Process.Pcb.{ProcessState, ready, blocked, same_state}
use smart_device_io_t_operat.Process.Manager
use smart_device_io_t_operat.Memory.Owner.{CallbacksKeep}
use smart_device_io_t_operat.Simulation.State.{
  Simulation, pcb_of, update_pcb, change_state, enqueue_pid,
}
use smart_device_io_t_operat.Simulation.State.Blocks.{pcb_of-change_state}
use smart_device_io_t_operat.Simulation.Callbacks.{
  memory_ports, memory_clear_mapping, memory_install_mapping, memory_ready_after_fault,
  memory_on_fifo_eviction,
}
use smart_device_io_t_operat.Simulation.Callbacks.Wakeups.{
  status, status_of, status_of-update_pcb, IsRunnable, enqueue_pid-IsRunnable, parts_of,
}
use smart_device_io_t_operat.Simulation.Cpu.Tick.{processes-enqueue_pid, scheduler-change_state}
use smart_device_io_t_operat.Simulation.Serving.{enqueue_pid-mem}

-- Another process that becomes ready.
status_of-change_other :
    (k pid : ℕ) (st : ProcessState) (s : Simulation)
    → (k == pid) ≡ false
    → status_of pid (change_state k st s) ≡ status_of pid s
unfolding change_state Manager.change_state
status_of-change_other k pid st s h = elim (Option-cases (pcb_of k s)) [
  | inl e ↦ rw (e, Manager.change_state) refl
  | inr (p, e) ↦
      rw (e, Manager.change_state)
        (ground (arith, h, get-modify k pid (λ b. record b { state = st }) s.processes.processes))
]

status_of-ready_other :
    (k pid : ℕ) (s : Simulation)
    → (k == pid) ≡ false
    → status_of pid (enqueue_pid k (change_state k ready s)) ≡ status_of pid s
status_of-ready_other k pid s h =
    ap (λ m. map_option status (Table.get pid m.processes))
      (processes-enqueue_pid k (change_state k ready s))
    ∙ status_of-change_other k pid ready s h

ready_other-IsRunnable :
    (k pid : ℕ) (s : Simulation)
    → (k == pid) ≡ false
    → IsRunnable pid s
    → IsRunnable pid (enqueue_pid k (change_state k ready s))
ready_other-IsRunnable k pid s h v = record {
  is_ready = status_of-ready_other k pid s h ∙ v.is_ready;
  queued =
      enqueue_pid-mem k pid (change_state k ready s)
        (ap (λ sch. mem pid sch.ready_queue) (scheduler-change_state k ready s) ∙ v.queued);
}

-- A process that waits for its page, or has stopped waiting.
abbrev pub Awaits : ℕ → Simulation → Type 0
Awaits pid s = (status_of pid s ≡ some (pid, blocked)) ⊎ IsRunnable pid s

-- The callback that makes a process ready, for it and for others.
ready_after_fault-IsRunnable :
    (k pid : ℕ) (s : Simulation) → IsRunnable pid s → IsRunnable pid (memory_ready_after_fault k s)
unfolding memory_ready_after_fault
ready_after_fault-IsRunnable k pid s v = elim (Option-cases (pcb_of k s)) [
  | inl e ↦ rw (e, memory_ready_after_fault) v
  | inr (p, e) ↦ elim (Bool-cases (same_state p.state blocked)) [
    | inr b ↦ rw (e, memory_ready_after_fault) (rw b v)
    | inl b ↦ elim (Bool-cases (k == pid)) [
      | inr h ↦ rw (e, memory_ready_after_fault) (rw b (ready_other-IsRunnable k pid s h v))
      | inl h ↦
          let here : pcb_of pid s ≡ some p = rw (← (==_iff k pid).0 h) e in
          let (own, st) =
            parts_of pid p.pid p.state ready (sym (ap (map_option status) here) ∙ v.is_ready) in
          absurd (not_both p.state b st)
    ]
  ]
]
  where
    not_both : (st : ProcessState) → same_state st blocked ≡ true → st ≢ ready
    not_both st b e = ground arith

wakes_self :
    (pid : ℕ) (s : Simulation)
    → status_of pid s ≡ some (pid, blocked)
    → IsRunnable pid (memory_ready_after_fault pid s)
unfolding memory_ready_after_fault
wakes_self pid s h = elim (Option-cases (pcb_of pid s)) [
  | inl e ↦ ground (arith, e, h)
  | inr (p, e) ↦
      let (own, st) = parts_of pid p.pid p.state blocked (sym (ap (map_option status) e) ∙ h) in
      rw (e, memory_ready_after_fault)
        (simp st (
          enqueue_pid-IsRunnable pid (change_state pid ready s) (record p { state = ready })
            (pcb_of-change_state pid ready s p e) own refl))
]

pub Awaits-IsRunnable :
    (pid : ℕ) (s : Simulation) → Awaits pid s → IsRunnable pid (memory_ready_after_fault pid s)
Awaits-IsRunnable pid s (inl h) = wakes_self pid s h
Awaits-IsRunnable pid s (inr v) = ready_after_fault-IsRunnable pid pid s v

ready_after_fault-other :
    (k pid : ℕ) (s : Simulation)
    → (k == pid) ≡ false
    → status_of pid (memory_ready_after_fault k s) ≡ status_of pid s
unfolding memory_ready_after_fault
ready_after_fault-other k pid s h = elim (Option-cases (pcb_of k s)) [
  | inl e ↦ rw (e, memory_ready_after_fault) refl
  | inr (p, e) ↦ elim (Bool-cases (same_state p.state blocked)) [
    | inr b ↦ rw (e, memory_ready_after_fault) (rw b refl)
    | inl b ↦ rw (e, memory_ready_after_fault) (rw b (status_of-ready_other k pid s h))
  ]
]

ready_after_fault-Awaits :
    (k pid : ℕ) (s : Simulation) → Awaits pid s → Awaits pid (memory_ready_after_fault k s)
ready_after_fault-Awaits k pid s a = elim (Bool-cases (k == pid)) [
  | inl h ↦ rw ((==_iff k pid).0 h) (inr (Awaits-IsRunnable pid s a))
  | inr h ↦ by_case a (ready_after_fault-other k pid s h)
]
  where
    by_case :
        Awaits pid s
        → status_of pid (memory_ready_after_fault k s) ≡ status_of pid s
        → Awaits pid (memory_ready_after_fault k s)
    by_case (inr v) e = inr (ready_after_fault-IsRunnable k pid s v)
    by_case (inl w) e = inl (e ∙ w)

-- A change of page tables alone.
table-IsRunnable :
    (k pid : ℕ) (f : Dict ℕ ℕ → Dict ℕ ℕ) (s : Simulation)
    → IsRunnable pid s
    → IsRunnable pid (update_pcb k (λ p. record p { page_table = f p.page_table }) s)
table-IsRunnable k pid f s v = record {
  is_ready =
      status_of-update_pcb k pid (λ p. record p { page_table = f p.page_table }) s (λ p. refl)
      ∙ v.is_ready;
  queued = v.queued;
}

table-Awaits :
    (k pid : ℕ) (f : Dict ℕ ℕ → Dict ℕ ℕ) (s : Simulation)
    → Awaits pid s
    → Awaits pid (update_pcb k (λ p. record p { page_table = f p.page_table }) s)
table-Awaits k pid f s (inl w) =
    inl
      (status_of-update_pcb k pid (λ p. record p { page_table = f p.page_table }) s (λ p. refl) ∙ w)
table-Awaits k pid f s (inr v) = inr (table-IsRunnable k pid f s v)

evicts-Awaits :
    (pid k page frame : ℕ) (s : Simulation)
    → Awaits pid s
    → Awaits pid (memory_on_fifo_eviction k page frame s)
unfolding memory_on_fifo_eviction
evicts-Awaits pid k page frame s (inl w) = inl w
evicts-Awaits pid k page frame s (inr v) = inr (record { is_ready = v.is_ready; queued = v.queued })

pub Awaits-keep : (pid : ℕ) → CallbacksKeep memory_ports (Awaits pid)
unfolding memory_clear_mapping memory_install_mapping
Awaits-keep pid = record {
  clears = λ k page s a. table-Awaits k pid (Table.remove page) s a;
  installs = λ k page frame s a. table-Awaits k pid (Table.put page frame) s a;
  readies = λ k s a. ready_after_fault-Awaits k pid s a;
  evicts = λ k page frame s a. evicts-Awaits pid k page frame s a;
}

pub IsRunnable-keep : (pid : ℕ) → CallbacksKeep memory_ports (IsRunnable pid)
unfolding memory_clear_mapping memory_install_mapping memory_on_fifo_eviction
IsRunnable-keep pid = record {
  clears = λ k page s v. table-IsRunnable k pid (Table.remove page) s v;
  installs = λ k page frame s v. table-IsRunnable k pid (Table.put page frame) s v;
  readies = λ k s v. ready_after_fault-IsRunnable k pid s v;
  evicts = λ k page frame s v. record { is_ready = v.is_ready; queued = v.queued };
}
