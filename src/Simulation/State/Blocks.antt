-- ===== src/Simulation/State/Blocks.antt =====
-- mini_os_simulator/os_core/simulation.py: the block of a process after an assignment to it.
use smart_device_io_t_operat.Prelude.{
  nat_key, ℕ, ◌≡◌, refl, ◌∙◌, ap, Option, some, ◌==◌, ==_iff, if◌then◌else◌, map_option,
  Option-cases, inl, inr, arith,
}
use smart_device_io_t_operat.Prelude.Table.{get-modify}
use smart_device_io_t_operat.Process.Pcb.{Pcb, ProcessState}
use smart_device_io_t_operat.Process.Manager
use smart_device_io_t_operat.Simulation.State.{Simulation, pcb_of, update_pcb, change_state}

-- The table after `update_pcb`.
pub pcb_of-update_pcb :
    (pid : ℕ) (f : Pcb → Pcb) (s : Simulation) (p : Pcb)
    → pcb_of pid s ≡ some p
    → pcb_of pid (update_pcb pid f s) ≡ some (f p)
pcb_of-update_pcb pid f s p e =
    get-modify pid pid f s.processes.processes
    ∙ ap (λ b. if b then map_option f (pcb_of pid s) else pcb_of pid s) ((==_iff pid pid).1 refl)
    ∙ ap (map_option f) e

-- A change of state is an assignment to the block.
pub pcb_of-change_state :
    (pid : ℕ) (state : ProcessState) (s : Simulation) (p : Pcb)
    → pcb_of pid s ≡ some p
    → pcb_of pid (change_state pid state s) ≡ some (record p { state = state })
unfolding change_state Manager.change_state
pcb_of-change_state pid state s p e =
    rw (e, Manager.change_state) (pcb_of-update_pcb pid (λ b. record b { state = state }) s p e)

-- The state that the block of a process shows, if it has one.
abbrev pub state_of : ℕ → Simulation → Option ProcessState
state_of pid s = map_option (λ p. p.state) (pcb_of pid s)

pub state_of-update_pcb :
    (pid k : ℕ) (f : Pcb → Pcb) (s : Simulation)
    → ((p : Pcb) → (f p).state ≡ p.state)
    → state_of k (update_pcb pid f s) ≡ state_of k s
state_of-update_pcb pid k f s same = elim (Option-cases (pcb_of k s)) [
  | inl e ↦ ground (arith, e, get-modify pid k f s.processes.processes)
  | inr (p, e) ↦ ground (arith, e, same p, get-modify pid k f s.processes.processes)
]

pub state_of-change_state :
    (pid k : ℕ) (state : ProcessState) (s : Simulation)
    → state_of k (change_state pid state s)
      ≡ (if pid == k then map_option (λ _. state) (state_of k s) else state_of k s)
unfolding change_state Manager.change_state
state_of-change_state pid k state s = elim (Option-cases (pcb_of pid s)) [
  | inl e ↦ rw (e, Manager.change_state) (ground (arith, e))
  | inr (p, e) ↦
      rw (e, Manager.change_state)
        (ground
          (arith, e, get-modify pid k (λ b. record b { state = state }) s.processes.processes))
]
