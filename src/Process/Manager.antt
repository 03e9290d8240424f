-- ===== src/Process/Manager.antt =====
-- mini_os_simulator/process/process_manager.py: creation, lookup and state changes of processes.
-- The hook of `change_state` acts on a state `S` of its owner. A control block is one shared
-- object, so code that assigns to its fields is an `update` of the table's entry.
pub mod Registry
use smart_device_io_t_operat.Prelude.{
  nat_key, ℕ, ℤ, pos, ◌+◌, Dict, String, Bool, true, false, Option, none, some, List, [], ◌∷◌,
}
use smart_device_io_t_operat.Prelude.Table
use smart_device_io_t_operat.Process.Pcb.{ProcessState, new, terminated, Pcb, post_init}
use smart_device_io_t_operat.FileSystem.Paths.{FilePath}

pub record ProcessManager : Type 0 where
  pub processes : Dict ℕ Pcb
  pub next_pid : ℕ

abbrev pub empty : ProcessManager
empty = record { processes = []; next_pid = 1 }

-- The keyword arguments of `create_process`.
pub record Spec : Type 0 where
  pub priority : ℤ
  pub memory_required : ℤ
  pub cpu_burst_time : ℕ
  pub arrival_time : ℕ
  pub opened_files : List (ℕ × FilePath × String)

abbrev pub fresh_pcb : ℕ → String → Spec → Pcb
unfolding post_init
fresh_pcb pid name spec = post_init (record {
  pid = pid;
  name = name;
  state = new;
  priority = spec.priority;
  aging_bonus = 0;
  mutex_inheritance_floor = pos 0;
  program_counter = 0;
  memory_required = spec.memory_required;
  cpu_burst_time = spec.cpu_burst_time;
  remaining_time = 0;
  opened_files = spec.opened_files;
  page_table = [];
  arrival_time = spec.arrival_time;
  start_time = none;
  completion_time = none;
  waiting_time = none;
  turnaround_time = none;
  response_time = none;
})

unfoldable pub create_process : String → Spec → ProcessManager → Pcb × ProcessManager
create_process name spec m =
    let pcb = fresh_pcb m.next_pid name spec in
    (pcb, record { processes = Table.put m.next_pid pcb m.processes; next_pid = m.next_pid + 1 })

abbrev pub get_process : ℕ → ProcessManager → Option Pcb
get_process pid m = Table.get pid m.processes

abbrev pub list_processes : ProcessManager → List Pcb
list_processes m = Table.values m.processes

-- Assignments to fields of the block of `pid`.
abbrev pub update : ℕ → (Pcb → Pcb) → ProcessManager → ProcessManager
update pid f m = record m { processes = Table.modify pid f m.processes }

abbrev pub Hook : Type 0 → Type 0
Hook S = ℕ → ProcessState → ProcessState → S → S

module _ {S : Type 0} where
  abbrev pub run_hook : Option (Hook S) → Hook S
  run_hook none pid old now s = s
  run_hook (some hook) pid old now s = hook pid old now s

  unfoldable pub change_state :
      Option (Hook S) → ℕ → ProcessState → ProcessManager → S → Bool × ProcessManager × S
  change_state hook pid new_state m s = elim (get_process pid m) [
    | none ↦ (false, m, s)
    | some pcb ↦ (
      true,
      update pid (λ p. record p { state = new_state }) m,
      run_hook hook pid pcb.state new_state s,
    )
  ]

unfoldable pub terminate : ℕ → ProcessManager → Bool × ProcessManager
terminate pid m = elim (get_process pid m) [
  | none ↦ (false, m)
  | some pcb ↦ (true, update pid (λ p. record p { state = terminated }) m)
]
