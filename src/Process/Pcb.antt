-- ===== src/Process/Pcb.antt =====
-- mini_os_simulator/process/pcb.py: process states, the control block and its metrics.
-- Paths are lists of code points. Times, bursts and pids are natural numbers; a priority, an
-- inheritance floor, a reservation request and a derived metric are integers.
use smart_device_io_t_operat.Prelude.{
  ℕ, ℤ, pos, ◌+ℤ◌, ◌-ℤ◌, max_ℤ, Dict, String, Bool, true, false, ◌&&◌, Option, none, some, List,
  ◌==◌, ltb, if◌then◌else◌,
}
use smart_device_io_t_operat.FileSystem.Paths.{FilePath}

pub data ProcessState : Type 0 where
  new ready running blocked terminated : ProcessState

-- `==` of the enumeration.
abbrev pub same_state : ProcessState → ProcessState → Bool
same_state new new = true
same_state ready ready = true
same_state running running = true
same_state blocked blocked = true
same_state terminated terminated = true
same_state _ _ = false

pub record Pcb : Type 0 where
  pub pid : ℕ
  pub name : String
  pub state : ProcessState
  pub priority : ℤ
  pub aging_bonus : ℕ
  pub mutex_inheritance_floor : ℤ
  pub program_counter : ℕ
  pub memory_required : ℤ
  pub cpu_burst_time : ℕ
  pub remaining_time : ℕ
  pub opened_files : List (ℕ × FilePath × String)
  pub page_table : Dict ℕ ℕ
  pub arrival_time : ℕ
  pub start_time : Option ℕ
  pub completion_time : Option ℕ
  pub waiting_time : Option ℤ
  pub turnaround_time : Option ℤ
  pub response_time : Option ℤ

-- `__post_init__`
unfoldable pub post_init : Pcb → Pcb
post_init p =
    if p.remaining_time == 0 && ltb 0 p.cpu_burst_time
    then record p { remaining_time = p.cpu_burst_time }
    else p

unfoldable pub effective_priority : Pcb → ℤ
effective_priority p = max_ℤ (p.priority +ℤ pos p.aging_bonus) p.mutex_inheritance_floor

unfoldable pub on_first_cpu_dispatch : ℕ → Pcb → Pcb
on_first_cpu_dispatch clock p = elim p.start_time [
  | none ↦ record p { start_time = some clock }
  | some t ↦ p
]

unfoldable pub finalize_metrics : ℕ → Pcb → Pcb
finalize_metrics completion_clock p =
    let turnaround = pos completion_clock -ℤ pos p.arrival_time in
    record p {
      completion_time = some completion_clock;
      turnaround_time = some turnaround;
      response_time = elim p.start_time [
        | none ↦ p.response_time
        | some t ↦ some (pos t -ℤ pos p.arrival_time)
      ];
      waiting_time = some (turnaround -ℤ pos p.cpu_burst_time);
    }
