-- ===== src/Simulation/Cpu/Loops.antt =====
-- mini_os_simulator/os_core/simulation.py: the loops that repeat the tick, described by the rounds
-- that they make and the reason for which they stop.
use smart_device_io_t_operat.Prelude.{ℕ, zero, suc, ◌<◌, ◌≡◌, ◌⊎◌, Bool, true, false, ◌||◌, some}
use smart_device_io_t_operat.Process.Manager.{list_processes}
use smart_device_io_t_operat.Simulation.State.{Simulation}
use smart_device_io_t_operat.Simulation.Cpu.{cpu_step, all_terminated, work_pending}

-- A loop over `_cpu_step` that stops before a tick where `stops` holds, and after one unless the
-- answer and the new state let it go on.
module _ (stops : Simulation → Bool) (goes_on : Bool → Simulation → Bool) where
  -- A tick after which the loop takes the next round.
  pub record IsRound (s s' : Simulation) : Type 0 where
    pub not_stopped : stops s ≡ false
    pub answer : Bool
    pub ticked : cpu_step s ≡ some (answer, s')
    pub continues : goes_on answer s' ≡ true

  abbrev pub Rounds : ℕ → Simulation → Simulation → Type 0
  Rounds zero s t = s ≡ t
  Rounds (suc k) s t = (s' : Simulation) × IsRound s s' × Rounds k s' t

  -- A tick after which the loop breaks.
  pub record IsLast (s t : Simulation) : Type 0 where
    pub not_stopped : stops s ≡ false
    pub answer : Bool
    pub ticked : cpu_step s ≡ some (answer, t)
    pub breaks : goes_on answer t ≡ false

  -- From `u`, after `k` of at most `n` rounds, the loop returns `t`: the range is at its end, or
  -- there is a reason to stop before a tick or after one.
  abbrev pub Returns : ℕ → ℕ → Simulation → Simulation → Type 0
  Returns k n u t = (k ≡ n) × (u ≡ t) ⊎ (k < n) × (stops u ≡ true) × (u ≡ t) ⊎ (k < n) × IsLast u t

  abbrev pub Follows : ℕ → Simulation → Simulation → Type 0
  Follows n s t = (k : ℕ) × (u : Simulation) × Rounds k s u × Returns k n u t

-- The loops' conditions.
abbrev pub never : Simulation → Bool
never s = false

abbrev pub if_busy : Bool → Simulation → Bool
if_busy answer s = answer

abbrev pub if_busy_or_pending : Bool → Simulation → Bool
if_busy_or_pending answer s = answer || work_pending s

abbrev pub all_over : Simulation → Bool
all_over s = all_terminated (list_processes s.processes)
