-- ===== src/Examples/Processes.antt =====
-- Three devices in the process table: a camera, an alarm of higher priority and a logger.
use smart_device_io_t_operat.Prelude.{
  nat_key, ℕ, ◌≡◌, refl, ℤ, pos, max_ℤ, ◌+ℤ◌, true, Option, none, some, List, [], ◌∷◌, Distinct,
  is_some, ◌≤◌,
}
use smart_device_io_t_operat.Prelude.Table
use smart_device_io_t_operat.Process.Pcb.{ready, blocked, Pcb, post_init, effective_priority}
use smart_device_io_t_operat.Process.Manager
use smart_device_io_t_operat.Process.Manager.{
  ProcessManager, Spec, Hook, create_process, get_process, change_state, fresh_pcb,
}
use smart_device_io_t_operat.Process.Manager.Registry.{
  empty-IsRegistry, IsRegistry, Command, creates, changes, obey, obey_all, obey_all-IsRegistry,
}
use smart_device_io_t_operat.Process.Scheduler.{
  Scheduler, candidate, pick_first, pick_next, pick_highest, round_robin, stage, sort_staged,
  insert_staged, before,
}
use smart_device_io_t_operat.Process.Scheduler.Queue.{IsPick, pick_next-IsPick}
use smart_device_io_t_operat.Simulation.Order.{IsRegistry-OwnPid}
use smart_device_io_t_operat.Process.Scheduler.Priority.{Beats, pick_highest-Beats}

abbrev pub device : ℤ → ℕ → Spec
device level burst = record {
  priority = level;
  memory_required = pos 300;
  cpu_burst_time = burst;
  arrival_time = 0;
  opened_files = [];
}

abbrev pub commands : List Command
commands =
    creates "camera" (device (pos 2) 4)
    ∷ creates "alarm" (device (pos 5) 2)
    ∷ creates "logger" (device (pos 1) 3)
    ∷ changes 1 ready
    ∷ changes 2 ready
    ∷ changes 3 blocked
    ∷ []

abbrev pub no_hook : Option (Hook ℕ)
no_hook = none

unfoldable pub devices : ProcessManager
unfolding create_process change_state Table.get Table.put Table.modify obey obey_all
devices = (obey_all no_hook commands Manager.empty 0).0

pub registry : IsRegistry devices
unfolding devices obey_all
registry = (obey_all-IsRegistry no_hook commands Manager.empty 0 empty-IsRegistry).0

obey_all-IsRegistry_example :
    IsRegistry devices
    × ((k : ℕ)
        → is_some (get_process k Manager.empty) ≡ true
        → is_some (get_process k devices) ≡ true)
    × (1 ≤ 4)
unfolding devices obey_all
obey_all-IsRegistry_example = obey_all-IsRegistry no_hook commands Manager.empty 0 empty-IsRegistry

-- The ready queue as it stands after the three were made ready once.
abbrev pub queue : Scheduler
queue = record { policy = round_robin 2; ready_queue = 3 ∷ 1 ∷ 2 ∷ [] }

queue-Distinct : Distinct queue.ready_queue
queue-Distinct = (refl, (refl, (refl, tt)))

pick_next-IsPick_example :
    IsPick devices.processes queue.ready_queue
      ((pick_next devices.processes queue).0, (pick_next devices.processes queue).1.ready_queue)
pick_next-IsPick_example =
    pick_next-IsPick devices.processes (IsRegistry-OwnPid devices registry) queue queue-Distinct

-- The round robin passes over the blocked logger and takes the camera.
picked_camera : (pick_next devices.processes queue).1.ready_queue ≡ 2 ∷ []
unfolding pick_next pick_first candidate devices Table.get
picked_camera = refl

unfoldable pub camera : Pcb
unfolding post_init
camera = record (fresh_pcb 1 "camera" (device (pos 2) 4)) { state = ready }

unfoldable pub alarm : Pcb
unfolding post_init
alarm = record (fresh_pcb 2 "alarm" (device (pos 5) 2)) { state = ready }

-- The priority scheduler takes the alarm, which stands behind the camera.
alarm_picked : (pick_highest devices.processes queue.ready_queue).0 ≡ some alarm
unfolding pick_highest stage sort_staged insert_staged before effective_priority max_ℤ ◌+ℤ◌
    candidate devices alarm Table.get
alarm_picked = refl

camera_runs : candidate devices.processes 1 ≡ some camera
unfolding candidate devices camera Table.get
camera_runs = refl

pick_highest-Beats_example : Beats alarm camera
pick_highest-Beats_example =
    pick_highest-Beats devices.processes queue.ready_queue alarm 1 camera
      (IsRegistry-OwnPid devices registry) alarm_picked refl camera_runs
