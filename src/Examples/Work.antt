-- ===== src/Examples/Work.antt =====
-- Two processes that arrive at different times, and their work.
use smart_device_io_t_operat.Prelude.{◌≡◌, ◌≤◌, pos, true, false, some, List, [], ◌∷◌, All}
use smart_device_io_t_operat.Process.Manager.{list_processes}
use smart_device_io_t_operat.Process.Scheduler.{round_robin}
use smart_device_io_t_operat.Simulation.State.{Simulation}
use smart_device_io_t_operat.Simulation.Cpu.{run_until_all_terminated, all_terminated}
use smart_device_io_t_operat.Simulation.Serving.Operations.{configured}
use smart_device_io_t_operat.Simulation.Work.Callbacks.{Paced}
use smart_device_io_t_operat.Simulation.Work.Arrivals.{Event, arrives, readies, ticks, run, bursts}
use smart_device_io_t_operat.Simulation.Work.Runs.{run_until_all_terminated-Paced}
use smart_device_io_t_operat.Examples.Processes.{device}
use smart_device_io_t_operat.Examples.Runs.{paged}

abbrev arrivals : List Event
arrivals =
    arrives "camera" (device (pos 2) 4)
    ∷ readies 1
    ∷ ticks
    ∷ arrives "logger" (device (pos 1) 2)
    ∷ readies 2
    ∷ ticks
    ∷ []

run_until_all_terminated-Paced_example :
    let s = run arrivals (configured (round_robin 2) false true 3 paged true) in
    (t : Simulation) × (run_until_all_terminated 20 s ≡ some t)
    × Paced (bursts arrivals) t
    × (all_terminated (list_processes t.processes) ≡ true
        → (bursts arrivals ≤ t.sim_clock)
          × All (λ p. p.remaining_time ≡ 0) (list_processes t.processes))
run_until_all_terminated-Paced_example =
    run_until_all_terminated-Paced (round_robin 2) false true 3 paged true arrivals 20
