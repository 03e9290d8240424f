-- ===== src/Simulation/Work/Arrivals.antt =====
-- mini_os_simulator/os_core/simulation.py: processes that arrive, and the work that they bring.
use smart_device_io_t_operat.Prelude.{
  nat_key, ℕ, ◌+◌, ◌≡◌, refl, inl, inr, Bool, true, false, Option, none, some, String, List, [],
  ◌∷◌, ◌++◌, ◌==◌, mem, Distinct-snoc, All, Dict, arith, Bool-cases,
}
use smart_device_io_t_operat.Prelude.Table
use smart_device_io_t_operat.Process.Pcb.{Pcb, post_init}
use smart_device_io_t_operat.Process.Manager.{Spec, fresh_pcb, create_process}
use smart_device_io_t_operat.Process.Manager.Registry.{IsRegistry}
use smart_device_io_t_operat.Simulation.State.{Simulation}
use smart_device_io_t_operat.Simulation.Cpu.{cpu_step}
use smart_device_io_t_operat.Simulation.Serving.Calls.{add_process, put_ready}
use smart_device_io_t_operat.Simulation.Work.{IsWorked, pids, total_work, total_burst}
use smart_device_io_t_operat.Simulation.Work.Callbacks.{Paced}

-- A process that arrives or becomes ready, a tick, or a change that is not of the processes, their
-- queue or the clock.
pub data Event : Type 0 where
  arrives : String → Spec → Event
  readies : ℕ → Event
  ticks : Event
  elsewhere : (Simulation → Simulation) → Event

abbrev pub after_step : Option (Bool × Simulation) → Simulation → Simulation
after_step none s = s
after_step (some (answer, t)) s = t

unfoldable pub step : Event → Simulation → Simulation
step (arrives name spec) s = add_process name spec s
step (readies pid) s = put_ready pid s
step ticks s = after_step (cpu_step s) s
step (elsewhere f) s = record (f s) {
  processes = s.processes;
  scheduler = s.scheduler;
  sim_clock = s.sim_clock;
}

unfoldable pub run : List Event → Simulation → Simulation
run [] s = s
run (e ∷ es) s = run es (step e s)

-- The work that arrives.
abbrev pub burst_of : Event → ℕ
burst_of (arrives name spec) = spec.cpu_burst_time
burst_of _ = 0

unfoldable pub bursts : List Event → ℕ
bursts [] = 0
bursts (e ∷ es) = burst_of e + bursts es

-- A new entry at the end of the table.
module _ (k : ℕ) (p : Pcb) where
  pids-put : (d : Dict ℕ Pcb) → mem k (pids d) ≡ false → pids (Table.put k p d) ≡ pids d ++ k ∷ []
  unfolding Table.put
  pids-put [] h = refl
  pids-put ((j, q) ∷ d) h = ground (arith, pids-put d)

  total_work-put :
      (d : Dict ℕ Pcb)
      → mem k (pids d) ≡ false
      → total_work (Table.put k p d) ≡ total_work d + p.program_counter
  unfolding Table.put total_work
  total_work-put [] h = omega arith
  total_work-put ((j, q) ∷ d) h = ground (arith, total_work-put d)

  total_burst-put :
      (d : Dict ℕ Pcb)
      → mem k (pids d) ≡ false
      → total_burst (Table.put k p d) ≡ total_burst d + p.cpu_burst_time
  unfolding Table.put total_burst
  total_burst-put [] h = omega arith
  total_burst-put ((j, q) ∷ d) h = ground (arith, total_burst-put d)

  put-All :
      (d : Dict ℕ Pcb)
      → mem k (pids d) ≡ false
      → IsWorked (k, p)
      → All IsWorked d
      → All IsWorked (Table.put k p d)
  unfolding Table.put
  put-All [] h w all = (w, tt)
  put-All ((j, q) ∷ d) h w all = elim (Bool-cases (j == k)) [
    | inl e ↦ absurd (ground (arith, h, e))
    | inr e ↦ rw e (all.0, put-All d (ground (arith, h, e)) w all.1)
  ]

get-there : (k : ℕ) (d : Dict ℕ Pcb) → mem k (pids d) ≡ true → (p : Pcb) × (Table.get k d ≡ some p)
unfolding Table.get
get-there k [] h = cc
get-there k ((j, p) ∷ d) h = elim (Bool-cases (j == k)) [
  | inl e ↦ (p, rw e refl)
  | inr e ↦ let (q, f) = get-there k d (ground (arith, h, e)) in (q, rw e f)
]

-- The process that arrives has a new pid, and its burst before it.
pub add_process-Paced :
    (burst : ℕ) (name : String) (spec : Spec) (s : Simulation)
    → IsRegistry s.processes
    → Paced burst s
    → Paced (burst + spec.cpu_burst_time) (add_process name spec s)
unfolding create_process post_init
add_process-Paced burst name spec s r v =
    let k = s.processes.next_pid in
    let d = s.processes.processes in
    let p = fresh_pcb k name spec in
    let fresh : mem k (pids d) ≡ false = elim (Bool-cases (mem k (pids d))) [
      | inr e ↦ e
      | inl e ↦ let (q, h) = get-there k d e in absurd (omega (arith, r.below_next k q h))
    ] in
    record {
      once = rw (pids-put k p d fresh) (Distinct-snoc k (pids d) fresh v.once);
      worked =
          put-All k p d fresh
            (record {
              own_pid = ground arith;
              adds_up = ground arith;
              finished = λ t. ground (arith, t);
            })
            v.worked;
      asked = ground (arith, total_burst-put k p d fresh, v.asked);
      pace = ground (arith, total_work-put k p d fresh, v.pace);
    }
