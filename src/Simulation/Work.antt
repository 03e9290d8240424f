-- ===== src/Simulation/Work.antt =====
-- mini_os_simulator/os_core/simulation.py: the units of work that the processes have done, against
-- the clock.
pub mod Callbacks
pub mod Ticks
pub mod Arrivals
pub mod Runs
use smart_device_io_t_operat.Prelude.{
  nat_key, ℕ, ◌+◌, ◌≤◌, ◌≡◌, refl, sym, ◌∙◌, ap, subst, inl, inr, Bool, true, false, Option, none,
  some, List, [], ◌∷◌, ◌==◌, ==_iff, map, mem, Distinct, All, Dict, arith, Bool-cases, Option-cases,
}
use smart_device_io_t_operat.Prelude.Table
use smart_device_io_t_operat.Prelude.Table.{modify_absent}
use smart_device_io_t_operat.Process.Pcb.{Pcb, ProcessState, terminated}
use smart_device_io_t_operat.Simulation.Cpu.{work}

abbrev pub pids : Dict ℕ Pcb → List ℕ
pids = map (λ e. e.0)

-- The units of work done, and those that the bursts ask for.
pub total_work : Dict ℕ Pcb → ℕ
total_work [] = 0
total_work ((k, p) ∷ d) = p.program_counter + total_work d

pub total_burst : Dict ℕ Pcb → ℕ
total_burst [] = 0
total_burst ((k, p) ∷ d) = p.cpu_burst_time + total_burst d

-- A block under its own pid, whose work done and left make up its burst, with none left once it has
-- terminated.
pub record IsWorked (e : ℕ × Pcb) : Type 0 where
  pub own_pid : e.1.pid ≡ e.0
  pub adds_up : e.1.remaining_time + e.1.program_counter ≡ e.1.cpu_burst_time
  pub finished : e.1.state ≡ terminated → e.1.remaining_time ≡ 0

-- The bursts add up to `burst`, and at most one unit of work has been done for each tick.
pub record IsPaced (burst clock : ℕ) (d : Dict ℕ Pcb) : Type 0 where
  pub once : Distinct (pids d)
  pub worked : All IsWorked d
  pub asked : total_burst d ≡ burst
  pub pace : total_work d ≤ clock

pub get-absent : (k : ℕ) (d : Dict ℕ Pcb) → mem k (pids d) ≡ false → Table.get k d ≡ none
unfolding Table.get
get-absent k [] h = refl
get-absent k ((j, p) ∷ d) h = ground (arith, get-absent k d)

pids-modify : (k : ℕ) (f : Pcb → Pcb) (d : Dict ℕ Pcb) → pids (Table.modify k f d) ≡ pids d
unfolding Table.modify
pids-modify k f [] = refl
pids-modify k f ((j, p) ∷ d) = ground (arith, pids-modify k f d)

-- An assignment to the block of a process changes one entry.
module _ (k : ℕ) (f : Pcb → Pcb) where
  modify-All :
      (d : Dict ℕ Pcb)
      → Distinct (pids d)
      → All IsWorked d
      → ((p : Pcb) → Table.get k d ≡ some p → IsWorked (k, p) → IsWorked (k, f p))
      → All IsWorked (Table.modify k f d)
  unfolding Table.modify Table.get
  modify-All [] once all g = tt
  modify-All ((j, p) ∷ d) once all g = elim (Bool-cases (j == k)) [
    | inl e ↦
        let same : j ≡ k = (==_iff j k).0 e in
        let gone : Table.modify k f d ≡ d =
          modify_absent k f d (get-absent k d (subst (λ i. mem i (pids d) ≡ false) same once.0)) in
        let changed : IsWorked (j, f p) =
          subst (λ i. IsWorked (i, f p)) (sym same)
            (g p (rw e refl) (subst (λ i. IsWorked (i, p)) same all.0)) in
        rw e (changed, rw gone all.1)
    | inr e ↦ rw e (all.0, modify-All d once.1 all.1 (λ q h. g q (rw e h)))
  ]

  total-modify_same :
      (d : Dict ℕ Pcb)
      → ((p : Pcb) → (f p).program_counter ≡ p.program_counter)
      → total_work (Table.modify k f d) ≡ total_work d
  unfolding Table.modify total_work
  total-modify_same [] same = refl
  total-modify_same ((j, p) ∷ d) same = ground (arith, same p, total-modify_same d same)

  total_burst-modify :
      (d : Dict ℕ Pcb)
      → ((p : Pcb) → (f p).cpu_burst_time ≡ p.cpu_burst_time)
      → total_burst (Table.modify k f d) ≡ total_burst d
  unfolding Table.modify total_burst
  total_burst-modify [] same = refl
  total_burst-modify ((j, p) ∷ d) same = ground (arith, same p, total_burst-modify d same)

  total-modify_step :
      (d : Dict ℕ Pcb)
      → Distinct (pids d)
      → ((p : Pcb) → (f p).program_counter ≤ p.program_counter + 1)
      → total_work (Table.modify k f d) ≤ total_work d + 1
  unfolding Table.modify total_work
  total-modify_step [] once step = omega arith
  total-modify_step ((j, p) ∷ d) once step = elim (Bool-cases (j == k)) [
    | inl e ↦
        let same : j ≡ k = (==_iff j k).0 e in
        let gone : Table.modify k f d ≡ d =
          modify_absent k f d (get-absent k d (subst (λ i. mem i (pids d) ≡ false) same once.0)) in
        rw (e, gone) (omega (arith, step p))
    | inr e ↦ rw e (omega (arith, total-modify_step d once.1 step))
  ]

-- An assignment that keeps the work, and terminates nobody.
pub record KeepsWork (f : Pcb → Pcb) : Type 0 where
  pub pid : (p : Pcb) → (f p).pid ≡ p.pid
  pub counter : (p : Pcb) → (f p).program_counter ≡ p.program_counter
  pub remaining : (p : Pcb) → (f p).remaining_time ≡ p.remaining_time
  pub burst : (p : Pcb) → (f p).cpu_burst_time ≡ p.cpu_burst_time
  pub state : (p : Pcb) → (f p).state ≡ terminated → p.state ≡ terminated

pub modify-IsPaced :
    (burst clock k : ℕ) (f : Pcb → Pcb) (d : Dict ℕ Pcb)
    → KeepsWork f
    → IsPaced burst clock d
    → IsPaced burst clock (Table.modify k f d)
modify-IsPaced burst clock k f d w v = record {
  once = rw (pids-modify k f d) v.once;
  worked = modify-All k f d v.once v.worked (λ p h u. record {
    own_pid = w.pid p ∙ u.own_pid;
    adds_up = rw (w.remaining p, w.counter p, w.burst p) u.adds_up;
    finished = λ t. w.remaining p ∙ u.finished (w.state p t);
  });
  asked = total_burst-modify k f d w.burst ∙ v.asked;
  pace = rw (total-modify_same k f d w.counter) v.pace;
}

-- The end of a process that has no work left.
pub terminate-IsPaced :
    (burst clock k : ℕ) (d : Dict ℕ Pcb)
    → ((p : Pcb) → Table.get k d ≡ some p → p.remaining_time ≡ 0)
    → IsPaced burst clock d
    → IsPaced burst clock (Table.modify k (λ p. record p { state = terminated }) d)
terminate-IsPaced burst clock k d over v = record {
  once = rw (pids-modify k (λ p. record p { state = terminated }) d) v.once;
  worked =
      modify-All k (λ p. record p { state = terminated }) d v.once v.worked
        (λ p h u. record { own_pid = u.own_pid; adds_up = u.adds_up; finished = λ t. over p h });
  asked = total_burst-modify k (λ p. record p { state = terminated }) d (λ p. refl) ∙ v.asked;
  pace = rw (total-modify_same k (λ p. record p { state = terminated }) d (λ p. refl)) v.pace;
}

-- A unit of work, in a tick of the clock.
pub work-IsPaced :
    (burst clock k : ℕ) (d : Dict ℕ Pcb)
    → IsPaced burst clock d
    → IsPaced burst (clock + 1) (Table.modify k work d)
work-IsPaced burst clock k d v = record {
  once = rw (pids-modify k work d) v.once;
  worked = modify-All k work d v.once v.worked (λ p h u. record {
    own_pid = ground (arith, u.own_pid);
    adds_up = ground (arith, u.adds_up);
    finished = λ t. ground (arith, u.finished, t);
  });
  asked = total_burst-modify k work d (λ p. ground arith) ∙ v.asked;
  pace = omega (arith, total-modify_step k work d v.once (λ p. ground arith), v.pace);
}

pub later-IsPaced :
    (burst clock : ℕ) (d : Dict ℕ Pcb) → IsPaced burst clock d → IsPaced burst (clock + 1) d
later-IsPaced burst clock d v = record {
  once = v.once;
  worked = v.worked;
  asked = v.asked;
  pace = omega (arith, v.pace);
}

-- The block that a pid looks up.
pub get-IsWorked :
    (k : ℕ) (d : Dict ℕ Pcb) (p : Pcb) → All IsWorked d → Table.get k d ≡ some p → IsWorked (k, p)
unfolding Table.get
get-IsWorked k [] p all h = cc
get-IsWorked k ((j, q) ∷ d) p all h = elim (Bool-cases (j == k)) [
  | inl e ↦
      let same : j ≡ k = (==_iff j k).0 e in
      let here : q ≡ p = ground (arith, h, e) in
      subst (λ x. IsWorked (k, x)) here (subst (λ i. IsWorked (i, q)) same all.0)
  | inr e ↦ get-IsWorked k d p all.1 (ground (arith, h, e))
]
