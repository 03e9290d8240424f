-- ===== src/Simulation/Cpu/PageLoads.antt =====
-- mini_os_simulator/memory/memory_manager.py with the ports of
-- mini_os_simulator/os_core/simulation.py: the process that waits for a page.
use mathlib.Core.Option.{some-injective}
use smart_device_io_t_operat.Prelude.{
  nat_key, ℕ, ◌-◌, ◌≤◌, ◌<◌, ◌≡◌, ◌≢◌, refl, sym, ◌∙◌, ap, subst, inl, inr, Bool, true, false, ◌||◌,
  ◌&&◌, Option, none, some, List, [], ◌∷◌, ◌==◌, leb, mem, length, get_elem?, arith, Bool-cases,
}
use smart_device_io_t_operat.Process.Pcb.{blocked}
use smart_device_io_t_operat.Memory.{
  FrameEntry, FaultJob, MemoryManager, pick_frame_for_load, load_page, complete_fault_load,
  advance_jobs, advance_fault_timers,
}
use smart_device_io_t_operat.Memory.Frames.{IsFrames, complete_fault_load-IsFrames}
use smart_device_io_t_operat.Memory.Eviction.{evict_fifo-Evicts}
use smart_device_io_t_operat.Memory.Owner.{pick_keeps, complete_keeps, advance_jobs_keeps}
use smart_device_io_t_operat.Simulation.State.{Simulation}
use smart_device_io_t_operat.Simulation.Callbacks.{
  memory_ports, memory_install_mapping, memory_ready_after_fault,
}
use smart_device_io_t_operat.Simulation.Callbacks.Wakeups.{status_of, IsRunnable}
use smart_device_io_t_operat.Simulation.Cpu.{advance_memory}
use smart_device_io_t_operat.Simulation.Cpu.Awaits.{
  Awaits, Awaits-IsRunnable, Awaits-keep, IsRunnable-keep,
}

-- With frames in order there is always one for a load.
pick-found :
    (m : MemoryManager) (s : Simulation)
    → IsFrames m
    → 0 < m.total_frames
    → (f : ℕ) × ((pick_frame_for_load memory_ports m s).0 ≡ some f)
unfolding pick_frame_for_load
pick-found m s v some_frames = by_free m.free_frames refl
  where
    first :
        (slots : List (Option FrameEntry))
        → m.frame_table ≡ slots
        → 0 < length slots
        → m.free_frames ≡ []
        → ((i : ℕ) (e : FrameEntry) → get_elem? slots i ≢ some (some e))
        → ⊥
    first [] e l free h = absurd (omega arith)
    first (none ∷ rest) e l free h =
        let listed : mem 0 m.free_frames ≡ true = (v.empty_iff 0).1 (rw e refl) in
        cc (listed, ap (mem 0) free)
    first (some x ∷ rest) e l free h = h 0 x refl

    by_free :
        (free : List ℕ)
        → m.free_frames ≡ free
        → (f : ℕ) × ((pick_frame_for_load memory_ports m s).0 ≡ some f)
    by_free (f ∷ rest) e = (f, rw (e, pick_frame_for_load) refl)
    by_free [] e = elim (evict_fifo-Evicts memory_ports m s) [
      | inr (idx, w) ↦ (idx, rw (e, pick_frame_for_load) (rw w.result refl))
      | inl (same, empty) ↦
          absurd (first m.frame_table refl (omega (arith, v.size, some_frames)) e empty)
    ]

load_page-marks :
    (pid page f : ℕ) (r : Option ℕ × MemoryManager × Simulation)
    → r.0 ≡ some f
    → (load_page memory_ports pid page r).1
      ≡ memory_ready_after_fault pid (memory_install_mapping pid page f r.2)
unfolding load_page
load_page-marks pid page f (none, m, s) h = cc
load_page-marks pid page f (some g, m, s) h =
    ap (λ x. memory_ready_after_fault pid (memory_install_mapping pid page x s))
      (some-injective g f h)

total-load_page :
    (pid page : ℕ) (r : Option ℕ × MemoryManager × Simulation)
    → (load_page memory_ports pid page r).0.total_frames ≡ r.1.total_frames
unfolding load_page
total-load_page pid page (none, m, s) = refl
total-load_page pid page (some f, m, s) = refl

total-pick :
    (m : MemoryManager) (s : Simulation)
    → (pick_frame_for_load memory_ports m s).1.total_frames ≡ m.total_frames
unfolding pick_frame_for_load
total-pick m s = by_free m.free_frames refl
  where
    by_free :
        (free : List ℕ)
        → m.free_frames ≡ free
        → (pick_frame_for_load memory_ports m s).1.total_frames ≡ m.total_frames
    by_free (f ∷ rest) e = rw (e, pick_frame_for_load) refl
    by_free [] e = elim (evict_fifo-Evicts memory_ports m s) [
      | inr (idx, w) ↦ rw (e, pick_frame_for_load) (rw w.result refl)
      | inl (same, empty) ↦ rw (e, pick_frame_for_load) (rw same refl)
    ]

total_complete :
    (pid page : ℕ) (m : MemoryManager) (s : Simulation)
    → (complete_fault_load memory_ports pid page m s).0.total_frames ≡ m.total_frames
unfolding complete_fault_load
total_complete pid page m s = elim (Bool-cases (m.total_frames == 0)) [
  | inl e ↦ rw e refl
  | inr e ↦ rw e (total-load_page pid page (pick_frame_for_load memory_ports m s) ∙ total-pick m s)
]

complete-IsRunnable :
    (pid page : ℕ) (m : MemoryManager) (s : Simulation)
    → IsFrames m
    → 0 < m.total_frames
    → Awaits pid s
    → IsRunnable pid (complete_fault_load memory_ports pid page m s).1
unfolding complete_fault_load
complete-IsRunnable pid page m s v some_frames a =
    let there : (m.total_frames == 0) ≡ false = ground (arith, some_frames) in
    let (f, e) = pick-found m s v some_frames in
    let r = pick_frame_for_load memory_ports m s in
    let b = pick_keeps memory_ports (Awaits pid) (Awaits-keep pid) m s m.free_frames refl a in
    rw there (
      rw (load_page-marks pid page f r e) (
        Awaits-IsRunnable pid (memory_install_mapping pid page f r.2)
          ((Awaits-keep pid).installs pid page f r.2 b)))

-- Whether there is a job for a page of a process with so many ticks left.
abbrev pub has_job : ℕ → ℕ → ℕ → List FaultJob → Bool
has_job pid page n [] = false
has_job pid page n (j ∷ jobs) =
    (j.pid == pid && j.logical_page == page && j.ticks_remaining == n) || has_job pid page n jobs

-- A job that is over makes its process ready.
advance_jobs-IsRunnable :
    (pid page n : ℕ) (jobs : List FaultJob) (m : MemoryManager) (s : Simulation)
    → IsFrames m
    → 0 < m.total_frames
    → n ≤ 1
    → has_job pid page n jobs ≡ true
    → Awaits pid s
    → IsRunnable pid (advance_jobs memory_ports jobs m s).2
unfolding advance_jobs
advance_jobs-IsRunnable pid page n [] m s v t few has a = cc
advance_jobs-IsRunnable pid page n (j ∷ jobs) m s v t few has a =
    let (m₁, s₁) = complete_fault_load memory_ports j.pid j.logical_page m s in
    let v₁ = complete_fault_load-IsFrames memory_ports j.pid j.logical_page m s v in
    let t₁ : 0 < m₁.total_frames = omega (arith, total_complete j.pid j.logical_page m s, t) in
    let a₁ =
      complete_keeps memory_ports (Awaits pid) (Awaits-keep pid) j.pid j.logical_page m s a in
    elim (Bool-cases (j.pid == pid && j.logical_page == page && j.ticks_remaining == n)) [
      | inl mine ↦
          let over : leb j.ticks_remaining 1 ≡ true = ground (arith, mine, few) in
          let same : j.pid ≡ pid = ground (arith, mine) in
          let w =
            complete-IsRunnable j.pid j.logical_page m s v t
              (subst (λ k. Awaits k s) (sym same) a) in
          rw (over, advance_jobs)
            (advance_jobs_keeps memory_ports (IsRunnable pid) (IsRunnable-keep pid) jobs m₁ s₁
              (subst (λ k. IsRunnable k s₁) same w))
      | inr other ↦
          let has' : has_job pid page n jobs ≡ true = ground (arith, other, has) in
          elim (Bool-cases (leb j.ticks_remaining 1)) [
            | inl e ↦
                rw (e, advance_jobs)
                  (advance_jobs-IsRunnable pid page n jobs m₁ s₁ v₁ t₁ few has' a₁)
            | inr e ↦
                rw (e, advance_jobs) (advance_jobs-IsRunnable pid page n jobs m s v t few has' a)
          ]
    ]

-- A job that is not over counts down.
advance_jobs-has_job :
    (pid page n : ℕ) (jobs : List FaultJob) (m : MemoryManager) (s : Simulation)
    → 1 < n
    → has_job pid page n jobs ≡ true
    → has_job pid page (n - 1) (advance_jobs memory_ports jobs m s).1 ≡ true
unfolding advance_jobs
advance_jobs-has_job pid page n [] m s many has = cc
advance_jobs-has_job pid page n (j ∷ jobs) m s many has =
    let (m₁, s₁) = complete_fault_load memory_ports j.pid j.logical_page m s in
    elim (Bool-cases (leb j.ticks_remaining 1)) [
      | inl e ↦
          rw (e, advance_jobs)
            (advance_jobs-has_job pid page n jobs m₁ s₁ many (ground (arith, e, has, many)))
      | inr e ↦
          rw (e, advance_jobs)
            (ground (arith, e, has, many, advance_jobs-has_job pid page n jobs m s many))
    ]

-- With frames in order and at least one frame, when a page-fault job of a process that is
-- BLOCKED under its own pid has `n` ticks left, a tick of the memory makes the process READY and
-- queues it if `n` is at most 1, and else leaves the job with one tick less.
pub advance_memory-IsRunnable :
    (pid page n : ℕ) (s : Simulation)
    → IsFrames s.memory
    → 0 < s.memory.total_frames
    → has_job pid page n s.memory.fault_jobs ≡ true
    → status_of pid s ≡ some (pid, blocked)
    → (n ≤ 1 → IsRunnable pid (advance_memory s))
      × (1 < n → has_job pid page (n - 1) (advance_memory s).memory.fault_jobs ≡ true)
unfolding advance_memory advance_fault_timers
advance_memory-IsRunnable pid page n s v t has w = (
  λ few.
      let r =
        advance_jobs-IsRunnable pid page n s.memory.fault_jobs s.memory s v t few has (inl w) in
      record { is_ready = r.is_ready; queued = r.queued },
  λ many. advance_jobs-has_job pid page n s.memory.fault_jobs s.memory s many has,
)
