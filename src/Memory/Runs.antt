-- ===== src/Memory/Runs.antt =====
-- mini_os_simulator/memory/memory_manager.py: any sequence of calls of a manager, from a new one.
use smart_device_io_t_operat.Prelude.{
  ℕ, ℤ, ◌≡◌, refl, inl, inr, false, not, Option, List, [], ◌∷◌, ◌==◌, leb, arith, Bool-cases,
}
use smart_device_io_t_operat.Memory.{
  MemoryManager, MemoryPorts, FaultJob, made, init, allocate, free, advance_jobs,
  advance_fault_timers, complete_fault_load, begin_fault_resolution, is_pending,
}
use smart_device_io_t_operat.Memory.Frames.{IsFrames, advance_fault_timers-IsFrames, free-IsFrames}
use smart_device_io_t_operat.Memory.Accounting.{IsAccounted, allocate-IsAccounted, free-IsAccounted}
use smart_device_io_t_operat.Memory.Bookkeeping.{
  SameBooks-IsAccounted, begin_fault-SameBooks, advance_fault_timers-SameBooks,
}
use smart_device_io_t_operat.Memory.Initial.{IsInitial, init-Answers}
use smart_device_io_t_operat.Memory.Jobs.{
  OnceEach, OnceEach-keep, begin_fault-OnceEach, begin_fault-IsFrames, allocate-IsFrames,
  allocate-OnceEach,
}

-- What `__init__` answers has everything in order.
made-IsInitial :
    (total : ℤ) (page_size : Option ℤ) (m : MemoryManager)
    → init total page_size ≡ made m
    → IsInitial m
made-IsInitial total page_size m e = (rw e at (init-Answers total page_size)).0

-- The frames in order, the reservations that add up, and no page on its way twice.
pub record IsSound (m : MemoryManager) : Type 0 where
  pub frames : IsFrames m
  pub accounted : IsAccounted m
  pub once_each : OnceEach m.fault_jobs

pub data Call : Type 0 where
  allocates : ℕ → ℤ → Call
  frees : ℕ → Call
  faults : ℕ → ℕ → Call
  ticks : Call

module _ {S : Type 0} (ports : MemoryPorts S) where
  pub step : Call → MemoryManager × S → MemoryManager × S
  step (allocates pid amount) (m, s) = ((allocate pid amount m).1, s)
  step (frees pid) (m, s) = let (had, m', s') = free ports pid m s in (m', s')
  step (faults pid page) (m, s) = (begin_fault_resolution pid page m, s)
  step ticks (m, s) = advance_fault_timers ports m s

  pub run : List Call → MemoryManager × S → MemoryManager × S
  run [] r = r
  run (c ∷ cs) r = run cs (step c r)

  is_pending-advance_jobs :
      (pid page : ℕ) (jobs : List FaultJob) (m : MemoryManager) (s : S)
      → is_pending pid page jobs ≡ false
      → is_pending pid page (advance_jobs ports jobs m s).1 ≡ false
  unfolding advance_jobs is_pending
  is_pending-advance_jobs pid page [] m s h = refl
  is_pending-advance_jobs pid page (j ∷ jobs) m s h =
      let (m₁, s₁) = complete_fault_load ports j.pid j.logical_page m s in
      elim (Bool-cases (leb j.ticks_remaining 1)) [
        | inl e ↦
            rw (e, advance_jobs) (is_pending-advance_jobs pid page jobs m₁ s₁ (ground (arith, h)))
        | inr e ↦
            let rest = is_pending-advance_jobs pid page jobs m s (ground (arith, h)) in
            rw (e, advance_jobs) (ground (arith, h, rest))
      ]

  advance_jobs-OnceEach :
      (jobs : List FaultJob) (m : MemoryManager) (s : S)
      → OnceEach jobs
      → OnceEach (advance_jobs ports jobs m s).1
  unfolding advance_jobs
  advance_jobs-OnceEach [] m s once = tt
  advance_jobs-OnceEach (j ∷ jobs) m s once =
      let (m₁, s₁) = complete_fault_load ports j.pid j.logical_page m s in
      elim (Bool-cases (leb j.ticks_remaining 1)) [
        | inl e ↦ rw (e, advance_jobs) (advance_jobs-OnceEach jobs m₁ s₁ once.1)
        | inr e ↦
            rw (e, advance_jobs)
              (
                is_pending-advance_jobs j.pid j.logical_page jobs m s once.0,
                advance_jobs-OnceEach jobs m s once.1,
              )
      ]

  step-IsSound : (c : Call) (m : MemoryManager) (s : S) → IsSound m → IsSound (step c (m, s)).0
  unfolding step free advance_fault_timers
  step-IsSound (allocates pid amount) m s v = record {
    frames = allocate-IsFrames pid amount m v.frames;
    accounted = allocate-IsAccounted pid amount m v.accounted;
    once_each = allocate-OnceEach pid amount m v.once_each;
  }
  step-IsSound (frees pid) m s v = record {
    frames = free-IsFrames ports pid m s v.frames;
    accounted = free-IsAccounted ports pid m s v.accounted;
    once_each = OnceEach-keep (λ j. not (j.pid == pid)) m.fault_jobs v.once_each;
  }
  step-IsSound (faults pid page) m s v = record {
    frames = begin_fault-IsFrames pid page m v.frames;
    accounted =
        SameBooks-IsAccounted m (begin_fault_resolution pid page m)
          (begin_fault-SameBooks pid page m) v.accounted;
    once_each = begin_fault-OnceEach pid page m v.once_each;
  }
  step-IsSound ticks m s v = record {
    frames = advance_fault_timers-IsFrames ports m s v.frames;
    accounted =
        SameBooks-IsAccounted m (advance_fault_timers ports m s).0
          (advance_fault_timers-SameBooks ports m s) v.accounted;
    once_each = advance_jobs-OnceEach m.fault_jobs m s v.once_each;
  }

  run_keeps-IsSound :
      (cs : List Call) (m : MemoryManager) (s : S) → IsSound m → IsSound (run cs (m, s)).0
  unfolding run
  run_keeps-IsSound [] m s v = v
  run_keeps-IsSound (c ∷ cs) m s v =
      let (m', s') = step c (m, s) in run_keeps-IsSound cs m' s' (step-IsSound c m s v)

  -- From a manager that `__init__` answers, with any ports, after any calls of `allocate`,
  -- `free`, `begin_fault_resolution` and `advance_fault_timers`: the free list is the set of
  -- empty frames, each once, no load number is ahead of the counter, the used memory is the sum
  -- of the reservations, one for each pid, and within the total, and no page of a process is on
  -- its way twice.
  pub run-IsSound :
      (cs : List Call) (total : ℤ) (page_size : Option ℤ) (m : MemoryManager) (s : S)
      → init total page_size ≡ made m
      → IsSound (run cs (m, s)).0
  run-IsSound cs total page_size m s e =
      let v = made-IsInitial total page_size m e in
      run_keeps-IsSound cs m s
        (record { frames = v.frames; accounted = v.accounted; once_each = rw v.idle tt })
