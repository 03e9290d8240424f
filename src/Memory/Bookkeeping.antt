-- ===== src/Memory/Bookkeeping.antt =====
-- mini_os_simulator/memory/memory_manager.py: the byte reservations under loads and evictions.
use smart_device_io_t_operat.Prelude.{
  ℕ, ◌≡◌, refl, ◌∙◌, inl, inr, Option, none, some, List, [], ◌∷◌, ◌==◌, leb, Option-cases,
  Bool-cases,
}
use smart_device_io_t_operat.Memory.{
  MemoryManager, MemoryPorts, FaultJob, oldest_from, evict_fifo, pick_frame_for_load, load_page,
  complete_fault_load, advance_jobs, advance_fault_timers, begin_fault_resolution, is_pending,
}
use smart_device_io_t_operat.Memory.Accounting.{IsAccounted}

-- The same reservations, used memory and total.
pub record SameBooks (m m' : MemoryManager) : Type 0 where
  pub reservations : m'.reservation_bytes ≡ m.reservation_bytes
  pub used : m'.used_memory ≡ m.used_memory
  pub total : m'.total_physical_memory ≡ m.total_physical_memory

pub SameBooks-IsAccounted : (m m' : MemoryManager) → SameBooks m m' → IsAccounted m → IsAccounted m'
SameBooks-IsAccounted m m' b v = record {
  one_each = rw b.reservations v.one_each;
  sum = rw (b.reservations, b.used) v.sum;
  fits = rw (b.used, b.total) v.fits;
}

SameBooks-refl : (m : MemoryManager) → SameBooks m m
SameBooks-refl m = record { reservations = refl; used = refl; total = refl }

SameBooks-trans : (a b c : MemoryManager) → SameBooks a b → SameBooks b c → SameBooks a c
SameBooks-trans a b c h k = record {
  reservations = k.reservations ∙ h.reservations;
  used = k.used ∙ h.used;
  total = k.total ∙ h.total;
}

pub begin_fault-SameBooks :
    (pid page : ℕ) (m : MemoryManager) → SameBooks m (begin_fault_resolution pid page m)
unfolding begin_fault_resolution
begin_fault-SameBooks pid page m = elim (Bool-cases (is_pending pid page m.fault_jobs)) [
  | inl e ↦ rw e (SameBooks-refl m)
  | inr e ↦ rw e (record { reservations = refl; used = refl; total = refl })
]

module _ {S : Type 0} (ports : MemoryPorts S) where
  pick-SameBooks :
      (m : MemoryManager) (s : S) (frames : List ℕ)
      → m.free_frames ≡ frames
      → SameBooks m (pick_frame_for_load ports m s).1
  unfolding pick_frame_for_load evict_fifo
  pick-SameBooks m s [] e = elim (Option-cases (oldest_from 0 none m.frame_table)) [
    | inl f ↦
        rw (e, pick_frame_for_load)
          (rw (f, evict_fifo) (record { reservations = refl; used = refl; total = refl }))
    | inr (x, f) ↦
        rw (e, pick_frame_for_load)
          (rw (f, evict_fifo) (record { reservations = refl; used = refl; total = refl }))
  ]
  pick-SameBooks m s (f ∷ rest) e =
      rw (e, pick_frame_for_load) (record { reservations = refl; used = refl; total = refl })

  load_page-SameBooks :
      (pid page : ℕ) (r : Option ℕ × MemoryManager × S)
      → SameBooks r.1 (load_page ports pid page r).0
  unfolding load_page
  load_page-SameBooks pid page (none, m, s) = SameBooks-refl m
  load_page-SameBooks pid page (some f, m, s) = record {
    reservations = refl;
    used = refl;
    total = refl;
  }

  complete-SameBooks :
      (pid page : ℕ) (m : MemoryManager) (s : S)
      → SameBooks m (complete_fault_load ports pid page m s).0
  unfolding complete_fault_load
  complete-SameBooks pid page m s = elim (Bool-cases (m.total_frames == 0)) [
    | inl e ↦ rw e (SameBooks-refl m)
    | inr e ↦
        let r = pick_frame_for_load ports m s in
        rw e (
          SameBooks-trans m r.1 (load_page ports pid page r).0
            (pick-SameBooks m s m.free_frames refl) (load_page-SameBooks pid page r))
  ]

  advance_jobs-SameBooks :
      (jobs : List FaultJob) (m : MemoryManager) (s : S)
      → SameBooks m (advance_jobs ports jobs m s).0
  unfolding advance_jobs
  advance_jobs-SameBooks [] m s = SameBooks-refl m
  advance_jobs-SameBooks (job ∷ rest) m s = elim (Bool-cases (leb job.ticks_remaining 1)) [
    | inl e ↦
        rw (e, advance_jobs)
          (let (m₁, s₁) = complete_fault_load ports job.pid job.logical_page m s in
            SameBooks-trans m m₁ (advance_jobs ports rest m₁ s₁).0
              (complete-SameBooks job.pid job.logical_page m s) (advance_jobs-SameBooks rest m₁ s₁))
    | inr e ↦ rw (e, advance_jobs) (advance_jobs-SameBooks rest m s)
  ]

  pub advance_fault_timers-SameBooks :
      (m : MemoryManager) (s : S) → SameBooks m (advance_fault_timers ports m s).0
  unfolding advance_fault_timers
  advance_fault_timers-SameBooks m s =
      let b = advance_jobs-SameBooks m.fault_jobs m s in
      record { reservations = b.reservations; used = b.used; total = b.total }
