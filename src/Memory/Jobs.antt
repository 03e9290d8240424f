-- ===== src/Memory/Jobs.antt =====
-- mini_os_simulator/memory/memory_manager.py: the page-fault jobs, of which no page has two.
use smart_device_io_t_operat.Prelude.{
  ℕ, ◌+◌, ℤ, pos, negsuc, ◌≡◌, ltb, refl, inl, inr, Bool, false, ◌&&◌, ◌||◌, List, [], ◌∷◌, ◌++◌,
  keep, ◌==◌, arith, Bool-cases,
}
use smart_device_io_t_operat.Memory.{
  MemoryManager, FaultJob, reserved, allocate, begin_fault_resolution, is_pending,
}
use smart_device_io_t_operat.Memory.Frames.{IsFrames}

-- No page of a process has two jobs.
abbrev pub OnceEach : List FaultJob → Type 0
OnceEach [] = Unit {0}
OnceEach (j ∷ jobs) = (is_pending j.pid j.logical_page jobs ≡ false) × OnceEach jobs

is_pending-snoc :
    (pid page : ℕ) (jobs : List FaultJob) (j : FaultJob)
    → is_pending pid page (jobs ++ j ∷ [])
      ≡ (is_pending pid page jobs || (j.pid == pid && j.logical_page == page))
unfolding is_pending
is_pending-snoc pid page [] j = ground arith
is_pending-snoc pid page (k ∷ jobs) j = ground (arith, is_pending-snoc pid page jobs j)

OnceEach-snoc :
    (jobs : List FaultJob) (j : FaultJob)
    → is_pending j.pid j.logical_page jobs ≡ false
    → OnceEach jobs
    → OnceEach (jobs ++ j ∷ [])
unfolding is_pending
OnceEach-snoc [] j fresh once = (refl, tt)
OnceEach-snoc (k ∷ jobs) j fresh once = (
  ground (arith, is_pending-snoc k.pid k.logical_page jobs j, fresh, once.0),
  OnceEach-snoc jobs j (ground (arith, fresh)) once.1,
)

is_pending-keep :
    (f : FaultJob → Bool) (pid page : ℕ) (jobs : List FaultJob)
    → is_pending pid page jobs ≡ false
    → is_pending pid page (keep f jobs) ≡ false
unfolding is_pending
is_pending-keep f pid page [] h = refl
is_pending-keep f pid page (j ∷ jobs) h =
    let rest = is_pending-keep f pid page jobs (ground (arith, h)) in
    elim (Bool-cases (f j)) [ inl e ↦ rw e (ground (arith, h, rest)) | inr e ↦ rw e rest ]

pub OnceEach-keep :
    (f : FaultJob → Bool) (jobs : List FaultJob) → OnceEach jobs → OnceEach (keep f jobs)
OnceEach-keep f [] once = tt
OnceEach-keep f (j ∷ jobs) once = elim (Bool-cases (f j)) [
  | inl e ↦ rw e (is_pending-keep f j.pid j.logical_page jobs once.0, OnceEach-keep f jobs once.1)
  | inr e ↦ rw e (OnceEach-keep f jobs once.1)
]

pub begin_fault-OnceEach :
    (pid page : ℕ) (m : MemoryManager)
    → OnceEach m.fault_jobs
    → OnceEach (begin_fault_resolution pid page m).fault_jobs
unfolding begin_fault_resolution
begin_fault-OnceEach pid page m once = elim (Bool-cases (is_pending pid page m.fault_jobs)) [
  | inl e ↦ rw e once
  | inr e ↦ rw e (OnceEach-snoc m.fault_jobs _ e once)
]

pub begin_fault-IsFrames :
    (pid page : ℕ) (m : MemoryManager) → IsFrames m → IsFrames (begin_fault_resolution pid page m)
unfolding begin_fault_resolution
begin_fault-IsFrames pid page m v = elim (Bool-cases (is_pending pid page m.fault_jobs)) [
  | inl e ↦ rw e v
  | inr e ↦
      rw e (record { size = v.size; once = v.once; empty_iff = v.empty_iff; loaded = v.loaded })
]

pub allocate-IsFrames :
    (pid : ℕ) (amount : ℤ) (m : MemoryManager) → IsFrames m → IsFrames (allocate pid amount m).1
unfolding allocate
allocate-IsFrames pid (negsuc n) m v = v
allocate-IsFrames pid (pos n) m v =
    elim (Bool-cases (ltb (m.total_physical_memory + reserved pid m) (m.used_memory + n))) [
      | inl e ↦ rw e v
      | inr e ↦
          rw e (record { size = v.size; once = v.once; empty_iff = v.empty_iff; loaded = v.loaded })
    ]

pub allocate-OnceEach :
    (pid : ℕ) (amount : ℤ) (m : MemoryManager)
    → OnceEach m.fault_jobs
    → OnceEach (allocate pid amount m).1.fault_jobs
unfolding allocate
allocate-OnceEach pid (negsuc n) m v = v
allocate-OnceEach pid (pos n) m v =
    elim (Bool-cases (ltb (m.total_physical_memory + reserved pid m) (m.used_memory + n))) [
      | inl e ↦ rw e v
      | inr e ↦ rw e v
    ]
