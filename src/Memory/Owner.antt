-- ===== src/Memory/Owner.antt =====
-- mini_os_simulator/memory/memory_manager.py: the owner's state under `free` and the fault
-- timers.
use smart_device_io_t_operat.Prelude.{
  ℕ, suc, ◌≡◌, inl, inr, refl, Option, none, some, List, [], ◌∷◌, ◌==◌, leb, Option-cases,
  Bool-cases,
}
use smart_device_io_t_operat.Memory.{
  MemoryManager, MemoryPorts, FrameEntry, FaultJob, clear_mapping, install_mapping, mark_ready,
  note_eviction, release_frames, free, oldest_from, evict_fifo, pick_frame_for_load, load_page,
  complete_fault_load, advance_jobs, advance_fault_timers,
}

-- Each callback keeps the property.
pub record CallbacksKeep {S : Type 0} (ports : MemoryPorts S) (P : S → Type 0) : Type 0 where
  pub clears : (pid page : ℕ) (s : S) → P s → P (clear_mapping ports pid page s)
  pub installs : (pid page frame : ℕ) (s : S) → P s → P (install_mapping ports pid page frame s)
  pub readies : (pid : ℕ) (s : S) → P s → P (mark_ready ports pid s)
  pub evicts : (pid page frame : ℕ) (s : S) → P s → P (note_eviction ports pid page frame s)

module _ {S : Type 0} (ports : MemoryPorts S) (P : S → Type 0) (k : CallbacksKeep ports P) where
  release_frames_keeps :
      (pid fi : ℕ) (table : List (Option FrameEntry)) (s : S)
      → P s
      → P (release_frames ports pid fi table s).2
  unfolding release_frames
  release_frames_keeps pid fi [] s v = v
  release_frames_keeps pid fi (none ∷ rest) s v = release_frames_keeps pid (suc fi) rest s v
  release_frames_keeps pid fi (some e ∷ rest) s v = elim (Bool-cases (e.pid == pid)) [
    | inl h ↦
        rw (h, release_frames)
          (release_frames_keeps pid (suc fi) rest (clear_mapping ports pid e.logical_page s)
            (k.clears pid e.logical_page s v))
    | inr h ↦ rw (h, release_frames) (release_frames_keeps pid (suc fi) rest s v)
  ]

  pub free_keeps : (pid : ℕ) (m : MemoryManager) (s : S) → P s → P (free ports pid m s).2
  unfolding free
  free_keeps pid m s v = release_frames_keeps pid 0 m.frame_table s v

  evict_fifo_keeps : (m : MemoryManager) (s : S) → P s → P (evict_fifo ports m s).2
  unfolding evict_fifo
  evict_fifo_keeps m s v = elim (Option-cases (oldest_from 0 none m.frame_table)) [
    | inl e ↦ rw (e, evict_fifo) v
    | inr ((idx, x), e) ↦
        rw (e, evict_fifo) (k.clears x.pid x.logical_page _ (k.evicts x.pid x.logical_page idx s v))
  ]

  pub pick_keeps :
      (m : MemoryManager) (s : S) (frames : List ℕ)
      → m.free_frames ≡ frames
      → P s
      → P (pick_frame_for_load ports m s).2
  unfolding pick_frame_for_load
  pick_keeps m s [] e v = rw (e, pick_frame_for_load) (evict_fifo_keeps m s v)
  pick_keeps m s (f ∷ rest) e v = rw (e, pick_frame_for_load) v

  load_page_keeps :
      (pid page : ℕ) (r : Option ℕ × MemoryManager × S) → P r.2 → P (load_page ports pid page r).1
  unfolding load_page
  load_page_keeps pid page (none, m, s) v = v
  load_page_keeps pid page (some f, m, s) v = k.readies pid _ (k.installs pid page f s v)

  pub complete_keeps :
      (pid page : ℕ) (m : MemoryManager) (s : S)
      → P s
      → P (complete_fault_load ports pid page m s).1
  unfolding complete_fault_load
  complete_keeps pid page m s v = elim (Bool-cases (m.total_frames == 0)) [
    | inl e ↦ rw e v
    | inr e ↦ rw e (
        load_page_keeps pid page (pick_frame_for_load ports m s)
          (pick_keeps m s m.free_frames refl v))
  ]

  pub advance_jobs_keeps :
      (jobs : List FaultJob) (m : MemoryManager) (s : S) → P s → P (advance_jobs ports jobs m s).2
  unfolding advance_jobs
  advance_jobs_keeps [] m s v = v
  advance_jobs_keeps (job ∷ rest) m s v = elim (Bool-cases (leb job.ticks_remaining 1)) [
    | inl e ↦
        rw (e, advance_jobs)
          (let (m₁, s₁) = complete_fault_load ports job.pid job.logical_page m s in
            advance_jobs_keeps rest m₁ s₁ (complete_keeps job.pid job.logical_page m s v))
    | inr e ↦ rw (e, advance_jobs) (advance_jobs_keeps rest m s v)
  ]

  pub advance_fault_timers_keeps :
      (m : MemoryManager) (s : S) → P s → P (advance_fault_timers ports m s).1
  unfolding advance_fault_timers
  advance_fault_timers_keeps m s v = advance_jobs_keeps m.fault_jobs m s v
