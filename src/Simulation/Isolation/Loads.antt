-- ===== src/Simulation/Isolation/Loads.antt =====
-- mini_os_simulator/memory/memory_manager.py on the simulation: page tables through evictions,
-- loads and `free`.
use smart_device_io_t_operat.Prelude.{
  nat_key, ℕ, zero, suc, ◌+◌, ◌≡◌, refl, sym, ◌∙◌, inl, inr, true, false, Option, none, some, List,
  [], ◌∷◌, ◌==◌, leb, get_elem?, arith, Option-cases, Bool-cases,
}
use smart_device_io_t_operat.Memory.{
  MemoryManager, FrameEntry, FaultJob, evict_fifo, pick_frame_for_load, load_page,
  complete_fault_load, advance_jobs, advance_fault_timers, release_frames, free,
}
use smart_device_io_t_operat.Memory.Eviction.{evict_fifo-Evicts}
use smart_device_io_t_operat.Memory.Frames.{
  IsFrames, PickOutcome, get_elem?-set, pick_frame_for_load-PickOutcome,
  complete_fault_load-IsFrames, release_frames-IsReleased,
}
use smart_device_io_t_operat.Simulation.State.{Simulation, pcb_of, enqueue_pid, change_state}
use smart_device_io_t_operat.Simulation.Callbacks.{
  memory_ports, memory_clear_mapping, memory_install_mapping, memory_ready_after_fault,
  memory_on_fifo_eviction,
}
use smart_device_io_t_operat.Process.Pcb.{ready, blocked, same_state}
use smart_device_io_t_operat.Simulation.Isolation.{
  IsMapped, frame_of, holds, frame_of-clear, frame_of-install, frame_of-change_state,
}

pub frame_of-enqueue_pid :
    (k pid page : ℕ) (s : Simulation) → frame_of pid page (enqueue_pid k s) ≡ frame_of pid page s
unfolding enqueue_pid
frame_of-enqueue_pid k pid page s = elim (Option-cases (pcb_of k s)) [
  | inl e ↦ rw (e, enqueue_pid) refl
  | inr (p, e) ↦ rw (e, enqueue_pid) refl
]

frame_of-ready_after_fault :
    (k pid page : ℕ) (s : Simulation)
    → frame_of pid page (memory_ready_after_fault k s) ≡ frame_of pid page s
unfolding memory_ready_after_fault
frame_of-ready_after_fault k pid page s = elim (Option-cases (pcb_of k s)) [
  | inl e ↦ rw (e, memory_ready_after_fault) refl
  | inr (p, e) ↦ elim (Bool-cases (same_state p.state blocked)) [
    | inl b ↦
        rw (e, memory_ready_after_fault)
          (rw b (
            frame_of-enqueue_pid k pid page (change_state k ready s)
            ∙ frame_of-change_state k pid page ready s))
    | inr b ↦ rw (e, memory_ready_after_fault) (rw b refl)
  ]
]

evict_fifo-IsMapped :
    (m : MemoryManager) (s : Simulation)
    → IsMapped m.frame_table s
    → IsMapped (evict_fifo memory_ports m s).1.frame_table (evict_fifo memory_ports m s).2
unfolding memory_on_fifo_eviction
evict_fifo-IsMapped m s v = elim (evict_fifo-Evicts memory_ports m s) [
  | inl (same, _) ↦ rw same v
  | inr (idx, ev) ↦ rw ev.result (λ pid page frame h.
      let s' = memory_on_fifo_eviction ev.victim.pid ev.victim.logical_page idx s in
      ground (
        arith,
        h,
        frame_of-clear ev.victim.pid ev.victim.logical_page pid page s',
        v pid page frame,
        ev.resident,
        get_elem?-set m.frame_table idx frame none (some ev.victim) ev.resident,
      ))
]

pick_frame_for_load-IsMapped :
    (m : MemoryManager) (s : Simulation) (free : List ℕ)
    → m.free_frames ≡ free
    → IsMapped m.frame_table s
    → IsMapped
        (pick_frame_for_load memory_ports m s).1.frame_table
        (pick_frame_for_load memory_ports m s).2
unfolding pick_frame_for_load
pick_frame_for_load-IsMapped m s [] e v = rw (e, pick_frame_for_load) (evict_fifo-IsMapped m s v)
pick_frame_for_load-IsMapped m s (f ∷ rest) e v = rw (e, pick_frame_for_load) v

load_page-IsMapped :
    (pid page : ℕ) (r : Option ℕ × MemoryManager × Simulation)
    → PickOutcome memory_ports r
    → IsMapped r.1.frame_table r.2
    → IsMapped
        (load_page memory_ports pid page r).0.frame_table
        (load_page memory_ports pid page r).1
unfolding load_page
load_page-IsMapped pid page (none, m, s) p v = v
load_page-IsMapped pid page (some f, m, s) p v = λ j q g h.
    let new_entry : FrameEntry = record {
      pid = pid;
      logical_page = page;
      load_seq = m.next_load_seq + 1;
    } in
    let s' = memory_install_mapping pid page f s in
    let before : frame_of j q s' ≡ some g = sym (frame_of-ready_after_fault pid j q s') ∙ h in
    ground (
      arith,
      frame_of-install pid page f j q g s before,
      v j q g,
      p.empty,
      get_elem?-set m.frame_table f g (some new_entry) none p.empty,
    )

complete_fault_load-IsMapped :
    (pid page : ℕ) (m : MemoryManager) (s : Simulation)
    → IsFrames m
    → IsMapped m.frame_table s
    → IsMapped
        (complete_fault_load memory_ports pid page m s).0.frame_table
        (complete_fault_load memory_ports pid page m s).1
unfolding complete_fault_load
complete_fault_load-IsMapped pid page m s w v = elim (Bool-cases (m.total_frames == 0)) [
  | inl e ↦ rw e v
  | inr e ↦ rw e (
      load_page-IsMapped pid page (pick_frame_for_load memory_ports m s)
        (pick_frame_for_load-PickOutcome memory_ports m s m.free_frames w refl)
        (pick_frame_for_load-IsMapped m s m.free_frames refl v))
]

advance_jobs-IsMapped :
    (jobs : List FaultJob) (m : MemoryManager) (s : Simulation)
    → IsFrames m
    → IsMapped m.frame_table s
    → IsMapped
        (advance_jobs memory_ports jobs m s).0.frame_table
        (advance_jobs memory_ports jobs m s).2
unfolding advance_jobs
advance_jobs-IsMapped [] m s w v = v
advance_jobs-IsMapped (job ∷ rest) m s w v = elim (Bool-cases (leb job.ticks_remaining 1)) [
  | inl e ↦
      rw (e, advance_jobs)
        (let (m₁, s₁) = complete_fault_load memory_ports job.pid job.logical_page m s in
          advance_jobs-IsMapped rest m₁ s₁
            (complete_fault_load-IsFrames memory_ports job.pid job.logical_page m s w)
            (complete_fault_load-IsMapped job.pid job.logical_page m s w v))
  | inr e ↦ rw (e, advance_jobs) (advance_jobs-IsMapped rest m s w v)
]

pub advance_fault_timers-IsMapped :
    (m : MemoryManager) (s : Simulation)
    → IsFrames m
    → IsMapped m.frame_table s
    → IsMapped
        (advance_fault_timers memory_ports m s).0.frame_table
        (advance_fault_timers memory_ports m s).1
unfolding advance_fault_timers
advance_fault_timers-IsMapped m s w v = advance_jobs-IsMapped m.fault_jobs m s w v

-- What the loop of `free` does to the page tables: nothing is added, and the pages in the frames
-- that it empties are gone.
record Unmaps (pid : ℕ) (table : List (Option FrameEntry)) (s s' : Simulation) : Type 0 where
  kept : (j q g : ℕ) → frame_of j q s' ≡ some g → frame_of j q s ≡ some g
  gone : (q i : ℕ) → holds pid q (get_elem? table i) ≡ true → frame_of pid q s' ≡ none

module _ (pid : ℕ) (rest : List (Option FrameEntry)) (s s' : Simulation) where
  skipped-Unmaps :
      (slot : Option FrameEntry)
      → ((q : ℕ) → holds pid q (some slot) ≡ false)
      → Unmaps pid rest s s'
      → Unmaps pid (slot ∷ rest) s s'
  skipped-Unmaps slot other v = record { kept = v.kept; gone = gone }
    where
      gone : (q i : ℕ) → holds pid q (get_elem? (slot ∷ rest) i) ≡ true → frame_of pid q s' ≡ none
      gone q zero h = cc (h, other q)
      gone q (suc i) h = v.gone q i h

  cleared-Unmaps :
      (e : FrameEntry)
      → Unmaps pid rest (memory_clear_mapping pid e.logical_page s) s'
      → Unmaps pid (some e ∷ rest) s s'
  cleared-Unmaps e v = record { kept = kept; gone = gone }
    where
      kept : (j q g : ℕ) → frame_of j q s' ≡ some g → frame_of j q s ≡ some g
      kept j q g h = ground (arith, v.kept j q g h, frame_of-clear pid e.logical_page j q s)

      gone : (q i : ℕ) → holds pid q (get_elem? (some e ∷ rest) i) ≡ true → frame_of pid q s' ≡ none
      gone q zero h = elim (Option-cases (frame_of pid q s')) [
        | inl n ↦ n
        | inr (g, f) ↦
            ground (arith, h, v.kept pid q g f, frame_of-clear pid e.logical_page pid q s)
      ]
      gone q (suc i) h = v.gone q i h

release_frames-Unmaps :
    (pid fi : ℕ) (table : List (Option FrameEntry)) (s : Simulation)
    → Unmaps pid table s (release_frames memory_ports pid fi table s).2
unfolding release_frames
release_frames-Unmaps pid fi [] s = record { kept = λ j q g h. h; gone = λ q i h. cc }
release_frames-Unmaps pid fi (none ∷ rest) s =
    skipped-Unmaps pid rest s _ none (λ q. refl) (release_frames-Unmaps pid (suc fi) rest s)
release_frames-Unmaps pid fi (some e ∷ rest) s = elim (Bool-cases (e.pid == pid)) [
  | inl h ↦
      rw (h, release_frames)
        (cleared-Unmaps pid rest s _ e
          (release_frames-Unmaps pid (suc fi) rest (memory_clear_mapping pid e.logical_page s)))
  | inr h ↦
      rw (h, release_frames)
        (skipped-Unmaps pid rest s _ (some e) (λ q. ground (arith, h))
          (release_frames-Unmaps pid (suc fi) rest s))
]

pub free-IsMapped :
    (pid : ℕ) (m : MemoryManager) (s : Simulation)
    → IsMapped m.frame_table s
    → IsMapped (free memory_ports pid m s).1.frame_table (free memory_ports pid m s).2
unfolding free
free-IsMapped pid m s v = λ j q g h.
    let u = release_frames-Unmaps pid 0 m.frame_table s in
    let r = release_frames-IsReleased memory_ports pid 0 m.frame_table s in
    ground (arith, h, u.kept j q g h, v j q g, u.gone q g, r.slot g)
