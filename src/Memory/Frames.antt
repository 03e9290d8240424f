-- ===== src/Memory/Frames.antt =====
-- mini_os_simulator/memory/memory_manager.py: the free list and the frame table.
use native.Mathlib.Nat.{add-zero, add-suc, suc-add}
use smart_device_io_t_operat.Prelude.{
  Distinct-append, nat_key, ℕ, zero, suc, ◌+◌, ◌≤◌, ◌<◌, ◌≡◌, ◌≢◌, ◌↔◌, ◌∙◌, sym, ap, refl, Bool,
  true, false, none, some, Option, List, [], ◌∷◌, get_elem?, set, mem, mem-append, Distinct, leb,
  ◌==◌, if◌then◌else◌, arith, Bool-cases, inl, inr, length, length-set,
}
use smart_device_io_t_operat.Memory.{
  FrameEntry, FaultJob, MemoryManager, MemoryPorts, evict_fifo, pick_frame_for_load, load_page,
  complete_fault_load, advance_jobs, advance_fault_timers, release_frames, free, clear_mapping,
}
use smart_device_io_t_operat.Memory.Eviction.{evict_fifo-Evicts}

module _ {ℓ} {A : Type ℓ} where
  pub get_elem?-set :
      (xs : List A) (i j : ℕ) (v w : A)
      → get_elem? xs i ≡ some w
      → get_elem? (set xs i v) j ≡ (if i == j then some v else get_elem? xs j)
  get_elem?-set [] i j v w h = cc
  get_elem?-set (x ∷ xs) zero zero v w h = refl
  get_elem?-set (x ∷ xs) zero (suc j) v w h = ground arith
  get_elem?-set (x ∷ xs) (suc i) zero v w h = ground arith
  get_elem?-set (x ∷ xs) (suc i) (suc j) v w h = ground (arith, get_elem?-set xs i j v w h)

-- The free list holds exactly the empty frames, each once, and no load number is ahead of the
-- counter.
pub record IsFrames (m : MemoryManager) : Type 0 where
  pub size : length m.frame_table ≡ m.total_frames
  pub once : Distinct m.free_frames
  pub empty_iff : (i : ℕ) → (mem i m.free_frames ≡ true) ↔ (get_elem? m.frame_table i ≡ some none)
  pub loaded :
      (i : ℕ) (e : FrameEntry)
      → get_elem? m.frame_table i ≡ some (some e)
      → e.load_seq ≤ m.next_load_seq

-- After a pick: the frame is empty and off the free list, which holds all the other empty frames.
pub record IsPicked (m : MemoryManager) (frame : ℕ) : Type 0 where
  pub size : length m.frame_table ≡ m.total_frames
  pub once : Distinct m.free_frames
  pub off_list : mem frame m.free_frames ≡ false
  pub empty : get_elem? m.frame_table frame ≡ some none
  pub others :
      (i : ℕ) → i ≢ frame → (mem i m.free_frames ≡ true) ↔ (get_elem? m.frame_table i ≡ some none)
  pub loaded :
      (i : ℕ) (e : FrameEntry)
      → get_elem? m.frame_table i ≡ some (some e)
      → e.load_seq ≤ m.next_load_seq

module _ {S : Type 0} (ports : MemoryPorts S) where
  abbrev pub PickOutcome : Option ℕ × MemoryManager × S → Type 0
  PickOutcome (none, m, s) = IsFrames m
  PickOutcome (some frame, m, s) = IsPicked m frame

  evict_fifo-PickOutcome :
      (m : MemoryManager) (s : S)
      → IsFrames m
      → m.free_frames ≡ []
      → PickOutcome (evict_fifo ports m s)
  evict_fifo-PickOutcome m s v e = elim (evict_fifo-Evicts ports m s) [
    | inl (same, _) ↦ rw same v
    | inr (idx, ev) ↦
        let entry =
          λ (j : ℕ). get_elem?-set m.frame_table idx j none (some ev.victim) ev.resident in
        rw ev.result (record {
          size = length-set m.frame_table idx none ∙ v.size;
          once = v.once;
          off_list = rw e refl;
          empty = ground (arith, entry idx);
          others = λ i n. ground (arith, entry i, v.empty_iff i);
          loaded = λ i x h. ground (arith, entry i, v.loaded i x);
        })
  ]

  pub pick_frame_for_load-PickOutcome :
      (m : MemoryManager) (s : S) (free : List ℕ)
      → IsFrames m
      → m.free_frames ≡ free
      → PickOutcome (pick_frame_for_load ports m s)
  unfolding pick_frame_for_load
  pick_frame_for_load-PickOutcome m s [] v e =
      rw (e, pick_frame_for_load) (evict_fifo-PickOutcome m s v e)
  pick_frame_for_load-PickOutcome m s (f ∷ rest) v e =
      rw (e, pick_frame_for_load)
        (let once : Distinct (f ∷ rest) = rw e at v.once in
          record {
            size = v.size;
            once = once.1;
            off_list = once.0;
            empty = (v.empty_iff f).0 (rw e (ground arith));
            others = λ i n. ground (arith, v.empty_iff i, e);
            loaded = v.loaded;
          })

  pub load_page-IsFrames :
      (pid page : ℕ) (r : Option ℕ × MemoryManager × S)
      → PickOutcome r
      → IsFrames (load_page ports pid page r).0
  unfolding load_page
  load_page-IsFrames pid page (none, m, s) v = v
  load_page-IsFrames pid page (some frame, m, s) v =
      let new_entry : FrameEntry = record {
        pid = pid;
        logical_page = page;
        load_seq = m.next_load_seq + 1;
      } in
      let entry = λ (j : ℕ). get_elem?-set m.frame_table frame j (some new_entry) none v.empty in
      record {
        size = length-set m.frame_table frame (some new_entry) ∙ v.size;
        once = v.once;
        empty_iff = λ i. ground (arith, entry i, v.others i, v.off_list);
        loaded = λ i x h. ground (arith, entry i, v.loaded i x);
      }

  pub complete_fault_load-IsFrames :
      (pid page : ℕ) (m : MemoryManager) (s : S)
      → IsFrames m
      → IsFrames (complete_fault_load ports pid page m s).0
  unfolding complete_fault_load
  complete_fault_load-IsFrames pid page m s v = elim (Bool-cases (m.total_frames == 0)) [
    | inl e ↦ rw e v
    | inr e ↦ rw e (
        load_page-IsFrames pid page (pick_frame_for_load ports m s)
          (pick_frame_for_load-PickOutcome m s m.free_frames v refl))
  ]

  advance_jobs-IsFrames :
      (jobs : List FaultJob) (m : MemoryManager) (s : S)
      → IsFrames m
      → IsFrames (advance_jobs ports jobs m s).0
  unfolding advance_jobs
  advance_jobs-IsFrames [] m s v = v
  advance_jobs-IsFrames (job ∷ rest) m s v = elim (Bool-cases (leb job.ticks_remaining 1)) [
    | inl e ↦
        rw (e, advance_jobs)
          (let (m₁, s₁) = complete_fault_load ports job.pid job.logical_page m s in
            advance_jobs-IsFrames rest m₁ s₁
              (complete_fault_load-IsFrames job.pid job.logical_page m s v))
    | inr e ↦ rw (e, advance_jobs) (advance_jobs-IsFrames rest m s v)
  ]

  -- Advancing the fault timers, with the loads and evictions that it completes, keeps the free
  -- list equal to the set of empty frames, without duplicates, the table at its size and the
  -- load numbers at most the counter, whatever the ports.
  pub advance_fault_timers-IsFrames :
      (m : MemoryManager) (s : S) → IsFrames m → IsFrames (advance_fault_timers ports m s).0
  unfolding advance_fault_timers
  advance_fault_timers-IsFrames m s v =
      let w = advance_jobs-IsFrames m.fault_jobs m s v in
      record { size = w.size; once = w.once; empty_iff = w.empty_iff; loaded = w.loaded }

abbrev is_owned : ℕ → Option (Option FrameEntry) → Bool
is_owned pid none = false
is_owned pid (some none) = false
is_owned pid (some (some e)) = e.pid == pid

-- A slot after the frames of `pid` are released.
abbrev pub released : ℕ → Option (Option FrameEntry) → Option (Option FrameEntry)
released pid none = none
released pid (some none) = some none
released pid (some (some e)) = if e.pid == pid then some none else some (some e)

-- What the loop of `free` leaves, from frame `fi`.
pub record IsReleased (pid fi : ℕ) (table : List (Option FrameEntry))
    (table' : List (Option FrameEntry)) (freed : List ℕ) : Type 0 where
  size : length table' ≡ length table
  pub slot : (i : ℕ) → get_elem? table' i ≡ released pid (get_elem? table i)
  freed_iff : (i : ℕ) → mem (fi + i) freed ≡ is_owned pid (get_elem? table i)
  above : (i : ℕ) → i < fi → mem i freed ≡ false
  once : Distinct freed

module _ (pid fi : ℕ) (slot₀ slot₁ : Option FrameEntry) (rest table' : List (Option FrameEntry))
    (freed : List ℕ) (v : IsReleased pid (suc fi) rest table' freed) where
  kept-IsReleased :
      is_owned pid (some slot₀) ≡ false
      → slot₁ ≡ slot₀
      → IsReleased pid fi (slot₀ ∷ rest) (slot₁ ∷ table') freed
  kept-IsReleased other same = record {
    size = ap suc v.size;
    slot = slot;
    freed_iff = freed_iff;
    above = λ i h. v.above i (omega arith);
    once = v.once;
  }
    where
      slot : (i : ℕ) → get_elem? (slot₁ ∷ table') i ≡ released pid (get_elem? (slot₀ ∷ rest) i)
      slot zero = ground arith
      slot (suc i) = v.slot i

      freed_iff : (i : ℕ) → mem (fi + i) freed ≡ is_owned pid (get_elem? (slot₀ ∷ rest) i)
      freed_iff zero = rw add-zero (v.above fi (omega arith) ∙ sym other)
      freed_iff (suc i) = rw (add-suc, ← suc-add) (v.freed_iff i)

  owned-IsReleased :
      is_owned pid (some slot₀) ≡ true
      → slot₁ ≡ none
      → IsReleased pid fi (slot₀ ∷ rest) (slot₁ ∷ table') (fi ∷ freed)
  owned-IsReleased mine gone = record {
    size = ap suc v.size;
    slot = slot;
    freed_iff = freed_iff;
    above = λ i h. ground (arith, v.above i);
    once = (v.above fi (omega arith), v.once);
  }
    where
      slot : (i : ℕ) → get_elem? (slot₁ ∷ table') i ≡ released pid (get_elem? (slot₀ ∷ rest) i)
      slot zero = ground arith
      slot (suc i) = v.slot i

      freed_iff : (i : ℕ) → mem (fi + i) (fi ∷ freed) ≡ is_owned pid (get_elem? (slot₀ ∷ rest) i)
      freed_iff zero = ground arith
      freed_iff (suc i) = ground (arith, v.freed_iff i, add-suc fi i, suc-add fi i)

module _ {S : Type 0} (ports : MemoryPorts S) where
  pub release_frames-IsReleased :
      (pid fi : ℕ) (table : List (Option FrameEntry)) (s : S)
      → IsReleased pid fi table
          (release_frames ports pid fi table s).0
          (release_frames ports pid fi table s).1
  unfolding release_frames
  release_frames-IsReleased pid fi [] s = record {
    size = refl;
    slot = λ i. refl;
    freed_iff = λ i. refl;
    above = λ i h. refl;
    once = tt;
  }
  release_frames-IsReleased pid fi (none ∷ rest) s =
      kept-IsReleased pid fi none none rest _ _ (release_frames-IsReleased pid (suc fi) rest s) refl
        refl
  release_frames-IsReleased pid fi (some e ∷ rest) s = elim (Bool-cases (e.pid == pid)) [
    | inl h ↦
        rw (h, release_frames)
          (owned-IsReleased pid fi (some e) none rest _ _
            (release_frames-IsReleased pid (suc fi) rest (clear_mapping ports pid e.logical_page s))
            h refl)
    | inr h ↦
        rw (h, release_frames)
          (kept-IsReleased pid fi (some e) (some e) rest _ _
            (release_frames-IsReleased pid (suc fi) rest s) h refl)
  ]

  -- `free` keeps the free list equal to the set of empty frames, without duplicates, the table
  -- at its size and the load numbers at most the counter, whatever the ports.
  pub free-IsFrames :
      (pid : ℕ) (m : MemoryManager) (s : S) → IsFrames m → IsFrames (free ports pid m s).1
  unfolding free
  free-IsFrames pid m s v =
      let r = release_frames-IsReleased pid 0 m.frame_table s in
      let freed = (release_frames ports pid 0 m.frame_table s).1 in
      record {
        size = r.size ∙ v.size;
        once =
            Distinct-append m.free_frames freed v.once r.once
              (λ i h. ground (arith, r.freed_iff i, v.empty_iff i));
        empty_iff = λ i.
            ground
              (arith, r.slot i, r.freed_iff i, v.empty_iff i, mem-append i m.free_frames freed);
        loaded = λ i x h. ground (arith, r.slot i, v.loaded i x);
      }
