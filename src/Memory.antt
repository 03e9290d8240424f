-- ===== src/Memory.antt =====
-- mini_os_simulator/memory/memory_manager.py: byte reservations, paged frames, page faults and FIFO
-- replacement. A callback of `MemoryPorts` acts on the state `S` of its owner.
pub mod Accounting
pub mod Frames
pub mod Eviction
pub mod Translate
pub mod Address
pub mod Initial
pub mod Jobs
pub mod Runs
pub mod Owner
pub mod Bookkeeping
use smart_device_io_t_operat.Prelude.{
  nat_key, ℕ, zero, suc, ◌+◌, ◌-◌, ◌*◌, ◌/◌, ◌%◌, ◌^◌, max, ℤ, pos, negsuc, pos_part, neg_part,
  ltb_ℤ, Dict, Bool, true, false, ◌&&◌, ◌||◌, not, Option, none, some, List, [], ◌∷◌, ◌++◌, keep,
  length, replicate, set, get_elem?, ltb, leb, ◌==◌, if◌then◌else◌, is_some,
}
use smart_device_io_t_operat.Prelude.Table

pub record FrameEntry : Type 0 where
  pub pid : ℕ
  pub logical_page : ℕ
  pub load_seq : ℕ

pub record FaultJob : Type 0 where
  pub pid : ℕ
  pub logical_page : ℕ
  pub ticks_remaining : ℕ

pub data AccessKind : Type 0 where
  hit fault : AccessKind

pub record MemoryAccessResult : Type 0 where
  pub kind : AccessKind
  pub logical_address : ℤ
  pub logical_page : ℕ
  pub offset : ℕ
  pub physical_address : Option ℕ
  pub physical_frame : Option ℕ

pub record MemoryPorts (S : Type 0) : Type 0 where
  pub clear_page_mapping : Option (ℕ → ℕ → S → S)
  pub install_page_mapping : Option (ℕ → ℕ → ℕ → S → S)
  pub mark_ready_and_enqueue : Option (ℕ → S → S)
  pub on_fifo_eviction : Option (ℕ → ℕ → ℕ → S → S)

pub record MemoryManager : Type 0 where
  pub total_physical_memory : ℕ
  pub page_size : ℕ
  pub total_frames : ℕ
  pub frame_table : List (Option FrameEntry)
  pub free_frames : List ℕ
  pub reservation_bytes : Dict ℕ ℕ
  pub used_memory : ℕ
  pub logical_page_count : Dict ℕ ℕ
  pub fault_jobs : List FaultJob
  pub fault_handling_ticks : ℕ
  pub next_load_seq : ℕ

pub data MemoryResult : Type 0 where
  made : MemoryManager → MemoryResult
  negative_memory bad_page_size : MemoryResult

-- The page size when none is given.
unfoldable pub default_page_size : ℕ → ℕ
default_page_size total = if leb 256 total then 256 else max 1 (total / 4)

-- `range(n)` from `i`.
abbrev pub count_up : ℕ → ℕ → List ℕ
count_up zero i = []
count_up (suc n) i = i ∷ count_up n (suc i)

unfoldable pub with_page_size : ℕ → ℕ → MemoryManager
with_page_size total page_size = record {
  total_physical_memory = total;
  page_size = page_size;
  total_frames = total / page_size;
  frame_table = replicate (total / page_size) none;
  free_frames = count_up (total / page_size) 0;
  reservation_bytes = [];
  used_memory = 0;
  logical_page_count = [];
  fault_jobs = [];
  fault_handling_ticks = 3;
  next_load_seq = 0;
}

-- `MemoryManager.__init__`
unfoldable pub init : ℤ → Option ℤ → MemoryResult
unfolding with_page_size default_page_size
init total page_size = if ltb_ℤ total (pos 0) then negative_memory else elim page_size [
  | none ↦ made (with_page_size (pos_part total) (default_page_size (pos_part total)))
  | some ps ↦
      if ltb_ℤ ps (pos 1)
      then bad_page_size
      else made (with_page_size (pos_part total) (pos_part ps))
]

abbrev pub or_zero : Option ℕ → ℕ
or_zero none = 0
or_zero (some n) = n

abbrev pub logical_page_count_for : ℕ → MemoryManager → ℕ
logical_page_count_for pid m = or_zero (Table.get pid m.logical_page_count)

abbrev pub reserved : ℕ → MemoryManager → ℕ
reserved pid m = or_zero (Table.get pid m.reservation_bytes)

abbrev pub pending_fault_jobs : MemoryManager → ℕ
pending_fault_jobs m = length m.fault_jobs

abbrev pub free_frame_count : MemoryManager → ℕ
free_frame_count m = length m.free_frames

-- The pages for a reservation.
unfoldable pub pages_for : ℕ → ℕ → ℕ
pages_for amount page_size = if amount == 0 then 0 else max 1 ((amount + page_size - 1) / page_size)

-- `used + delta` is `used + amount - current`; the reservation of a pid is part of `used`.
unfoldable pub allocate : ℕ → ℤ → MemoryManager → Bool × MemoryManager
unfolding pages_for
allocate pid (negsuc n) m = (false, m)
allocate pid (pos amount) m =
    if ltb (m.total_physical_memory + reserved pid m) (m.used_memory + amount)
    then (false, m)
    else (
      true,
      record m {
        used_memory = m.used_memory + amount - reserved pid m;
        reservation_bytes = Table.put pid amount m.reservation_bytes;
        logical_page_count = Table.put pid (pages_for amount m.page_size) m.logical_page_count;
      },
    )

module _ {S : Type 0} (ports : MemoryPorts S) where
  abbrev pub clear_mapping : ℕ → ℕ → S → S
  clear_mapping pid page s = elim ports.clear_page_mapping [ none ↦ s | some f ↦ f pid page s ]

  abbrev pub install_mapping : ℕ → ℕ → ℕ → S → S
  install_mapping pid page frame s = elim ports.install_page_mapping [
    | none ↦ s
    | some f ↦ f pid page frame s
  ]

  abbrev pub mark_ready : ℕ → S → S
  mark_ready pid s = elim ports.mark_ready_and_enqueue [ none ↦ s | some f ↦ f pid s ]

  abbrev pub note_eviction : ℕ → ℕ → ℕ → S → S
  note_eviction pid page frame s = elim ports.on_fifo_eviction [
    | none ↦ s
    | some f ↦ f pid page frame s
  ]

  -- The `for` loop of `free` from frame `fi`: the table, the frames that it frees, and the owner.
  unfoldable pub release_frames :
      ℕ → ℕ → List (Option FrameEntry) → S → List (Option FrameEntry) × List ℕ × S
  release_frames pid fi [] s = ([], [], s)
  release_frames pid fi (none ∷ rest) s =
      let (table, freed, s') = release_frames pid (suc fi) rest s in (none ∷ table, freed, s')
  release_frames pid fi (some entry ∷ rest) s =
      let mine = entry.pid == pid in
      let (table, freed, s') =
        release_frames pid (suc fi) rest
          (if mine then clear_mapping pid entry.logical_page s else s) in
      if mine then (none ∷ table, fi ∷ freed, s') else (some entry ∷ table, freed, s')

  -- The result is the number of bytes released.
  unfoldable pub free : ℕ → MemoryManager → S → ℕ × MemoryManager × S
  free pid m s =
      let had = reserved pid m in
      let (table, freed, s') = release_frames pid 0 m.frame_table s in
      (
        had,
        record m {
          reservation_bytes = Table.remove pid m.reservation_bytes;
          used_memory = m.used_memory - had;
          logical_page_count = Table.remove pid m.logical_page_count;
          fault_jobs = keep (λ j. not (j.pid == pid)) m.fault_jobs;
          frame_table = table;
          free_frames = m.free_frames ++ freed;
        },
        s',
      )

-- The scan of `_evict_fifo` from frame `fi`, with the oldest entry so far and its frame.
unfoldable pub oldest_from :
    ℕ → Option (ℕ × FrameEntry) → List (Option FrameEntry) → Option (ℕ × FrameEntry)
oldest_from fi best [] = best
oldest_from fi best (none ∷ rest) = oldest_from (suc fi) best rest
oldest_from fi none (some entry ∷ rest) = oldest_from (suc fi) (some (fi, entry)) rest
oldest_from fi (some (bi, b)) (some entry ∷ rest) =
    oldest_from (suc fi) (if ltb entry.load_seq b.load_seq then some (fi, entry) else some (bi, b))
      rest

module _ {S : Type 0} (ports : MemoryPorts S) where
  unfoldable pub evict_fifo : MemoryManager → S → Option ℕ × MemoryManager × S
  evict_fifo m s = elim (oldest_from 0 none m.frame_table) [
    | none ↦ (none, m, s)
    | some (idx, victim) ↦ (
      some idx,
      record m { frame_table = set m.frame_table idx none },
      clear_mapping ports victim.pid victim.logical_page
          (note_eviction ports victim.pid victim.logical_page idx s),
    )
  ]

  unfoldable pub pick_frame_for_load : MemoryManager → S → Option ℕ × MemoryManager × S
  unfolding evict_fifo
  pick_frame_for_load m s = elim m.free_frames [
    | [] ↦ evict_fifo m s
    | f ∷ rest ↦ (some f, record m { free_frames = rest }, s)
  ]

  -- The rest of `_complete_fault_load`, with the frame that was picked.
  unfoldable pub load_page : ℕ → ℕ → Option ℕ × MemoryManager × S → MemoryManager × S
  load_page pid page (none, m, s) = (m, s)
  load_page pid page (some frame, m, s) =
      let entry : FrameEntry = record {
        pid = pid;
        logical_page = page;
        load_seq = m.next_load_seq + 1;
      } in
      (
        record m {
          next_load_seq = m.next_load_seq + 1;
          frame_table = set m.frame_table frame (some entry);
        },
        mark_ready ports pid (install_mapping ports pid page frame s),
      )

  unfoldable pub complete_fault_load : ℕ → ℕ → MemoryManager → S → MemoryManager × S
  unfolding load_page pick_frame_for_load
  complete_fault_load pid page m s =
      if m.total_frames == 0 then (m, s) else load_page pid page (pick_frame_for_load m s)

  -- The `for` loop of `advance_fault_timers`: the manager, the jobs still running, and the owner.
  unfoldable pub advance_jobs :
      List FaultJob → MemoryManager → S → MemoryManager × List FaultJob × S
  unfolding complete_fault_load
  advance_jobs [] m s = (m, [], s)
  advance_jobs (job ∷ rest) m s =
      let done = leb job.ticks_remaining 1 in
      let (m₁, s₁) = (if done then complete_fault_load job.pid job.logical_page m s else (m, s)) in
      let (m', still, s') = advance_jobs rest m₁ s₁ in
      if done
      then (m', still, s')
      else (m', record job { ticks_remaining = job.ticks_remaining - 1 } ∷ still, s')

  unfoldable pub advance_fault_timers : MemoryManager → S → MemoryManager × S
  unfolding advance_jobs
  advance_fault_timers m s =
      let (m', still, s') = advance_jobs m.fault_jobs m s in (record m' { fault_jobs = still }, s')

-- Whether a job for the page is on its way.
unfoldable pub is_pending : ℕ → ℕ → List FaultJob → Bool
is_pending pid page [] = false
is_pending pid page (j ∷ jobs) =
    (j.pid == pid && j.logical_page == page) || is_pending pid page jobs

unfoldable pub begin_fault_resolution : ℕ → ℕ → MemoryManager → MemoryManager
unfolding is_pending
begin_fault_resolution pid page m =
    if is_pending pid page m.fault_jobs
    then m
    else record m { fault_jobs = m.fault_jobs ++ job ∷ [] }
  where
    job : FaultJob
    job = record { pid = pid; logical_page = page; ticks_remaining = m.fault_handling_ticks }
