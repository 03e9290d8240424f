-- ===== src/Examples/Memories.antt =====
-- A memory of three frames with two pages in it, and calls on it.
use smart_device_io_t_operat.Prelude.{
  nat_key, ℕ, zero, suc, ◌+◌, ◌*◌, ◌/◌, ◌%◌, ◌<◌, ◌≤◌, ◌≡◌, ◌≢◌, refl, ◌↔◌, ◌⊎◌, pos, negsuc, true,
  false, none, some, List, [], ◌∷◌, Dict, arith, mem, get_elem?, if◌then◌else◌, ◌==◌,
}
use smart_device_io_t_operat.Prelude.Table
use smart_device_io_t_operat.Memory.{
  MemoryManager, MemoryPorts, FrameEntry, allocate, evict_fifo, pages_for, reserved,
  logical_page_count_for,
}
use smart_device_io_t_operat.Memory.Translate.{
  translated, no_address_space, out_of_range, translate_address, try_access,
  deterministic_logical_address, floor_div, floor_mod,
}
use smart_device_io_t_operat.Memory.Accounting.{
  IsAccounted, allocate_granted_iff, reserved-allocate, pages_for_tight,
}
use smart_device_io_t_operat.Memory.Frames.{IsFrames}
use smart_device_io_t_operat.Memory.{made, with_page_size}
use smart_device_io_t_operat.Memory.Runs as MemoryRuns
use smart_device_io_t_operat.Memory.Runs.{run-IsSound}
use smart_device_io_t_operat.Memory.Eviction.{Evicts, evict_fifo-Evicts}
use smart_device_io_t_operat.Memory.{init, hit}
use smart_device_io_t_operat.Memory.Initial.{Answers, init-Answers}
use smart_device_io_t_operat.Memory.Address.{
  as_access, wrapped_address, translate_address_splits, try_access_agrees, try_access_page-lt,
  deterministic_in_range,
}

-- Frame 0 is empty, frame 1 holds the younger page; a job is about to end.
abbrev pub memory : MemoryManager
memory = record {
  total_physical_memory = 768;
  page_size = 256;
  total_frames = 3;
  frame_table =
      none
      ∷ some (record { pid = 1; logical_page = 0; load_seq = 2 })
      ∷ some (record { pid = 2; logical_page = 1; load_seq = 1 })
      ∷ [];
  free_frames = 0 ∷ [];
  reservation_bytes = (1, 300) ∷ (2, 400) ∷ [];
  used_memory = 700;
  logical_page_count = (1, 2) ∷ (2, 2) ∷ [];
  fault_jobs = record { pid = 1; logical_page = 1; ticks_remaining = 1 } ∷ [];
  fault_handling_ticks = 3;
  next_load_seq = 2;
}

-- An owner that counts the pages that it is told to install.
abbrev pub counting_ports : MemoryPorts ℕ
counting_ports = record {
  clear_page_mapping = none;
  install_page_mapping = some (λ pid page frame n. n + 1);
  mark_ready_and_enqueue = none;
  on_fifo_eviction = none;
}

memory-IsFrames : IsFrames memory
memory-IsFrames = record { size = refl; once = (refl, tt); empty_iff = empty_iff; loaded = loaded }
  where
    empty_iff :
        (i : ℕ) → (mem i memory.free_frames ≡ true) ↔ (get_elem? memory.frame_table i ≡ some none)
    empty_iff zero = ground arith
    empty_iff (suc zero) = ground arith
    empty_iff (suc (suc zero)) = ground arith
    empty_iff (suc (suc (suc i))) = ground arith

    loaded :
        (i : ℕ) (e : FrameEntry) → get_elem? memory.frame_table i ≡ some (some e) → e.load_seq ≤ 2
    loaded zero e h = cc
    loaded (suc zero) e h = ground arith
    loaded (suc (suc zero)) e h = ground arith
    loaded (suc (suc (suc i))) e h = cc

memory-IsAccounted : IsAccounted memory
memory-IsAccounted = record { one_each = (refl, (refl, tt)); sum = refl; fits = omega arith }

-- Calls of a manager of four frames: two processes fault, and one goes.
abbrev memory_calls : List MemoryRuns.Call
memory_calls =
    MemoryRuns.allocates 1 (pos 300)
    ∷ MemoryRuns.allocates 2 (pos 900)
    ∷ MemoryRuns.faults 1 0
    ∷ MemoryRuns.faults 1 0
    ∷ MemoryRuns.faults 2 1
    ∷ MemoryRuns.ticks
    ∷ MemoryRuns.ticks
    ∷ MemoryRuns.ticks
    ∷ MemoryRuns.frees 1
    ∷ []

init_1024 : init (pos 1024) (some (pos 256)) ≡ made (with_page_size 1024 256)
unfolding init
init_1024 = refl

run-IsSound_example :
    MemoryRuns.IsSound (MemoryRuns.run counting_ports memory_calls (with_page_size 1024 256, 0)).0
run-IsSound_example =
    run-IsSound counting_ports memory_calls (pos 1024) (some (pos 256)) (with_page_size 1024 256) 0
      init_1024

evict_fifo-Evicts_example :
    (evict_fifo counting_ports memory 0 ≡ (none, memory, 0))
      × ((i : ℕ) (e : FrameEntry) → get_elem? memory.frame_table i ≢ some (some e))
    ⊎ (idx : ℕ) × Evicts counting_ports memory 0 idx
evict_fifo-Evicts_example = evict_fifo-Evicts counting_ports memory 0

allocate_granted_iff_example :
    ((allocate 3 (pos 100) memory).0 ≡ true)
    ↔ ((n : ℕ) × (pos 100 ≡ pos n) × (700 + n ≤ 768 + reserved 3 memory))
allocate_granted_iff_example = allocate_granted_iff 3 (pos 100) memory

reserved-allocate_example :
    ((allocate 1 (pos 50) memory).0 ≡ false) × ((allocate 1 (pos 50) memory).1 ≡ memory)
    ⊎ (n : ℕ) × (pos 50 ≡ pos n)
      × (reserved 2 (allocate 1 (pos 50) memory).1 ≡ (if 1 == 2 then n else reserved 2 memory))
reserved-allocate_example = reserved-allocate 1 2 (pos 50) memory

pages_for_tight_example : (300 ≤ pages_for 300 256 * 256) × (pages_for 300 256 * 256 < 300 + 256)
pages_for_tight_example = pages_for_tight 300 256 (omega arith) (omega arith)

abbrev pub page_table : Dict ℕ ℕ
page_table = (0, 1) ∷ []

translated_here : translate_address 1 (pos 44) page_table memory ≡ translated 300 0 44 1
unfolding translate_address Table.get
translated_here = refl

translate_address_splits_example :
    (300 / 256 ≡ 1)
    × (300 % 256 ≡ floor_mod (pos 44) 256)
    × (floor_div (pos 44) 256 ≡ pos 0)
    × (0 < logical_page_count_for 1 memory)
    × (Table.get 0 page_table ≡ some 1)
translate_address_splits_example =
    translate_address_splits 1 (pos 44) page_table memory 300 0 44 1 (omega arith) translated_here

two_pages : logical_page_count_for 1 memory ≡ 2
unfolding Table.get
two_pages = refl

-- An address below the first page, which `try_access` wraps.
try_access_agrees_example :
    let wrapped = wrapped_address (logical_page_count_for 1 memory) 256 (negsuc 700) in
    let r = try_access 1 (negsuc 700) page_table memory in
    (0 < logical_page_count_for 1 memory
      → as_access wrapped 256 (translate_address 1 wrapped page_table memory) ≡ some r)
    × (logical_page_count_for 1 memory ≡ 0
        → (translate_address 1 (negsuc 700) page_table memory ≡ no_address_space)
          × (r.kind ≡ hit)
          × (r.physical_address ≡ some 0))
try_access_agrees_example = try_access_agrees 1 (negsuc 700) page_table memory (omega arith)

try_access_page-lt_example :
    (try_access 1 (negsuc 700) page_table memory).logical_page < logical_page_count_for 1 memory
try_access_page-lt_example =
    try_access_page-lt 1 (negsuc 700) page_table memory (rw two_pages (omega arith))

deterministic_in_range_example :
    translate_address 1
      (pos (deterministic_logical_address 1 7 256 (logical_page_count_for 1 memory)))
      page_table
      memory
    ≢ out_of_range
deterministic_in_range_example = deterministic_in_range 1 7 1 page_table memory (omega arith)

init-Answers_example : Answers (pos 4096) none (init (pos 4096) none)
init-Answers_example = init-Answers (pos 4096) none
