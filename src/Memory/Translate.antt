-- ===== src/Memory/Translate.antt =====
-- mini_os_simulator/memory/memory_manager.py: logical addresses, their pages and the accesses of a tick.
-- An address is an integer, as Python's `//` and `%` round down; `& 0xFFFFFFFF` is `% 2 ^ 32`.
use smart_device_io_t_operat.Prelude.{
  nat_key, ℕ, ◌+◌, ◌-◌, ◌*◌, ◌/◌, ◌%◌, ◌^◌, ℤ, pos, negsuc, pos_part, ltb_ℤ, Dict, Bool, ◌||◌, not,
  none, some, ◌==◌, if◌then◌else◌,
}
use smart_device_io_t_operat.Prelude.Table
use smart_device_io_t_operat.Memory.{
  MemoryManager, hit, fault, MemoryAccessResult, logical_page_count_for,
}

-- Python's `//` and `%` by a positive number.
abbrev pub floor_div : ℤ → ℕ → ℤ
floor_div (pos n) d = pos (n / d)
floor_div (negsuc n) d = negsuc (n / d)

abbrev pub floor_mod : ℤ → ℕ → ℕ
floor_mod (pos n) d = n % d
floor_mod (negsuc n) d = d - 1 - n % d

pub data Translation : Type 0 where
  translated : (physical_address logical_page offset frame : ℕ) → Translation
  page_fault : (pid logical_page : ℕ) → Translation
  no_address_space out_of_range : Translation

abbrev pub is_outside : ℤ → ℕ → Bool
is_outside page lp_count = ltb_ℤ page (pos 0) || not (ltb_ℤ page (pos lp_count))

unfoldable pub translate_address : ℕ → ℤ → Dict ℕ ℕ → MemoryManager → Translation
translate_address pid address page_table m =
    let page = floor_div address m.page_size in
    let offset = floor_mod address m.page_size in
    if logical_page_count_for pid m == 0
    then no_address_space
    else if is_outside page (logical_page_count_for pid m)
    then out_of_range
    else elim (Table.get (pos_part page) page_table) [
      | none ↦ page_fault pid (pos_part page)
      | some frame ↦ translated (frame * m.page_size + offset) (pos_part page) offset frame
    ]

-- The answer of `try_access` once the page, the offset and the address are fixed.
unfoldable pub access_page : ℤ → ℕ → ℕ → Dict ℕ ℕ → ℕ → MemoryAccessResult
access_page address page offset page_table page_size = elim (Table.get page page_table) [
  | none ↦ record {
    kind = fault;
    logical_address = address;
    logical_page = page;
    offset = offset;
    physical_address = none;
    physical_frame = none;
  }
  | some frame ↦ record {
    kind = hit;
    logical_address = address;
    logical_page = page;
    offset = offset;
    physical_address = some (frame * page_size + offset);
    physical_frame = some frame;
  }
]

unfoldable pub try_access : ℕ → ℤ → Dict ℕ ℕ → MemoryManager → MemoryAccessResult
unfolding access_page
try_access pid address page_table m =
    let lp_count = logical_page_count_for pid m in
    let page = floor_div address m.page_size in
    let offset = floor_mod address m.page_size in
    let wrapped = floor_mod page lp_count in
    if lp_count == 0
    then record {
      kind = hit;
      logical_address = address;
      logical_page = 0;
      offset = 0;
      physical_address = some 0;
      physical_frame = some 0;
    }
    else if is_outside page lp_count
    then access_page (pos (wrapped * m.page_size + offset)) wrapped offset page_table m.page_size
    else access_page address (pos_part page) offset page_table m.page_size

unfoldable pub deterministic_logical_address : ℕ → ℕ → ℕ → ℕ → ℕ
deterministic_logical_address pid tick_index page_size logical_page_count =
    if logical_page_count == 0 || page_size == 0
    then 0
    else let mixed = (pid * 2654435761 + tick_index * 2246822519) % 2 ^ 32 in
      let page = mixed % logical_page_count in
      let offset = mixed / logical_page_count % page_size in page * page_size + offset
