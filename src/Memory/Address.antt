-- ===== src/Memory/Address.antt =====
-- mini_os_simulator/memory/memory_manager.py: logical and physical addresses.
use native.Mathlib.Nat.{div-add-mod', mod-lt}
use smart_device_io_t_operat.Prelude.{
  nat_key, ℕ, ◌+◌, ◌*◌, ◌/◌, ◌%◌, ◌^◌, ◌<◌, ◌≡◌, ◌≢◌, refl, sym, ap, Bool, ◌∙◌, ℤ, pos, negsuc,
  pos_part, Dict, true, false, none, some, Option, ◌==◌, if◌then◌else◌, arith, Bool-cases,
  Option-cases, inl, inr,
}
use smart_device_io_t_operat.Prelude.Table
use smart_device_io_t_operat.Memory.{
  MemoryManager, hit, fault, MemoryAccessResult, logical_page_count_for,
}
use smart_device_io_t_operat.Memory.Translate.{
  Translation, translated, page_fault, no_address_space, out_of_range, translate_address,
  try_access, access_page, floor_div, floor_mod, is_outside, deterministic_logical_address,
}

-- A number of the form page * size + offset has that page and that offset.
page_of_sum : (page size offset : ℕ) → offset < size → (page * size + offset) / size ≡ page
page_of_sum page size offset h =
    grind
      (arith, div-add-mod' (page * size + offset) size, mod-lt (page * size + offset) {m = size})

offset_of_sum : (page size offset : ℕ) → offset < size → (page * size + offset) % size ≡ offset
offset_of_sum page size offset h =
    grind (arith, page_of_sum page size offset h, div-add-mod' (page * size + offset) size)

floor_mod-lt : (a : ℤ) (d : ℕ) → 0 < d → floor_mod a d < d
floor_mod-lt (pos n) d h = mod-lt n h
floor_mod-lt (negsuc n) d h = omega (arith, mod-lt n {m = d} h)

translated_parts :
    (pid : ℕ) (address : ℤ) (page_table : Dict ℕ ℕ) (m : MemoryManager) (phys page offset frame : ℕ)
    → translate_address pid address page_table m ≡ translated phys page offset frame
    → (phys ≡ frame * m.page_size + offset)
      × (offset ≡ floor_mod address m.page_size)
      × (floor_div address m.page_size ≡ pos page)
      × (page < logical_page_count_for pid m)
      × (Table.get page page_table ≡ some frame)
unfolding translate_address
translated_parts pid (pos n) page_table m phys page offset frame e = ground arith
translated_parts pid (negsuc n) page_table m phys page offset frame e = ground arith

-- With a positive page size, a physical address that `translate_address` answers splits into the
-- frame of the page table and the offset of the logical address, whose page is below the
-- process's page count.
pub translate_address_splits :
    (pid : ℕ) (address : ℤ) (page_table : Dict ℕ ℕ) (m : MemoryManager) (phys page offset frame : ℕ)
    → 0 < m.page_size
    → translate_address pid address page_table m ≡ translated phys page offset frame
    → (phys / m.page_size ≡ frame)
      × (phys % m.page_size ≡ floor_mod address m.page_size)
      × (floor_div address m.page_size ≡ pos page)
      × (page < logical_page_count_for pid m)
      × (Table.get page page_table ≡ some frame)
translate_address_splits pid address page_table m phys page offset frame h e =
    let (sum, rest, p, l, g) = translated_parts pid address page_table m phys page offset frame e in
    let low : offset < m.page_size = rw rest (floor_mod-lt address m.page_size h) in
    (
      rw sum (page_of_sum frame m.page_size offset low),
      rw sum (offset_of_sum frame m.page_size offset low) ∙ rest,
      p,
      l,
      g,
    )

-- The answer of `try_access` that goes with a translation, in the terms of the latter. Where
-- `translate_address` raises its `ValueError` there is none.
abbrev pub as_access : ℤ → ℕ → Translation → Option MemoryAccessResult
as_access address page_size (translated phys page offset frame) = some (record {
  kind = hit;
  logical_address = address;
  logical_page = page;
  offset = offset;
  physical_address = some phys;
  physical_frame = some frame;
})
as_access address page_size (page_fault pid page) = some (record {
  kind = fault;
  logical_address = address;
  logical_page = page;
  offset = floor_mod address page_size;
  physical_address = none;
  physical_frame = none;
})
as_access address page_size no_address_space = none
as_access address page_size out_of_range = none

-- The address itself where its page is one of `count`, else the same offset in the page modulo
-- `count`.
abbrev pub wrapped_address : ℕ → ℕ → ℤ → ℤ
wrapped_address count page_size address =
    if is_outside (floor_div address page_size) count
    then pos
        (floor_mod (floor_div address page_size) count * page_size + floor_mod address page_size)
    else address

==_zero : (n : ℕ) → 0 < n → (n == 0) ≡ false
==_zero n h = ground arith

is_outside_negsuc : (k n : ℕ) → is_outside (negsuc k) n ≡ true
is_outside_negsuc k n = ground arith

-- The two on an address whose page is one of the process's.
translate_inside :
    (pid : ℕ) (address : ℤ) (page_table : Dict ℕ ℕ) (m : MemoryManager)
    → 0 < logical_page_count_for pid m
    → is_outside (floor_div address m.page_size) (logical_page_count_for pid m) ≡ false
    → as_access address m.page_size (translate_address pid address page_table m)
      ≡ some (
          access_page address
            (pos_part (floor_div address m.page_size))
            (floor_mod address m.page_size)
            page_table
            m.page_size)
unfolding translate_address access_page
translate_inside pid address page_table m some_page inside =
    elim (Option-cases (Table.get (pos_part (floor_div address m.page_size)) page_table)) [
      | inl g ↦
          rw (==_zero (logical_page_count_for pid m) some_page, inside) (rw (g, access_page) refl)
      | inr (frame, g) ↦
          rw (==_zero (logical_page_count_for pid m) some_page, inside) (rw (g, access_page) refl)
    ]

-- `try_access`, for a process with pages.
try_access_inside :
    (pid : ℕ) (address : ℤ) (page_table : Dict ℕ ℕ) (m : MemoryManager)
    → 0 < logical_page_count_for pid m
    → is_outside (floor_div address m.page_size) (logical_page_count_for pid m) ≡ false
    → try_access pid address page_table m
      ≡ access_page address
          (pos_part (floor_div address m.page_size))
          (floor_mod address m.page_size)
          page_table
          m.page_size
unfolding try_access
try_access_inside pid address page_table m some_page inside =
    rw (==_zero (logical_page_count_for pid m) some_page, inside) refl

try_access_outside :
    (pid : ℕ) (address : ℤ) (page_table : Dict ℕ ℕ) (m : MemoryManager)
    → 0 < logical_page_count_for pid m
    → is_outside (floor_div address m.page_size) (logical_page_count_for pid m) ≡ true
    → let k = floor_mod (floor_div address m.page_size) (logical_page_count_for pid m) in
      let o = floor_mod address m.page_size in
      try_access pid address page_table m
      ≡ access_page (pos (k * m.page_size + o)) k o page_table m.page_size
unfolding try_access
try_access_outside pid address page_table m some_page outside =
    rw (==_zero (logical_page_count_for pid m) some_page, outside) refl

wrapped_cases :
    (count size : ℕ) (address : ℤ) (b : Bool)
    → is_outside (floor_div address size) count ≡ b
    → wrapped_address count size address ≡ (
        if b
        then pos (floor_mod (floor_div address size) count * size + floor_mod address size)
        else address)
wrapped_cases count size address b e = rw e refl

module _ (pid : ℕ) (page_table : Dict ℕ ℕ) (m : MemoryManager) where
  abbrev translation : ℤ → Option MemoryAccessResult
  translation a = as_access a m.page_size (translate_address pid a page_table m)

  inside_agrees :
      (address : ℤ)
      → 0 < logical_page_count_for pid m
      → is_outside (floor_div address m.page_size) (logical_page_count_for pid m) ≡ false
      → translation address ≡ some (try_access pid address page_table m)
  inside_agrees address some_page inside =
      translate_inside pid address page_table m some_page inside
      ∙ ap some (sym (try_access_inside pid address page_table m some_page inside))

  outside_agrees :
      (address : ℤ)
      → 0 < m.page_size
      → 0 < logical_page_count_for pid m
      → is_outside (floor_div address m.page_size) (logical_page_count_for pid m) ≡ true
      → translation (
          pos (
            floor_mod (floor_div address m.page_size) (logical_page_count_for pid m) * m.page_size
            + floor_mod address m.page_size))
        ≡ some (try_access pid address page_table m)
  outside_agrees address size some_page outside =
      let count = logical_page_count_for pid m in
      let k = floor_mod (floor_div address m.page_size) count in
      let o = floor_mod address m.page_size in
      let x = k * m.page_size + o in
      let low : o < m.page_size = floor_mod-lt address m.page_size size in
      let k_of : x / m.page_size ≡ k = page_of_sum k m.page_size o low in
      let o_of : x % m.page_size ≡ o = offset_of_sum k m.page_size o low in
      let inside : is_outside (pos (x / m.page_size)) count ≡ false =
        rw k_of (ground (arith, floor_mod-lt (floor_div address m.page_size) count some_page)) in
      translate_inside pid (pos x) page_table m some_page inside
      ∙ ap (λ i. some (access_page (pos x) i (x % m.page_size) page_table m.page_size)) k_of
      ∙ ap (λ i. some (access_page (pos x) k i page_table m.page_size)) o_of
      ∙ ap some (sym (try_access_outside pid address page_table m some_page outside))

-- With a positive page size: for a process with pages, `try_access` on any address reports what
-- `translate_address` does on that address or, where its page is not one of the process's, on
-- the same offset in the page that it wraps around to: the same hit with the same physical
-- address, or a fault on the same page. For a process with no pages `translate_address` raises,
-- but `try_access` reports a hit at the physical address 0.
pub try_access_agrees :
    (pid : ℕ) (address : ℤ) (page_table : Dict ℕ ℕ) (m : MemoryManager)
    → 0 < m.page_size
    → let count = logical_page_count_for pid m in
      let wrapped = wrapped_address count m.page_size address in
      let r = try_access pid address page_table m in
      (0 < count
        → as_access wrapped m.page_size (translate_address pid wrapped page_table m) ≡ some r)
      × (count ≡ 0
          → (translate_address pid address page_table m ≡ no_address_space)
            × (r.kind ≡ hit)
            × (r.physical_address ≡ some 0))
unfolding translate_address try_access
try_access_agrees pid address page_table m size =
    let count = logical_page_count_for pid m in
    (
      λ some_page. elim (Bool-cases (is_outside (floor_div address m.page_size) count)) [
        | inl outside ↦
            ap (translation pid page_table m) (wrapped_cases count m.page_size address true outside)
            ∙ outside_agrees pid page_table m address size some_page outside
        | inr inside ↦
            ap (translation pid page_table m) (wrapped_cases count m.page_size address false inside)
            ∙ inside_agrees pid page_table m address some_page inside
      ],
      λ no_page. let e : (count == 0) ≡ true = ground (arith, no_page) in rw e (refl, refl, refl),
    )

inside-lt : (page : ℤ) (n : ℕ) → is_outside page n ≡ false → pos_part page < n
inside-lt (pos p) n h = ground arith
inside-lt (negsuc p) n h = ground arith

access_page_page :
    (address : ℤ) (page offset : ℕ) (page_table : Dict ℕ ℕ) (size : ℕ)
    → (access_page address page offset page_table size).logical_page ≡ page
unfolding access_page
access_page_page address page offset page_table size =
    elim (Option-cases (Table.get page page_table)) [
      | inl e ↦ rw (e, access_page) refl
      | inr (f, e) ↦ rw (e, access_page) refl
    ]

-- For a process with pages, the page that `try_access` reports is one of them, also for an
-- address out of range, which it wraps.
pub try_access_page-lt :
    (pid : ℕ) (address : ℤ) (page_table : Dict ℕ ℕ) (m : MemoryManager)
    → 0 < logical_page_count_for pid m
    → (try_access pid address page_table m).logical_page < logical_page_count_for pid m
unfolding try_access
try_access_page-lt pid address page_table m h =
    let count = logical_page_count_for pid m in
    let page = floor_div address m.page_size in
    let offset = floor_mod address m.page_size in
    elim (Bool-cases (is_outside page count)) [
      | inl e ↦
          rw (==_zero count h, e)
            (rw
              (access_page_page (pos (floor_mod page count * m.page_size + offset))
                (floor_mod page count) offset page_table m.page_size)
              (floor_mod-lt page count h))
      | inr e ↦
          rw (==_zero count h, e)
            (rw (access_page_page address (pos_part page) offset page_table m.page_size)
              (inside-lt page count e))
    ]

deterministic_page :
    (pid tick size count : ℕ)
    → 0 < size
    → 0 < count
    → deterministic_logical_address pid tick size count / size < count
unfolding deterministic_logical_address
deterministic_page pid tick size count h k =
    let mixed = (pid * 2654435761 + tick * 2246822519) % 2 ^ 32 in
    ground (
      arith,
      page_of_sum (mixed % count) size (mixed / count % size) (mod-lt (mixed / count) {m = size} h),
      mod-lt mixed {m = count} k,
    )

-- With a positive page size, the address that the CPU step makes up from any pid and tick and
-- the page count of a process is never out of range for that process.
pub deterministic_in_range :
    (pid tick owner : ℕ) (page_table : Dict ℕ ℕ) (m : MemoryManager)
    → 0 < m.page_size
    → translate_address owner
        (pos (deterministic_logical_address pid tick m.page_size (logical_page_count_for owner m)))
        page_table
        m
      ≢ out_of_range
unfolding translate_address
deterministic_in_range pid tick owner page_table m h e =
    ground (arith, deterministic_page pid tick m.page_size (logical_page_count_for owner m) h)
