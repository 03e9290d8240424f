-- ===== src/Memory/Accounting.antt =====
-- mini_os_simulator/memory/memory_manager.py: the byte reservations of `allocate` and `free`.
use native.Mathlib.Nat.{div-add-mod', mod-lt}
use smart_device_io_t_operat.Prelude.{
  nat_key, ℕ, ◌+◌, ◌-◌, ◌≤◌, ◌<◌, ◌≡◌, ◌≢◌, ◌↔◌, ◌*◌, refl, ◌⊎◌, ℤ, pos, negsuc, Dict, true, false,
  none, List, [], ◌∷◌, map, mem, Distinct, ◌==◌, ltb, if◌then◌else◌, arith, Bool-cases, inl, inr,
}
use smart_device_io_t_operat.Prelude.Table
use smart_device_io_t_operat.Prelude.Table.{get-put, get-remove}
use smart_device_io_t_operat.Memory.{
  MemoryManager, MemoryPorts, or_zero, reserved, allocate, free, pages_for,
}

abbrev pub keys : Dict ℕ ℕ → List ℕ
keys = map (λ e. e.0)

-- The bytes reserved by all processes.
abbrev pub total_reserved : Dict ℕ ℕ → ℕ
total_reserved [] = 0
total_reserved ((k, v) ∷ d) = v + total_reserved d

total_reserved-put :
    (k v : ℕ) (d : Dict ℕ ℕ)
    → total_reserved (Table.put k v d) + or_zero (Table.get k d) ≡ total_reserved d + v
unfolding Table.put Table.get
total_reserved-put k v [] = omega arith
total_reserved-put k v ((j, w) ∷ d) = ground (arith, total_reserved-put k v d)

get_absent : (k : ℕ) (d : Dict ℕ ℕ) → mem k (keys d) ≡ false → Table.get k d ≡ none
unfolding Table.get
get_absent k [] h = refl
get_absent k ((j, w) ∷ d) h = ground (arith, get_absent k d)

remove_absent : (k : ℕ) (d : Dict ℕ ℕ) → mem k (keys d) ≡ false → Table.remove k d ≡ d
unfolding Table.remove
remove_absent k [] h = refl
remove_absent k ((j, w) ∷ d) h = ground (arith, remove_absent k d)

total_reserved-remove :
    (k : ℕ) (d : Dict ℕ ℕ)
    → Distinct (keys d)
    → total_reserved (Table.remove k d) + or_zero (Table.get k d) ≡ total_reserved d
unfolding Table.remove Table.get
total_reserved-remove k [] h = refl
total_reserved-remove k ((j, w) ∷ d) h =
    ground (arith, total_reserved-remove k d, remove_absent j d, get_absent j d)

mem-keys-put : (i k v : ℕ) (d : Dict ℕ ℕ) → i ≢ k → mem i (keys (Table.put k v d)) ≡ mem i (keys d)
unfolding Table.put
mem-keys-put i k v [] h = ground arith
mem-keys-put i k v ((j, w) ∷ d) h = ground (arith, mem-keys-put i k v d)

mem-keys-remove :
    (i k : ℕ) (d : Dict ℕ ℕ) → mem i (keys d) ≡ false → mem i (keys (Table.remove k d)) ≡ false
unfolding Table.remove
mem-keys-remove i k [] h = refl
mem-keys-remove i k ((j, w) ∷ d) h = ground (arith, mem-keys-remove i k d)

Distinct-keys-put : (k v : ℕ) (d : Dict ℕ ℕ) → Distinct (keys d) → Distinct (keys (Table.put k v d))
unfolding Table.put
Distinct-keys-put k v [] h = (refl, tt)
Distinct-keys-put k v ((j, w) ∷ d) h = ground (arith, Distinct-keys-put k v d, mem-keys-put j k v d)

Distinct-keys-remove :
    (k : ℕ) (d : Dict ℕ ℕ) → Distinct (keys d) → Distinct (keys (Table.remove k d))
unfolding Table.remove
Distinct-keys-remove k [] h = tt
Distinct-keys-remove k ((j, w) ∷ d) h =
    ground (arith, Distinct-keys-remove k d, mem-keys-remove j k d)

-- `used_memory` is the sum of the reservations, one for each pid, and fits the memory.
pub record IsAccounted (m : MemoryManager) : Type 0 where
  pub one_each : Distinct (keys m.reservation_bytes)
  pub sum : m.used_memory ≡ total_reserved m.reservation_bytes
  pub fits : m.used_memory ≤ m.total_physical_memory

-- `allocate` keeps the used memory equal to the sum of the reservations, one for each pid, and
-- within the total, whether the request is granted or not.
pub allocate-IsAccounted :
    (pid : ℕ) (amount : ℤ) (m : MemoryManager)
    → IsAccounted m
    → IsAccounted (allocate pid amount m).1
unfolding allocate
allocate-IsAccounted pid (negsuc n) m v = v
allocate-IsAccounted pid (pos n) m v = ground (
  arith,
  total_reserved-put pid n m.reservation_bytes,
  Distinct-keys-put pid n m.reservation_bytes,
)

-- `free` keeps the used memory equal to the sum of the reservations, one for each pid, and
-- within the total, whatever the ports.
pub free-IsAccounted :
    {S : Type 0} (ports : MemoryPorts S) (pid : ℕ) (m : MemoryManager) (s : S)
    → IsAccounted m
    → IsAccounted (free ports pid m s).1
unfolding free
free-IsAccounted ports pid m s v = record {
  one_each = Distinct-keys-remove pid m.reservation_bytes v.one_each;
  sum = omega (arith, v.sum, total_reserved-remove pid m.reservation_bytes v.one_each);
  fits = omega (arith, v.fits);
}

-- A request is granted exactly when it is not negative and fits into the total beside what is
-- used without the reservation that the pid has already.
pub allocate_granted_iff :
    (pid : ℕ) (amount : ℤ) (m : MemoryManager)
    → ((allocate pid amount m).0 ≡ true) ↔ (
        (n : ℕ) × (amount ≡ pos n) × (m.used_memory + n ≤ m.total_physical_memory + reserved pid m))
unfolding allocate
allocate_granted_iff pid (negsuc n) m = (λ h. cc, λ h. let e = h.1 in cc)
allocate_granted_iff pid (pos n) m =
    (λ h. (n, refl, ground arith), λ h. let e = h.1 in let le = h.2 in ground arith)

-- A request either fails and changes nothing, or is for a number of bytes that becomes the
-- reservation of its pid, while every other pid keeps its own.
pub reserved-allocate :
    (pid k : ℕ) (amount : ℤ) (m : MemoryManager)
    → ((allocate pid amount m).0 ≡ false) × ((allocate pid amount m).1 ≡ m)
      ⊎ (n : ℕ) × (amount ≡ pos n)
        × (reserved k (allocate pid amount m).1 ≡ (if pid == k then n else reserved k m))
unfolding allocate
reserved-allocate pid k (negsuc n) m = inl (refl, refl)
reserved-allocate pid k (pos n) m =
    elim (Bool-cases (ltb (m.total_physical_memory + reserved pid m) (m.used_memory + n))) [
      | inl e ↦ rw (e, allocate) (inl (refl, refl))
      | inr e ↦
          rw (e, allocate) (inr (n, refl, ground (arith, get-put pid k n m.reservation_bytes)))
    ]

-- For a positive reservation and page size, the pages that `allocate` counts hold the
-- reservation, and by less than one page too much.
pub pages_for_tight :
    (amount page_size : ℕ)
    → 0 < amount
    → 0 < page_size
    → (amount ≤ pages_for amount page_size * page_size)
      × (pages_for amount page_size * page_size < amount + page_size)
unfolding pages_for
pages_for_tight amount page_size h k = grind (
  arith,
  div-add-mod' (amount + page_size - 1) page_size,
  mod-lt (amount + page_size - 1) {m = page_size} k,
)
