-- ===== src/Memory/Initial.antt =====
-- mini_os_simulator/memory/memory_manager.py, `MemoryManager.__init__`: a new manager.
use smart_device_io_t_operat.Prelude.{
  ℕ, zero, suc, ◌+◌, ◌*◌, ◌/◌, ◌≤◌, ◌<◌, ◌≡◌, refl, ◌↔◌, inl, inr, ℤ, pos, pos_part, ltb_ℤ, ◌≤ℤ◌,
  true, Option, none, some, [], leb, if◌then◌else◌, mem, length, replicate, get_elem?, Distinct,
  arith, Bool-cases,
}
use native.Mathlib.Nat.{div-add-mod'}
use smart_device_io_t_operat.Memory.{
  MemoryManager, MemoryResult, FrameEntry, made, negative_memory, bad_page_size, init,
  with_page_size, default_page_size, count_up,
}
use smart_device_io_t_operat.Memory.Frames.{IsFrames}
use smart_device_io_t_operat.Memory.Accounting.{IsAccounted}

mem-count_up : (k n i : ℕ) → (mem k (count_up n i) ≡ true) ↔ ((i ≤ k) × (k < i + n))
mem-count_up k zero i = ground arith
mem-count_up k (suc n) i = ground (arith, mem-count_up k n (suc i))

count_up-Distinct : (n i : ℕ) → Distinct (count_up n i)
count_up-Distinct zero i = tt
count_up-Distinct (suc n) i =
    (ground (arith, mem-count_up i n (suc i)), count_up-Distinct n (suc i))

get_elem?-replicate :
    {A : Type 0} (n i : ℕ) (a : A)
    → get_elem? (replicate n a) i ≡ (if leb n i then none else some a)
get_elem?-replicate zero i a = ground arith
get_elem?-replicate (suc n) zero a = ground arith
get_elem?-replicate (suc n) (suc i) a = ground (arith, get_elem?-replicate n i a)

length-replicate : {A : Type 0} (n : ℕ) (a : A) → length (replicate n a) ≡ n
length-replicate zero a = refl
length-replicate (suc n) a = omega (arith, length-replicate n a)

pub with_page_size-IsFrames : (total page_size : ℕ) → IsFrames (with_page_size total page_size)
unfolding with_page_size
with_page_size-IsFrames total page_size =
    let n = total / page_size in
    let slot = λ (i : ℕ). get_elem?-replicate {A = Option FrameEntry} n i none in
    record {
      size = length-replicate n none;
      once = count_up-Distinct n 0;
      empty_iff = λ i. ground (arith, slot i, mem-count_up i n 0);
      loaded = λ i e h. ground (arith, slot i, h);
    }

pub with_page_size-IsAccounted :
    (total page_size : ℕ) → IsAccounted (with_page_size total page_size)
unfolding with_page_size
with_page_size-IsAccounted total page_size = record {
  one_each = tt;
  sum = refl;
  fits = omega arith;
}

-- A manager with its frames and reservations in order, whose frames fit the memory.
pub record IsInitial (m : MemoryManager) : Type 0 where
  pub frames : IsFrames m
  pub accounted : IsAccounted m
  pub page_size_positive : 0 < m.page_size
  pub idle : m.fault_jobs ≡ []
  pub frames_fit : m.total_frames * m.page_size ≤ m.total_physical_memory

with_page_size-IsInitial :
    (total page_size : ℕ) → 0 < page_size → IsInitial (with_page_size total page_size)
unfolding with_page_size
with_page_size-IsInitial total page_size h = record {
  frames = with_page_size-IsFrames total page_size;
  accounted = with_page_size-IsAccounted total page_size;
  page_size_positive = h;
  idle = refl;
  frames_fit = grind (arith, div-add-mod' total page_size);
}

default_page_size_positive : (total : ℕ) → 0 < default_page_size total
unfolding default_page_size
default_page_size_positive total = ground arith

-- What `__init__` answers.
abbrev pub Answers : ℤ → Option ℤ → MemoryResult → Type 0
Answers total page_size (made m) =
    IsInitial m × (pos 0 ≤ℤ total) × (m.total_physical_memory ≡ pos_part total)
Answers total page_size negative_memory = ltb_ℤ total (pos 0) ≡ true
Answers total page_size bad_page_size =
    (given : ℤ) × (page_size ≡ some given) × (ltb_ℤ given (pos 1) ≡ true)

-- `__init__` reports a negative memory or a page size below 1 only when that was given; else it
-- answers a manager of the given memory with a positive page size, frames that fit the memory,
-- the free list equal to the set of empty frames, reservations that add up to the used memory,
-- and no page on its way.
pub init-Answers :
    (total : ℤ) (page_size : Option ℤ) → Answers total page_size (init total page_size)
unfolding init with_page_size
init-Answers total page_size = elim (Bool-cases (ltb_ℤ total (pos 0))) [
  | inl e ↦ rw (e, init) e
  | inr e ↦ rw (e, init) (by_size page_size (ground (arith, e)))
]
  where
    by_size :
        (given : Option ℤ)
        → pos 0 ≤ℤ total
        → Answers total given (elim given [
          | none ↦ made (with_page_size (pos_part total) (default_page_size (pos_part total)))
          | some ps ↦
              if ltb_ℤ ps (pos 1)
              then bad_page_size
              else made (with_page_size (pos_part total) (pos_part ps))
        ])
    by_size none n = (
      with_page_size-IsInitial (pos_part total) (default_page_size (pos_part total))
          (default_page_size_positive (pos_part total)),
      n,
      refl,
    )
    by_size (some ps) n = elim (Bool-cases (ltb_ℤ ps (pos 1))) [
      | inl f ↦ rw f (ps, refl, f)
      | inr f ↦
          rw f
            (with_page_size-IsInitial (pos_part total) (pos_part ps) (ground (arith, f)), n, refl)
    ]
