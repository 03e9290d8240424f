-- ===== src/Memory/Eviction.antt =====
-- mini_os_simulator/memory/memory_manager.py, `_evict_fifo`: the page that goes.
use smart_device_io_t_operat.Prelude.{
  nat_key, ℕ, zero, suc, ◌+◌, ◌≤◌, ◌≡◌, ◌≢◌, ◌⊎◌, refl, ◌∙◌, none, some, Option, List, [], ◌∷◌,
  get_elem?, set, ltb, arith, Bool-cases, Option-cases, inl, inr,
}
use smart_device_io_t_operat.Memory.{
  FrameEntry, MemoryManager, MemoryPorts, oldest_from, evict_fifo, clear_mapping, note_eviction,
}

-- No frame of the table holds a page loaded before `n`.
abbrev pub NoneBefore : ℕ → List (Option FrameEntry) → Type 0
NoneBefore n table = (i : ℕ) (e : FrameEntry) → get_elem? table i ≡ some (some e) → n ≤ e.load_seq

-- What the scan has found: the entry at its frame, no later than any entry seen.
record IsOldest (fi : ℕ) (best : ℕ × FrameEntry) (table : List (Option FrameEntry))
    (r : ℕ × FrameEntry) : Type 0 where
  least : (i : ℕ) (e : FrameEntry) → get_elem? table i ≡ some (some e) → r.1.load_seq ≤ e.load_seq
  not_after : r.1.load_seq ≤ best.1.load_seq
  place : (r ≡ best) ⊎ ((i : ℕ) × (r.0 ≡ fi + i) × (get_elem? table i ≡ some (some r.1)))

skip-IsOldest :
    (fi : ℕ) (best : ℕ × FrameEntry) (rest : List (Option FrameEntry)) {r : ℕ × FrameEntry}
    → IsOldest (suc fi) best rest r
    → IsOldest fi best (none ∷ rest) r
skip-IsOldest fi best rest {r} v = record {
  least = least;
  not_after = v.not_after;
  place = place v.place;
}
  where
    least :
        (i : ℕ) (e : FrameEntry)
        → get_elem? (none ∷ rest) i ≡ some (some e)
        → r.1.load_seq ≤ e.load_seq
    least zero e h = cc
    least (suc i) e h = v.least i e h

    place :
        (r ≡ best) ⊎ (i : ℕ) × (r.0 ≡ suc fi + i) × (get_elem? rest i ≡ some (some r.1))
        → (r ≡ best) ⊎ (i : ℕ) × (r.0 ≡ fi + i) × (get_elem? (none ∷ rest) i ≡ some (some r.1))
    place (inl e) = inl e
    place (inr (i, a, b)) = inr (suc i, omega arith, b)

step-IsOldest :
    (fi : ℕ) (best best' : ℕ × FrameEntry) (x : FrameEntry) (rest : List (Option FrameEntry))
    {r : ℕ × FrameEntry}
    → best'.1.load_seq ≤ x.load_seq
    → best'.1.load_seq ≤ best.1.load_seq
    → (best' ≡ best) ⊎ (best' ≡ (fi, x))
    → IsOldest (suc fi) best' rest r
    → IsOldest fi best (some x ∷ rest) r
step-IsOldest fi best best' x rest {r} hx hb which v = record {
  least = least;
  not_after = omega (arith, v.not_after);
  place = place v.place which;
}
  where
    least :
        (i : ℕ) (e : FrameEntry)
        → get_elem? (some x ∷ rest) i ≡ some (some e)
        → r.1.load_seq ≤ e.load_seq
    least zero e h = ground (arith, v.not_after)
    least (suc i) e h = v.least i e h

    place :
        (r ≡ best') ⊎ (i : ℕ) × (r.0 ≡ suc fi + i) × (get_elem? rest i ≡ some (some r.1))
        → (best' ≡ best) ⊎ (best' ≡ (fi, x))
        → (r ≡ best) ⊎ (i : ℕ) × (r.0 ≡ fi + i) × (get_elem? (some x ∷ rest) i ≡ some (some r.1))
    place (inl e) (inl e') = inl (e ∙ e')
    place (inl e) (inr e') = inr (0, ground (arith, e, e'), ground (arith, e, e'))
    place (inr (i, a, b)) w = inr (suc i, omega arith, b)

oldest_from-IsOldest :
    (fi : ℕ) (best : ℕ × FrameEntry) (table : List (Option FrameEntry))
    → (r : ℕ × FrameEntry) × (oldest_from fi (some best) table ≡ some r) × IsOldest fi best table r
unfolding oldest_from
oldest_from-IsOldest fi best [] =
    (best, refl, record { least = λ i e h. cc; not_after = omega arith; place = inl refl })
oldest_from-IsOldest fi best (none ∷ rest) =
    let (r, e, v) = oldest_from-IsOldest (suc fi) best rest in (r, e, skip-IsOldest fi best rest v)
oldest_from-IsOldest fi (bi, b) (some x ∷ rest) = elim (Bool-cases (ltb x.load_seq b.load_seq)) [
  | inl h ↦
      let (r, e, v) = oldest_from-IsOldest (suc fi) (fi, x) rest in
      (
        r,
        rw (h, oldest_from) e,
        step-IsOldest fi (bi, b) (fi, x) x rest (omega arith) (ground arith) (inr refl) v,
      )
  | inr h ↦
      let (r, e, v) = oldest_from-IsOldest (suc fi) (bi, b) rest in
      (
        r,
        rw (h, oldest_from) e,
        step-IsOldest fi (bi, b) (bi, b) x rest (ground arith) (omega arith) (inl refl) v,
      )
]

-- What the whole scan finds: nothing in an empty table, else the first entry by load.
abbrev pub FindsOldest : ℕ → List (Option FrameEntry) → Option (ℕ × FrameEntry) → Type 0
FindsOldest fi table none = (i : ℕ) (e : FrameEntry) → get_elem? table i ≢ some (some e)
FindsOldest fi table (some (idx, victim)) =
    ((i : ℕ) × (idx ≡ fi + i) × (get_elem? table i ≡ some (some victim)))
    × ((i : ℕ) (e : FrameEntry) → get_elem? table i ≡ some (some e) → victim.load_seq ≤ e.load_seq)

skip-FindsOldest :
    (fi : ℕ) (rest : List (Option FrameEntry)) (r : Option (ℕ × FrameEntry))
    → FindsOldest (suc fi) rest r
    → FindsOldest fi (none ∷ rest) r
skip-FindsOldest fi rest none v = absent
  where
    absent : (i : ℕ) (e : FrameEntry) → get_elem? (none ∷ rest) i ≢ some (some e)
    absent zero e = λ h. cc
    absent (suc i) e = v i e
skip-FindsOldest fi rest (some (idx, victim)) ((i, a, b), v) = ((suc i, omega arith, b), least)
  where
    least :
        (i : ℕ) (e : FrameEntry)
        → get_elem? (none ∷ rest) i ≡ some (some e)
        → victim.load_seq ≤ e.load_seq
    least zero e h = cc
    least (suc i) e h = v i e h

pub oldest_from-FindsOldest :
    (fi : ℕ) (table : List (Option FrameEntry)) → FindsOldest fi table (oldest_from fi none table)
unfolding oldest_from
oldest_from-FindsOldest fi [] = λ i e h. cc
oldest_from-FindsOldest fi (none ∷ rest) =
    skip-FindsOldest fi rest (oldest_from (suc fi) none rest)
      (oldest_from-FindsOldest (suc fi) rest)
oldest_from-FindsOldest fi (some x ∷ rest) =
    let (r, e, v) = oldest_from-IsOldest (suc fi) (fi, x) rest in
    let w = step-IsOldest fi (fi, x) (fi, x) x rest (omega arith) (omega arith) (inr refl) v in
    rw e (place w.place, w.least)
  where
    place :
        {r : ℕ × FrameEntry}
        → (r ≡ (fi, x)) ⊎ (i : ℕ) × (r.0 ≡ fi + i) × (get_elem? (some x ∷ rest) i ≡ some (some r.1))
        → (i : ℕ) × (r.0 ≡ fi + i) × (get_elem? (some x ∷ rest) i ≡ some (some r.1))
    place (inl e) = (0, ground (arith, e), ground (arith, e))
    place (inr p) = p

-- An eviction from frame `idx`: its page was loaded first, the frame is emptied and nothing else
-- of the manager changes, and the owner is told of the eviction and then of the lost mapping.
pub record Evicts {S : Type 0} (ports : MemoryPorts S) (m : MemoryManager) (s : S) (idx : ℕ)
    : Type 0 where
  pub victim : FrameEntry
  pub resident : get_elem? m.frame_table idx ≡ some (some victim)
  pub first :
      (i : ℕ) (e : FrameEntry)
      → get_elem? m.frame_table i ≡ some (some e)
      → victim.load_seq ≤ e.load_seq
  pub result : evict_fifo ports m s ≡ (
    some idx,
    record m { frame_table = set m.frame_table idx none },
    clear_mapping ports victim.pid victim.logical_page
        (note_eviction ports victim.pid victim.logical_page idx s),
  )

-- `_evict_fifo` answers none only when no frame is in use, and changes nothing then; else it
-- answers a frame whose page has the least load number of all, empties that frame and nothing
-- else, and tells the owner of the eviction and then of the lost mapping.
pub evict_fifo-Evicts :
    {S : Type 0} (ports : MemoryPorts S) (m : MemoryManager) (s : S)
    → (evict_fifo ports m s ≡ (none, m, s))
        × ((i : ℕ) (e : FrameEntry) → get_elem? m.frame_table i ≢ some (some e))
      ⊎ (idx : ℕ) × Evicts ports m s idx
unfolding evict_fifo
evict_fifo-Evicts ports m s = elim (Option-cases (oldest_from 0 none m.frame_table)) [
  | inl e ↦ inl (rw (e, evict_fifo) refl, rw e at (oldest_from-FindsOldest 0 m.frame_table))
  | inr ((idx, victim), e) ↦
      let ((i, at, here), least) : FindsOldest 0 m.frame_table (some (idx, victim)) =
        rw e at (oldest_from-FindsOldest 0 m.frame_table) in
      inr (
        idx,
        record {
          victim = victim;
          resident = ground (arith, at, here);
          first = least;
          result = rw (e, evict_fifo) refl;
        },
      )
]
