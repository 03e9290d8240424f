-- ===== src/Process/Scheduler/Priority.antt =====
-- mini_os_simulator/process/scheduler.py, `PriorityScheduler`: the order of the processes.
use smart_device_io_t_operat.Prelude.{
  nat_key, ℕ, ◌≤◌, ◌≡◌, sym, Dict, true, false, some, List, [], ◌∷◌, ◌==◌, mem, All, ◌≤ℤ◌, arith,
  Bool-cases, inl, inr,
}
use smart_device_io_t_operat.Process.Pcb.{Pcb, effective_priority}
use smart_device_io_t_operat.Process.Scheduler.{
  candidate, stage, before, insert_staged, sort_staged, choose, pick_highest,
}
use smart_device_io_t_operat.Process.Scheduler.Queue.{
  FromTable, sort_staged-FromTable, stage-FromTable,
}
use smart_device_io_t_operat.Process.Scheduler.Staging.{OwnPid, pids, mem-stage, mem-sort_staged}

-- `a` is not after `b` in the sort order.
abbrev NotAfter : ℕ × Pcb → ℕ × Pcb → Type 0
NotAfter a b = before b a ≡ false

-- The same as comparisons of the four parts of the key, each under equality of those before it.
record Lex (a b : ℕ × Pcb) : Type 0 where
  priority : effective_priority b.1 ≤ℤ effective_priority a.1
  arrival : effective_priority a.1 ≤ℤ effective_priority b.1 → a.1.arrival_time ≤ b.1.arrival_time
  pid :
      effective_priority a.1 ≤ℤ effective_priority b.1
      → b.1.arrival_time ≤ a.1.arrival_time
      → a.1.pid ≤ b.1.pid
  order :
      effective_priority a.1 ≤ℤ effective_priority b.1
      → b.1.arrival_time ≤ a.1.arrival_time
      → b.1.pid ≤ a.1.pid
      → a.0 ≤ b.0

NotAfter-Lex : (a b : ℕ × Pcb) → NotAfter a b → Lex a b
unfolding before
NotAfter-Lex (o, p) (o', q) h = record {
  priority = ground arith;
  arrival = λ e. ground arith;
  pid = λ e f. ground arith;
  order = λ e f g. ground arith;
}

Lex-NotAfter : (a b : ℕ × Pcb) → Lex a b → NotAfter a b
unfolding before
Lex-NotAfter (o, p) (o', q) h = ground (arith, h.priority, h.arrival, h.pid, h.order)

Lex-trans : (a b c : ℕ × Pcb) → Lex a b → Lex b c → Lex a c
Lex-trans a b c h k =
    let up = λ (e : effective_priority a.1 ≤ℤ effective_priority c.1).
      let e' : effective_priority a.1 ≤ℤ effective_priority b.1 = omega (arith, k.priority) in e' in
    let down = λ (e : effective_priority a.1 ≤ℤ effective_priority c.1).
      let e' : effective_priority b.1 ≤ℤ effective_priority c.1 = omega (arith, h.priority) in e' in
    record {
      priority = omega (arith, h.priority, k.priority);
      arrival = λ e. omega (arith, h.arrival (up e), k.arrival (down e));
      pid = λ e f. omega (
        arith,
        h.pid (up e) (omega (arith, k.arrival (down e))),
        k.pid (down e) (omega (arith, h.arrival (up e))),
      );
      order = λ e f g.
          let f₁ : b.1.arrival_time ≤ a.1.arrival_time = omega (arith, k.arrival (down e)) in
          let f₂ : c.1.arrival_time ≤ b.1.arrival_time = omega (arith, h.arrival (up e)) in
          omega (
            arith,
            h.order (up e) f₁ (omega (arith, k.pid (down e) f₂)),
            k.order (down e) f₂ (omega (arith, h.pid (up e) f₁)),
          );
    }

NotAfter-trans : (a b c : ℕ × Pcb) → NotAfter a b → NotAfter b c → NotAfter a c
NotAfter-trans a b c h k =
    Lex-NotAfter a c (Lex-trans a b c (NotAfter-Lex a b h) (NotAfter-Lex b c k))

before-NotAfter : (a b : ℕ × Pcb) → before a b ≡ true → NotAfter a b
unfolding before
before-NotAfter (o, p) (o', q) h = ground arith

-- The head of the list is not after any entry.
abbrev HeadLeast : List (ℕ × Pcb) → Type 0
HeadLeast [] = Unit {0}
HeadLeast (x ∷ xs) = All (NotAfter x) xs × HeadLeast xs

All-NotAfter-trans :
    (a b : ℕ × Pcb) (xs : List (ℕ × Pcb)) → NotAfter a b → All (NotAfter b) xs → All (NotAfter a) xs
All-NotAfter-trans a b [] h k = tt
All-NotAfter-trans a b (x ∷ xs) h k = (NotAfter-trans a b x h k.0, All-NotAfter-trans a b xs h k.1)

All-insert_staged :
    (a x : ℕ × Pcb) (ys : List (ℕ × Pcb))
    → NotAfter a x
    → All (NotAfter a) ys
    → All (NotAfter a) (insert_staged x ys)
unfolding insert_staged
All-insert_staged a x [] h k = (h, tt)
All-insert_staged a x (y ∷ ys) h k = elim (Bool-cases (before y x)) [
  | inl e ↦ rw e (k.0, All-insert_staged a x ys h k.1)
  | inr e ↦ rw e (h, k)
]

insert_staged-HeadLeast :
    (x : ℕ × Pcb) (ys : List (ℕ × Pcb)) → HeadLeast ys → HeadLeast (insert_staged x ys)
unfolding insert_staged
insert_staged-HeadLeast x [] h = (tt, tt)
insert_staged-HeadLeast x (y ∷ ys) h = elim (Bool-cases (before y x)) [
  | inl e ↦
      rw e (All-insert_staged y x ys (before-NotAfter y x e) h.0, insert_staged-HeadLeast x ys h.1)
  | inr e ↦ rw e ((e, All-NotAfter-trans x y ys e h.0), h)
]

sort_staged-HeadLeast : (xs : List (ℕ × Pcb)) → HeadLeast (sort_staged xs)
unfolding sort_staged
sort_staged-HeadLeast [] = tt
sort_staged-HeadLeast (x ∷ xs) =
    insert_staged-HeadLeast x (sort_staged xs) (sort_staged-HeadLeast xs)

-- The documented order: higher effective priority, then earlier arrival, then lower pid.
pub record Beats (c q : Pcb) : Type 0 where
  pub priority : effective_priority q ≤ℤ effective_priority c
  pub arrival : effective_priority q ≡ effective_priority c → c.arrival_time ≤ q.arrival_time
  pub pid :
      effective_priority q ≡ effective_priority c → c.arrival_time ≡ q.arrival_time → c.pid ≤ q.pid

NotAfter-Beats : (x y : ℕ × Pcb) → NotAfter x y → Beats x.1 y.1
unfolding before
NotAfter-Beats (o, c) (o', q) h = record {
  priority = ground arith;
  arrival = λ e. ground arith;
  pid = λ e a. ground arith;
}

self-Beats : (c : Pcb) → Beats c c
self-Beats c = omega arith

-- An entry of a list of blocks from the table, found by its pid.
found :
    (table : Dict ℕ Pcb) (x : ℕ × Pcb) (xs : List (ℕ × Pcb)) (k : ℕ) (q : Pcb)
    → FromTable table xs
    → All (NotAfter x) xs
    → mem k (pids xs) ≡ true
    → candidate table k ≡ some q
    → Beats x.1 q
found table x [] k q f h m c = cc
found table x ((o, p) ∷ xs) k q f h m c = elim (Bool-cases (p.pid == k)) [
  | inl e ↦ let same : p ≡ q = ground (arith, f.0) in rw (sym same) (NotAfter-Beats x (o, p) h.0)
  | inr e ↦ found table x xs k q f.1 h.1 (ground arith) c
]

choose-Beats :
    (table : Dict ℕ Pcb) (xs : List (ℕ × Pcb)) (c : Pcb) (k : ℕ) (q : Pcb)
    → FromTable table xs
    → HeadLeast xs
    → (choose xs).0 ≡ some c
    → mem k (pids xs) ≡ true
    → candidate table k ≡ some q
    → Beats c q
choose-Beats table [] c k q f h e m cq = cc
choose-Beats table ((o, p) ∷ xs) c k q f h e m cq =
    let same : p ≡ c = ground arith in
    rw (sym same) (elim (Bool-cases (p.pid == k)) [
      | inl here ↦ let me : p ≡ q = ground (arith, f.0) in rw (sym me) (self-Beats p)
      | inr there ↦ found table (o, p) xs k q f.1 h.0 (ground arith) cq
    ])

-- On a table whose runnable blocks stand under their own pids, the priority scheduler picks a
-- process that no queued process that can run comes before: none has a higher effective
-- priority, at equal priority none arrived earlier, and at equal arrival too none has a lower
-- pid.
pub pick_highest-Beats :
    (table : Dict ℕ Pcb) (queue : List ℕ) (c : Pcb) (k : ℕ) (q : Pcb)
    → OwnPid table
    → (pick_highest table queue).0 ≡ some c
    → mem k queue ≡ true
    → candidate table k ≡ some q
    → Beats c q
unfolding pick_highest
pick_highest-Beats table queue c k q own e m cq =
    let staged = stage table 0 queue in
    choose-Beats table (sort_staged staged) c k q
      (sort_staged-FromTable table own staged (stage-FromTable table own 0 queue))
      (sort_staged-HeadLeast staged) e
      (ground (arith, mem-sort_staged k staged, mem-stage table own k 0 queue, cq, m)) cq
