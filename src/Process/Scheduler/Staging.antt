-- ===== src/Process/Scheduler/Staging.antt =====
-- mini_os_simulator/process/scheduler.py, `PriorityScheduler.pick_next`: the pids of the staged
-- blocks.
use smart_device_io_t_operat.Prelude.{
  nat_key, ℕ, suc, ◌≤◌, ◌≡◌, refl, ◌∙◌, ap, Dict, false, ◌&&◌, ◌||◌, not, some, List, [], ◌∷◌, map,
  keep, ◌==◌, mem, Distinct, length, arith, Option-cases, inl, inr, is_some,
}
use smart_device_io_t_operat.Process.Pcb.{Pcb}
use smart_device_io_t_operat.Process.Scheduler.{
  candidate, stage, insert_staged, sort_staged, put_back,
}

-- Each block of a table stands under its own pid.
abbrev pub OwnPid : Dict ℕ Pcb → Type 0
OwnPid table = (k : ℕ) (p : Pcb) → candidate table k ≡ some p → p.pid ≡ k

abbrev pub pids : List (ℕ × Pcb) → List ℕ
pids = map (λ e. e.1.pid)

pub mem-insert_staged :
    (k : ℕ) (x : ℕ × Pcb) (ys : List (ℕ × Pcb))
    → mem k (pids (insert_staged x ys)) ≡ (x.1.pid == k || mem k (pids ys))
unfolding insert_staged
mem-insert_staged k x [] = refl
mem-insert_staged k x (y ∷ ys) = ground (arith, mem-insert_staged k x ys)

pub mem-sort_staged :
    (k : ℕ) (xs : List (ℕ × Pcb)) → mem k (pids (sort_staged xs)) ≡ mem k (pids xs)
unfolding sort_staged
mem-sort_staged k [] = refl
mem-sort_staged k (x ∷ xs) =
    mem-insert_staged k x (sort_staged xs) ∙ ap (◌||◌ (x.1.pid == k)) (mem-sort_staged k xs)

pub Distinct-insert_staged :
    (x : ℕ × Pcb) (ys : List (ℕ × Pcb))
    → mem x.1.pid (pids ys) ≡ false
    → Distinct (pids ys)
    → Distinct (pids (insert_staged x ys))
unfolding insert_staged
Distinct-insert_staged x [] h d = (refl, tt)
Distinct-insert_staged x (y ∷ ys) h d =
    ground (arith, Distinct-insert_staged x ys, mem-insert_staged y.1.pid x ys)

pub Distinct-sort_staged :
    (xs : List (ℕ × Pcb)) → Distinct (pids xs) → Distinct (pids (sort_staged xs))
unfolding sort_staged
Distinct-sort_staged [] d = tt
Distinct-sort_staged (x ∷ xs) d =
    Distinct-insert_staged x (sort_staged xs) (mem-sort_staged x.1.pid xs ∙ d.0)
      (Distinct-sort_staged xs d.1)

pub put_back-keep :
    (c : ℕ) (xs : List (ℕ × Pcb)) → put_back c xs ≡ keep (λ k. not (k == c)) (pids xs)
unfolding put_back
put_back-keep c [] = refl
put_back-keep c ((o, p) ∷ xs) = ground (arith, put_back-keep c xs)

pub mem-put_back :
    (c k : ℕ) (xs : List (ℕ × Pcb)) → mem k (put_back c xs) ≡ (not (k == c) && mem k (pids xs))
unfolding put_back
mem-put_back c k [] = ground arith
mem-put_back c k ((o, p) ∷ xs) = ground (arith, mem-put_back c k xs)

pub length-put_back : (c : ℕ) (xs : List (ℕ × Pcb)) → length (put_back c xs) ≤ length xs
unfolding put_back
length-put_back c [] = omega arith
length-put_back c ((o, p) ∷ xs) = ground (arith, length-put_back c xs)

pub length-insert_staged :
    (x : ℕ × Pcb) (ys : List (ℕ × Pcb)) → length (insert_staged x ys) ≡ suc (length ys)
unfolding insert_staged
length-insert_staged x [] = refl
length-insert_staged x (y ∷ ys) = ground (arith, length-insert_staged x ys)

pub length-sort_staged : (xs : List (ℕ × Pcb)) → length (sort_staged xs) ≡ length xs
unfolding sort_staged
length-sort_staged [] = refl
length-sort_staged (x ∷ xs) =
    omega (arith, length-insert_staged x (sort_staged xs), length-sort_staged xs)

pub length-stage : (table : Dict ℕ Pcb) (o : ℕ) (q : List ℕ) → length (stage table o q) ≤ length q
unfolding stage
length-stage table o [] = omega arith
length-stage table o (k ∷ q) = ground (arith, length-stage table o q, length-stage table (suc o) q)

module _ (table : Dict ℕ Pcb) (own : OwnPid table) where
  pub mem-stage :
      (k o : ℕ) (q : List ℕ)
      → mem k (pids (stage table o q)) ≡ (is_some (candidate table k) && mem k q)
  unfolding stage
  mem-stage k o [] = ground arith
  mem-stage k o (j ∷ q) = elim (Option-cases (candidate table j)) [
    | inl e ↦ rw (e, stage) (ground (arith, e, mem-stage k o q))
    | inr (p, e) ↦ rw (e, stage) (ground (arith, e, own j p e, mem-stage k (suc o) q))
  ]

  pub Distinct-stage : (o : ℕ) (q : List ℕ) → Distinct q → Distinct (pids (stage table o q))
  unfolding stage
  Distinct-stage o [] d = tt
  Distinct-stage o (j ∷ q) d = elim (Option-cases (candidate table j)) [
    | inl e ↦ rw (e, stage) (Distinct-stage o q d.1)
    | inr (p, e) ↦
        rw (e, stage)
          (ground (arith, own j p e, mem-stage j (suc o) q), Distinct-stage (suc o) q d.1)
  ]
