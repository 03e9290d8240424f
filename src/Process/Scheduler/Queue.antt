-- ===== src/Process/Scheduler/Queue.antt =====
-- mini_os_simulator/process/scheduler.py: the ready queue before and after a call.
use smart_device_io_t_operat.Prelude.{
  nat_key, ℕ, suc, ◌<◌, ◌≤◌, ◌≡◌, ◌≢◌, ◌∙◌, Dict, true, false, ◌&&◌, not, Option, none, some, List,
  [], ◌∷◌, ◌==◌, mem, All, Distinct, Distinct-snoc, Distinct-keep, length, arith, Option-cases,
  Bool-cases, inl, inr, is_some,
}
use smart_device_io_t_operat.Process.Pcb.{Pcb}
use smart_device_io_t_operat.Process.Scheduler.{
  Scheduler, Policy, fifo, round_robin, priority, enqueue, candidate, pick_first, stage, before,
  insert_staged, sort_staged, put_back, choose, pick_highest, pick_by, pick_next,
}
use smart_device_io_t_operat.Process.Scheduler.Staging.{
  Distinct-sort_staged, Distinct-stage, OwnPid, length-put_back, length-sort_staged, length-stage,
  mem-put_back, mem-sort_staged, mem-stage, pids, put_back-keep,
}

-- What a pick promises: an empty answer means that no queued process could run, and an answer is a
-- queued process that can run, taken out, while every other one that can run stays queued.
pub record IsPick (table : Dict ℕ Pcb) (queue : List ℕ) (r : Option Pcb × List ℕ) : Type 0 where
  pub none_left : r.0 ≡ none → (k : ℕ) → mem k queue ≡ true → candidate table k ≡ none
  pub chosen_runs :
      (p : Pcb) → r.0 ≡ some p → (candidate table p.pid ≡ some p) × (mem p.pid queue ≡ true)
  pub chosen_leaves : (p : Pcb) → r.0 ≡ some p → mem p.pid r.1 ≡ false
  pub others_stay :
      (p q : Pcb) (k : ℕ)
      → r.0 ≡ some p
      → mem k queue ≡ true
      → candidate table k ≡ some q
      → k ≢ p.pid
      → mem k r.1 ≡ true
  pub nothing_new : (k : ℕ) → mem k r.1 ≡ true → mem k queue ≡ true
  pub distinct : Distinct r.1
  pub shrinks : (p : Pcb) → r.0 ≡ some p → length r.1 < length queue

module _ (table : Dict ℕ Pcb) (own : OwnPid table) where
  pick_first-IsPick : (q : List ℕ) → Distinct q → IsPick table q (pick_first table q)
  unfolding pick_first
  pick_first-IsPick [] d = record {
    none_left = λ _ k h. cc;
    chosen_runs = λ p h. cc;
    chosen_leaves = λ p h. cc;
    others_stay = λ p q k h. cc;
    nothing_new = λ k h. h;
    distinct = tt;
    shrinks = λ p h. cc;
  }
  pick_first-IsPick (j ∷ q) d = elim (Option-cases (candidate table j)) [
    | inl e ↦
        rw (e, pick_first)
          (let v = pick_first-IsPick q d.1 in
            record {
              none_left = λ h k m. ground (arith, e, v.none_left h k);
              chosen_runs = λ p h. ground (arith, v.chosen_runs p h);
              chosen_leaves = v.chosen_leaves;
              others_stay = λ p r k h m c n. ground (arith, e, v.others_stay p r k h);
              nothing_new = λ k h. ground (arith, v.nothing_new k h);
              distinct = v.distinct;
              shrinks = λ p h. omega (arith, v.shrinks p h);
            })
    | inr (c, e) ↦
        rw (e, pick_first)
          (record {
            none_left = λ h. cc;
            chosen_runs = λ p h. ground (arith, own j c e, e);
            chosen_leaves = λ p h. ground (arith, own j c e, e, d.0);
            others_stay = λ p r k h m cr n. ground (arith, own j c e, e);
            nothing_new = λ k h. ground arith;
            distinct = d.1;
            shrinks = λ p h. omega arith;
          })
  ]

-- Every staged block comes from the table.
abbrev pub FromTable : Dict ℕ Pcb → List (ℕ × Pcb) → Type 0
FromTable table = All (λ x. candidate table x.1.pid ≡ some x.1)

module _ (table : Dict ℕ Pcb) (own : OwnPid table) where
  pub stage-FromTable : (o : ℕ) (q : List ℕ) → FromTable table (stage table o q)
  unfolding stage
  stage-FromTable o [] = tt
  stage-FromTable o (j ∷ q) = elim (Option-cases (candidate table j)) [
    | inl e ↦ rw (e, stage) (stage-FromTable o q)
    | inr (p, e) ↦ rw (e, stage) (simp (own j p e) e, stage-FromTable (suc o) q)
  ]

  insert_staged-FromTable :
      (x : ℕ × Pcb) (ys : List (ℕ × Pcb))
      → candidate table x.1.pid ≡ some x.1
      → FromTable table ys
      → FromTable table (insert_staged x ys)
  unfolding insert_staged
  insert_staged-FromTable x [] h f = (h, tt)
  insert_staged-FromTable x (y ∷ ys) h f = elim (Bool-cases (before y x)) [
    | inl e ↦ rw e (f.0, insert_staged-FromTable x ys h f.1)
    | inr e ↦ rw e (h, f)
  ]

  pub sort_staged-FromTable :
      (xs : List (ℕ × Pcb)) → FromTable table xs → FromTable table (sort_staged xs)
  unfolding sort_staged
  sort_staged-FromTable [] f = tt
  sort_staged-FromTable (x ∷ xs) f =
      insert_staged-FromTable x (sort_staged xs) f.0 (sort_staged-FromTable xs f.1)

  choose-IsPick :
      (q : List ℕ) (xs : List (ℕ × Pcb))
      → ((k : ℕ) → mem k (pids xs) ≡ (is_some (candidate table k) && mem k q))
      → FromTable table xs
      → Distinct (pids xs)
      → length xs ≤ length q
      → IsPick table q (choose xs)
  choose-IsPick q [] same f d l = record {
    none_left = λ h k m. ground (arith, same k);
    chosen_runs = λ p h. cc;
    chosen_leaves = λ p h. cc;
    others_stay = λ p r k h. cc;
    nothing_new = λ k h. cc;
    distinct = tt;
    shrinks = λ p h. cc;
  }
  choose-IsPick q ((o, c) ∷ xs) same f d l = record {
    none_left = λ h. cc;
    chosen_runs = λ p h. ground (arith, same c.pid, f.0);
    chosen_leaves = λ p h. ground (arith, mem-put_back c.pid c.pid ((o, c) ∷ xs));
    others_stay = λ p r k h m cr n. ground (arith, mem-put_back c.pid k ((o, c) ∷ xs), same k);
    nothing_new = λ k h. ground (arith, mem-put_back c.pid k ((o, c) ∷ xs), same k);
    distinct =
        rw (put_back-keep c.pid ((o, c) ∷ xs))
          (Distinct-keep (λ k. not (k == c.pid)) (pids ((o, c) ∷ xs)) d);
    shrinks = λ p h. unfold put_back in ground (arith, length-put_back c.pid xs);
  }

  pub pick_highest-IsPick : (q : List ℕ) → Distinct q → IsPick table q (pick_highest table q)
  unfolding pick_highest
  pick_highest-IsPick q d =
      choose-IsPick q (sort_staged (stage table 0 q))
        (λ k. mem-sort_staged k (stage table 0 q) ∙ mem-stage table own k 0 q)
        (sort_staged-FromTable (stage table 0 q) (stage-FromTable 0 q))
        (Distinct-sort_staged (stage table 0 q) (Distinct-stage table own 0 q d))
        (omega (arith, length-sort_staged (stage table 0 q), length-stage table 0 q))

  -- Under every policy, on a table whose runnable blocks stand under their own pids and a queue
  -- without duplicates: `pick_next` answers none only when no queued process can run; else it
  -- answers a queued process that can run, takes it out of the queue, keeps every other one that
  -- can run and makes the queue shorter. It adds no pid and leaves no duplicates.
  pub pick_next-IsPick :
      (s : Scheduler)
      → Distinct s.ready_queue
      → IsPick table s.ready_queue ((pick_next table s).0, (pick_next table s).1.ready_queue)
  unfolding pick_next
  pick_next-IsPick s d = by_policy s.policy s.ready_queue d
    where
      by_policy : (p : Policy) (q : List ℕ) → Distinct q → IsPick table q (pick_by p table q)
      by_policy fifo q d = pick_first-IsPick table own q d
      by_policy (round_robin n) q d = pick_first-IsPick table own q d
      by_policy priority q d = pick_highest-IsPick q d

-- `enqueue` keeps the queue free of duplicates.
pub enqueue-Distinct :
    (pcb : Pcb) (s : Scheduler) → Distinct s.ready_queue → Distinct (enqueue pcb s).ready_queue
unfolding enqueue
enqueue-Distinct pcb s d = ground (arith, Distinct-snoc pcb.pid s.ready_queue)

length-choose :
    (xs : List (ℕ × Pcb)) (p : Pcb) → (choose xs).0 ≡ some p → length (choose xs).1 < length xs
unfolding put_back
length-choose [] p h = cc
length-choose ((o, c) ∷ xs) p h = ground (arith, length-put_back c.pid xs)

length-pick_first :
    (table : Dict ℕ Pcb) (q : List ℕ) (p : Pcb)
    → (pick_first table q).0 ≡ some p
    → length (pick_first table q).1 < length q
unfolding pick_first
length-pick_first table [] p h = cc
length-pick_first table (j ∷ q) p h = ground (arith, length-pick_first table q p)

-- A pick makes the queue shorter, whatever the table.
pub length-pick_by :
    (policy : Policy) (table : Dict ℕ Pcb) (q : List ℕ) (p : Pcb)
    → (pick_by policy table q).0 ≡ some p
    → length (pick_by policy table q).1 < length q
unfolding pick_highest
length-pick_by fifo table q p h = length-pick_first table q p h
length-pick_by (round_robin n) table q p h = length-pick_first table q p h
length-pick_by priority table q p h = omega (
  arith,
  length-choose (sort_staged (stage table 0 q)) p h,
  length-sort_staged (stage table 0 q),
  length-stage table 0 q,
)
