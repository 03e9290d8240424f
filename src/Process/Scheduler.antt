-- ===== src/Process/Scheduler.antt =====
-- mini_os_simulator/process/scheduler.py: the ready queue and its three policies.
-- A subclass is a case of `Policy`; only the priority case overrides `pick_next`.
pub mod Staging
pub mod Queue
pub mod Priority
use smart_device_io_t_operat.Prelude.{
  nat_key, ℕ, zero, suc, ◌+◌, ℤ, pos, pos_part, neg_part, ltb_ℤ, ltb, Dict, String, Bool, true,
  false, ◌&&◌, ◌||◌, not, Option, none, some, List, [], ◌∷◌, ◌++◌, map, keep, ◌==◌, str_eq, mem,
  if◌then◌else◌,
}
use smart_device_io_t_operat.Prelude.Table
use smart_device_io_t_operat.Process.Pcb.{
  ProcessState, new, ready, running, blocked, terminated, same_state, Pcb, effective_priority,
}

pub data Policy : Type 0 where
  fifo : Policy
  round_robin : (quantum : ℕ) → Policy
  priority : Policy

pub record Scheduler : Type 0 where
  pub policy : Policy
  pub ready_queue : List ℕ

-- The states in which `enqueue` takes a process.
abbrev pub is_enqueueable : ProcessState → Bool
is_enqueueable st = same_state st ready || same_state st new

unfoldable pub enqueue : Pcb → Scheduler → Scheduler
enqueue pcb s =
    if not (is_enqueueable pcb.state)
    then s
    else if mem pcb.pid s.ready_queue
    then s
    else record s { ready_queue = s.ready_queue ++ pcb.pid ∷ [] }

-- The tests of both `pick_next` loops: the block of a queued pid, unless it is stale, terminated
-- or blocked.
unfoldable pub candidate : Dict ℕ Pcb → ℕ → Option Pcb
candidate table pid = elim (Table.get pid table) [
  | none ↦ none
  | some pcb ↦
      if same_state pcb.state terminated
      then none
      else if same_state pcb.state blocked
      then none
      else some pcb
]

-- `Scheduler.pick_next`: the choice, and the queue that it leaves.
unfoldable pub pick_first : Dict ℕ Pcb → List ℕ → Option Pcb × List ℕ
pick_first table [] = (none, [])
pick_first table (pid ∷ rest) = elim (candidate table pid) [
  | none ↦ pick_first table rest
  | some pcb ↦ (some pcb, rest)
]

-- The `while` loop of `PriorityScheduler.pick_next`: candidates with their order in the queue.
unfoldable pub stage : Dict ℕ Pcb → ℕ → List ℕ → List (ℕ × Pcb)
stage table order [] = []
stage table order (pid ∷ rest) = elim (candidate table pid) [
  | none ↦ stage table order rest
  | some pcb ↦ (order, pcb) ∷ stage table (suc order) rest
]

-- `sort_key(a) < sort_key(b)`: the tuples compare from the left, the first entry negated.
unfoldable pub before : ℕ × Pcb → ℕ × Pcb → Bool
before (o, p) (o', p') =
    ltb_ℤ (effective_priority p') (effective_priority p)
    || (not (ltb_ℤ (effective_priority p) (effective_priority p'))
        && (ltb p.arrival_time p'.arrival_time
            || (p.arrival_time == p'.arrival_time
                && (ltb p.pid p'.pid || (p.pid == p'.pid && ltb o o')))))

-- `staged.sort(key=sort_key)`, a stable sort.
unfoldable pub insert_staged : ℕ × Pcb → List (ℕ × Pcb) → List (ℕ × Pcb)
insert_staged x [] = x ∷ []
insert_staged x (y ∷ ys) = if before y x then y ∷ insert_staged x ys else x ∷ y ∷ ys

unfoldable pub sort_staged : List (ℕ × Pcb) → List (ℕ × Pcb)
sort_staged [] = []
sort_staged (x ∷ xs) = insert_staged x (sort_staged xs)

-- The pids put back: every staged block but the chosen one.
unfoldable pub put_back : ℕ → List (ℕ × Pcb) → List ℕ
put_back chosen [] = []
put_back chosen ((o, p) ∷ rest) =
    let others = put_back chosen rest in if p.pid == chosen then others else p.pid ∷ others

abbrev pub choose : List (ℕ × Pcb) → Option Pcb × List ℕ
choose [] = (none, [])
choose ((o, p) ∷ rest) = (some p, put_back p.pid ((o, p) ∷ rest))

unfoldable pub pick_highest : Dict ℕ Pcb → List ℕ → Option Pcb × List ℕ
unfolding stage sort_staged put_back
pick_highest table queue = choose (sort_staged (stage table 0 queue))

abbrev pub pick_by : Policy → Dict ℕ Pcb → List ℕ → Option Pcb × List ℕ
pick_by fifo = pick_first
pick_by (round_robin quantum) = pick_first
pick_by priority = pick_highest

unfoldable pub pick_next : Dict ℕ Pcb → Scheduler → Option Pcb × Scheduler
pick_next table s =
    let (chosen, rest) = pick_by s.policy table s.ready_queue in
    (chosen, record s { ready_queue = rest })

pub data SchedulerResult : Type 0 where
  made : Scheduler → SchedulerResult
  bad_quantum unknown_policy : SchedulerResult

abbrev pub with_policy : Policy → Scheduler
with_policy p = record { policy = p; ready_queue = [] }

-- `RoundRobinScheduler.__init__`
unfoldable pub round_robin_scheduler : ℤ → SchedulerResult
round_robin_scheduler quantum =
    if ltb_ℤ quantum (pos 1)
    then bad_quantum
    else made (with_policy (round_robin (pos_part quantum)))

unfoldable pub create_scheduler : String → ℤ → SchedulerResult
unfolding round_robin_scheduler
create_scheduler policy quantum =
    if str_eq policy "fifo"
    then made (with_policy fifo)
    else if str_eq policy "rr"
    then round_robin_scheduler quantum
    else if str_eq policy "priority"
    then made (with_policy priority)
    else unknown_policy
