-- ===== src/Concurrency/Semaphore.antt =====
-- mini_os_simulator/concurrency/semaphore.py: a counting semaphore with direct hand-off.
-- The initial count is a natural number; the set of pending grants is a list without duplicates.
pub mod Permits
use smart_device_io_t_operat.Prelude.{
  ℕ, ◌+◌, ◌-◌, String, Bool, true, false, not, List, [], ◌∷◌, ◌++◌, keep, mem, ltb, ◌==◌,
  if◌then◌else◌,
}
use smart_device_io_t_operat.Concurrency.SyncPorts.{SyncPorts, note_semaphore_blocked, note_handoff}

pub record CountingSemaphore : Type 0 where
  pub name : String
  pub count : ℕ
  pub waiting_queue : List ℕ
  pub pending_grants : List ℕ

abbrev pub new_semaphore : String → ℕ → CountingSemaphore
new_semaphore name initial = record {
  name = name;
  count = initial;
  waiting_queue = [];
  pending_grants = [];
}

-- `set.add` and `set.remove`
abbrev pub set_add : ℕ → List ℕ → List ℕ
set_add a xs = if mem a xs then xs else xs ++ a ∷ []

abbrev pub set_remove : ℕ → List ℕ → List ℕ
set_remove a xs = keep (λ x. not (x == a)) xs

module _ {S : Type 0} (ports : SyncPorts S) where
  unfoldable pub wait : ℕ → CountingSemaphore → S → Bool × CountingSemaphore × S
  wait pid sem s =
      if mem pid sem.pending_grants
      then (true, record sem { pending_grants = set_remove pid sem.pending_grants }, s)
      else if ltb 0 sem.count
      then (true, record sem { count = sem.count - 1 }, s)
      else (
        false,
        record sem { waiting_queue = sem.waiting_queue ++ pid ∷ [] },
        note_semaphore_blocked ports sem.name pid (ports.block_process pid s),
      )

  unfoldable pub signal : ℕ → CountingSemaphore → S → CountingSemaphore × S
  signal pid sem s = elim sem.waiting_queue [
    | [] ↦ (record sem { count = sem.count + 1 }, s)
    | wakee ∷ rest ↦ (
      record sem { waiting_queue = rest; pending_grants = set_add wakee sem.pending_grants },
      note_handoff ports sem.name pid wakee (ports.wake_process wakee s),
    )
  ]
