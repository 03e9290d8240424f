-- ===== src/Concurrency/Locks.antt =====
-- mini_os_simulator/concurrency/locks.py: a mutex with FIFO waiters.
pub mod Line
use smart_device_io_t_operat.Prelude.{
  ℕ, String, Bool, true, false, Option, none, some, List, [], ◌∷◌, ◌++◌, ◌==◌, if◌then◌else◌,
}
use smart_device_io_t_operat.Concurrency.SyncPorts.{
  Lock, SyncPorts, recompute, clear_holder, note_mutex_blocked,
}

abbrev pub new_lock : String → Lock
new_lock name = record { name = name; owner = none; waiting_queue = [] }

module _ {S : Type 0} where
  -- The end of `acquire`, when `owner` is another process.
  unfoldable pub contend : ℕ → ℕ → Option (SyncPorts S) → Lock → S → Bool × Lock × S
  contend pid owner none lock s = (false, lock, s)
  contend pid owner (some ports) lock s =
      let lock' = record lock { waiting_queue = lock.waiting_queue ++ pid ∷ [] } in
      (
        false,
        lock',
        recompute ports lock'
            (note_mutex_blocked ports lock.name pid owner (ports.block_process pid s)),
      )

  unfoldable pub acquire : ℕ → Option (SyncPorts S) → Lock → S → Bool × Lock × S
  unfolding contend
  acquire pid ports lock s = elim lock.owner [
    | none ↦ (true, record lock { owner = some pid }, s)
    | some owner ↦ if owner == pid then (true, lock, s) else contend pid owner ports lock s
  ]

  -- The hand-over of a lock that has just been given up.
  unfoldable pub hand_over : SyncPorts S → List ℕ → Lock → S → Bool × Lock × S
  hand_over ports [] lock s = (true, lock, s)
  hand_over ports (next_pid ∷ rest) lock s =
      let lock' = record lock { owner = some next_pid; waiting_queue = rest } in
      (true, lock', ports.wake_process next_pid (recompute ports lock' s))

  -- The end of `release`, by the owner.
  unfoldable pub give_up : ℕ → Option (SyncPorts S) → Lock → S → Bool × Lock × S
  unfolding hand_over
  give_up pid none lock s = (true, record lock { owner = none }, s)
  give_up pid (some ports) lock s =
      hand_over ports lock.waiting_queue (record lock { owner = none }) (clear_holder ports pid s)

  unfoldable pub release : ℕ → Option (SyncPorts S) → Lock → S → Bool × Lock × S
  unfolding give_up
  release pid ports lock s = elim lock.owner [
    | none ↦ (false, lock, s)
    | some owner ↦ if owner == pid then give_up pid ports lock s else (false, lock, s)
  ]
