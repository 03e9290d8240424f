-- ===== src/Simulation/Callbacks/Handoffs.antt =====
-- mini_os_simulator/concurrency/semaphore.py and mini_os_simulator/filesystem/file_system.py with
-- the ports of mini_os_simulator/os_core/simulation.py: the process that a permit or the lock of a
-- file passes to.
use smart_device_io_t_operat.Prelude.{
  nat_key, path_key, ℕ, ◌≡◌, refl, inl, inr, Bool, true, some, List, [], ◌∷◌, mem, mem-append,
  arith, Bool-cases,
}
use smart_device_io_t_operat.Prelude.Table
use smart_device_io_t_operat.Prelude.Table.{get-modify, same_codes_iff}
use smart_device_io_t_operat.Process.Pcb.{blocked}
use smart_device_io_t_operat.Concurrency.Semaphore.{CountingSemaphore, wait, signal, set_add}
use smart_device_io_t_operat.FileSystem
use smart_device_io_t_operat.FileSystem.{
  Inode, release_exclusive_lock, hand_over, owned_by, grant_next, update,
}
use smart_device_io_t_operat.FileSystem.Paths.{FilePath, normalize_path}
use smart_device_io_t_operat.Simulation.State.{Simulation}
use smart_device_io_t_operat.Simulation.Callbacks.{
  make_sync_ports, make_fs_ports, obs_on_semaphore_signal_handoff,
}
use smart_device_io_t_operat.Simulation.Callbacks.Wakeups.{
  status_of, IsRunnable, sync_wake_process-IsRunnable,
}

mem-set_add : (a : ℕ) (xs : List ℕ) → mem a (set_add a xs) ≡ true
mem-set_add a xs = elim (Bool-cases (mem a xs)) [
  | inl e ↦ rw e e
  | inr e ↦ ground (arith, e, mem-append a xs (a ∷ []))
]

-- With the simulation's ports, with and without inheritance: when a semaphore with waiters is
-- signalled and the first waiter is blocked under its own pid, the others keep their order, the
-- count stays, the waiter is READY and in the ready queue, and a `wait` of it on the semaphore
-- as the signal leaves it, in any state of the simulation, is granted and changes neither the
-- count nor the simulation.
pub signal-IsRunnable :
    (inheritance : Bool) (pid next_pid : ℕ) (rest : List ℕ) (sem : CountingSemaphore)
    (s : Simulation)
    → sem.waiting_queue ≡ next_pid ∷ rest
    → status_of next_pid s ≡ some (next_pid, blocked)
    → let ports = make_sync_ports inheritance in
      let (sem', s') = signal ports pid sem s in
      (sem'.waiting_queue ≡ rest)
      × (sem'.count ≡ sem.count)
      × IsRunnable next_pid s'
      × ((t : Simulation)
          → ((wait ports next_pid sem' t).0 ≡ true)
            × ((wait ports next_pid sem' t).1.count ≡ sem.count)
            × ((wait ports next_pid sem' t).2 ≡ t))
unfolding make_sync_ports signal wait obs_on_semaphore_signal_handoff
signal-IsRunnable b pid next_pid rest sem s w h =
    let v = sync_wake_process-IsRunnable next_pid s h in
    rw (w, signal)
      (
        refl,
        refl,
        record { is_ready = v.is_ready; queued = v.queued },
        λ t. simp (mem-set_add next_pid sem.pending_grants) (refl, refl, refl),
      )

-- With the simulation's ports: when the owner of a file's lock with waiters releases it and the
-- first waiter is blocked under its own pid, that waiter becomes the owner, which the metadata
-- show, the others keep their order, the text stays, and the waiter is READY and in the ready
-- queue.
pub release_exclusive_lock-IsRunnable :
    (pid next_pid : ℕ) (rest : List ℕ) (path : FilePath) (i : Inode) (fs : FileSystem.FileSystem)
    (s : Simulation)
    → Table.get (normalize_path path) fs.files ≡ some i
    → i.lock_owner ≡ some pid
    → i.lock_waiters ≡ next_pid ∷ rest
    → status_of next_pid s ≡ some (next_pid, blocked)
    → let (fs', s') = release_exclusive_lock pid path (some make_fs_ports) fs s in
      ((j : Inode) × (Table.get (normalize_path path) fs'.files ≡ some j)
        × (j.lock_owner ≡ some next_pid)
        × (j.lock_waiters ≡ rest)
        × (j.meta.locked_by ≡ some next_pid)
        × (j.content ≡ i.content))
      × IsRunnable next_pid s'
unfolding release_exclusive_lock hand_over make_fs_ports
release_exclusive_lock-IsRunnable pid next_pid rest path i fs s e o w h =
    let p = normalize_path path in
    let owned : owned_by pid i.lock_owner ≡ true = ground (arith, o) in
    rw (e, release_exclusive_lock)
      (simp (owned, w, hand_over)
        (
          (
            grant_next next_pid rest i,
            ground (
              arith,
              e,
              (same_codes_iff p p).1 refl,
              get-modify p p (grant_next next_pid rest) fs.files,
            ),
            refl,
            refl,
            refl,
            refl,
          ),
          sync_wake_process-IsRunnable next_pid s h,
        ))
