-- ===== src/Examples/Locking.antt =====
-- A mutex, a semaphore and a bounded buffer, with calls on them.
use smart_device_io_t_operat.Prelude.{ℕ, ◌+◌, ◌≡◌, refl, none, List, [], ◌∷◌, arith}
use smart_device_io_t_operat.Concurrency.SyncPorts.{SyncPorts}
use smart_device_io_t_operat.Concurrency.Locks.{new_lock}
use smart_device_io_t_operat.Concurrency.Locks.Line
use smart_device_io_t_operat.Concurrency.Locks.Line.{
  acquires, releases, line, spec_run, IsServed, run-Refines,
}
use smart_device_io_t_operat.Concurrency.Semaphore.{CountingSemaphore, new_semaphore, wait, signal}
use smart_device_io_t_operat.Concurrency.Semaphore.Permits
use smart_device_io_t_operat.Concurrency.Semaphore.Permits.{
  waits, signals, IsFair, RunnersOnly, available, run_conserves,
}
use smart_device_io_t_operat.Concurrency.SharedBuffer.{SharedBuffer}
use smart_device_io_t_operat.Concurrency.SharedBuffer.Fifo
use smart_device_io_t_operat.Concurrency.SharedBuffer.Fifo.{
  produces, consumes, IsFifo, run-IsFifo, raises_iff,
}

-- Ports of an owner that keeps the pids that were woken.
abbrev pub waking_ports : SyncPorts (List ℕ)
waking_ports = record {
  block_process = λ pid s. s;
  wake_process = λ pid s. pid ∷ s;
  recompute_mutex_inheritance = none;
  clear_mutex_inheritance_for_holder = none;
  on_semaphore_blocked = none;
  on_semaphore_signal_handoff = none;
  on_mutex_blocked = none;
}

abbrev pub lock_calls : List Line.Call
lock_calls = acquires 1 ∷ acquires 2 ∷ acquires 3 ∷ releases 2 ∷ releases 1 ∷ []

run-Refines_example :
    ((Line.run waking_ports lock_calls (new_lock "mutex") []).0 ≡ (spec_run lock_calls []).0)
    × (line (Line.run waking_ports lock_calls (new_lock "mutex") []).1 ≡ (spec_run lock_calls []).1)
    × IsServed (Line.run waking_ports lock_calls (new_lock "mutex") []).1
run-Refines_example = run-Refines waking_ports lock_calls (new_lock "mutex") [] (λ h. refl)

-- The lock is with 2 in the end, and 3 still waits.
lock_handed : (spec_run lock_calls []).1 ≡ 2 ∷ 3 ∷ []
unfolding spec_run
lock_handed = refl

abbrev pub semaphore : CountingSemaphore
semaphore = new_semaphore "slots" 1

abbrev pub semaphore_calls : List Permits.Call
semaphore_calls = waits 1 ∷ waits 2 ∷ waits 3 ∷ signals 1 ∷ waits 2 ∷ []

semaphore-IsFair : IsFair semaphore
semaphore-IsFair = record {
  waits_once = tt;
  one_grant = tt;
  apart = λ k h. cc;
  no_idle_permit = λ h. elim (h refl) [ ];
}

semaphore_runners : RunnersOnly waking_ports semaphore_calls semaphore []
unfolding RunnersOnly Permits.step wait signal
semaphore_runners = (refl, (refl, (refl, (refl, (refl, tt)))))

run_conserves_example :
    IsFair (Permits.run waking_ports semaphore_calls semaphore []).2
    × (available (Permits.run waking_ports semaphore_calls semaphore []).2
          + (Permits.run waking_ports semaphore_calls semaphore []).0
        ≡ available semaphore + (Permits.run waking_ports semaphore_calls semaphore []).1)
run_conserves_example =
    run_conserves waking_ports semaphore_calls semaphore [] semaphore-IsFair semaphore_runners

-- Two of the three waits got a permit.
two_taken : (Permits.run waking_ports semaphore_calls semaphore []).0 ≡ 2
unfolding Permits.run Permits.step wait signal
two_taken = refl

abbrev pub buffer : SharedBuffer ℕ
buffer = record { name = "frames"; capacity = 2; items = [] }

abbrev pub buffer_calls : List (Fifo.Call ℕ)
buffer_calls = produces 10 ∷ produces 20 ∷ produces 30 ∷ consumes ∷ produces 40 ∷ []

run-IsFifo_example : IsFifo (Fifo.run buffer_calls ([], [], buffer))
run-IsFifo_example =
    run-IsFifo buffer_calls ([], [], buffer) (record { order = refl; fits = omega arith })
