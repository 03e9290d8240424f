-- ===== src/Concurrency/SyncPorts.antt =====
-- mini_os_simulator/concurrency/sync_ports.py, and the fields of `Lock` that its callbacks read.
-- A callback acts on a state `S` of its owner; `log_scheduler` only prints and is left out.
use smart_device_io_t_operat.Prelude.{ℕ, String, Option, none, some, List}

pub record Lock : Type 0 where
  pub name : String
  pub owner : Option ℕ
  pub waiting_queue : List ℕ

pub record SyncPorts (S : Type 0) : Type 0 where
  pub block_process : ℕ → S → S
  pub wake_process : ℕ → S → S
  pub recompute_mutex_inheritance : Option (Lock → S → S)
  pub clear_mutex_inheritance_for_holder : Option (ℕ → S → S)
  pub on_semaphore_blocked : Option (String → ℕ → S → S)
  pub on_semaphore_signal_handoff : Option (String → ℕ → ℕ → S → S)
  pub on_mutex_blocked : Option (String → ℕ → ℕ → S → S)

module _ {S : Type 0} (ports : SyncPorts S) where
  abbrev pub recompute : Lock → S → S
  recompute lock s = elim ports.recompute_mutex_inheritance [ none ↦ s | some f ↦ f lock s ]

  abbrev pub clear_holder : ℕ → S → S
  clear_holder pid s = elim ports.clear_mutex_inheritance_for_holder [ none ↦ s | some f ↦ f pid s ]

  abbrev pub note_semaphore_blocked : String → ℕ → S → S
  note_semaphore_blocked name pid s = elim ports.on_semaphore_blocked [
    | none ↦ s
    | some f ↦ f name pid s
  ]

  abbrev pub note_handoff : String → ℕ → ℕ → S → S
  note_handoff name signaler wakee s = elim ports.on_semaphore_signal_handoff [
    | none ↦ s
    | some f ↦ f name signaler wakee s
  ]

  abbrev pub note_mutex_blocked : String → ℕ → ℕ → S → S
  note_mutex_blocked name waiter owner s = elim ports.on_mutex_blocked [
    | none ↦ s
    | some f ↦ f name waiter owner s
  ]
