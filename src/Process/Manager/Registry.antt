-- ===== src/Process/Manager/Registry.antt =====
-- mini_os_simulator/process/process_manager.py: the process table over sequences of calls.
use smart_device_io_t_operat.Prelude.{
  nat_key, ℕ, ◌<◌, ◌≤◌, List, [], ◌∷◌, is_some, ◌≡◌, refl, true, Option, some, String, arith,
  Option-cases, inl, inr,
}
use smart_device_io_t_operat.Prelude.Table
use smart_device_io_t_operat.Prelude.Table.{get-put, get-modify}
use smart_device_io_t_operat.Process.Pcb.{ProcessState, Pcb, terminated, post_init}
use smart_device_io_t_operat.Process.Manager
use smart_device_io_t_operat.Process.Manager.{
  ProcessManager, Spec, Hook, create_process, get_process, change_state, terminate, update,
  fresh_pcb,
}

pub record IsRegistry (m : ProcessManager) : Type 0 where
  pub own_pid : (k : ℕ) (p : Pcb) → get_process k m ≡ some p → p.pid ≡ k
  pub below_next : (k : ℕ) (p : Pcb) → get_process k m ≡ some p → k < m.next_pid

pub empty-IsRegistry : IsRegistry Manager.empty
unfolding Table.get
empty-IsRegistry = record { own_pid = λ k p h. cc; below_next = λ k p h. cc }

pub create_process-IsRegistry :
    (name : String) (spec : Spec) (m : ProcessManager)
    → IsRegistry m
    → IsRegistry (create_process name spec m).1
unfolding create_process post_init
create_process-IsRegistry name spec m v = record {
  own_pid = λ k p h.
      ground
        (arith, get-put m.next_pid k (fresh_pcb m.next_pid name spec) m.processes, v.own_pid k p);
  below_next = λ k p h.
      ground (
        arith,
        get-put m.next_pid k (fresh_pcb m.next_pid name spec) m.processes,
        v.below_next k p,
      );
}

pub update-IsRegistry :
    (pid : ℕ) (f : Pcb → Pcb) (m : ProcessManager)
    → ((p : Pcb) → (f p).pid ≡ p.pid)
    → IsRegistry m
    → IsRegistry (update pid f m)
update-IsRegistry pid f m same v = record {
  own_pid = λ k p h. grind (arith, get-modify pid k f m.processes, v.own_pid k, same);
  below_next = λ k p h. grind (arith, get-modify pid k f m.processes, v.below_next k);
}

pub change_state-IsRegistry :
    {S : Type 0} (hook : Option (Hook S)) (pid : ℕ) (st : ProcessState) (m : ProcessManager) (s : S)
    → IsRegistry m
    → IsRegistry (change_state hook pid st m s).1
unfolding change_state
change_state-IsRegistry hook pid st m s v =
    let kept = update-IsRegistry pid (λ p. record p { state = st }) m (λ p. refl) v in
    elim (Option-cases (get_process pid m)) [
      | inl e ↦ rw (e, change_state) v
      | inr (p, e) ↦ rw (e, change_state) kept
    ]

pub terminate-IsRegistry :
    (pid : ℕ) (m : ProcessManager) → IsRegistry m → IsRegistry (terminate pid m).1
unfolding terminate
terminate-IsRegistry pid m v =
    let kept = update-IsRegistry pid (λ p. record p { state = terminated }) m (λ p. refl) v in
    elim (Option-cases (get_process pid m)) [
      | inl e ↦ rw (e, terminate) v
      | inr (p, e) ↦ rw (e, terminate) kept
    ]

-- The calls that change the table.
pub data Command : Type 0 where
  creates : String → Spec → Command
  changes : ℕ → ProcessState → Command
  terminates : ℕ → Command

module _ {S : Type 0} (hook : Option (Hook S)) where
  unfoldable pub obey : Command → ProcessManager → S → ProcessManager × S
  obey (creates name spec) m s = ((create_process name spec m).1, s)
  obey (changes pid st) m s = let (found, m', s') = change_state hook pid st m s in (m', s')
  obey (terminates pid) m s = ((terminate pid m).1, s)

  unfoldable pub obey_all : List Command → ProcessManager → S → ProcessManager × S
  obey_all [] m s = (m, s)
  obey_all (c ∷ cs) m s = let (m', s') = obey c m s in obey_all cs m' s'

  -- The pid `k` still has a block, and no pid is given out again.
  abbrev Keeps : ProcessManager → ProcessManager → Type 0
  Keeps m m' =
      ((k : ℕ) → is_some (get_process k m) ≡ true → is_some (get_process k m') ≡ true)
      × (m.next_pid ≤ m'.next_pid)

  Keeps-update : (pid : ℕ) (f : Pcb → Pcb) (m : ProcessManager) → Keeps m (update pid f m)
  Keeps-update pid f m = (λ k h. ground (arith, get-modify pid k f m.processes), omega arith)

  obey-Keeps : (c : Command) (m : ProcessManager) (s : S) → Keeps m (obey c m s).0
  unfolding obey create_process change_state terminate
  obey-Keeps (creates name spec) m s = (
    λ k h. ground (arith, get-put m.next_pid k (fresh_pcb m.next_pid name spec) m.processes),
    omega arith,
  )
  obey-Keeps (changes pid st) m s = elim (Option-cases (get_process pid m)) [
    | inl e ↦ rw (e, change_state) (λ k h. h, omega arith)
    | inr (p, e) ↦ rw (e, change_state) (Keeps-update pid (λ b. record b { state = st }) m)
  ]
  obey-Keeps (terminates pid) m s = elim (Option-cases (get_process pid m)) [
    | inl e ↦ rw (e, terminate) (λ k h. h, omega arith)
    | inr (p, e) ↦ rw (e, terminate) (Keeps-update pid (λ b. record b { state = terminated }) m)
  ]

  obey-IsRegistry :
      (c : Command) (m : ProcessManager) (s : S) → IsRegistry m → IsRegistry (obey c m s).0
  unfolding obey
  obey-IsRegistry (creates name spec) m s v = create_process-IsRegistry name spec m v
  obey-IsRegistry (changes pid st) m s v = change_state-IsRegistry hook pid st m s v
  obey-IsRegistry (terminates pid) m s v = terminate-IsRegistry pid m v

  -- Over any creations, state changes and terminations, with any hook, from a table in which
  -- each block stands under its own pid and below the next pid: that stays so, a pid that had a
  -- block still has one, and the next pid never goes down.
  pub obey_all-IsRegistry :
      (cs : List Command) (m : ProcessManager) (s : S)
      → IsRegistry m
      → IsRegistry (obey_all cs m s).0
        × ((k : ℕ)
            → is_some (get_process k m) ≡ true
            → is_some (get_process k (obey_all cs m s).0) ≡ true)
        × (m.next_pid ≤ (obey_all cs m s).0.next_pid)
  unfolding obey_all
  obey_all-IsRegistry [] m s v = (v, λ k h. h, omega arith)
  obey_all-IsRegistry (c ∷ cs) m s v =
      let (kept, grown) = obey-Keeps c m s in
      let (w, present, more) =
        obey_all-IsRegistry cs (obey c m s).0 (obey c m s).1 (obey-IsRegistry c m s v) in
      (w, λ k h. present k (kept k h), omega (arith, grown, more))
