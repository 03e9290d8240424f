-- ===== src/Simulation/Callbacks/Inheritance.antt =====
-- mini_os_simulator/os_core/simulation.py: the mutex callbacks and the priority of the lock's
-- owner.
use mathlib.Core.Option.{some-injective}
use smart_device_io_t_operat.Prelude.{
  nat_key, ℕ, ◌≡◌, refl, sym, ◌∙◌, ap, inl, inr, ℤ, pos, ◌+ℤ◌, ◌≤ℤ◌, ltb_ℤ, max_ℤ, le-max_ℤ, true,
  some, List, [], ◌∷◌, arith, All, Option-cases, ==_iff, mem, subst, ◌==◌, Bool-cases,
}
use smart_device_io_t_operat.Prelude.Table
use smart_device_io_t_operat.Prelude.Table.{get-modify}
use smart_device_io_t_operat.Process.Pcb.{Pcb, effective_priority}
use smart_device_io_t_operat.Concurrency.SyncPorts.{Lock}
use smart_device_io_t_operat.Concurrency.Locks.{release, give_up, hand_over}
use smart_device_io_t_operat.Simulation.State.{Simulation, pcb_of}
use smart_device_io_t_operat.Simulation.State.Blocks.{pcb_of-update_pcb}
use smart_device_io_t_operat.Simulation.Callbacks.{
  highest_waiter, note_inheritance, recompute_mutex_inheritance, clear_mutex_inheritance_for_holder,
  make_sync_ports,
}

-- `w` is not more urgent than the bound, by its own priority.
abbrev pub IsCovered : Simulation → ℤ → ℕ → Type 0
IsCovered s bound w = (p : Pcb) → pcb_of w s ≡ some p → p.priority +ℤ pos p.aging_bonus ≤ℤ bound

≤ℤ_trans : (a b c : ℤ) → a ≤ℤ b → b ≤ℤ c → a ≤ℤ c
≤ℤ_trans a b c h g = omega arith

highest_waiter_grows : (s : Simulation) (mx : ℤ) (ws : List ℕ) → mx ≤ℤ highest_waiter s mx ws
unfolding highest_waiter
highest_waiter_grows s mx [] = omega arith
highest_waiter_grows s mx (w ∷ ws) = elim (Option-cases (pcb_of w s)) [
  | inl e ↦ rw (e, highest_waiter) (highest_waiter_grows s mx ws)
  | inr (p, e) ↦
      rw (e, highest_waiter)
        (≤ℤ_trans mx (max_ℤ mx (p.priority +ℤ pos p.aging_bonus)) _
          (le-max_ℤ mx (p.priority +ℤ pos p.aging_bonus)).0
          (highest_waiter_grows s (max_ℤ mx (p.priority +ℤ pos p.aging_bonus)) ws))
]

highest_waiter-IsCovered :
    (s : Simulation) (mx bound : ℤ) (ws : List ℕ)
    → highest_waiter s mx ws ≤ℤ bound
    → All (IsCovered s bound) ws
unfolding highest_waiter
highest_waiter-IsCovered s mx bound [] h = tt
highest_waiter-IsCovered s mx bound (w ∷ ws) h = elim (Option-cases (pcb_of w s)) [
  | inl e ↦ (
    λ p f. ground (arith, e, f),
    highest_waiter-IsCovered s mx bound ws (simp (e, highest_waiter) at h),
  )
  | inr (q, e) ↦
      let mx' = max_ℤ mx (q.priority +ℤ pos q.aging_bonus) in
      let rest : highest_waiter s mx' ws ≤ℤ bound = simp (e, highest_waiter) at h in
      (
        λ p f.
            let same : p ≡ q = some-injective p q (sym f ∙ e) in
            rw same (
              ≤ℤ_trans (q.priority +ℤ pos q.aging_bonus) mx' bound
                (le-max_ℤ mx (q.priority +ℤ pos q.aging_bonus)).1
                (≤ℤ_trans mx' (highest_waiter s mx' ws) bound (highest_waiter_grows s mx' ws)
                  rest)),
        highest_waiter-IsCovered s mx' bound ws rest,
      )
]

pub processes-note_inheritance :
    (owner : ℕ) (prev floor : ℤ) (s : Simulation)
    → (note_inheritance owner prev floor s).processes ≡ s.processes
processes-note_inheritance owner prev floor s = ground arith

-- The callback sets the floor of the owner's block to the most urgent waiter's priority.
recompute_floor :
    (lock : Lock) (owner : ℕ) (p : Pcb) (s : Simulation)
    → lock.owner ≡ some owner
    → pcb_of owner s ≡ some p
    → pcb_of owner (recompute_mutex_inheritance lock s)
      ≡ some (record p { mutex_inheritance_floor = highest_waiter s (pos 0) lock.waiting_queue })
unfolding recompute_mutex_inheritance
recompute_floor lock owner p s o e =
    let floor = highest_waiter s (pos 0) lock.waiting_queue in
    simp (o, e, recompute_mutex_inheritance)
      (ap (λ m. Table.get owner m.processes)
          (processes-note_inheritance owner p.mutex_inheritance_floor floor _)
        ∙ pcb_of-update_pcb owner (λ b. record b { mutex_inheritance_floor = floor }) s p e)

-- After the callback on a lock whose owner has a block, that block's floor is not negative, and
-- the floor and the effective priority are at least the priority with aging of every waiter that
-- has a block.
pub recompute-IsCovered :
    (lock : Lock) (owner : ℕ) (p : Pcb) (s : Simulation)
    → lock.owner ≡ some owner
    → pcb_of owner s ≡ some p
    → (p' : Pcb) × (pcb_of owner (recompute_mutex_inheritance lock s) ≡ some p')
      × (pos 0 ≤ℤ p'.mutex_inheritance_floor)
      × All (IsCovered s p'.mutex_inheritance_floor) lock.waiting_queue
      × All (IsCovered s (effective_priority p')) lock.waiting_queue
unfolding effective_priority
recompute-IsCovered lock owner p s o e =
    let floor = highest_waiter s (pos 0) lock.waiting_queue in
    (
      record p { mutex_inheritance_floor = floor },
      recompute_floor lock owner p s o e,
      highest_waiter_grows s (pos 0) lock.waiting_queue,
      highest_waiter-IsCovered s (pos 0) floor lock.waiting_queue (omega arith),
      highest_waiter-IsCovered s (pos 0)
          (effective_priority (record p { mutex_inheritance_floor = floor })) lock.waiting_queue
          (le-max_ℤ (p.priority +ℤ pos p.aging_bonus) floor).1,
    )

-- With inheritance on, a release by the owner of a lock with no waiters sets the floor of the
-- owner's block to 0 and changes nothing else of it, whatever floor another lock that it holds
-- had given it.
release_clears_floor :
    (pid : ℕ) (p : Pcb) (lock : Lock) (s : Simulation)
    → lock.owner ≡ some pid
    → pcb_of pid s ≡ some p
    → lock.waiting_queue ≡ []
    → pcb_of pid (release pid (some (make_sync_ports true)) lock s).2
      ≡ some (record p { mutex_inheritance_floor = pos 0 })
unfolding release give_up hand_over make_sync_ports clear_mutex_inheritance_for_holder
release_clears_floor pid p lock s o e w =
    simp (o, release, (==_iff pid pid).1 refl, w, hand_over)
      (pcb_of-update_pcb pid (λ b. record b { mutex_inheritance_floor = pos 0 }) s p e)

All-mem : (P : ℕ → Type 0) (w : ℕ) (ws : List ℕ) → All P ws → mem w ws ≡ true → P w
All-mem P w [] all h = cc
All-mem P w (v ∷ ws) all h = elim (Bool-cases (v == w)) [
  | inl e ↦ subst P ((==_iff v w).0 e) all.0
  | inr e ↦ All-mem P w ws all.1 (ground (arith, h, e))
]

-- A maximum is below what both are below.
max_ℤ_below : (a b c : ℤ) → ltb_ℤ a c ≡ true → ltb_ℤ b c ≡ true → ltb_ℤ (max_ℤ a b) c ≡ true
unfolding max_ℤ
max_ℤ_below a b c h g = ground arith

-- The priority of a block with aging, without inheritance.
abbrev pub urgency : Pcb → ℤ
urgency p = p.priority +ℤ pos p.aging_bonus

-- When a process owns two locks, one that another waits for, whose priority with aging is
-- positive and above its own, and one that nobody waits for: after inheritance is recomputed for
-- the first, its effective priority is at least that of the waiter; but after it has then
-- released the second, with the simulation's ports and inheritance, its effective priority is
-- below that of the waiter, whatever other processes and locks there are.
pub release_uncovers :
    (pid w : ℕ) (p q : Pcb) (held other : Lock) (s : Simulation)
    → held.owner ≡ some pid
    → mem w held.waiting_queue ≡ true
    → other.owner ≡ some pid
    → other.waiting_queue ≡ []
    → pcb_of pid s ≡ some p
    → pcb_of w s ≡ some q
    → ltb_ℤ (urgency p) (urgency q) ≡ true
    → ltb_ℤ (pos 0) (urgency q) ≡ true
    → let s₁ = recompute_mutex_inheritance held s in
      let s₂ = (release pid (some (make_sync_ports true)) other s₁).2 in
      ((p₁ : Pcb) × (pcb_of pid s₁ ≡ some p₁) × (urgency q ≤ℤ effective_priority p₁))
      × ((p₂ : Pcb) × (pcb_of pid s₂ ≡ some p₂)
          × (ltb_ℤ (effective_priority p₂) (urgency q) ≡ true))
unfolding effective_priority
release_uncovers pid w p q held other s o waits o' quiet e g urgent positive =
    let (p₁, e₁, low, floors, covered) = recompute-IsCovered held pid p s o e in
    let floor = highest_waiter s (pos 0) held.waiting_queue in
    let s₁ = recompute_mutex_inheritance held s in
    let raised = record p { mutex_inheritance_floor = floor } in
    (
      (
        p₁,
        e₁,
        All-mem (IsCovered s (effective_priority p₁)) w held.waiting_queue covered waits q g,
      ),
      (
        record p { mutex_inheritance_floor = pos 0 },
        release_clears_floor pid raised other s₁ o' (recompute_floor held pid p s o e) quiet,
        max_ℤ_below (urgency p) (pos 0) (urgency q) urgent positive,
      ),
    )
