-- ===== src/Concurrency/Locks/Line.antt =====
-- mini_os_simulator/concurrency/locks.py: the mutex, with ports, against a line of pids.
use smart_device_io_t_operat.Prelude.{
  ℕ, ◌≡◌, refl, Bool, true, false, Option, none, some, List, [], ◌∷◌, ◌++◌, ◌==◌, ==_iff,
  if◌then◌else◌, arith,
}
use smart_device_io_t_operat.Concurrency.SyncPorts.{Lock, SyncPorts, recompute, clear_holder}
use smart_device_io_t_operat.Concurrency.Locks.{acquire, contend, release, give_up, hand_over}

-- The abstract view: the owner, then the waiters.
abbrev pub line_of : Option ℕ → List ℕ → List ℕ
line_of none waiters = []
line_of (some owner) waiters = owner ∷ waiters

abbrev pub line : Lock → List ℕ
line l = line_of l.owner l.waiting_queue

-- Nobody waits for a lock that is free.
abbrev pub IsServed : Lock → Type 0
IsServed l = l.owner ≡ none → l.waiting_queue ≡ []

pub data Call : Type 0 where
  acquires releases : ℕ → Call

-- The specification on the line: the answer, and the line after the call.
abbrev pub spec_step : Call → List ℕ → Bool × List ℕ
spec_step (acquires pid) [] = (true, pid ∷ [])
spec_step (acquires pid) (h ∷ t) = if h == pid then (true, h ∷ t) else (false, h ∷ t ++ pid ∷ [])
spec_step (releases pid) [] = (false, [])
spec_step (releases pid) (h ∷ t) = if h == pid then (true, t) else (false, h ∷ t)

unfoldable pub spec_run : List Call → List ℕ → List Bool × List ℕ
spec_run [] l = ([], l)
spec_run (c ∷ cs) l =
    let (answer, l') = spec_step c l in
    let (answers, l'') = spec_run cs l' in (answer ∷ answers, l'')

module _ {S : Type 0} (ports : SyncPorts S) where
  unfoldable pub step : Call → Lock → S → Bool × Lock × S
  step (acquires pid) l s = acquire pid (some ports) l s
  step (releases pid) l s = release pid (some ports) l s

  -- The answers of a sequence of calls, and the lock and the owner's state after it.
  unfoldable pub run : List Call → Lock → S → List Bool × Lock × S
  run [] l s = ([], l, s)
  run (c ∷ cs) l s =
      let (answer, l', s') = step c l s in
      let (answers, l'', s'') = run cs l' s' in (answer ∷ answers, l'', s'')

  abbrev Refines : Bool × Lock × S → Bool × List ℕ → Type 0
  Refines r t = (r.0 ≡ t.0) × (line r.1 ≡ t.1) × IsServed r.1

  step-Refines :
      (c : Call) (l : Lock) (s : S) (o : Option ℕ) (w : List ℕ)
      → l.owner ≡ o
      → l.waiting_queue ≡ w
      → IsServed l
      → Refines (step c l s) (spec_step c (line l))
  unfolding step acquire contend release give_up hand_over
  step-Refines (acquires pid) l s none w e f v = ground (arith, e, f, v e)
  step-Refines (acquires pid) l s (some o) w e f v = ground (arith, e, f)
  step-Refines (releases pid) l s none w e f v = ground (arith, e, f, v e)
  step-Refines (releases pid) l s (some o) [] e f v = ground (arith, e, f)
  step-Refines (releases pid) l s (some o) (h ∷ t) e f v = ground (arith, e, f)

  -- Over any acquisitions and releases with ports, of a mutex that is not free while somebody
  -- waits, the answers are those of a single line of pids whose head holds the mutex; the owner
  -- and then the waiters are that line, and the mutex is still not free while somebody waits.
  pub run-Refines :
      (cs : List Call) (l : Lock) (s : S)
      → IsServed l
      → ((run cs l s).0 ≡ (spec_run cs (line l)).0)
        × (line (run cs l s).1 ≡ (spec_run cs (line l)).1)
        × IsServed (run cs l s).1
  unfolding run spec_run
  run-Refines [] l s v = (refl, refl, v)
  run-Refines (c ∷ cs) l s v =
      let (a, b, w) = step-Refines c l s l.owner l.waiting_queue refl refl v in
      let (p, q, u) = run-Refines cs (step c l s).1 (step c l s).2 w in rw (← b) (cc (a, p), q, u)

  -- With ports, a release by the owner of a lock with waiters makes the longest waiter its owner,
  -- and the owner's state sees, in this order, the releaser's inheritance cleared, the next
  -- owner's computed from the lock that it now holds, and that process woken.
  pub release_hands_over :
      (pid next_pid : ℕ) (rest : List ℕ) (l : Lock) (s : S)
      → l.owner ≡ some pid
      → l.waiting_queue ≡ next_pid ∷ rest
      → let l' = record l { owner = some next_pid; waiting_queue = rest } in
        release pid (some ports) l s
        ≡ (true, l', ports.wake_process next_pid (recompute ports l' (clear_holder ports pid s)))
  unfolding release give_up hand_over
  release_hands_over pid next_pid rest l s e f =
      rw (e, release) (rw ((==_iff pid pid).1 refl) (rw (f, hand_over) refl))
