-- ===== src/Simulation/Demos/Frames/Runs.antt =====
-- mini_os_simulator/os_core/simulation.py, `produce_frame` and `consume_frame`: any sequence of
-- calls.
use smart_device_io_t_operat.Prelude.{
  ℕ, ◌≤◌, ◌≡◌, refl, sym, ◌∙◌, ap, inl, inr, String, List, [], ◌∷◌, ◌++◌, length, All, arith,
}
use smart_device_io_t_operat.Concurrency.SyncPorts.{SyncPorts}
use smart_device_io_t_operat.Simulation.State.{Simulation}
use mathlib.Core.List.{append-nil, append_assoc}
use smart_device_io_t_operat.Simulation.Demos.{and_then, Answer, ok, Action, ◌>>=◌, pure}
use smart_device_io_t_operat.Simulation.Demos.Frames.{Desk, new_desk, produce_frame, consume_frame}
use smart_device_io_t_operat.Simulation.Demos.Frames.Balance.{
  IsFree, IsBalanced, NoException, Stores, Fetches, produce_frame_lem, consume_frame_lem,
}

-- What happens at a desk: a call of either function, or anything that changes the simulation only.
pub data Call : Type 0 where
  produces : ℕ → String → Call
  consumes : ℕ → Call
  elsewhere : (Simulation → Simulation) → Call

-- The frames that a call has stored and those that it has fetched.
abbrev pub Moved : Type 0
Moved = List String × List String

module _ (ports : SyncPorts Simulation) where
  pub step : Call → Action Desk Moved
  step (produces pid tag) = produce_frame ports pid tag >>= λ _. pure (tag ∷ [], [])
  step (consumes pid) = consume_frame ports pid >>= λ item. pure ([], item ∷ [])
  step (elsewhere f) = λ d. (ok ([], []), record d { sim = f d.sim })

  -- A call that an `assert` stops does not keep the next one from being made.
  pub run : List Call → Desk → List (Answer Moved) × Desk
  run [] d = ([], d)
  run (c ∷ cs) d = let (answers, d') = run cs (step c d).1 in ((step c d).0 ∷ answers, d')

abbrev pub moved : Answer Moved → Moved
moved (ok m) = m
moved _ = ([], [])

abbrev pub all_stored : List (Answer Moved) → List String
all_stored [] = []
all_stored (a ∷ rest) = (moved a).0 ++ all_stored rest

abbrev pub all_fetched : List (Answer Moved) → List String
all_fetched [] = []
all_fetched (a ∷ rest) = (moved a).1 ++ all_fetched rest

-- What a call does to a balanced desk.
record Kept (d : Desk) (r : Answer Moved × Desk) : Type 0 where
  no_exception : NoException r.0
  balanced : IsBalanced r.1
  in_order : d.buf.items ++ (moved r.0).0 ≡ (moved r.0).1 ++ r.1.buf.items
  capacity : r.1.buf.capacity ≡ d.buf.capacity

stored-Kept :
    (tag : String) (d : Desk) (r : Answer (Unit {0}) × Desk)
    → IsBalanced r.1
    → Stores tag d r
    → Kept d (and_then r.0 (λ _. pure (tag ∷ [], [])) r.1)
stored-Kept tag d (a, d') w (inl (e, b)) = rw e (record {
  no_exception = tt;
  balanced = w;
  in_order = sym (ap (λ x. x.items) b);
  capacity = ap (λ x. x.capacity) b;
})
stored-Kept tag d (a, d') w (inr (e, b)) = rw e (record {
  no_exception = tt;
  balanced = w;
  in_order = append-nil d.buf.items ∙ sym (ap (λ x. x.items) b);
  capacity = ap (λ x. x.capacity) b;
})

fetched-Kept :
    (d : Desk) (r : Answer String × Desk)
    → IsBalanced r.1
    → Fetches d r
    → Kept d (and_then r.0 (λ item. pure ([], item ∷ [])) r.1)
fetched-Kept d (a, d') w (inl (item, e, b)) = rw e (record {
  no_exception = tt;
  balanced = w;
  in_order = append-nil d.buf.items ∙ ap (λ x. x.items) b;
  capacity = sym (ap (λ x. x.capacity) b);
})
fetched-Kept d (a, d') w (inr (e, b)) = rw e (record {
  no_exception = tt;
  balanced = w;
  in_order = append-nil d.buf.items ∙ sym (ap (λ x. x.items) b);
  capacity = ap (λ x. x.capacity) b;
})

module _ (ports : SyncPorts Simulation) where
  step-Kept : (c : Call) (d : Desk) → IsBalanced d → Kept d (step ports c d)
  unfolding step
  step-Kept (produces pid tag) d v =
      let (w, h) = produce_frame_lem ports pid tag d v in
      stored-Kept tag d (produce_frame ports pid tag d) w h
  step-Kept (consumes pid) d v =
      let (w, h) = consume_frame_lem ports pid d v in fetched-Kept d (consume_frame ports pid d) w h
  step-Kept (elsewhere f) d v = record {
    no_exception = tt;
    balanced = record { mutex_free = v.mutex_free; room = v.room; stock = v.stock };
    in_order = append-nil d.buf.items;
    capacity = refl;
  }

  run-Kept :
      (cs : List Call) (d : Desk)
      → IsBalanced d
      → let (answers, d') = run ports cs d in
        All NoException answers
        × IsBalanced d'
        × (d.buf.items ++ all_stored answers ≡ all_fetched answers ++ d'.buf.items)
        × (d'.buf.capacity ≡ d.buf.capacity)
  unfolding run
  run-Kept [] d v = (tt, v, append-nil d.buf.items, refl)
  run-Kept (c ∷ cs) d v =
      let k = step-Kept c d v in
      let (fine, w, order, cap) = run-Kept cs (step ports c d).1 k.balanced in
      let (answers, d') = run ports cs (step ports c d).1 in
      let m = moved (step ports c d).0 in
      (
        (k.no_exception, fine),
        w,
        sym (append_assoc d.buf.items m.0 (all_stored answers))
            ∙ ap (λ xs. xs ++ all_stored answers) k.in_order
            ∙ append_assoc m.1 (step ports c d).1.buf.items (all_stored answers)
            ∙ ap (λ xs. m.1 ++ xs) order
            ∙ sym (append_assoc m.1 (all_fetched answers) d'.buf.items),
        cap ∙ k.capacity,
      )

-- At a new desk of any capacity, over any calls of the demos' producer and consumer and any
-- actions on the simulation alone, with any ports: no call ends in the buffer's exception, only
-- in an answer or a failed assertion; the frames stored are the frames fetched, in order,
-- followed by those in the buffer, which are at most the capacity; and the mutex is free after
-- each call.
pub run_stays_in_bounds :
    (ports : SyncPorts Simulation) (cs : List Call) (capacity : ℕ) (buffer_name mutex_name : String)
    (s : Simulation)
    → let (answers, d) = run ports cs (new_desk capacity buffer_name mutex_name s) in
      All NoException answers
      × (all_stored answers ≡ all_fetched answers ++ d.buf.items)
      × (length d.buf.items ≤ capacity)
      × IsFree d.mtx
run_stays_in_bounds ports cs capacity buffer_name mutex_name s =
    let (fine, w, order, cap) =
      run-Kept ports cs (new_desk capacity buffer_name mutex_name s) (record {
        mutex_free = record { no_owner = refl; no_waiter = refl };
        room = omega arith;
        stock = omega arith;
      }) in
    (fine, order, omega (arith, w.room, cap), w.mutex_free)
