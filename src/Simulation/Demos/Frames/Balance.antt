-- ===== src/Simulation/Demos/Frames/Balance.antt =====
-- mini_os_simulator/os_core/simulation.py, `produce_frame` and `consume_frame`: the buffer, its
-- semaphores and its mutex together, over any calls.
use smart_device_io_t_operat.Prelude.{
  ℕ, suc, ◌+◌, ◌≤◌, ◌<◌, ◌≡◌, refl, ap, ◌⊎◌, inl, inr, String, true, false, not, none, some, List,
  [], ◌∷◌, ◌++◌, length, length-append, length-keep, mem, ==_iff, ◌==◌, arith, Bool-cases,
}
use smart_device_io_t_operat.Concurrency.SyncPorts.{Lock, SyncPorts, clear_holder}
use smart_device_io_t_operat.Concurrency.Locks.{acquire, release, give_up, hand_over}
use smart_device_io_t_operat.Concurrency.Semaphore.{
  CountingSemaphore, wait, signal, set_add, set_remove,
}
use smart_device_io_t_operat.Concurrency.SharedBuffer.{SharedBuffer, Result, produce, consume}
use smart_device_io_t_operat.Simulation.State.{Simulation}
use smart_device_io_t_operat.Simulation.Demos.{
  Answer, ok, assertion_error, value_error, no_tick, runtime_error,
}
use smart_device_io_t_operat.Simulation.Demos.Frames.{
  Desk, wait_empty, wait_full, store_frame, fetch_frame, produce_frame, consume_frame,
}

-- The permits that a semaphore can still give.
abbrev pub permits : CountingSemaphore → ℕ
permits sem = sem.count + length sem.pending_grants

length-set_remove : (a : ℕ) (xs : List ℕ) → mem a xs ≡ true → length (set_remove a xs) < length xs
length-set_remove a [] h = cc
length-set_remove a (x ∷ xs) h =
    ground (arith, length-set_remove a xs, length-keep (λ y. not (y == a)) xs)

length-set_add : (a : ℕ) (xs : List ℕ) → length (set_add a xs) ≤ length xs + 1
length-set_add a xs = ground (arith, length-append xs (a ∷ []))

module _ {S : Type 0} (ports : SyncPorts S) (pid : ℕ) (sem : CountingSemaphore) (s : S) where
  wait-permits :
      (wait ports pid sem s).0 ≡ true → suc (permits (wait ports pid sem s).1) ≤ permits sem
  unfolding wait
  wait-permits h = ground (arith, length-set_remove pid sem.pending_grants)

  wait_blocks-permits :
      (wait ports pid sem s).0 ≡ false → permits (wait ports pid sem s).1 ≡ permits sem
  unfolding wait
  wait_blocks-permits h = ground arith

  signal-permits : permits (signal ports pid sem s).0 ≤ permits sem + 1
  unfolding signal
  signal-permits = by_queue sem.waiting_queue refl
    where
      by_queue :
          (q : List ℕ)
          → sem.waiting_queue ≡ q
          → permits (signal ports pid sem s).0 ≤ permits sem + 1
      by_queue [] e = simp (e, signal) (omega arith)
      by_queue (w ∷ rest) e = simp (e, signal) (omega (arith, length-set_add w sem.pending_grants))

-- Nobody holds or awaits the mutex.
pub record IsFree (lock : Lock) : Type 0 where
  pub no_owner : lock.owner ≡ none
  pub no_waiter : lock.waiting_queue ≡ []

-- Each item of the buffer has a permit of `full`, each free place one of `empty`, at most.
pub record IsBalanced (d : Desk) : Type 0 where
  pub mutex_free : IsFree d.mtx
  pub room : length d.buf.items + permits d.empty ≤ d.buf.capacity
  pub stock : permits d.full ≤ length d.buf.items

-- A script that only an `assert` may stop.
abbrev pub NoException : {A : Type 0} → Answer A → Type 0
NoException (ok a) = Unit {0}
NoException assertion_error = Unit {0}
NoException value_error = ⊥
NoException no_tick = ⊥
NoException (runtime_error e) = ⊥

-- What `produce_frame` does to the buffer: all or nothing, and then an assertion has failed.
abbrev pub Stores : String → Desk → Answer (Unit {0}) × Desk → Type 0
Stores tag d r =
    (r.0 ≡ ok tt) × (r.1.buf ≡ record d.buf { items = d.buf.items ++ tag ∷ [] })
    ⊎ (r.0 ≡ assertion_error) × (r.1.buf ≡ d.buf)

-- What `consume_frame` does to it.
abbrev pub Fetches : Desk → Answer String × Desk → Type 0
Fetches d r =
    ((item : String) × (r.0 ≡ ok item) × (d.buf ≡ record r.1.buf { items = item ∷ r.1.buf.items }))
    ⊎ (r.0 ≡ assertion_error) × (r.1.buf ≡ d.buf)

module _ (ports : SyncPorts Simulation) (pid : ℕ) where
  acquire_free :
      (l : Lock) (s : Simulation)
      → IsFree l
      → acquire pid (some ports) l s ≡ (true, record l { owner = some pid }, s)
  unfolding acquire
  acquire_free l s v = simp (v.no_owner, acquire) refl

  release_own :
      (l : Lock) (s : Simulation)
      → IsFree l
      → release pid (some ports) (record l { owner = some pid }) s
        ≡ (true, record l { owner = none }, clear_holder ports pid s)
  unfolding release give_up hand_over
  release_own l s v = simp ((==_iff pid pid).1 refl, v.no_waiter, release, hand_over) refl

  produce_room :
      (tag : String) (b : SharedBuffer String)
      → length b.items < b.capacity
      → produce tag b ≡ Result.ok (record b { items = b.items ++ tag ∷ [] })
  unfolding produce
  produce_room tag b h = ground (arith, h)

  consume_first :
      (x : String) (xs : List String) (b : SharedBuffer String)
      → b.items ≡ x ∷ xs
      → consume b ≡ Result.ok (x, record b { items = xs })
  unfolding consume
  consume_first x xs b e = simp (e, consume) refl

  -- After a wait on `empty` that has taken a permit.
  store_frame_lem :
      (tag : String) (d : Desk)
      → IsFree d.mtx
      → suc (length d.buf.items + permits d.empty) ≤ d.buf.capacity
      → permits d.full ≤ length d.buf.items
      → ((store_frame ports pid tag d).0 ≡ ok tt)
        × ((store_frame ports pid tag d).1.buf ≡ record d.buf { items = d.buf.items ++ tag ∷ [] })
        × IsBalanced (store_frame ports pid tag d).1
  unfolding store_frame
  store_frame_lem tag d free room stock =
      let s₁ = clear_holder ports pid d.sim in
      simp
        (
          acquire_free d.mtx d.sim free,
          produce_room tag d.buf (omega arith),
          release_own d.mtx d.sim free,
        )
        (
          refl,
          refl,
          record {
            mutex_free = record { no_owner = refl; no_waiter = free.no_waiter };
            room = omega (arith, length-append {0} d.buf.items (tag ∷ []));
            stock = omega (
              arith,
              length-append {0} d.buf.items (tag ∷ []),
              signal-permits ports pid d.full s₁,
            );
          },
        )

  -- After a wait on `full` that has taken a permit.
  fetch_frame_lem :
      (d : Desk)
      → IsFree d.mtx
      → length d.buf.items + permits d.empty ≤ d.buf.capacity
      → suc (permits d.full) ≤ length d.buf.items
      → let r = fetch_frame ports pid d in
        ((item : String) × (r.0 ≡ ok item)
          × (d.buf ≡ record r.1.buf { items = item ∷ r.1.buf.items }))
        × IsBalanced r.1
  unfolding fetch_frame
  fetch_frame_lem d free room stock = by_items d.buf.items refl
    where
      by_items :
          (xs : List String)
          → d.buf.items ≡ xs
          → let r = fetch_frame ports pid d in
            ((item : String) × (r.0 ≡ ok item)
              × (d.buf ≡ record r.1.buf { items = item ∷ r.1.buf.items }))
            × IsBalanced r.1
      by_items [] e = absurd (omega (arith, ap length e))
      by_items (x ∷ xs) e =
          let s₁ = clear_holder ports pid d.sim in
          simp
            (
              acquire_free d.mtx d.sim free,
              consume_first x xs d.buf e,
              release_own d.mtx d.sim free,
            )
            (
              (x, refl, ground (arith, e)),
              record {
                mutex_free = record { no_owner = refl; no_waiter = free.no_waiter };
                room = omega (arith, ap length e, signal-permits ports pid d.empty s₁);
                stock = omega (arith, ap length e);
              },
            )

  pub produce_frame_lem :
      (tag : String) (d : Desk)
      → IsBalanced d
      → IsBalanced (produce_frame ports pid tag d).1 × Stores tag d (produce_frame ports pid tag d)
  unfolding produce_frame wait_empty
  produce_frame_lem tag d v = elim (Bool-cases (wait ports pid d.empty d.sim).0) [
    | inl h ↦
        let (done, stored, w) =
          store_frame_lem tag (wait_empty ports pid d).1 v.mutex_free
            (omega (arith, v.room, wait-permits ports pid d.empty d.sim h)) v.stock in
        simp h (w, inl (done, stored))
    | inr h ↦ simp h (
      record {
        mutex_free = v.mutex_free;
        room = omega (arith, v.room, wait_blocks-permits ports pid d.empty d.sim h);
        stock = v.stock;
      },
      inr (refl, refl),
    )
  ]

  pub consume_frame_lem :
      (d : Desk)
      → IsBalanced d
      → IsBalanced (consume_frame ports pid d).1 × Fetches d (consume_frame ports pid d)
  unfolding consume_frame wait_full
  consume_frame_lem d v = elim (Bool-cases (wait ports pid d.full d.sim).0) [
    | inl h ↦
        let (fetched, w) =
          fetch_frame_lem (wait_full ports pid d).1 v.mutex_free v.room
            (omega (arith, v.stock, wait-permits ports pid d.full d.sim h)) in
        simp h (w, inl fetched)
    | inr h ↦ simp h (
      record {
        mutex_free = v.mutex_free;
        room = v.room;
        stock = omega (arith, v.stock, wait_blocks-permits ports pid d.full d.sim h);
      },
      inr (refl, refl),
    )
  ]
