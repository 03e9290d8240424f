-- ===== src/Concurrency/Semaphore/Permits.antt =====
-- mini_os_simulator/concurrency/semaphore.py: the permits over sequences of calls.
use smart_device_io_t_operat.Prelude.{
  ℕ, ◌+◌, ◌≡◌, ◌≢◌, refl, inl, inr, Bool, true, false, not, List, [], ◌∷◌, mem, mem-append,
  Distinct, Distinct-snoc, Distinct-keep, ltb, ◌==◌, if◌then◌else◌, arith, length, length-append,
  Bool-cases,
}
use smart_device_io_t_operat.Concurrency.SyncPorts.{SyncPorts}
use smart_device_io_t_operat.Concurrency.Semaphore.{CountingSemaphore, wait, signal, set_remove}

-- Permits that a `wait` would find: the count, and the grants handed to woken processes.
abbrev pub available : CountingSemaphore → ℕ
available sem = sem.count + length sem.pending_grants

-- A process waits once, holds one grant at most and never both; nobody waits beside a free permit.
pub record IsFair (sem : CountingSemaphore) : Type 0 where
  pub waits_once : Distinct sem.waiting_queue
  pub one_grant : Distinct sem.pending_grants
  pub apart : (k : ℕ) → mem k sem.waiting_queue ≡ true → mem k sem.pending_grants ≡ false
  pub no_idle_permit : sem.waiting_queue ≢ [] → sem.count ≡ 0

mem_removed :
    (a k : ℕ) (xs : List ℕ) → mem k (set_remove a xs) ≡ (if k == a then false else mem k xs)
mem_removed a k [] = ground arith
mem_removed a k (x ∷ xs) = ground (arith, mem_removed a k xs)

removed_absent : (a : ℕ) (xs : List ℕ) → mem a xs ≡ false → set_remove a xs ≡ xs
removed_absent a [] h = refl
removed_absent a (x ∷ xs) h = ground (arith, removed_absent a xs)

length_removed :
    (a : ℕ) (xs : List ℕ) → Distinct xs → mem a xs ≡ true → length (set_remove a xs) + 1 ≡ length xs
length_removed a [] d h = cc
length_removed a (x ∷ xs) d h = ground (arith, length_removed a xs d.1, removed_absent a xs)

module _ {S : Type 0} (ports : SyncPorts S) where
  -- A process that is not already waiting keeps the semaphore fair by a `wait`, which takes one
  -- permit when it returns true and none when it blocks.
  wait-IsFair :
      (pid : ℕ) (sem : CountingSemaphore) (s : S)
      → IsFair sem
      → mem pid sem.waiting_queue ≡ false
      → IsFair (wait ports pid sem s).1
  unfolding wait
  wait-IsFair pid sem s v h = elim (Bool-cases (mem pid sem.pending_grants)) [
    | inl g ↦ rw g (record {
      waits_once = v.waits_once;
      one_grant = Distinct-keep (λ x. not (x == pid)) sem.pending_grants v.one_grant;
      apart = λ k m. ground (arith, mem_removed pid k sem.pending_grants, v.apart k);
      no_idle_permit = v.no_idle_permit;
    })
    | inr g ↦ elim (Bool-cases (ltb 0 sem.count)) [
      | inl c ↦
          rw (g, c)
            (record {
              waits_once = v.waits_once;
              one_grant = v.one_grant;
              apart = v.apart;
              no_idle_permit = λ n. ground (arith, v.no_idle_permit n);
            })
      | inr c ↦
          rw (g, c)
            (record {
              waits_once = Distinct-snoc pid sem.waiting_queue h v.waits_once;
              one_grant = v.one_grant;
              apart = λ k m. ground (arith, mem-append k sem.waiting_queue (pid ∷ []), v.apart k);
              no_idle_permit = λ n. ground arith;
            })
    ]
  ]

  available-wait :
      (pid : ℕ) (sem : CountingSemaphore) (s : S)
      → IsFair sem
      → available (wait ports pid sem s).1 + (if (wait ports pid sem s).0 then 1 else 0)
        ≡ available sem
  unfolding wait
  available-wait pid sem s v = ground (arith, length_removed pid sem.pending_grants v.one_grant)

  signal-IsFair :
      (pid : ℕ) (sem : CountingSemaphore) (s : S) (w : List ℕ)
      → sem.waiting_queue ≡ w
      → IsFair sem
      → IsFair (signal ports pid sem s).0
        × (available (signal ports pid sem s).0 ≡ available sem + 1)
  unfolding signal
  signal-IsFair pid sem s [] e v =
      rw (e, signal)
        (
          record {
            waits_once = v.waits_once;
            one_grant = v.one_grant;
            apart = v.apart;
            no_idle_permit = λ n. absurd (n e);
          },
          omega arith,
        )
  signal-IsFair pid sem s (wakee ∷ rest) e v =
      let once : Distinct (wakee ∷ rest) = rw e at v.waits_once in
      let alone : mem wakee sem.pending_grants ≡ false = v.apart wakee (rw e (ground arith)) in
      rw (e, signal)
        (rw alone (
          record {
            waits_once = once.1;
            one_grant = Distinct-snoc wakee sem.pending_grants alone v.one_grant;
            apart = λ k m.
                ground (arith, mem-append k sem.pending_grants (wakee ∷ []), v.apart k, e, once.0);
            no_idle_permit = λ n. v.no_idle_permit (rw e (λ h. cc));
          },
          omega (arith, length-append sem.pending_grants (wakee ∷ [])),
        ))

pub data Call : Type 0 where
  waits signals : ℕ → Call

module _ {S : Type 0} (ports : SyncPorts S) where
  -- A call, with 1 for a permit taken and 1 for a permit released.
  unfoldable pub step : Call → CountingSemaphore → S → ℕ × ℕ × CountingSemaphore × S
  step (waits pid) sem s =
      let (answer, sem', s') = wait ports pid sem s in (if answer then 1 else 0, 0, sem', s')
  step (signals pid) sem s = let (sem', s') = signal ports pid sem s in (0, 1, sem', s')

  -- The permits taken and released by a sequence of calls, and what they leave.
  unfoldable pub run : List Call → CountingSemaphore → S → ℕ × ℕ × CountingSemaphore × S
  run [] sem s = (0, 0, sem, s)
  run (c ∷ cs) sem s =
      let (taken, released, sem', s') = step c sem s in
      let (taken', released', sem'', s'') = run cs sem' s' in
      (taken + taken', released + released', sem'', s'')

  abbrev pub is_waiting : Call → CountingSemaphore → Bool
  is_waiting (waits pid) sem = mem pid sem.waiting_queue
  is_waiting (signals pid) sem = false

  -- No process calls `wait` while it stands in the queue: it is blocked then.
  unfoldable pub RunnersOnly : List Call → CountingSemaphore → S → Type 0
  RunnersOnly [] sem s = Unit {0}
  RunnersOnly (c ∷ cs) sem s =
      (is_waiting c sem ≡ false) × RunnersOnly cs (step c sem s).2 (step c sem s).3

  step_conserves :
      (c : Call) (sem : CountingSemaphore) (s : S)
      → IsFair sem
      → is_waiting c sem ≡ false
      → IsFair (step c sem s).2
        × (available (step c sem s).2 + (step c sem s).0 ≡ available sem + (step c sem s).1)
  unfolding step
  step_conserves (waits pid) sem s v h =
      (wait-IsFair ports pid sem s v h, omega (arith, available-wait ports pid sem s v))
  step_conserves (signals pid) sem s v h =
      let (fair, more) = signal-IsFair ports pid sem s sem.waiting_queue refl v in
      (fair, omega (arith, more))

  -- Over any calls in which no waiting process calls `wait`, from a fair semaphore: the permits
  -- taken and those still available are together the ones at the start and those signalled; no
  -- process waits twice, holds two grants or waits while holding one, and nobody waits while the
  -- count is positive.
  pub run_conserves :
      (cs : List Call) (sem : CountingSemaphore) (s : S)
      → IsFair sem
      → RunnersOnly cs sem s
      → IsFair (run cs sem s).2
        × (available (run cs sem s).2 + (run cs sem s).0 ≡ available sem + (run cs sem s).1)
  unfolding run RunnersOnly
  run_conserves [] sem s v b = (v, omega arith)
  run_conserves (c ∷ cs) sem s v b =
      let (fair, here) = step_conserves c sem s v b.0 in
      let (end, there) = run_conserves cs (step c sem s).2 (step c sem s).3 fair b.1 in
      (end, omega (arith, here, there))
