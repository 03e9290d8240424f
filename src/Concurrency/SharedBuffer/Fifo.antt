-- ===== src/Concurrency/SharedBuffer/Fifo.antt =====
-- mini_os_simulator/concurrency/shared_buffer.py: sequences of calls and the items that go in
-- and come out.
use smart_device_io_t_operat.Prelude.{
  ◌≤◌, ◌≡◌, ◌↔◌, refl, ◌⊎◌, inl, inr, List, [], ◌∷◌, ◌++◌, length, length-append, leb, arith,
  Bool-cases, leb→le, ap, sym, ◌∙◌,
}
use mathlib.Core.List.{append_assoc}
use smart_device_io_t_operat.Concurrency.SharedBuffer.{
  SharedBuffer, Result, ok, raise, full, empty, produce, consume,
}

pub data Call {ℓ} (T : Type ℓ) : Type ℓ where
  produces : T → Call T
  consumes : Call T

module _ {ℓ} {T : Type ℓ} where
  -- The buffer after a call, with the items that went in and the items that came out so far. A
  -- call that raises leaves all three as they were.
  abbrev after_produce :
      T
      → Result (SharedBuffer T)
      → List T × List T × SharedBuffer T
      → List T × List T × SharedBuffer T
  after_produce item (ok b') (put, got, b) = (put ++ item ∷ [], got, b')
  after_produce item (raise e) (put, got, b) = (put, got, b)

  abbrev after_consume :
      Result (T × SharedBuffer T)
      → List T × List T × SharedBuffer T
      → List T × List T × SharedBuffer T
  after_consume (ok (item, b')) (put, got, b) = (put, got ++ item ∷ [], b')
  after_consume (raise e) (put, got, b) = (put, got, b)

  unfoldable pub step : Call T → List T × List T × SharedBuffer T → List T × List T × SharedBuffer T
  step (produces item) (put, got, b) = after_produce item (produce item b) (put, got, b)
  step consumes (put, got, b) = after_consume (consume b) (put, got, b)

  unfoldable pub run :
      List (Call T) → List T × List T × SharedBuffer T → List T × List T × SharedBuffer T
  run [] h = h
  run (c ∷ cs) h = run cs (step c h)

  -- What went in is what came out, followed by what is still held, which fits the capacity.
  pub record IsFifo (h : List T × List T × SharedBuffer T) : Type ℓ where
    pub order : h.0 ≡ h.1 ++ h.2.items
    pub fits : length h.2.items ≤ h.2.capacity

  consume_cases :
      (b : SharedBuffer T) (items : List T)
      → b.items ≡ items
      → (b.items ≡ []) × (consume b ≡ raise empty)
        ⊎ (item : T) × (rest : List T) × (b.items ≡ item ∷ rest)
          × (consume b ≡ ok (item, record b { items = rest }))
  unfolding consume
  consume_cases b [] e = inl (e, rw (e, consume) refl)
  consume_cases b (item ∷ rest) e = inr (item, rest, e, rw (e, consume) refl)

  step-IsFifo : (c : Call T) (h : List T × List T × SharedBuffer T) → IsFifo h → IsFifo (step c h)
  unfolding step produce
  step-IsFifo (produces item) (put, got, b) v =
      elim (Bool-cases (leb b.capacity (length b.items))) [
        | inl e ↦ rw (e, produce) v
        | inr e ↦
            rw (e, produce)
              (record {
                order = rw v.order (append_assoc got b.items (item ∷ []));
                fits = ground (arith, length-append b.items (item ∷ []), v.fits);
              })
      ]
  step-IsFifo consumes (put, got, b) v = elim (consume_cases b b.items refl) [
    | inl (e, r) ↦ rw r v
    | inr (item, rest, e, r) ↦ rw r (record {
      order = v.order ∙ ap (◌++◌ got) e ∙ sym (append_assoc got (item ∷ []) rest);
      fits = ground (arith, v.fits, e);
    })
  ]

  -- Over any calls, those that raise included, the items that went in are those that came out,
  -- in order, followed by those that the buffer holds, and these fit its capacity, if that was
  -- so at the start.
  pub run-IsFifo :
      (cs : List (Call T)) (h : List T × List T × SharedBuffer T) → IsFifo h → IsFifo (run cs h)
  unfolding run
  run-IsFifo [] h v = v
  run-IsFifo (c ∷ cs) h v = run-IsFifo cs (step c h) (step-IsFifo c h v)

  -- `produce` raises exactly when the buffer is full, and `consume` exactly when it is empty.
  pub raises_iff :
      (item : T) (b : SharedBuffer T)
      → ((produce item b ≡ raise full) ↔ (b.capacity ≤ length b.items))
        × ((consume b ≡ raise empty) ↔ (b.items ≡ []))
  unfolding produce
  raises_iff item b = (
    elim (Bool-cases (leb b.capacity (length b.items))) [
      | inl e ↦ rw (e, produce) (λ _. leb→le _ _ e, λ _. refl)
      | inr e ↦ rw (e, produce) (λ h. cc, λ h. ground arith)
    ],
    elim (consume_cases b b.items refl) [
      | inl (e, r) ↦ rw r (λ _. e, λ _. refl)
      | inr (item', rest, e, r) ↦ rw r (λ h. cc, λ h. cc)
    ],
  )
