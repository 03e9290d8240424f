-- ===== src/Observability/Timeline.antt =====
-- mini_os_simulator/os_core/simulation.py, `_obs_record`: the timeline over sequences of calls.
use mathlib.Core.List.{append-nil, append_assoc}
use smart_device_io_t_operat.Prelude.{
  ℕ, zero, suc, ◌+◌, ◌-◌, ◌≤◌, ◌<◌, ◌≡◌, refl, sym, ◌∙◌, ap, inl, inr, String, true, List, [], ◌∷◌,
  ◌++◌, map, length, length-append, length-drop, drop, ltb, arith, Bool-cases,
}
use smart_device_io_t_operat.Observability.{EventCategory, SystemEvent, Observer, obs_record, trim}

drop-append :
    {A : Type 0} (n : ℕ) (xs ys : List A) → n ≤ length xs → drop n (xs ++ ys) ≡ drop n xs ++ ys
drop-append zero xs ys h = refl
drop-append (suc n) [] ys h = ground arith
drop-append (suc n) (x ∷ xs) ys h = drop-append n xs ys (omega arith)

drop-nil : {A : Type 0} (n : ℕ) → drop {A = A} n [] ≡ []
drop-nil zero = refl
drop-nil (suc n) = refl

drop-drop : {A : Type 0} (m n : ℕ) (xs : List A) → drop m (drop n xs) ≡ drop (n + m) xs
drop-drop m zero xs = ap (λ k. drop k xs) (omega arith)
drop-drop m (suc n) [] = drop-nil m ∙ sym (drop-nil (suc n + m))
drop-drop m (suc n) (x ∷ xs) =
    let shift : suc (n + m) ≡ suc n + m = omega arith in
    drop-drop m n xs ∙ ap (λ k. drop k (x ∷ xs)) shift

-- The last `n` entries.
abbrev pub last_of {ℓ} : {A : Type ℓ} → ℕ → List A → List A
last_of n xs = drop (length xs - n) xs

-- Cutting to the last `n` entries before more are put behind changes nothing.
last_of-append :
    {A : Type 0} (n : ℕ) (xs ys : List A) → last_of n (last_of n xs ++ ys) ≡ last_of n (xs ++ ys)
last_of-append n xs ys =
    let k = length xs - n in
    let joined : drop k (xs ++ ys) ≡ drop k xs ++ ys = drop-append k xs ys (omega arith) in
    let amount : k + (length (drop k xs ++ ys) - n) ≡ length (xs ++ ys) - n =
      omega (arith, length-append (drop k xs) ys, length-append xs ys, length-drop k xs) in
    ap (drop (length (drop k xs ++ ys) - n)) (sym joined)
    ∙ drop-drop (length (drop k xs ++ ys) - n) k (xs ++ ys)
    ∙ ap (λ d. drop d (xs ++ ys)) amount

-- The arguments of a call of `_obs_record`.
pub record Report : Type 0 where
  pub tick : ℕ
  pub category : EventCategory
  pub event_type : String
  pub related_pids : List ℕ

abbrev pub event_of : Report → SystemEvent
event_of r = record {
  tick = r.tick;
  category = r.category;
  event_type = r.event_type;
  related_pids = r.related_pids;
}

unfoldable pub record_all : List Report → Observer → Observer
record_all [] o = o
record_all (r ∷ rs) o = record_all rs (obs_record r.tick r.category r.event_type r.related_pids o)

trim-last_of : (n : ℕ) (xs : List SystemEvent) → 0 < n → trim n xs ≡ last_of n xs
unfolding trim
trim-last_of n xs h = elim (Bool-cases (ltb n (length xs))) [
  | inl e ↦ ground (arith, e)
  | inr e ↦ let none_over : length xs - n ≡ 0 = ground (arith, e) in ground (arith, e, none_over)
]

-- With recording on, a positive bound and a timeline within it, any number of calls of
-- `_obs_record` leave the last events of the old timeline followed by the new ones, in order, as
-- many as the bound allows.
pub record_all-last_of :
    (rs : List Report) (o : Observer)
    → o.record_system_events ≡ true
    → 0 < o.timeline_max_events
    → length o.system_events ≤ o.timeline_max_events
    → ((record_all rs o).system_events
        ≡ last_of o.timeline_max_events (o.system_events ++ map event_of rs))
      × (length (record_all rs o).system_events ≤ o.timeline_max_events)
unfolding record_all obs_record
record_all-last_of [] o on some_room fits =
    let whole : 0 ≡ length o.system_events - o.timeline_max_events = omega arith in
    (rw (append-nil o.system_events) (ap (λ k. drop k o.system_events) whole), fits)
record_all-last_of (r ∷ rs) o on some_room fits =
    let n = o.timeline_max_events in
    let xs = o.system_events in
    let kept = trim n (xs ++ event_of r ∷ []) in
    let o' : Observer = record o { system_events = kept } in
    let cut : kept ≡ last_of n (xs ++ event_of r ∷ []) = trim-last_of n _ some_room in
    let short : length kept ≤ n =
      rw cut
        (omega (arith, length-drop (length (xs ++ event_of r ∷ []) - n) (xs ++ event_of r ∷ []))) in
    let same : obs_record r.tick r.category r.event_type r.related_pids o ≡ o' = rw on refl in
    let (events, size) = record_all-last_of rs o' on some_room short in
    let after = ap (λ q. (record_all rs q).system_events) same in
    (
      after
          ∙ events
          ∙ ap (λ e. last_of n (e ++ map event_of rs)) cut
          ∙ last_of-append n (xs ++ event_of r ∷ []) (map event_of rs)
          ∙ ap (last_of n) (append_assoc xs (event_of r ∷ []) (map event_of rs)),
      omega (arith, size, ap length after),
    )
