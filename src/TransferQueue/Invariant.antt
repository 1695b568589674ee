-- ===== src/TransferQueue/Invariant.antt =====
-- One transfer at a time, and none waits while the runner is idle.
use tethra.Base.{
  Bool, Bool-cases, List, Option, Option-cases, Text, [], any, any-modify_first, append-nil, arith,
  false, filter, find?, inl, inr, is_some, modify_first, none, refl, some, sym, true, ◌&&◌, ◌++◌,
  ◌∙◌, ◌∷◌, ◌≡◌,
}
use tethra.TransferQueue.{
  Effect, TransferEvent, TransferItem, TransferQueueRunner, apply_event, cancel, cancel_transfer,
  cancelled, changed, changed_then_pump, clear_completed, enqueue, has_id, is_id, is_queued,
  mark_event, pause_active, pump, rejected, resolved, resume, retry, running, start_of,
  status_is_paused, status_is_running,
}
use tethra.TransferQueue.World.{
  Reach, Step, UserCall, World, after, begin, call, call_cancel, call_clear_completed, call_enqueue,
  call_pause_active, call_resume, call_retry, fulfil, here, next, progress, reject, started, user,
}

abbrev pub ids : Option Text → List Text
ids none = []
ids (some i) = i ∷ []

pub record IsValid (w : World) : Type 0 where
  -- The transfer in flight is the active one, and there is one just while the runner is running.
  pub one : w.flights ≡ ids w.runner.active_id
  pub active : w.runner.is_running ≡ is_some w.runner.active_id
  pub busy : w.runner.is_running ≡ false → any is_queued w.runner.items ≡ false

any_of_find? :
    (p : TransferItem → Bool) (xs : List TransferItem) → find? p xs ≡ none → any p xs ≡ false
any_of_find? p [] h = refl
any_of_find? p (x ∷ xs) h = ground (arith, any_of_find? p xs)

module _ (r : TransferQueueRunner) where
  pump-busy : r.is_running ≡ true → pump r ≡ (r, [])
  unfolding pump
  pump-busy h = rw h

  -- An idle runner with nothing queued stays as it is.
  pub pump-rest : r.is_running ≡ false → find? is_queued r.items ≡ none → pump r ≡ (r, [])
  unfolding pump
  pump-rest h k = simp (h, k)

  -- An idle runner starts the first item that is queued.
  pub pump-start :
      (item : TransferItem)
      → r.is_running ≡ false
      → find? is_queued r.items ≡ some item
      → pump r ≡ (
        record r {
          items = modify_first is_queued (λ t. record t { status = running }) r.items;
          is_running = true;
          active_id = some item.id;
        },
        changed ∷ start_of r.session_id item ∷ [],
      )
  unfolding pump
  pump-start item h k = simp (h, k)

idle-ids : (b : Bool) (o : Option Text) → b ≡ is_some o → b ≡ false → ids o ≡ []
idle-ids b none h k = refl
idle-ids b (some i) h k = cc

pump-IsValid :
    (r : TransferQueueRunner) (fl : List Text)
    → fl ≡ ids r.active_id
    → r.is_running ≡ is_some r.active_id
    → IsValid (after fl (changed_then_pump r))
pump-IsValid r fl one active = elim (Bool-cases r.is_running) [
  | inl busy ↦
      rw (pump-busy r busy) (record { one = rw append-nil one; active = active; busy = λ h. cc })
  | inr idle ↦ elim (Option-cases (find? is_queued r.items)) [
    | inl rest ↦ rw (pump-rest r idle rest) (record {
      one = rw append-nil one;
      active = active;
      busy = λ h. any_of_find? is_queued r.items rest;
    })
    | inr (item, found) ↦ rw (pump-start r item idle found) (record {
      one = rw (one, idle-ids r.is_running r.active_id active idle);
      active = refl;
      busy = λ h. cc;
    })
  ]
]

none_filtered :
    (p q : TransferItem → Bool) (xs : List TransferItem)
    → any p xs ≡ false
    → any p (filter q xs) ≡ false
none_filtered p q [] h = refl
none_filtered p q (x ∷ xs) h = ground (arith, none_filtered p q xs)

pub mark_event-is_queued :
    (e : TransferEvent) (item : TransferItem)
    → is_queued item ≡ false
    → is_queued (mark_event e item) ≡ false
unfolding mark_event
mark_event-is_queued e item h = ground arith

-- A method that starts nothing, and leaves the flags alone.
quiet-IsValid :
    (w : World) (items : List TransferItem) (out : List Effect)
    → started out ≡ []
    → (any is_queued w.runner.items ≡ false → any is_queued items ≡ false)
    → IsValid w
    → IsValid (after w.flights (record (w.runner) { items = items }, out))
quiet-IsValid w items out e keep v = record {
  one = rw (e, append-nil) v.one;
  active = v.active;
  busy = λ h. keep (v.busy h);
}

still-IsValid :
    (w : World) (out : List Effect)
    → started out ≡ []
    → IsValid w
    → IsValid (after w.flights (w.runner, out))
still-IsValid w out e v = quiet-IsValid w w.runner.items out e (λ h. h) v

call-IsValid : (w : World) (c : UserCall) → IsValid w → IsValid (after w.flights (call c w.runner))
unfolding enqueue resume retry pause_active cancel clear_completed
call-IsValid w (call_enqueue n) v = pump-IsValid _ _ v.one v.active
call-IsValid w call_pause_active v = elim (Option-cases w.runner.active_id) [
  | inl e ↦ rw (e, pause_active) (still-IsValid w [] refl v)
  | inr (i, e) ↦ rw (e, pause_active) (still-IsValid w (cancel_transfer i ∷ []) refl v)
]
call-IsValid w (call_resume i) v = elim (Option-cases (find? (has_id i) w.runner.items)) [
  | inl e ↦ rw (e, resume) (still-IsValid w [] refl v)
  | inr (item, e) ↦ elim (Bool-cases (status_is_paused item.status)) [
    | inl p ↦ rw (e, resume) (rw p (pump-IsValid _ _ v.one v.active))
    | inr p ↦ rw (e, resume) (rw p (still-IsValid w [] refl v))
  ]
]
call-IsValid w (call_cancel i) v = elim (Option-cases (find? (has_id i) w.runner.items)) [
  | inl e ↦ rw (e, cancel) (still-IsValid w [] refl v)
  | inr (item, e) ↦
      elim (Bool-cases (status_is_running item.status && is_id w.runner.active_id i)) [
        | inl p ↦ rw (e, cancel) (rw p (still-IsValid w (cancel_transfer i ∷ []) refl v))
        | inr p ↦
            rw (e, cancel)
              (rw p (
                quiet-IsValid w
                  (modify_first (has_id i) (λ t. record t { status = cancelled }) w.runner.items)
                  (changed ∷ []) refl
                  (any-modify_first is_queued (has_id i) (λ t. record t { status = cancelled })
                    w.runner.items (λ t h. refl))
                  v))
      ]
]
call-IsValid w (call_retry i) v = elim (Option-cases (find? (has_id i) w.runner.items)) [
  | inl e ↦ rw (e, retry) (still-IsValid w [] refl v)
  | inr (item, e) ↦ rw (e, retry) (pump-IsValid _ _ v.one v.active)
]
call-IsValid w call_clear_completed v =
    quiet-IsValid w _ (changed ∷ []) refl (none_filtered is_queued _ w.runner.items) v

progress-IsValid :
    (w : World) (i : Text) (e : TransferEvent)
    → IsValid w
    → IsValid (after w.flights (apply_event w.runner i e))
unfolding apply_event
progress-IsValid w i e v = elim (Option-cases (find? (has_id i) w.runner.items)) [
  | inl k ↦ rw (k, apply_event) (still-IsValid w [] refl v)
  | inr (item, k) ↦
      rw (k, apply_event)
        (quiet-IsValid w _ (changed ∷ []) refl
          (any-modify_first is_queued (has_id i) (mark_event e) w.runner.items
            (mark_event-is_queued e))
          v)
]

-- The transfer that settles was the only one in flight.
rest-nil :
    (i : Text) (o : Option Text) (before later : List Text)
    → before ++ i ∷ later ≡ ids o
    → before ++ later ≡ []
rest-nil i none [] later h = cc
rest-nil i none (b ∷ bs) later h = cc
rest-nil i (some j) [] later h = ground arith
rest-nil i (some j) (b ∷ []) later h = absurd (cc)
rest-nil i (some j) (b ∷ c ∷ bs) later h = absurd (cc)

-- Every step keeps the invariant.
pub Step-IsValid : {w u : World} → Step w u → IsValid w → IsValid u
unfolding resolved rejected
Step-IsValid (user w c) v = call-IsValid w c v
Step-IsValid (progress w i e) v = progress-IsValid w i e v
Step-IsValid (fulfil w i before later e) v =
    pump-IsValid _ _ (rest-nil i w.runner.active_id before later (sym e ∙ v.one)) refl
Step-IsValid (reject w i message before later e) v =
    pump-IsValid _ _ (rest-nil i w.runner.active_id before later (sym e ∙ v.one)) refl

begin-IsValid : (session : Text) → IsValid (begin session)
begin-IsValid session = record { one = refl; active = refl; busy = λ h. refl }

-- In whatever order the user interface, the events and the settling transfers come: at most one
-- transfer is in flight, it is the active one, the runner counts as running just while there is one,
-- and while it is not running no item is queued.
pub Reach-IsValid : (session : Text) {w : World} → Reach (begin session) w → IsValid w
Reach-IsValid session here = begin-IsValid session
Reach-IsValid session (next r s) = Step-IsValid s (Reach-IsValid session r)
