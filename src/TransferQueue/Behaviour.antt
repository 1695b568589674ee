-- ===== src/TransferQueue/Behaviour.antt =====
-- What the methods do to one transfer.
use tethra.TransferQueue.Invariant.{mark_event-is_queued, pump-rest, pump-start}
use tethra.Base.{
  Bool, Bool-cases, List, Option-cases, Text, [], any, any-modify_first, ap, arith, codes, false,
  find?, find?-modify_first, find?-modify_first_ne, find?-modify_first_only, if◌then◌else◌,
  includes, inl, inr, modify_first, none, refl, some, text_eq, text_eq_refl, true, ◌∙◌, ◌∷◌, ◌≡◌,
}
use tethra.TransferQueue.{
  TransferEvent, TransferItem, TransferQueueRunner, apply_event, cancel, changed, failed, has_id,
  is_queued, mark_event, mark_rejected, pause_active, paused, pump, rejected, requeue,
  requeue_by_id, resume, running, start, start_of, status_is_paused,
}

-- Cancelling the transfer that is running is the same as pausing it.
pub cancel-eq-pause_active :
    (r : TransferQueueRunner) (i : Text) (item : TransferItem)
    → find? (has_id i) r.items ≡ some item
    → item.status ≡ running
    → r.active_id ≡ some i
    → cancel r i ≡ pause_active r
unfolding cancel pause_active
cancel-eq-pause_active r i item f s a = ground (arith, text_eq_refl i)

pump-find? :
    (r : TransferQueueRunner) (i : Text) (item : TransferItem)
    → is_queued item ≡ false
    → find? (has_id i) r.items ≡ some item
    → find? (has_id i) (pump r).0.items ≡ some item
unfolding pump
pump-find? r i item q f = elim (Bool-cases r.is_running) [
  | inl busy ↦ rw busy f
  | inr idle ↦ elim (Option-cases (find? is_queued r.items)) [
    | inl rest ↦ simp (idle, rest) f
    | inr (first, found) ↦
        simp (idle, found)
          (find?-modify_first_ne (has_id i) is_queued (λ t. record t { status = running }) r.items
            item (λ t. refl) q f)
  ]
]

mark_rejected-id : (m i : Text) (t : TransferItem) → has_id i (mark_rejected m t) ≡ has_id i t
unfolding mark_rejected
mark_rejected-id m i t = ground arith

mark_rejected-is_queued : (m : Text) (t : TransferItem) → is_queued (mark_rejected m t) ≡ false
unfolding mark_rejected
mark_rejected-is_queued m t = ground arith

-- The runner as `finally` finds it, its flags reset.
abbrev settled_runner : TransferQueueRunner → Text → Text → TransferQueueRunner
settled_runner r i message = record r {
  items = modify_first (has_id i) (mark_rejected message) r.items;
  is_running = false;
  active_id = none;
}

-- When a transfer is rejected its item ends as paused, if the message speaks of cancelling, and else as
-- failed with that message; the pump that follows leaves it so.
pub find?-rejected :
    (r : TransferQueueRunner) (i message : Text) (item : TransferItem)
    → find? (has_id i) r.items ≡ some item
    → find? (has_id i) (rejected r i message).0.items
      ≡ some (
          if includes message (codes "cancelled")
          then record item { status = paused; error = some (codes "Paused") }
          else record item { status = failed; error = some message })
unfolding rejected mark_rejected
find?-rejected r i message item f =
    pump-find? (settled_runner r i message) i (mark_rejected message item)
      (mark_rejected-is_queued message item)
      (find?-modify_first (has_id i) (mark_rejected message) r.items item
        (λ t h. mark_rejected-id message i t ∙ h) f)

-- Resuming a paused transfer while nothing runs or waits starts it at once, from its offset.
resume-starts :
    (r : TransferQueueRunner) (i : Text) (item : TransferItem)
    → r.is_running ≡ false
    → any is_queued r.items ≡ false
    → find? (has_id i) r.items ≡ some item
    → item.status ≡ paused
    → (resume r i).1 ≡ changed ∷ changed ∷ start_of r.session_id item ∷ []
unfolding resume
resume-starts r i item idle none_waits f s =
    let found =
      find?-modify_first_only (has_id i) is_queued requeue r.items item (λ t. refl) none_waits f in
    let p : status_is_paused item.status ≡ true = rw s in
    rw (f, resume) (rw p (rw (pump-start (requeue_by_id r i) (requeue item) idle found)))

mark_event-id :
    (e : TransferEvent) (i : Text) (t : TransferItem) → has_id i (mark_event e t) ≡ has_id i t
unfolding mark_event
mark_event-id e i t = ground arith

apply_event-found :
    (r : TransferQueueRunner) (i : Text) (e : TransferEvent) (item : TransferItem)
    → find? (has_id i) r.items ≡ some item
    → apply_event r i e
      ≡ (record r { items = modify_first (has_id i) (mark_event e) r.items }, changed ∷ [])
unfolding apply_event
apply_event-found r i e item f = rw (f, apply_event)

find?_of_any :
    (p : TransferItem → Bool) (xs : List TransferItem) → any p xs ≡ false → find? p xs ≡ none
find?_of_any p [] h = refl
find?_of_any p (x ∷ xs) h = ground (arith, find?_of_any p xs)

rejected-rest :
    (r : TransferQueueRunner) (i message : Text)
    → any is_queued r.items ≡ false
    → rejected r i message ≡ (settled_runner r i message, changed ∷ [])
unfolding rejected
rejected-rest r i message h =
    let none_waits =
      any-modify_first is_queued (has_id i) (mark_rejected message) r.items
        (λ t k. mark_rejected-is_queued message t) h in
    rw (
      pump-rest (settled_runner r i message) refl (
        find?_of_any is_queued (modify_first (has_id i) (mark_rejected message) r.items)
          none_waits))

resume-rejected :
    (r : TransferQueueRunner) (i message : Text) (item : TransferItem)
    → any is_queued r.items ≡ false
    → find? (has_id i) r.items ≡ some item
    → (mark_rejected message item).status ≡ paused
    → (resume (rejected r i message).0 i).1
      ≡ changed ∷ changed ∷ start_of r.session_id (mark_rejected message item) ∷ []
resume-rejected r i message item h f p =
    let waits =
      any-modify_first is_queued (has_id i) (mark_rejected message) r.items
        (λ t q. mark_rejected-is_queued message t) h in
    let found =
      find?-modify_first (has_id i) (mark_rejected message) r.items item
        (λ t q. mark_rejected-id message i t ∙ q) f in
    rw (rejected-rest r i message h)
      (resume-starts (settled_runner r i message) i (mark_rejected message item) refl waits found p)

module _ (r : TransferQueueRunner) (i message : Text) (e : TransferEvent)
    (item : TransferItem) where
  -- The item that the rejection leaves.
  abbrev left : TransferItem
  left = mark_rejected message (mark_event e item)

  start_of-left :
      (session : Text)
      → e.kind ≡ codes "paused"
      → includes message (codes "cancelled") ≡ true
      → (start_of session left
          ≡ start session item.id item.direction item.local_path item.remote_path
              e.bytes_transferred)
        × (left.status ≡ paused)
  unfolding mark_event mark_rejected
  start_of-left session k c =
      let p : text_eq e.kind (codes "paused") ≡ true = rw k (text_eq_refl (codes "paused")) in
      (rw (p, c), rw (p, c))

  -- A transfer that the backend reports as paused, and whose promise is then rejected as cancelled, goes
  -- on from the bytes of that report when it is resumed, provided that nothing else was queued.
  pub resume-rejected-apply_event :
      any is_queued r.items ≡ false
      → find? (has_id i) r.items ≡ some item
      → e.kind ≡ codes "paused"
      → includes message (codes "cancelled") ≡ true
      → (resume (rejected (apply_event r i e).0 i message).0 i).1
        ≡ changed
          ∷ changed
          ∷ start r.session_id item.id item.direction item.local_path item.remote_path
              e.bytes_transferred
          ∷ []
  resume-rejected-apply_event h f k c =
      let waits =
        any-modify_first is_queued (has_id i) (mark_event e) r.items (mark_event-is_queued e) h in
      let found =
        find?-modify_first (has_id i) (mark_event e) r.items item (λ t q. mark_event-id e i t ∙ q)
          f in
      let (same, is_paused) = start_of-left r.session_id k c in
      let ends =
        resume-rejected (record r { items = modify_first (has_id i) (mark_event e) r.items }) i
          message (mark_event e item) waits found is_paused in
      rw (apply_event-found r i e item f) (ends ∙ ap (λ x. changed ∷ changed ∷ x ∷ []) same)
