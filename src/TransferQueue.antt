-- ===== src/TransferQueue.antt =====
-- The queue of SFTP transfers (apps/ui/src/sftp/transferQueue.ts). Each method returns the new runner
-- and its calls of the outside: `changed` for `onChange`, `start` and `cancel_transfer` for the two
-- calls of the backend. The part of `pump` before its `await` is `pump`; what follows is `resolved` or
-- `rejected`, by how the promise settles. Sizes and counts are numbers without sign.
pub mod World
pub mod Invariant
pub mod Drain
pub mod Behaviour
mod Tests
use tethra.Base.{
  Bool, List, Option, Text, [], codes, false, filter, find?, if◌then◌else◌, includes, modify_first,
  none, not, some, text_eq, true, ℕ, ◌&&◌, ◌++◌, ◌∷◌,
}

pub data TransferDirection : Type 0 where
  upload download : TransferDirection

pub data TransferStatus : Type 0 where
  queued running paused completed failed cancelled : TransferStatus

pub record TransferItem : Type 0 where
  pub id : Text
  pub direction : TransferDirection
  pub local_path : Text
  pub remote_path : Text
  pub label : Text
  pub status : TransferStatus
  pub bytes_transferred : ℕ
  pub total_bytes : Option ℕ
  pub offset : ℕ
  pub error : Option Text
  pub files_done : Option ℕ
  pub files_total : Option ℕ
  pub current_file : Option Text

-- The argument of `enqueue`.
pub record NewItem : Type 0 where
  pub id : Text
  pub direction : TransferDirection
  pub local_path : Text
  pub remote_path : Text
  pub label : Text
  pub offset : Option ℕ
  pub error : Option Text
  pub files_done : Option ℕ
  pub files_total : Option ℕ
  pub current_file : Option Text

pub record TransferEvent : Type 0 where
  pub kind : Text
  pub bytes_transferred : ℕ
  pub total_bytes : Option ℕ
  pub message : Option Text
  pub files_done : Option ℕ
  pub files_total : Option ℕ
  pub current_file : Option Text

pub record TransferQueueRunner : Type 0 where
  pub items : List TransferItem
  pub is_running : Bool
  pub active_id : Option Text
  pub session_id : Text

pub data Effect : Type 0 where
  changed : Effect
  start : Text → Text → TransferDirection → Text → Text → ℕ → Effect
  cancel_transfer : Text → Effect

abbrev pub new_runner : Text → TransferQueueRunner
new_runner session = record {
  items = [];
  is_running = false;
  active_id = none;
  session_id = session;
}

-- `??`.
abbrev pub or_else {ℓ} : {A : Type ℓ} → Option A → A → A
or_else none d = d
or_else (some x) d = x

-- The value of an optional field where one is given, else the old one.
abbrev pub or_keep {ℓ} : {A : Type ℓ} → Option A → Option A → Option A
or_keep none old = old
or_keep (some x) old = some x

-- A string that is given and not empty counts as true.
abbrev pub truthy : Option Text → Bool
truthy none = false
truthy (some []) = false
truthy (some (c ∷ cs)) = true

abbrev pub has_id : Text → TransferItem → Bool
has_id wanted item = text_eq item.id wanted

abbrev pub status_is_queued : TransferStatus → Bool
status_is_queued queued = true
status_is_queued _ = false

abbrev pub status_is_running : TransferStatus → Bool
status_is_running running = true
status_is_running _ = false

abbrev pub status_is_paused : TransferStatus → Bool
status_is_paused paused = true
status_is_paused _ = false

abbrev pub is_queued : TransferItem → Bool
is_queued item = status_is_queued item.status

-- An optional id is this one: `activeId === itemId`.
abbrev pub is_id : Option Text → Text → Bool
is_id none wanted = false
is_id (some i) wanted = text_eq i wanted

abbrev pub start_of : Text → TransferItem → Effect
start_of session item =
    start session item.id item.direction item.local_path item.remote_path item.offset

-- `pump` up to its `await`.
unfoldable pub pump : TransferQueueRunner → TransferQueueRunner × List Effect
pump r = if r.is_running then (r, []) else elim (find? is_queued r.items) [
  | none ↦ (r, [])
  | some next ↦ (
    record r {
      items = modify_first is_queued (λ item. record item { status = running }) r.items;
      is_running = true;
      active_id = some next.id;
    },
    changed ∷ start_of r.session_id next ∷ [],
  )
]

abbrev pub changed_then_pump : TransferQueueRunner → TransferQueueRunner × List Effect
changed_then_pump r = let (r', out) = pump r in (r', changed ∷ out)

abbrev pub item_of : NewItem → TransferItem
item_of n = record {
  id = n.id;
  direction = n.direction;
  local_path = n.local_path;
  remote_path = n.remote_path;
  label = n.label;
  status = queued;
  bytes_transferred = or_else n.offset 0;
  total_bytes = none;
  offset = or_else n.offset 0;
  error = n.error;
  files_done = n.files_done;
  files_total = n.files_total;
  current_file = n.current_file;
}

unfoldable pub enqueue : TransferQueueRunner → NewItem → TransferQueueRunner × List Effect
enqueue r n = changed_then_pump (record r { items = r.items ++ item_of n ∷ [] })

unfoldable pub pause_active : TransferQueueRunner → TransferQueueRunner × List Effect
pause_active r = elim r.active_id [ none ↦ (r, []) | some i ↦ (r, cancel_transfer i ∷ []) ]

abbrev pub requeue : TransferItem → TransferItem
requeue item = record item { status = queued; error = none }

abbrev pub requeue_by_id : TransferQueueRunner → Text → TransferQueueRunner
requeue_by_id r i = record r { items = modify_first (has_id i) requeue r.items }

unfoldable pub resume : TransferQueueRunner → Text → TransferQueueRunner × List Effect
resume r i = elim (find? (has_id i) r.items) [
  | none ↦ (r, [])
  | some item ↦
      if not (status_is_paused item.status) then (r, []) else changed_then_pump (requeue_by_id r i)
]

unfoldable pub cancel : TransferQueueRunner → Text → TransferQueueRunner × List Effect
cancel r i = elim (find? (has_id i) r.items) [
  | none ↦ (r, [])
  | some item ↦
      if status_is_running item.status && is_id r.active_id i
      then (r, cancel_transfer i ∷ [])
      else (
        record r { items = modify_first (has_id i) (λ t. record t { status = cancelled }) r.items },
        changed ∷ [],
      )
]

unfoldable pub retry : TransferQueueRunner → Text → TransferQueueRunner × List Effect
retry r i = elim (find? (has_id i) r.items) [
  | none ↦ (r, [])
  | some item ↦ changed_then_pump (requeue_by_id r i)
]

abbrev pub is_over : TransferStatus → Bool
is_over completed = true
is_over cancelled = true
is_over _ = false

unfoldable pub clear_completed : TransferQueueRunner → TransferQueueRunner × List Effect
clear_completed r =
    (record r { items = filter (λ item. not (is_over item.status)) r.items }, changed ∷ [])

-- The `finally` block.
abbrev pub finish : TransferQueueRunner → TransferQueueRunner × List Effect
finish r = changed_then_pump (record r { is_running = false; active_id = none })

abbrev pub complete_if_running : TransferItem → TransferItem
complete_if_running item =
    if status_is_running item.status then record item { status = completed } else item

-- The rest of `pump` for the transfer `i`, when its promise is fulfilled.
unfoldable pub resolved : TransferQueueRunner → Text → TransferQueueRunner × List Effect
resolved r i = finish (record r { items = modify_first (has_id i) complete_if_running r.items })

unfoldable pub mark_rejected : Text → TransferItem → TransferItem
unfolding includes
mark_rejected message item =
    if includes message (codes "cancelled")
    then record item { status = paused; error = some (codes "Paused") }
    else record item { status = failed; error = some message }

-- The same when it is rejected with `message`.
unfoldable pub rejected : TransferQueueRunner → Text → Text → TransferQueueRunner × List Effect
unfolding mark_rejected
rejected r i message =
    finish (record r { items = modify_first (has_id i) (mark_rejected message) r.items })

abbrev pub with_counts : TransferEvent → TransferItem → TransferItem
with_counts e item = record item {
  bytes_transferred = e.bytes_transferred;
  total_bytes = or_keep e.total_bytes item.total_bytes;
  files_done = or_keep e.files_done item.files_done;
  files_total = or_keep e.files_total item.files_total;
  current_file = if truthy e.current_file then e.current_file else item.current_file;
}

-- The branch on the kind of the event.
abbrev pub with_kind : TransferEvent → TransferItem → TransferItem
with_kind e item =
    if text_eq e.kind (codes "paused")
    then record item {
      status = paused;
      offset = item.bytes_transferred;
      error = some (or_else e.message (codes "Paused"));
    }
    else if text_eq e.kind (codes "failed")
    then record item { status = failed; error = some (or_else e.message (codes "Transfer failed")) }
    else if text_eq e.kind (codes "completed")
    then record item {
      status = completed;
      offset = item.bytes_transferred;
      error = if truthy e.message then e.message else item.error;
    }
    else if text_eq e.kind (codes "progress") && truthy e.message
    then record item { error = none }
    else item

unfoldable pub mark_event : TransferEvent → TransferItem → TransferItem
mark_event e item = with_kind e (with_counts e item)

unfoldable pub apply_event :
    TransferQueueRunner → Text → TransferEvent → TransferQueueRunner × List Effect
unfolding mark_event
apply_event r i e = elim (find? (has_id i) r.items) [
  | none ↦ (r, [])
  | some item ↦ (record r { items = modify_first (has_id i) (mark_event e) r.items }, changed ∷ [])
]
