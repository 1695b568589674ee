-- ===== src/OpQueue.antt =====
-- apps/ui/src/terminal/registry.ts: the queue of operations of one session, `enqueueTerminalOp`: a chain of
-- promises in which an operation starts when the one before has settled, whichever way. `writeTerminal`
-- puts bytes through the filter, hands them to xterm, and waits for xterm's callback, which comes when they
-- have landed in its buffer, or for a timer, whichever comes first; xterm lands the writes in their order.
-- `scheduleFlushBlockPhases` applies a phase; `clearTerminalViewport` clears. The session is live all along.
use tethra.Base.{Bool, List, [], false, not, true, ℕ, ◌&&◌, ◌++◌, ◌∷◌, ◌≡◌}
use tethra.SyncFilter.{SyncClearFilter, push}
pub mod Order
pub mod Tests

pub data Op : Type 0 where
  write : List ℕ → Op
  flush_phases clear : Op

-- What reaches the terminal.
pub data Shown : Type 0 where
  wrote : List ℕ → Shown
  flushed cleared : Shown

pub record OpQueue : Type 0 where
  pub waiting : List Op
  -- Whether an operation waits for its callback or its timer.
  pub is_busy : Bool
  pub filter : SyncClearFilter
  -- The writes that xterm has been given and that have not landed.
  pub landing : List Shown
  -- What has taken effect: the bytes that have landed, the phases and the clearing.
  pub shown : List Shown

abbrev pub shown_bytes : List ℕ → List Shown
shown_bytes [] = []
shown_bytes (c ∷ cs) = wrote (c ∷ cs) ∷ []

-- What an operation does to the filter, and to the terminal in the end.
abbrev pub op_effect : Op → SyncClearFilter → SyncClearFilter × List Shown
op_effect (write raw) f = let (f', bytes) = push f raw in (f', shown_bytes bytes)
op_effect flush_phases f = (f, flushed ∷ [])
op_effect clear f = (f, cleared ∷ [])

-- Only a write of some bytes waits.
abbrev pub waits : Op → List Shown → Bool
waits (write raw) [] = false
waits (write raw) (s ∷ ss) = true
waits flush_phases shown = false
waits clear shown = false

abbrev pub initial_queue : SyncClearFilter → OpQueue
initial_queue f = record { waiting = []; is_busy = false; filter = f; landing = []; shown = [] }

unfoldable pub enqueue_terminal_op : Op → OpQueue → OpQueue
enqueue_terminal_op op q = record {
  waiting = q.waiting ++ op ∷ [];
  is_busy = q.is_busy;
  filter = q.filter;
  landing = q.landing;
  shown = q.shown;
}

-- A write is given to xterm; a phase and the clearing take effect at once.
abbrev pub start_effect : Op → List Op → OpQueue → SyncClearFilter × List Shown → OpQueue
start_effect (write raw) rest q (f, new) = record {
  waiting = rest;
  is_busy = waits (write raw) new;
  filter = f;
  landing = q.landing ++ new;
  shown = q.shown;
}
start_effect op rest q (f, new) = record {
  waiting = rest;
  is_busy = waits op new;
  filter = f;
  landing = q.landing;
  shown = q.shown ++ new;
}

-- The first operation starts.
unfoldable pub start_op : Op → List Op → OpQueue → OpQueue
start_op op rest q = start_effect op rest q (op_effect op q.filter)

abbrev pub is_last : List Shown → Bool
is_last [] = true
is_last (s ∷ ss) = false

-- The callback of xterm for the first of the writes `s ∷ rest` that have not landed. It settles the
-- operation in progress if that is the one it belongs to, the last; one that the timer has settled before
-- is not settled again.
unfoldable pub land : Shown → List Shown → OpQueue → OpQueue
land s rest q = record {
  waiting = q.waiting;
  is_busy = q.is_busy && not (is_last rest);
  filter = q.filter;
  landing = rest;
  shown = q.shown ++ s ∷ [];
}

-- The timer settles the operation in progress, whose bytes may not have landed.
unfoldable pub time_out : OpQueue → OpQueue
time_out q = record {
  waiting = q.waiting;
  is_busy = false;
  filter = q.filter;
  landing = q.landing;
  shown = q.shown;
}

-- The queues that can come up when the operations `ops` have been enqueued, in this order, and whether a
-- timer has been faster than a callback.
pub data Reach (f : SyncClearFilter) : List Op → Bool → OpQueue → Type 0 where
  begin : Reach f [] false (initial_queue f)
  enqueued :
      {ops : List Op} {late : Bool} {q : OpQueue} (op : Op)
      → Reach f ops late q
      → Reach f (ops ++ op ∷ []) late (enqueue_terminal_op op q)
  started :
      {ops : List Op} {late : Bool} {q : OpQueue} (op : Op) (rest : List Op)
      → Reach f ops late q
      → q.is_busy ≡ false
      → q.waiting ≡ op ∷ rest
      → Reach f ops late (start_op op rest q)
  landed :
      {ops : List Op} {late : Bool} {q : OpQueue} (s : Shown) (rest : List Shown)
      → Reach f ops late q
      → q.landing ≡ s ∷ rest
      → Reach f ops late (land s rest q)
  timed_out :
      {ops : List Op} {late : Bool} {q : OpQueue}
      → Reach f ops late q
      → q.is_busy ≡ true
      → Reach f ops true (time_out q)
