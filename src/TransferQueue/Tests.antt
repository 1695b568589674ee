-- ===== src/TransferQueue/Tests.antt =====
-- A session of the queue with two transfers, and the theorems at it.
use tethra.Base.{
  List, Text, [], any, arith, codes, false, length, none, refl, some, text_eq, true, ℕ, ◌∷◌, ◌≡◌,
  ◌≤◌,
}
use tethra.TransferQueue.{
  NewItem, TransferEvent, TransferItem, TransferQueueRunner, changed, enqueue, is_queued, item_of,
  new_runner, pump, resolved, running, start, upload,
}
use tethra.TransferQueue.World.{World, after, begin, call, call_enqueue, here, next, user}
use tethra.TransferQueue.Drain.{outstanding, settle_all, settle_all-drains}
use tethra.TransferQueue.Invariant.{IsValid, Reach-IsValid}

abbrev upload_of : Text → NewItem
upload_of i = record {
  id = i;
  direction = upload;
  local_path = codes "a";
  remote_path = codes "b";
  label = codes "a";
  offset = none;
  error = none;
  files_done = none;
  files_total = none;
  current_file = none;
}

abbrev first : Text
first = codes "1"

abbrev second : Text
second = codes "2"

abbrev empty : TransferQueueRunner
empty = new_runner (codes "s")

-- The first of two uploads is running and the second waits.
abbrev busy_items : List TransferItem
busy_items =
    record (item_of (upload_of first)) { status = running } ∷ item_of (upload_of second) ∷ []

abbrev busy_runner : TransferQueueRunner
busy_runner = record {
  items = busy_items;
  is_running = true;
  active_id = some first;
  session_id = codes "s";
}

enqueue_test :
    enqueue (enqueue empty (upload_of first)).0 (upload_of second) ≡ (busy_runner, changed ∷ [])
unfolding enqueue pump
enqueue_test = refl

-- When the first has been sent the second starts.
resolved_test :
    (resolved busy_runner first).1
    ≡ changed ∷ changed ∷ start (codes "s") second upload (codes "a") (codes "b") 0 ∷ []
unfolding resolved pump text_eq
resolved_test = refl

abbrev cancelled_message : Text
cancelled_message = codes "Error: transfer cancelled"

Reach-IsValid_example : IsValid (after [] (call (call_enqueue (upload_of first)) empty))
Reach-IsValid_example =
    Reach-IsValid (codes "s")
      (next here (user (begin (codes "s")) (call_enqueue (upload_of first))))

abbrev lone_runner : TransferQueueRunner
lone_runner = record busy_runner {
  items = record (item_of (upload_of first)) { status = running } ∷ [];
}

abbrev paused_at : ℕ → TransferEvent
paused_at n = record {
  kind = codes "paused";
  bytes_transferred = n;
  total_bytes = none;
  message = none;
  files_done = none;
  files_total = none;
  current_file = none;
}

abbrev one_upload : World
one_upload = after [] (call (call_enqueue (upload_of first)) empty)

two_answers : outstanding one_upload ≤ length (some cancelled_message ∷ none ∷ [])
unfolding enqueue pump
two_answers = omega arith

settle_all-drains_example :
    ((settle_all (some cancelled_message ∷ none ∷ []) one_upload).flights ≡ [])
    × (any is_queued (settle_all (some cancelled_message ∷ none ∷ []) one_upload).runner.items
        ≡ false)
settle_all-drains_example =
    settle_all-drains (some cancelled_message ∷ none ∷ []) one_upload
      (Reach-IsValid (codes "s")
        (next here (user (begin (codes "s")) (call_enqueue (upload_of first)))))
      two_answers
