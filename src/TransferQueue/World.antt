-- ===== src/TransferQueue/World.antt =====
-- The runner among the promises that it waits for. A step is a call by the user interface, an event of
-- a transfer, or the settling of one transfer that is in flight, in any order.
use tethra.Base.{List, Text, [], ◌++◌, ◌∷◌, ◌≡◌}
use tethra.TransferQueue.{
  Effect, NewItem, TransferEvent, TransferQueueRunner, apply_event, cancel, cancel_transfer,
  changed, clear_completed, enqueue, new_runner, pause_active, rejected, resolved, resume, retry,
  start,
}

abbrev pub started : List Effect → List Text
started [] = []
started (changed ∷ rest) = started rest
started (start s i d l p o ∷ rest) = i ∷ started rest
started (cancel_transfer i ∷ rest) = started rest

pub record World : Type 0 where
  pub runner : TransferQueueRunner
  -- The transfers whose promise has not settled.
  pub flights : List Text

pub data UserCall : Type 0 where
  call_enqueue : NewItem → UserCall
  call_pause_active : UserCall
  call_resume : Text → UserCall
  call_cancel : Text → UserCall
  call_retry : Text → UserCall
  call_clear_completed : UserCall

abbrev pub call : UserCall → TransferQueueRunner → TransferQueueRunner × List Effect
call (call_enqueue n) r = enqueue r n
call call_pause_active r = pause_active r
call (call_resume i) r = resume r i
call (call_cancel i) r = cancel r i
call (call_retry i) r = retry r i
call call_clear_completed r = clear_completed r

abbrev pub after : List Text → TransferQueueRunner × List Effect → World
after flights t = record { runner = t.0; flights = flights ++ started t.1 }

pub data Step : World → World → Type 0 where
  user : (w : World) (c : UserCall) → Step w (after w.flights (call c w.runner))
  progress :
      (w : World) (i : Text) (e : TransferEvent)
      → Step w (after w.flights (apply_event w.runner i e))
  fulfil :
      (w : World) (i : Text) (before later : List Text)
      → w.flights ≡ before ++ i ∷ later
      → Step w (after (before ++ later) (resolved w.runner i))
  reject :
      (w : World) (i message : Text) (before later : List Text)
      → w.flights ≡ before ++ i ∷ later
      → Step w (after (before ++ later) (rejected w.runner i message))

pub data Reach (s : World) : World → Type 0 where
  here : Reach s s
  next : {t u : World} → Reach s t → Step t u → Reach s u

abbrev pub begin : Text → World
begin session = record { runner = new_runner session; flights = [] }
