-- ===== src/OpQueue/Tests.antt =====
-- A write, a phase and another write.
use tethra.Base.{List, [], codes, false, refl, ◌++◌, ◌∷◌, ◌≡◌}
use tethra.SyncFilter.{initial}
use tethra.OpQueue.{
  Op, OpQueue, Reach, begin, enqueue_terminal_op, enqueued, flush_phases, start_op, started, write,
}
use tethra.OpQueue.Order.{in_order, shown-in_order}

abbrev three : List Op
three = (([] ++ write (codes "ls") ∷ []) ++ flush_phases ∷ []) ++ write (codes "ok") ∷ []

abbrev enqueued_three : OpQueue
enqueued_three = record {
  waiting = write (codes "ls") ∷ flush_phases ∷ write (codes "ok") ∷ [];
  is_busy = false;
  filter = initial;
  landing = [];
  shown = [];
}

reached : Reach initial three false enqueued_three
unfolding enqueue_terminal_op
reached =
    enqueued (write (codes "ok")) (enqueued flush_phases (enqueued (write (codes "ls")) begin))

-- The first write has started, and its callback is to come.
writing :
    Reach initial three false
      (start_op (write (codes "ls")) (flush_phases ∷ write (codes "ok") ∷ []) enqueued_three)
writing = started (write (codes "ls")) (flush_phases ∷ write (codes "ok") ∷ []) reached refl refl

abbrev in_flight : OpQueue
in_flight = start_op (write (codes "ls")) (flush_phases ∷ write (codes "ok") ∷ []) enqueued_three

shown-in_order_example :
    in_flight.shown ++ (in_flight.landing ++ in_order in_flight.filter in_flight.waiting)
    ≡ in_order initial three
shown-in_order_example = shown-in_order initial three in_flight writing
