-- ===== src/OpQueue/Order.antt =====
-- The order in which the operations take effect.
use tethra.Base.{
  Bool, List, [], ap, append_assoc, arith, false, length, refl, sym, ℕ, ◌++◌, ◌∙◌, ◌∷◌, ◌≡◌, ◌≤◌,
}
use tethra.SyncFilter.{SyncClearFilter, push}
use mathlib.Core.Path.{subst}
use tethra.OpQueue.{
  Op, OpQueue, Reach, Shown, begin, clear, cleared, enqueue_terminal_op, enqueued, flush_phases,
  flushed, land, landed, op_effect, shown_bytes, start_op, started, timed_out, waits, write,
}

-- The specification: one operation after the other.
abbrev pub after_ops : SyncClearFilter → List Op → SyncClearFilter
after_ops f [] = f
after_ops f (op ∷ ops) = after_ops (op_effect op f).0 ops

abbrev pub in_order : SyncClearFilter → List Op → List Shown
in_order f [] = []
in_order f (op ∷ ops) = (op_effect op f).1 ++ in_order (op_effect op f).0 ops

after_ops-append :
    (f : SyncClearFilter) (ops more : List Op)
    → after_ops f (ops ++ more) ≡ after_ops (after_ops f ops) more
after_ops-append f [] more = refl
after_ops-append f (op ∷ ops) more = after_ops-append (op_effect op f).0 ops more

in_order-append :
    (f : SyncClearFilter) (ops more : List Op)
    → in_order f (ops ++ more) ≡ in_order f ops ++ in_order (after_ops f ops) more
in_order-append f [] more = refl
in_order-append f (op ∷ ops) more =
    ap (λ t. (op_effect op f).1 ++ t) (in_order-append (op_effect op f).0 ops more)
    ∙ sym (
        append_assoc (op_effect op f).1 (in_order (op_effect op f).0 ops)
          (in_order (after_ops (op_effect op f).0 ops) more))

-- What has been shown, what is landing and what is still waiting make up the whole; and nothing is landing
-- while no operation is in progress.
record InOrder (f : SyncClearFilter) (ops : List Op) (q : OpQueue) : Type 0 where
  shown_so_far : q.shown ++ (q.landing ++ in_order q.filter q.waiting) ≡ in_order f ops
  filter_after : after_ops q.filter q.waiting ≡ after_ops f ops
  landed_when_idle : q.is_busy ≡ false → q.landing ≡ []
  one_at_a_time : length q.landing ≤ 1

enqueued-InOrder :
    (f : SyncClearFilter) (ops : List Op) (q : OpQueue) (op : Op)
    → InOrder f ops q
    → InOrder f (ops ++ op ∷ []) (enqueue_terminal_op op q)
unfolding enqueue_terminal_op
enqueued-InOrder f ops q op i = record {
  shown_so_far =
      ap (λ t. q.shown ++ (q.landing ++ t)) (in_order-append q.filter q.waiting (op ∷ []))
      ∙ ap (λ t. q.shown ++ t)
          (sym (
            append_assoc q.landing (in_order q.filter q.waiting)
              (in_order (after_ops q.filter q.waiting) (op ∷ []))))
      ∙ sym (
          append_assoc q.shown (q.landing ++ in_order q.filter q.waiting)
            (in_order (after_ops q.filter q.waiting) (op ∷ [])))
      ∙ ap (λ t. t ++ in_order (after_ops q.filter q.waiting) (op ∷ [])) i.shown_so_far
      ∙ ap (λ g. in_order f ops ++ in_order g (op ∷ [])) i.filter_after
      ∙ sym (in_order-append f ops (op ∷ []));
  filter_after =
      after_ops-append q.filter q.waiting (op ∷ [])
      ∙ ap (λ g. after_ops g (op ∷ [])) i.filter_after
      ∙ sym (after_ops-append f ops (op ∷ []));
  landed_when_idle = i.landed_when_idle;
  one_at_a_time = i.one_at_a_time;
}

-- What is still to come, when nothing is landing and `op` is the first of those that wait.
idle_so_far :
    (f : SyncClearFilter) (ops : List Op) (q : OpQueue) (op : Op) (rest : List Op)
    → q.landing ≡ []
    → q.waiting ≡ op ∷ rest
    → InOrder f ops q
    → q.shown ++ ((op_effect op q.filter).1 ++ in_order (op_effect op q.filter).0 rest)
      ≡ in_order f ops
idle_so_far f ops q op rest l e i =
    ap (λ w. q.shown ++ in_order q.filter w) (sym e)
    ∙ ap (λ k. q.shown ++ (k ++ in_order q.filter q.waiting)) (sym l)
    ∙ i.shown_so_far

-- A write waits while its bytes are landing.
bytes_wait :
    (raw bytes : List ℕ) → waits (write raw) (shown_bytes bytes) ≡ false → shown_bytes bytes ≡ []
bytes_wait raw [] h = refl
bytes_wait raw (c ∷ cs) h = ground (arith, h)

one_write : (bytes : List ℕ) → length (shown_bytes bytes) ≤ 1
one_write [] = omega arith
one_write (c ∷ cs) = omega arith

at_once :
    (f : SyncClearFilter) (ops : List Op) (q : OpQueue) (op : Op) (rest : List Op) (s : Shown)
    → q.landing ≡ []
    → (op_effect op q.filter) ≡ (q.filter, s ∷ [])
    → q.waiting ≡ op ∷ rest
    → InOrder f ops q
    → (q.shown ++ s ∷ []) ++ (q.landing ++ in_order q.filter rest) ≡ in_order f ops
at_once f ops q op rest s l x e i =
    ap (λ k. (q.shown ++ s ∷ []) ++ (k ++ in_order q.filter rest)) l
    ∙ append_assoc q.shown (s ∷ []) (in_order q.filter rest)
    ∙ ap (λ y. q.shown ++ (y.1 ++ in_order y.0 rest)) (sym x)
    ∙ idle_so_far f ops q op rest l e i

started-InOrder :
    (f : SyncClearFilter) (ops : List Op) (q : OpQueue) (op : Op) (rest : List Op)
    → q.is_busy ≡ false
    → q.waiting ≡ op ∷ rest
    → InOrder f ops q
    → InOrder f ops (start_op op rest q)
unfolding start_op
started-InOrder f ops q (write raw) rest idle e i =
    let l = i.landed_when_idle idle in
    let (g, bytes) = push q.filter raw in
    record {
      shown_so_far =
          ap (λ k. q.shown ++ ((k ++ shown_bytes bytes) ++ in_order g rest)) l
          ∙ idle_so_far f ops q (write raw) rest l e i;
      filter_after = ap (after_ops q.filter) (sym e) ∙ i.filter_after;
      landed_when_idle = λ h. ap (λ k. k ++ shown_bytes bytes) l ∙ bytes_wait raw bytes h;
      one_at_a_time = subst (λ k. length (k ++ shown_bytes bytes) ≤ 1) (sym l) (one_write bytes);
    }
started-InOrder f ops q flush_phases rest idle e i =
    let l = i.landed_when_idle idle in
    record {
      shown_so_far = at_once f ops q flush_phases rest flushed l refl e i;
      filter_after = ap (after_ops q.filter) (sym e) ∙ i.filter_after;
      landed_when_idle = λ h. l;
      one_at_a_time = i.one_at_a_time;
    }
started-InOrder f ops q clear rest idle e i =
    let l = i.landed_when_idle idle in
    record {
      shown_so_far = at_once f ops q clear rest cleared l refl e i;
      filter_after = ap (after_ops q.filter) (sym e) ∙ i.filter_after;
      landed_when_idle = λ h. l;
      one_at_a_time = i.one_at_a_time;
    }

nothing_behind : (s : Shown) (rest : List Shown) → length (s ∷ rest) ≤ 1 → rest ≡ []
nothing_behind s [] h = refl
nothing_behind s (t ∷ ts) h = ground (arith, h)

landed-InOrder :
    (f : SyncClearFilter) (ops : List Op) (q : OpQueue) (s : Shown) (rest : List Shown)
    → q.landing ≡ s ∷ rest
    → InOrder f ops q
    → InOrder f ops (land s rest q)
unfolding land
landed-InOrder f ops q s rest e i =
    let r = nothing_behind s rest (subst (λ k. length k ≤ 1) e i.one_at_a_time) in
    record {
      shown_so_far =
          append_assoc q.shown (s ∷ []) (rest ++ in_order q.filter q.waiting)
          ∙ ap (λ k. q.shown ++ (k ++ in_order q.filter q.waiting)) (sym e)
          ∙ i.shown_so_far;
      filter_after = i.filter_after;
      landed_when_idle = λ h. r;
      one_at_a_time = subst (λ k. length k ≤ 1) (sym r) (omega arith);
    }

Reach-InOrder :
    {f : SyncClearFilter} {ops : List Op} {late : Bool} {q : OpQueue}
    → Reach f ops late q
    → late ≡ false
    → InOrder f ops q
Reach-InOrder begin h = record {
  shown_so_far = refl;
  filter_after = refl;
  landed_when_idle = λ h. refl;
  one_at_a_time = omega arith;
}
Reach-InOrder (enqueued op r) h = enqueued-InOrder _ _ _ op (Reach-InOrder r h)
Reach-InOrder (started op rest r idle e) h =
    started-InOrder _ _ _ op rest idle e (Reach-InOrder r h)
Reach-InOrder (landed s rest r e) h = landed-InOrder _ _ _ s rest e (Reach-InOrder r h)
Reach-InOrder (timed_out r b) h = ground (arith, h)

-- However the enqueueing, the starts and the callbacks interleave, while no timer has been faster than a
-- callback: what has taken effect, with the bytes that are landing and what the waiting operations will
-- add, is what the operations do one after the other in the order in which they were enqueued. So a phase
-- is applied when all the data that was written before it has landed, and before any that was written
-- after it lands.
pub shown-in_order :
    (f : SyncClearFilter) (ops : List Op) (q : OpQueue)
    → Reach f ops false q
    → q.shown ++ (q.landing ++ in_order q.filter q.waiting) ≡ in_order f ops
shown-in_order f ops q r = (Reach-InOrder r refl).shown_so_far
