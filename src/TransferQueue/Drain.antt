-- ===== src/TransferQueue/Drain.antt =====
-- The queue runs dry: what is left to do, and how it shrinks as the transfers settle.
use tethra.Base.{
  Bool, Bool-cases, List, Option, Option-cases, Text, [], any, arith, codes, false, find?, if-intro,
  if◌then◌else◌, includes, inl, inr, is_some, length, modify_first, none, refl, some, suc, ℕ, ◌+◌,
  ◌-◌, ◌∙◌, ◌∷◌, ◌≡◌, ◌≤◌,
}
use tethra.TransferQueue.{
  Effect, TransferItem, TransferQueueRunner, changed_then_pump, complete_if_running, has_id,
  is_queued, mark_rejected, rejected, resolved, running, status_is_running,
}
use tethra.TransferQueue.World.{Step, World, after, fulfil, reject}
use tethra.TransferQueue.Invariant.{IsValid, Step-IsValid, ids, pump-rest, pump-start}

abbrev pub queued_count : List TransferItem → ℕ
queued_count [] = 0
queued_count (t ∷ ts) = let rest = queued_count ts in if is_queued t then suc rest else rest

-- The items that wait, and the transfer in flight.
abbrev pub outstanding : World → ℕ
outstanding w = queued_count w.runner.items + length w.flights

-- The promise of the transfer in flight settles: fulfilled, or rejected with a message.
abbrev pub settle_runner :
    TransferQueueRunner → Text → Option Text → TransferQueueRunner × List Effect
settle_runner r i none = resolved r i
settle_runner r i (some message) = rejected r i message

abbrev settle_first : TransferQueueRunner → List Text → Option Text → World
settle_first r [] answer = record { runner = r; flights = [] }
settle_first r (i ∷ rest) answer = after rest (settle_runner r i answer)

abbrev pub settle : World → Option Text → World
settle w answer = settle_first w.runner w.flights answer

abbrev pub settle_all : List (Option Text) → World → World
settle_all [] w = w
settle_all (a ∷ answers) w = settle_all answers (settle w a)

none_queued : (ts : List TransferItem) → find? is_queued ts ≡ none → queued_count ts ≡ 0
none_queued [] h = refl
none_queued (t ∷ ts) h = ground (arith, none_queued ts)

one_started :
    (ts : List TransferItem) (t : TransferItem)
    → find? is_queued ts ≡ some t
    → queued_count (modify_first is_queued (λ u. record u { status = running }) ts) + 1
      ≡ queued_count ts
one_started [] t h = cc
one_started (u ∷ ts) t h = elim (Bool-cases (is_queued u)) [
  | inl e ↦ rw e (omega arith)
  | inr e ↦ ground (arith, one_started ts t)
]

-- An idle runner moves one item from the queue into flight, if there is one.
outstanding-pump :
    (r : TransferQueueRunner)
    → r.is_running ≡ false
    → outstanding (after [] (changed_then_pump r)) ≡ queued_count r.items
outstanding-pump r idle = elim (Option-cases (find? is_queued r.items)) [
  | inl e ↦ rw (pump-rest r idle e) (omega (arith, none_queued r.items e))
  | inr (t, e) ↦ rw (pump-start r t idle e) (omega (arith, one_started r.items t e))
]

queued_count-modify_first :
    (p : TransferItem → Bool) (g : TransferItem → TransferItem) (ts : List TransferItem)
    → ((t : TransferItem) → is_queued t ≡ false → is_queued (g t) ≡ false)
    → queued_count (modify_first p g ts) ≤ queued_count ts
queued_count-modify_first p g [] k = omega arith
queued_count-modify_first p g (t ∷ ts) k = elim (Bool-cases (p t)) [
  | inl e ↦ rw e (ground (arith, k t))
  | inr e ↦ rw e (ground (arith, queued_count-modify_first p g ts k))
]

complete-is_queued :
    (t : TransferItem) → is_queued t ≡ false → is_queued (complete_if_running t) ≡ false
complete-is_queued t h =
    if-intro (λ (u : TransferItem). is_queued u ≡ false) (status_is_running t.status) refl h

rejected-is_queued :
    (message : Text) (t : TransferItem)
    → is_queued t ≡ false
    → is_queued (mark_rejected message t) ≡ false
unfolding mark_rejected
rejected-is_queued message t h =
    if-intro (λ (u : TransferItem). is_queued u ≡ false) (includes message (codes "cancelled")) refl
      refl

settle_runner-outstanding :
    (r : TransferQueueRunner) (i : Text) (answer : Option Text)
    → outstanding (after [] (settle_runner r i answer)) ≤ queued_count r.items
unfolding resolved rejected
settle_runner-outstanding r i none =
    let items = modify_first (has_id i) complete_if_running r.items in
    let e =
      outstanding-pump (record r { items = items; is_running = false; active_id = none }) refl in
    omega (
      arith,
      e,
      queued_count-modify_first (has_id i) complete_if_running r.items complete-is_queued,
    )
settle_runner-outstanding r i (some m) =
    let items = modify_first (has_id i) (mark_rejected m) r.items in
    let e =
      outstanding-pump (record r { items = items; is_running = false; active_id = none }) refl in
    omega (
      arith,
      e,
      queued_count-modify_first (has_id i) (mark_rejected m) r.items (rejected-is_queued m),
    )

alone : (i : Text) (rest : List Text) (o : Option Text) → i ∷ rest ≡ ids o → rest ≡ []
alone i rest none h = cc
alone i [] (some j) h = refl
alone i (k ∷ ks) (some j) h = absurd (cc)

count_none : (ts : List TransferItem) → any is_queued ts ≡ false → queued_count ts ≡ 0
count_none [] h = refl
count_none (t ∷ ts) h = ground (arith, count_none ts)

positive : (n : ℕ) → suc n ≡ 0 → ⊥
positive n h = omega arith

none_of_count : (ts : List TransferItem) → queued_count ts ≡ 0 → any is_queued ts ≡ false
none_of_count [] h = refl
none_of_count (t ∷ ts) h = elim (Bool-cases (is_queued t)) [
  | inl e ↦ absurd (positive (queued_count ts) (rw e at h))
  | inr e ↦ rw e (none_of_count ts (rw e at h))
]

settle-Step :
    (r : TransferQueueRunner) (i : Text) (answer : Option Text)
    → Step (record { runner = r; flights = i ∷ [] }) (after [] (settle_runner r i answer))
settle-Step r i none = fulfil (record { runner = r; flights = i ∷ [] }) i [] [] refl
settle-Step r i (some m) = reject (record { runner = r; flights = i ∷ [] }) i m [] [] refl

idle_active : (o : Option Text) → [] ≡ ids o → is_some o ≡ false
idle_active none h = refl
idle_active (some i) h = cc

-- A settling transfer leaves a valid world, with less to do if there was anything to do.
settle_first-IsValid :
    (r : TransferQueueRunner) (fl : List Text) (answer : Option Text)
    → IsValid (record { runner = r; flights = fl })
    → IsValid (settle_first r fl answer)
      × (outstanding (settle_first r fl answer)
          ≤ outstanding (record { runner = r; flights = fl }) - 1)
settle_first-IsValid r [] answer v =
    let idle : r.is_running ≡ false = v.active ∙ idle_active r.active_id v.one in
    (v, omega (arith, count_none r.items (v.busy idle)))
settle_first-IsValid r (i ∷ []) answer v =
    (Step-IsValid (settle-Step r i answer) v, omega (arith, settle_runner-outstanding r i answer))
settle_first-IsValid r (i ∷ j ∷ rest) answer v = cc (alone i (j ∷ rest) r.active_id v.one)

no_flights : (fl : List Text) → length fl ≡ 0 → fl ≡ []
no_flights [] h = refl
no_flights (i ∷ fl) h = absurd (positive (length fl) h)

-- However the transfers are answered, fulfilled or rejected, in whatever mixture: after as many answers
-- as there are items queued and transfers in flight, nothing is queued and nothing is in flight: no
-- failure stops the queue.
pub settle_all-drains :
    (answers : List (Option Text)) (w : World)
    → IsValid w
    → outstanding w ≤ length answers
    → ((settle_all answers w).flights ≡ [])
      × (any is_queued (settle_all answers w).runner.items ≡ false)
settle_all-drains [] w v h =
    (no_flights w.flights (omega arith), none_of_count w.runner.items (omega arith))
settle_all-drains (a ∷ answers) w v h =
    let (u, less) = settle_first-IsValid w.runner w.flights a v in
    settle_all-drains answers (settle w a) u (omega arith)
