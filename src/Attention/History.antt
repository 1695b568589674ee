-- ===== src/Attention/History.antt =====
-- A session's attention after any sequence of updates.
use tethra.Base.{
  Bool, List, Option, Text, [], any, arith, codes, false, inl, inr, none, refl, some, text_eq_refl,
  true, ◌&&◌, ◌∷◌, ◌≡◌, ◌⊎◌,
}
use tethra.Attention.{
  NotifyPrefs, SessionAttention, is_waiting, may_raise, maybe_notify_attention, merge_attention,
}

abbrev pub Update : Type 0
Update = SessionAttention × Text

-- The state after the updates, the latest first; none before the first one.
unfoldable pub merge_all : List Update → Option SessionAttention
merge_all [] = none
merge_all ((next, source) ∷ earlier) = some (merge_attention (merge_all earlier) next source)

abbrev pub waits : Option SessionAttention → Bool
waits none = false
waits (some p) = is_waiting p.state

-- The update is an explicit signal of an agent that waits.
abbrev pub raises : Update → Bool
raises (next, source) = is_waiting next.state && may_raise source

pub merge_attention-waits :
    (prev : Option SessionAttention) (next : SessionAttention) (source : Text)
    → is_waiting (merge_attention prev next source).state ≡ true
    → (waits prev ≡ true) ⊎ (raises (next, source) ≡ true)
unfolding merge_attention
merge_attention-waits prev next source h = ground arith

-- A session is shown as waiting only if one of its updates was a bell, an OSC or a tmux signal that says
-- so. Silence never raises it, however long the history.
pub merge_all-raises :
    (updates : List Update) → waits (merge_all updates) ≡ true → any raises updates ≡ true
unfolding merge_all
merge_all-raises [] h = cc
merge_all-raises ((next, source) ∷ earlier) h =
    elim (merge_attention-waits (merge_all earlier) next source h) [
      | inl old ↦ ground (arith, merge_all-raises earlier old)
      | inr new ↦ ground arith
    ]

-- Silence changes nothing: not the state, the message or the flag of a session that has a state, and a
-- session without one counts as running and is not notified.
pub silence-quiet :
    (prefs : NotifyPrefs) (prev next : SessionAttention) (title session : Text) (body : Option Text)
    → (merge_attention (some prev) next (codes "silence") ≡ prev)
      × (maybe_notify_attention prefs
            (merge_attention none next (codes "silence")).state
            title
            body
            session
          ≡ none)
unfolding merge_attention maybe_notify_attention
silence-quiet prefs prev next title session body = rw (text_eq_refl (codes "silence")) (refl, refl)
