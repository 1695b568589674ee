-- ===== src/Attention/Tests.antt =====
-- Updates of a session, and the theorems at them.
use tethra.Base.{List, [], codes, none, refl, text_eq, true, ◌∷◌, ◌≡◌}
use tethra.Attention.{
  AgentAttentionState, NotifyPrefs, SessionAttention, attention_label, done, merge_attention,
  running, waiting,
}
use tethra.Attention.History.{Update, merge_all, waits}

abbrev says : AgentAttentionState → SessionAttention
says s = record { state = s; message = none; no_watch = none }

abbrev history : List Update
history =
    (says waiting, codes "silence")
    ∷ (says waiting, codes "bel")
    ∷ (says running, codes "activity")
    ∷ []

history-waits : waits (merge_all history) ≡ true
unfolding merge_all merge_attention text_eq
history-waits = refl

labels : attention_label done ≡ codes "done"
unfolding attention_label
labels = refl

abbrev all_on : NotifyPrefs
all_on = record { on_waiting = true; on_done = true; on_failed = true }
