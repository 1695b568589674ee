-- ===== src/Attention.antt =====
-- Attention of agent sessions and the notifications that it causes
-- (apps/ui/src/lib/sessionAttention.ts and apps/ui/src/lib/agentNotify.ts).
pub mod History
mod Tests
use tethra.Base.{
  Bool, Option, Text, codes, false, if◌then◌else◌, none, not, some, text_eq, true, ◌&&◌, ◌++◌, ◌||◌,
}

pub data AgentAttentionState : Type 0 where
  running waiting done failed : AgentAttentionState

pub record SessionAttention : Type 0 where
  pub state : AgentAttentionState
  pub message : Option Text
  pub no_watch : Option Bool

abbrev pub is_waiting : AgentAttentionState → Bool
is_waiting waiting = true
is_waiting _ = false

abbrev pub or_prev {ℓ} : {A : Type ℓ} → Option A → Option A → Option A
or_prev none prev = prev
or_prev (some x) prev = some x

abbrev pub prev_message : Option SessionAttention → Option Text
prev_message none = none
prev_message (some p) = p.message

abbrev pub prev_no_watch : Option SessionAttention → Option Bool
prev_no_watch none = none
prev_no_watch (some p) = p.no_watch

abbrev pub or_running : Option SessionAttention → Option Bool → SessionAttention
or_running none watch = record { state = running; message = none; no_watch = watch }
or_running (some p) watch = p

-- The sources that may raise `waiting`.
abbrev pub may_raise : Text → Bool
may_raise source =
    text_eq source (codes "bel") || text_eq source (codes "osc") || text_eq source (codes "tmux")

unfoldable pub merge_attention :
    Option SessionAttention → SessionAttention → Text → SessionAttention
merge_attention prev next source =
    if text_eq source (codes "silence")
    then or_running prev none
    else if is_waiting next.state && not (may_raise source)
    then or_running prev next.no_watch
    else record {
      state = next.state;
      message = or_prev next.message (prev_message prev);
      no_watch = or_prev next.no_watch (prev_no_watch prev);
    }

unfoldable pub attention_label : AgentAttentionState → Text
attention_label waiting = codes "waiting"
attention_label done = codes "done"
attention_label failed = codes "failed"
attention_label running = codes "running"

unfoldable pub attention_dot_class : AgentAttentionState → Text
attention_dot_class waiting = codes "bg-warning"
attention_dot_class failed = codes "bg-danger"
attention_dot_class running = codes "bg-success"
attention_dot_class done = codes "bg-success"

unfoldable pub attention_chip_class : AgentAttentionState → Text
attention_chip_class waiting = codes "bg-warning/15 text-warning"
attention_chip_class done = codes "bg-success/15 text-success"
attention_chip_class failed = codes "bg-danger/15 text-danger"
attention_chip_class running = codes "bg-elevated text-fg-subtle"

-- The three preferences that `maybeNotifyAttention` reads.
pub record NotifyPrefs : Type 0 where
  pub on_waiting : Bool
  pub on_done : Bool
  pub on_failed : Bool

pub record Notification : Type 0 where
  pub title : Text
  pub body : Text
  pub running_session_id : Text

abbrev pub notify_label : AgentAttentionState → Text
notify_label waiting = codes "needs attention"
notify_label failed = codes "failed"
notify_label _ = codes "done"

abbrev pub body_or_label : Option Text → AgentAttentionState → Text
body_or_label none state = codes "Session " ++ notify_label state
body_or_label (some body) state = body

abbrev pub early_return : NotifyPrefs → AgentAttentionState → Bool
early_return prefs waiting = not prefs.on_waiting
early_return prefs done = not prefs.on_done
early_return prefs failed = not prefs.on_failed
early_return prefs running = true

-- What is handed to the notification plugin, if anything.
unfoldable pub maybe_notify_attention :
    NotifyPrefs → AgentAttentionState → Text → Option Text → Text → Option Notification
maybe_notify_attention prefs state title body session =
    if early_return prefs state
    then none
    else some (record {
      title = codes "Tethra · " ++ title;
      body = body_or_label body state;
      running_session_id = session;
    })
