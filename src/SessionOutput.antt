-- ===== src/SessionOutput.antt =====
-- What a session's events do in apps/ui/src/App.tsx: `attachOutput`, which holds the events back until the
-- scrollback of a project is restored, its handler, the attention that it raises, the transcript for the
-- assistant, and the reconnection. `Output` is the part of the component's state that they use. Base64,
-- the decoding of UTF-8 and the answer of `sessionRunsAgentCommand` come from outside.
use tethra.Base.{
  Bool, List, Option, Text, [], codes, drop, false, find?, if◌then◌else◌, is_empty, is_some, length,
  ltb, map, none, not, some, suc, text_eq, true, zero, ℕ, ◌&&◌, ◌*◌, ◌++◌, ◌+◌, ◌-◌, ◌/◌, ◌||◌, ◌∷◌,
}
use tethra.Base.TextMap.{TextMap, get, put}
use tethra.Attention.{
  AgentAttentionState, Notification, NotifyPrefs, SessionAttention, done, failed,
  maybe_notify_attention, merge_attention, running, waiting,
}
use tethra.Blocks.{
  TerminalBlockPhase, command_end, command_start, output_start, pos, prompt_start, ℤ,
}
use tethra.Workspace.State.{Tab, has_session, is_local, is_sftp}
use tethra.Workspace.View.{disconnected}
pub mod Attach
pub mod Order
pub mod Transcript
pub mod Reconnect
pub mod Alert
mod Tests

pub data TerminalEvent : Type 0 where
  bytes_event : Text → Bool → TerminalEvent
  block_event : TerminalBlockPhase → Option ℤ → TerminalEvent
  attention_event : AgentAttentionState → Option Text → Text → TerminalEvent
  closed_event : TerminalEvent

-- The fields of a running session that are used.
pub record RunningSession : Type 0 where
  pub id : Text
  pub project_id : Text
  pub project_name : Text
  pub host_id : Text
  pub mux_session : Text

pub data SessionEffect : Type 0 where
  write_terminal : Text → List ℕ → SessionEffect
  write_terminal_message : Text → Text → SessionEffect
  queue_block_phase : Text → TerminalBlockPhase → Option ℤ → SessionEffect
  schedule_flush_block_phases : Text → SessionEffect
  notify : Notification → SessionEffect
  -- `setTimeout`: the session, its host, its multiplexer's name and the milliseconds.
  reconnect_later : Text → Text → Text → ℕ → SessionEffect

pub record Output : Type 0 where
  pub tabs : List Tab
  pub transcripts : TextMap Text
  pub last_exit_codes : TextMap ℤ
  pub pty_attention : TextMap SessionAttention
  pub session_attention : TextMap SessionAttention
  pub pty_to_running : TextMap Text
  pub running_sessions : List RunningSession
  pub reconnect_attempts : TextMap ℕ

-- `slice(-n)`.
abbrev pub take_last : ℕ → Text → Text
take_last n s = drop (length s - n) s

abbrev pub or_empty : Option Text → Text
or_empty none = []
or_empty (some s) = s

abbrev pub or_zero : Option ℕ → ℕ
or_zero none = 0
or_zero (some n) = n

-- An escape, the colour, the message and the reset.
abbrev pub coloured : Text → Text → Text
coloured colour message =
    0x1b ∷ (codes "[" ++ colour ++ codes "m" ++ (message ++ 0x1b ∷ codes "[0m"))

abbrev dropped_message : Text
dropped_message =
    coloured (codes "33") (codes "Some output was dropped because rendering fell behind.")

abbrev pub attention_eq : AgentAttentionState → AgentAttentionState → Bool
attention_eq running running = true
attention_eq waiting waiting = true
attention_eq done done = true
attention_eq failed failed = true
attention_eq _ _ = false

abbrev pub message_eq : Option Text → Option Text → Bool
message_eq none none = true
message_eq (some s) (some t) = text_eq s t
message_eq _ _ = false

abbrev pub same_attention : Option SessionAttention → SessionAttention → Bool
same_attention none merged = false
same_attention (some p) merged =
    attention_eq p.state merged.state && message_eq p.message merged.message

abbrev pub same_state : Option SessionAttention → AgentAttentionState → Bool
same_state none s = false
same_state (some p) s = attention_eq p.state s

-- The map is kept when neither the state nor the message changes.
abbrev pub put_attention :
    Text → SessionAttention → TextMap SessionAttention → TextMap SessionAttention
put_attention k merged m = if same_attention (get k m) merged then m else put k merged m

abbrev pub is_running_state : AgentAttentionState → Bool
is_running_state running = true
is_running_state _ = false

abbrev pub find_running : Text → List RunningSession → Option RunningSession
find_running i ss = find? (λ s. text_eq s.id i) ss

abbrev pub title_of : Option RunningSession → Text
title_of none = codes "Agent"
title_of (some s) = s.project_name

abbrev pub notice : Option Notification → List SessionEffect
notice none = []
notice (some n) = notify n ∷ []

module _ (prefs : NotifyPrefs) where
  abbrev pub change_notice :
      Text → Option SessionAttention → SessionAttention → Option RunningSession → List SessionEffect
  change_notice i prev merged s =
      if same_attention prev merged || same_state prev merged.state || is_running_state merged.state
      then []
      else notice (maybe_notify_attention prefs merged.state (title_of s) merged.message i)

  abbrev pub raise_running :
      Option Text → SessionAttention → Text → Output → Output × List SessionEffect
  raise_running none next source o = (o, [])
  raise_running (some i) next source o =
      let prev = get i o.session_attention in
      let merged = merge_attention prev next source in
      (
        record o { session_attention = put_attention i merged o.session_attention },
        change_notice i prev merged (find_running i o.running_sessions),
      )

  -- `applyPtyAttention`.
  unfoldable pub apply_pty_attention :
      Text → SessionAttention → Text → Output → Output × List SessionEffect
  unfolding merge_attention maybe_notify_attention
  apply_pty_attention s next source o =
      let merged = merge_attention (get s o.pty_attention) next source in
      raise_running (get s o.pty_to_running) next source
        (record o { pty_attention = put_attention s merged o.pty_attention })

abbrev pub plain_attention : AgentAttentionState → Option Text → SessionAttention
plain_attention state message = record { state = state; message = message; no_watch = none }

abbrev pub is_zero : ℤ → Bool
is_zero (pos zero) = true
is_zero _ = false

abbrev pub exit_state : ℤ → AgentAttentionState
exit_state code = if is_zero code then done else failed

abbrev pub store_exit_code : Text → Option ℤ → Output → Output
store_exit_code s none o = o
store_exit_code s (some code) o = record o { last_exit_codes = put s code o.last_exit_codes }

-- `Math.round(delay / 1000)`, which has one digit.
abbrev pub seconds_text : ℕ → Text
seconds_text delay = (0x30 + (delay + 500) / 1000) ∷ []

abbrev pub reconnecting_message : ℕ → Text
reconnecting_message delay =
    coloured (codes "90")
      (codes "reconnecting in " ++ seconds_text delay ++ codes "s" ++ 0x2026 ∷ [])

abbrev pub delay_after : ℕ → ℕ
delay_after tries = 1500 * (tries + 1)

abbrev pub reconnect_after : Text → Tab → Text → ℕ → Output → Output × List SessionEffect
reconnect_after s t mux tries o =
    if ltb tries 3
    then (
      record o { reconnect_attempts = put s (suc tries) o.reconnect_attempts },
      write_terminal_message s (reconnecting_message (delay_after tries))
          ∷ reconnect_later s t.host_id mux (delay_after tries)
          ∷ [],
    )
    else (o, [])

abbrev pub is_remote_terminal : Tab → Bool
is_remote_terminal t =
    not (is_sftp t.kind) && not (is_local t.kind) && not (text_eq t.host_id (codes "local"))

abbrev pub reconnect_mux : Text → Tab → Option Text → Output → Output × List SessionEffect
reconnect_mux s t none o = (o, [])
reconnect_mux s t (some mux) o =
    if is_remote_terminal t && not (is_empty mux)
    then reconnect_after s t mux (or_zero (get s o.reconnect_attempts)) o
    else (o, [])

abbrev pub reconnect_tab : Text → Option Tab → Output → Output × List SessionEffect
reconnect_tab s none o = (o, [])
reconnect_tab s (some t) o = reconnect_mux s t t.mux_name o

abbrev pub after {ℓ} :
    {S : Type ℓ} → List SessionEffect → S × List SessionEffect → S × List SessionEffect
after effects (o, more) = (o, effects ++ more)

abbrev pub set_disconnected : Text → Output → Output
set_disconnected s o = record o {
  tabs = map (λ t. if has_session s t then disconnected t else t) o.tabs;
}

-- `runs_agent`: what `sessionRunsAgentCommand` says of the session at the time.
abbrev pub ignores : Text → Bool → Text → Output → Bool
ignores s runs_agent source o =
    text_eq source (codes "silence")
    || (text_eq source (codes "bel") && not (is_some (get s o.pty_to_running)) && not runs_agent)

module _ (decode_base64 : Text → List ℕ) (decode : List ℕ → Text) where
  abbrev pub append_transcript : Text → List ℕ → Output → Output
  append_transcript s bytes o = record o {
    transcripts =
        put s (take_last 16384 (or_empty (get s o.transcripts) ++ decode bytes)) o.transcripts;
  }

  abbrev pub handle_bytes : Text → Text → Bool → Output → Output × List SessionEffect
  handle_bytes s payload dropped o = (
    append_transcript s (decode_base64 payload) o,
    write_terminal s (decode_base64 payload)
        ∷ (if dropped then write_terminal_message s dropped_message ∷ [] else []),
  )

module _ (prefs : NotifyPrefs) where
  abbrev pub block_attention :
      Text → TerminalBlockPhase → Option ℤ → Output → Output × List SessionEffect
  block_attention s prompt_start code o = (o, [])
  block_attention s command_start code o =
      apply_pty_attention prefs s (plain_attention running none) (codes "activity") o
  block_attention s output_start code o =
      apply_pty_attention prefs s (plain_attention running none) (codes "activity") o
  block_attention s command_end none o = (o, [])
  block_attention s command_end (some code) o =
      apply_pty_attention prefs s (plain_attention (exit_state code) none) (codes "exit") o

  abbrev pub handle_block :
      Text → TerminalBlockPhase → Option ℤ → Output → Output × List SessionEffect
  handle_block s phase code o =
      after (queue_block_phase s phase code ∷ schedule_flush_block_phases s ∷ [])
        (block_attention s phase code (store_exit_code s code o))

  abbrev pub handle_attention :
      Text → Bool → AgentAttentionState → Option Text → Text → Output → Output × List SessionEffect
  handle_attention s runs_agent state message source o =
      if ignores s runs_agent source o
      then (o, [])
      else apply_pty_attention prefs s (plain_attention state message) source o

-- The tabs are read before React has applied the change of the tab.
abbrev pub handle_closed : Text → Text → Output → Output × List SessionEffect
handle_closed s closed_message o =
    after (write_terminal_message s (coloured (codes "90") closed_message) ∷ [])
      (reconnect_tab s (find? (has_session s) o.tabs) (set_disconnected s o))

module _ (prefs : NotifyPrefs) (decode_base64 : Text → List ℕ) (decode : List ℕ → Text) where
  -- The session, and the message for its end.
  unfoldable pub handle : Text → Text → TerminalEvent × Bool → Output → Output × List SessionEffect
  unfolding apply_pty_attention
  handle s closed_message (bytes_event payload dropped, runs_agent) o =
      handle_bytes decode_base64 decode s payload dropped o
  handle s closed_message (block_event phase code, runs_agent) o = handle_block prefs s phase code o
  handle s closed_message (attention_event state message source, runs_agent) o =
      handle_attention prefs s runs_agent state message source o
  handle s closed_message (closed_event, runs_agent) o = handle_closed s closed_message o

  unfoldable pub handle_all :
      Text → Text → List (TerminalEvent × Bool) → Output → Output × List SessionEffect
  handle_all s closed_message [] o = (o, [])
  handle_all s closed_message (e ∷ es) o =
      let (o', effects) = handle s closed_message e o in
      after effects (handle_all s closed_message es o')
