-- ===== src/SessionOutput/Attach.antt =====
-- `attachOutput` of apps/ui/src/App.tsx: the events that come before the scrollback of a project is
-- restored are kept, and handled when it is; and what `closeTab` and `connect` do to the state of the
-- sessions when a tab is connected again. The flag of an event is that of the time when it is handled.
use tethra.Attention.{NotifyPrefs}
use tethra.Base.{Bool, List, Text, [], if◌then◌else◌, not, true, ℕ, ◌++◌, ◌∷◌}
use tethra.Base.TextMap.{delete}
use tethra.Workspace.State.{Tab, without_session}
use tethra.SessionOutput.{Output, SessionEffect, TerminalEvent, after, handle, handle_all}

pub record Attachment : Type 0 where
  pub ready : Bool
  pub pending : List (TerminalEvent × Bool)
  pub output : Output

pub data Arrival : Type 0 where
  arrived : TerminalEvent × Bool → Arrival
  restored : Arrival

abbrev pub attach : Bool → Output → Attachment
attach restores o = record { ready = not restores; pending = []; output = o }

module _ (prefs : NotifyPrefs) (decode_base64 : Text → List ℕ) (decode : List ℕ → Text)
    (s closed_message : Text) where
  abbrev with_output : Attachment → Output × List SessionEffect → Attachment × List SessionEffect
  with_output a (o, effects) = (record a { output = o }, effects)

  unfoldable pub arrive : Arrival → Attachment → Attachment × List SessionEffect
  unfolding handle handle_all
  arrive (arrived e) a =
      if not a.ready
      then (record a { pending = a.pending ++ e ∷ [] }, [])
      else with_output a (handle prefs decode_base64 decode s closed_message e a.output)
  arrive restored a =
      with_output (record a { ready = true })
        (handle_all prefs decode_base64 decode s closed_message a.pending a.output)

  unfoldable pub arrive_all : List Arrival → Attachment → Attachment × List SessionEffect
  unfolding arrive
  arrive_all [] a = (a, [])
  arrive_all (x ∷ xs) a = let (a', effects) = arrive x a in after effects (arrive_all xs a')

-- What `closeTab` forgets. It sets the tabs by those of the render that made it, `seen`, which is an earlier
-- one when the timer of a reconnection calls it.
unfoldable pub forget_session : Text → List Tab → Output → Output
forget_session s seen o = record o {
  tabs = without_session s seen;
  transcripts = delete s o.transcripts;
  last_exit_codes = delete s o.last_exit_codes;
  pty_attention = delete s o.pty_attention;
  pty_to_running = delete s o.pty_to_running;
  reconnect_attempts = delete s o.reconnect_attempts;
}

-- `connect`, when the terminal is open.
abbrev pub open_tab : Tab → Output → Output
open_tab t o = record o { tabs = o.tabs ++ t ∷ [] }
