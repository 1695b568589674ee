-- ===== src/SessionOutput/Tests.antt =====
-- A session of a project that is restored, dropped and connected again.
use tethra.Base.{
  Bool, Text, [], any, arith, codes, false, flat_map, none, refl, some, text_eq, true, ◌||◌, ◌∷◌,
  ◌≡◌, ◌≤◌,
}
use tethra.Attention.{NotifyPrefs, merge_attention, waiting}
use tethra.Workspace.State.{Tab, new_tab, terminal}
use tethra.SessionOutput.{
  Output, TerminalEvent, apply_pty_attention, attention_event, bytes_event, closed_event, coloured,
  handle, handle_all, handle_closed, reconnect_later, reconnecting_message, write_terminal_message,
}
use tethra.SessionOutput.Attach.{arrive_all, arrived, attach, forget_session, open_tab, restored}
use tethra.SessionOutput.Order.{arrive_all-eq-handle_all, outcome}
use tethra.SessionOutput.Transcript.{handle_all-transcript, transcript}
use tethra.SessionOutput.Reconnect.{forget_session-reconnects, handle_all-reconnects, reconnects}
use tethra.SessionOutput.Alert.{asks, handle_all-asks, pty_waits}

abbrev all_on : NotifyPrefs
all_on = record { on_waiting = true; on_done = true; on_failed = true }

abbrev same : Text → Text
same s = s

abbrev box_tab : Text → Tab
box_tab s = record (new_tab s (codes "h") (codes "box") terminal true none) {
  mux_name = some (codes "m");
}

abbrev fresh_output : Output
fresh_output = record {
  tabs = box_tab (codes "s") ∷ [];
  transcripts = [];
  last_exit_codes = [];
  pty_attention = [];
  session_attention = [];
  pty_to_running = [];
  running_sessions = [];
  reconnect_attempts = [];
}

abbrev greeting : TerminalEvent × Bool
greeting = (bytes_event (codes "hi") false, false)

abbrev bell : Bool → TerminalEvent × Bool
bell agent = (attention_event waiting none (codes "bel"), agent)

arrive_all-eq-handle_all_example :
    outcome (
      arrive_all all_on same same
        (codes "s")
        (codes "Connection closed.")
        (arrived greeting ∷ restored ∷ arrived (bell true) ∷ [])
        (attach true fresh_output))
    ≡ handle_all all_on same same
        (codes "s")
        (codes "Connection closed.")
        (greeting ∷ bell true ∷ [])
        fresh_output
arrive_all-eq-handle_all_example =
    arrive_all-eq-handle_all all_on same same (codes "s") (codes "Connection closed.")
      (greeting ∷ []) (bell true ∷ []) fresh_output

-- The first drop is answered after a second and a half.
first_delay :
    (handle_closed (codes "s") (codes "bye") fresh_output).1
    ≡ write_terminal_message (codes "s") (coloured (codes "90") (codes "bye"))
      ∷ write_terminal_message (codes "s") (reconnecting_message 1500)
      ∷ reconnect_later (codes "s") (codes "h") (codes "m") 1500
      ∷ []
unfolding text_eq
first_delay = refl

handle_all-transcript_example :
    transcript
      (codes "s")
      (handle_all all_on same same
        (codes "s")
        []
        (greeting ∷ bell false ∷ greeting ∷ [])
        fresh_output).0
    ≡ codes "hihi"
unfolding flat_map
handle_all-transcript_example =
    handle_all-transcript all_on same same (codes "s") [] (greeting ∷ bell false ∷ greeting ∷ [])
      fresh_output (omega arith)

handle_all-reconnects_example :
    reconnects
      (handle_all all_on same same
        (codes "s")
        []
        ((closed_event, false) ∷ (closed_event, false) ∷ [])
        fresh_output).1
    ≤ 3
handle_all-reconnects_example =
    handle_all-reconnects all_on same same (codes "s") []
      ((closed_event, false) ∷ (closed_event, false) ∷ []) fresh_output

forget_session-reconnects_example :
    reconnects
      (handle_closed (codes "t") [] (
        open_tab (box_tab (codes "t")) (
          forget_session
            (codes "s")
            fresh_output.tabs
            (handle_closed (codes "s") [] fresh_output).0))).1
    ≡ 1
unfolding text_eq
forget_session-reconnects_example =
    forget_session-reconnects (codes "s") (codes "t") [] [] (codes "m") (box_tab (codes "t"))
      fresh_output.tabs fresh_output refl (refl, refl, refl, refl) refl refl

waits_now :
    pty_waits
      (codes "s")
      (handle_all all_on same same (codes "s") [] (greeting ∷ bell true ∷ []) fresh_output).0
    ≡ true
unfolding handle_all handle apply_pty_attention merge_attention text_eq
waits_now = refl

handle_all-asks_example :
    (pty_waits (codes "s") fresh_output || any (asks false) (greeting ∷ bell true ∷ [])) ≡ true
handle_all-asks_example =
    handle_all-asks all_on same same (codes "s") [] (greeting ∷ bell true ∷ []) fresh_output
      waits_now
