-- ===== src/Blocks/Idle.antt =====
-- What the end of a command leaves.
use tethra.Base.{
  Bool, Bool-cases, Option, Text, [], ap, false, inl, inr, none, refl, some, true, ◌∙◌, ◌∷◌, ◌≡◌,
}
use tethra.Blocks.{Marker, Session, TuiState, closed, mark_agent_launched, reset_tui_state, ℤ}
use tethra.Blocks.Phases.{View, dispose, with_tui}
use tethra.Blocks.Finish.{
  Draft, at_end, command_end_phase, conclude, discards, draft, fallback, launch_script,
  leave_launch, session_has_running_command, unless_repeated,
}

conclude-idle :
    (v : View) (exit_code : Option ℤ) (end : Marker) (d : Draft) (text output : Text) (s : Session)
    → ((conclude v exit_code end d text output s).tracker.opened ≡ closed)
      × ((conclude v exit_code end d text output s).tracker.active ≡ none)
conclude-idle v exit_code end d text output s =
    elim (Bool-cases (discards v (launch_script s) s.tracker.opened.command_from_input text)) [
      | inl e ↦ rw e (refl, refl)
      | inr e ↦ rw e (refl, refl)
    ]

running-idle : (s : Session) → s.tracker.active ≡ none → session_has_running_command s ≡ false
unfolding session_has_running_command
running-idle s h = rw h refl

at_end-idle :
    (v : View) (exit_code : Option ℤ) (m : Option Marker) (end : Marker) (s : Session)
    → m ≡ some end
    → ((at_end v exit_code m s).tracker.opened ≡ closed)
      × ((at_end v exit_code m s).tracker.active ≡ none)
at_end-idle v exit_code none end s h = cc
at_end-idle v exit_code (some m) end s h =
    conclude-idle v exit_code m (draft v s.tracker.opened m).0
      (unless_repeated v s.tracker.opened.command_from_input
        (fallback v (draft v s.tracker.opened m).0) (v.text_between s.tracker.opened.output_start m)
        (draft v s.tracker.opened m).0.prompt)
      (v.text_between s.tracker.opened.output_start m) (dispose (draft v s.tracker.opened m).1 s)

-- The end of a command, whenever the terminal gives a marker for it, leaves nothing open and no command
-- running: whichever block the scans find, whether it is kept or discarded, and in whatever state the
-- session was.
pub command_end_phase-idle :
    (v : View) (exit_code : Option ℤ) (s : Session) (end : Marker)
    → v.cursor_marker ≡ some end
    → ((command_end_phase v exit_code s).tracker.opened ≡ closed)
      × (session_has_running_command (command_end_phase v exit_code s) ≡ false)
unfolding command_end_phase
command_end_phase-idle v exit_code s end m =
    let (o, a) =
      at_end-idle v exit_code v.cursor_marker end (with_tui (reset_tui_state s.tui) s) m in
    (o, running-idle (at_end v exit_code v.cursor_marker (with_tui (reset_tui_state s.tui) s)) a)

discards-launch :
    (v : View) (from_input : Bool) (text : Text) → discards v true from_input text ≡ true
discards-launch v from_input [] = refl
discards-launch v from_input (c ∷ cs) = refl

mark_agent_launched-off : (t : TuiState) → (mark_agent_launched false t).agent_launched ≡ false
mark_agent_launched-off t = elim (Bool-cases t.agent_launched) [
  | inl e ↦ rw e refl
  | inr e ↦ rw e refl
]

leave_launch-launched :
    (s : Session) → launch_script s ≡ true → (leave_launch s).tui.agent_launched ≡ false
leave_launch-launched s h = rw h (mark_agent_launched-off s.tui)

leave_launch-finished : (s : Session) → (leave_launch s).tracker.finished ≡ s.tracker.finished
leave_launch-finished s = elim (Bool-cases (launch_script s)) [
  | inl e ↦ rw e refl
  | inr e ↦ rw e refl
]

conclude-launch :
    (v : View) (exit_code : Option ℤ) (end : Marker) (d : Draft) (text output : Text) (s : Session)
    → launch_script s ≡ true
    → ((conclude v exit_code end d text output s).tui.agent_launched ≡ false)
      × ((conclude v exit_code end d text output s).tracker.finished ≡ s.tracker.finished)
conclude-launch v exit_code end d text output s h =
    let e : discards v (launch_script s) s.tracker.opened.command_from_input text ≡ true =
      ap (λ l. discards v l s.tracker.opened.command_from_input text) h
      ∙ discards-launch v s.tracker.opened.command_from_input text in
    rw e (leave_launch-launched s h, leave_launch-finished s)

at_end-launch :
    (v : View) (exit_code : Option ℤ) (m : Option Marker) (end : Marker) (s : Session)
    → m ≡ some end
    → launch_script s ≡ true
    → ((at_end v exit_code m s).tui.agent_launched ≡ false)
      × ((at_end v exit_code m s).tracker.finished ≡ s.tracker.finished)
at_end-launch v exit_code none end s h l = cc
at_end-launch v exit_code (some m) end s h l =
    conclude-launch v exit_code m (draft v s.tracker.opened m).0
      (unless_repeated v s.tracker.opened.command_from_input
        (fallback v (draft v s.tracker.opened m).0) (v.text_between s.tracker.opened.output_start m)
        (draft v s.tracker.opened m).0.prompt)
      (v.text_between s.tracker.opened.output_start m) (dispose (draft v s.tracker.opened m).1 s) l

-- When an agent was launched and its wipe has run, the end of a command, whenever the terminal gives a
-- marker for it, hands the session back to the shell: the agent no longer counts as launched, and no
-- block is added.
pub command_end_phase-launch :
    (v : View) (exit_code : Option ℤ) (s : Session) (end : Marker)
    → v.cursor_marker ≡ some end
    → launch_script s ≡ true
    → ((command_end_phase v exit_code s).tui.agent_launched ≡ false)
      × ((command_end_phase v exit_code s).tracker.finished ≡ s.tracker.finished)
unfolding command_end_phase
command_end_phase-launch v exit_code s end m l =
    at_end-launch v exit_code v.cursor_marker end (with_tui (reset_tui_state s.tui) s) m l
