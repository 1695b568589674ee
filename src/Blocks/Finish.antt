-- ===== src/Blocks/Finish.antt =====
-- apps/ui/src/terminal/blocks.ts: OSC 133 D, which finishes a block, the queue of phases, and what else
-- changes or reads the finished blocks.
use tethra.Base.{
  Bool, List, Option, Text, [], any, codes, false, filter, if◌then◌else◌, is_empty, is_some,
  is_space, length, ltb, max, none, not, some, split_on, text_eq, trim, ℕ, ◌&&◌, ◌++◌, ◌+◌, ◌-◌,
  ◌==◌, ◌||◌, ◌∷◌,
}
use tethra.Blocks.{
  BlockMeta, FinishedBlock, Marker, OpenBlock, Session, TerminalBlockPhase, closed, command_end,
  command_start, mark_agent_launched, mark_wiped, output_start, prompt_start, reset_tui_state, ℤ,
}
use tethra.Blocks.Phases.{
  Found, View, command_start_phase, dispose, found_text, or_default, or_other, output_start_phase,
  prompt_start_phase, text_or, with_open, with_tui,
}

-- The text of the block and the markers of its rows.
pub record Draft : Type 0 where
  pub text : Text
  pub prompt : Marker
  pub command : Marker

-- The draft and the markers that are disposed on the way to it.
abbrev pub Drafted : Type 0
Drafted = Draft × List Marker

abbrev pub differs : Marker → Marker → Bool
differs a b = not (a == b)

abbrev pub when : Bool → Marker → List Marker
when b m = if b then m ∷ [] else []

abbrev pub reanchor : Draft → Marker → Text → Option Marker → Drafted
reanchor d end text none = (record { text = text; prompt = d.prompt; command = d.command }, [])
reanchor d end text (some r) = (
  record { text = text; prompt = r; command = r },
  when (differs d.prompt r && differs d.prompt end) d.prompt
      ++ when (differs d.command r && (differs d.command d.prompt && differs d.command end))
          d.command,
)

abbrev pub settle : View → Draft → Marker → Option Found → Drafted
settle v d end none = (d, [])
settle v d end (some f) = reanchor d end f.command_text (v.marker_at f.line)

abbrev pub draft : View → OpenBlock → Marker → Drafted
draft v o end =
    let command = or_default o.command_start end in
    let prompt = or_default o.prompt_start command in
    let d : Draft = record {
      text = trim (or_default o.command_text []);
      prompt = prompt;
      command = command;
    } in
    if o.command_from_input then (d, []) else settle v d end (v.settled end)

-- The two ways to a text where there is none.
abbrev pub fallback : View → Draft → Text
fallback v d =
    text_or (text_or d.text (found_text v.found))
      (trim (v.extract (some d.command) (some d.prompt)))

abbrev first_line : List Text → Text
first_line [] = []
first_line (l ∷ ls) = trim l

-- `/[\s|;&<>]/.test(text)`.
abbrev has_shell_unit : Text → Bool
has_shell_unit t = any (λ c. is_space c || any (λ d. c == d) (codes "|;&<>")) t

abbrev other_found : Text → Option Found → Text
other_found text none = []
other_found text (some f) = if text_eq f.command_text text then [] else f.command_text

abbrev other_text : View → Text → Text → Text
other_text v text from_ps1 =
    if not (is_empty from_ps1) && not (text_eq from_ps1 text)
    then from_ps1
    else other_found text v.found

-- A text that the first line of the output repeats.
abbrev pub unless_repeated : View → Bool → Text → Text → Marker → Text
unless_repeated v from_input text output prompt =
    if not from_input
      && (not (is_empty text)
          && (text_eq (first_line (split_on 10 (trim output))) text && not (has_shell_unit text)))
    then other_text v text (v.extract (some prompt) (some prompt))
    else text

abbrev pub some_list : Option Marker → List Marker
some_list none = []
some_list (some m) = m ∷ []

abbrev pub ended : View → Option BlockMeta → BlockMeta
ended v none = record {
  cwd = v.cwd;
  git_branch = v.git_branch;
  started_at = v.now;
  ended_at = some v.now;
}
ended v (some m) = record {
  cwd = or_other m.cwd v.cwd;
  git_branch = or_other m.git_branch v.git_branch;
  started_at = m.started_at;
  ended_at = some v.now;
}

abbrev pub markers_of : FinishedBlock → List Marker
markers_of b = b.prompt ∷ b.command ∷ b.end ∷ []

-- `while (finished.length > 80) disposeFinished(finished.shift())`: the blocks kept, the markers disposed.
abbrev pub kept : List FinishedBlock → List FinishedBlock
kept [] = []
kept (b ∷ bs) = let rest = kept bs in if ltb 80 (length (b ∷ bs)) then rest else b ∷ bs

abbrev pub dropped : List FinishedBlock → List Marker
dropped [] = []
dropped (b ∷ bs) =
    let rest = dropped bs in if ltb 80 (length (b ∷ bs)) then markers_of b ++ rest else []

abbrev pub push_block : FinishedBlock → Session → Session
push_block b s =
    let blocks = s.tracker.finished ++ b ∷ [] in
    dispose (dropped blocks) (record {
      tracker = record {
        opened = closed;
        pending = s.tracker.pending;
        finished = kept blocks;
        active = none;
        next_id = b.id;
      };
      tui = s.tui;
      submitted = s.submitted;
      disposed = s.disposed;
    })

abbrev pub launch_script : Session → Bool
launch_script s = s.tui.agent_launched && s.tui.launch_wiped

abbrev pub leave_launch : Session → Session
leave_launch s = if launch_script s then with_tui (mark_agent_launched false s.tui) s else s

abbrev pub discards : View → Bool → Bool → Text → Bool
discards v launch from_input text =
    is_empty text || (launch || (not from_input && not (v.plausible text)))

abbrev pub block_of : View → Option ℤ → Marker → Draft → Text → Text → Session → FinishedBlock
block_of v exit_code end d text output s = record {
  id = s.tracker.next_id + 1;
  prompt = d.prompt;
  command = d.command;
  end = end;
  from_input = s.tracker.opened.command_from_input;
  command_text = text;
  output_text = output;
  exit_code = exit_code;
  meta = ended v s.tracker.opened.meta;
  line_count = max 1 (v.line end + 1 - v.line d.prompt);
}

-- The end of a command, with its final text.
abbrev pub conclude : View → Option ℤ → Marker → Draft → Text → Text → Session → Session
conclude v exit_code end d text output s =
    let o = s.tracker.opened in
    if discards v (launch_script s) o.command_from_input text
    then dispose
        (d.prompt ∷ when (differs d.command d.prompt) d.command ++ end ∷ some_list o.output_start)
        (with_open closed none (leave_launch s))
    else push_block (block_of v exit_code end d text output s) (leave_launch s)

abbrev pub finish_draft : View → Option ℤ → Marker → Drafted → Session → Session
finish_draft v exit_code end (d, gone) s =
    let o = s.tracker.opened in
    let output = v.text_between o.output_start end in
    let text = unless_repeated v o.command_from_input (fallback v d) output d.prompt in
    conclude v exit_code end d text output (dispose gone s)

abbrev pub at_end : View → Option ℤ → Option Marker → Session → Session
at_end v exit_code none s = s
at_end v exit_code (some end) s = finish_draft v exit_code end (draft v s.tracker.opened end) s

unfoldable pub command_end_phase : View → Option ℤ → Session → Session
command_end_phase v exit_code s =
    at_end v exit_code v.cursor_marker (with_tui (reset_tui_state s.tui) s)

unfoldable pub apply_phase : View → TerminalBlockPhase → Option ℤ → Session → Session
apply_phase v prompt_start exit_code s = prompt_start_phase v s
apply_phase v command_start exit_code s = command_start_phase v s
apply_phase v output_start exit_code s = output_start_phase v s
apply_phase v command_end exit_code s = command_end_phase v exit_code s

abbrev pub with_pending : List (TerminalBlockPhase × Option ℤ) → Session → Session
with_pending ps s = record {
  tracker = record {
    opened = s.tracker.opened;
    pending = ps;
    finished = s.tracker.finished;
    active = s.tracker.active;
    next_id = s.tracker.next_id;
  };
  tui = s.tui;
  submitted = s.submitted;
  disposed = s.disposed;
}

unfoldable pub queue_block_phase : TerminalBlockPhase → Option ℤ → Session → Session
queue_block_phase phase exit_code s = with_pending (s.tracker.pending ++ (phase, exit_code) ∷ []) s

abbrev pub flush_first : View → List (TerminalBlockPhase × Option ℤ) → Session → Session
flush_first v [] s = s
flush_first v ((phase, exit_code) ∷ rest) s = apply_phase v phase exit_code (with_pending rest s)

-- One phase per flush.
unfoldable pub flush_block_phases : View → Session → Session
flush_block_phases v s = flush_first v s.tracker.pending s

abbrev pub markers_of_all : List FinishedBlock → List Marker
markers_of_all [] = []
markers_of_all (b ∷ bs) = markers_of b ++ markers_of_all bs

unfoldable pub forget_finished_blocks : Session → Session
forget_finished_blocks s = dispose (markers_of_all s.tracker.finished) (record {
  tracker = record {
    opened = s.tracker.opened;
    pending = s.tracker.pending;
    finished = [];
    active = s.tracker.active;
    next_id = s.tracker.next_id;
  };
  tui = s.tui;
  submitted = s.submitted;
  disposed = s.disposed;
})

-- ED3 (registry.ts).
unfoldable pub on_erase_scrollback : Session → Session
on_erase_scrollback s = let f = forget_finished_blocks s in with_tui (mark_wiped f.tui) f

unfoldable pub session_has_running_command : Session → Bool
session_has_running_command s = is_some s.tracker.active && is_some s.tracker.opened.output_start

abbrev pub last_command : List FinishedBlock → Option Text
last_command [] = none
last_command (b ∷ bs) =
    let later = last_command bs in
    or_other later (if is_empty (trim b.command_text) then none else some (trim b.command_text))

unfoldable pub last_block_command : Session → Option Text
last_block_command s = last_command s.tracker.finished

abbrev pub one_if : Bool → ℕ
one_if b = if b then 1 else 0

unfoldable pub block_count : Session → ℕ
block_count s =
    length (filter (λ b. not (is_empty (trim b.command_text))) s.tracker.finished)
    + one_if (is_some s.tracker.active)
