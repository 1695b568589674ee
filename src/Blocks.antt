-- ===== src/Blocks.antt =====
-- apps/ui/src/terminal/blocks.ts and the session state of apps/ui/src/terminal/registry.ts: command blocks
-- cut by the shell's OSC 133 marks, the submitted commands that label them, and the signals that a
-- full-screen program owns the session. A marker of xterm is the number of its object. The two queues
-- and the state of one session stand in one record, `Session`; `disposed` logs the markers disposed.
use tethra.Base.{
  Bool, List, Option, Text, [], any, false, if◌then◌else◌, is_empty, leb, length, ltb, none, not,
  some, trim, true, ℕ, ◌++◌, ◌+◌, ◌==◌, ◌∷◌,
}
pub mod Phases
pub mod Finish
pub mod Rows
pub mod Buffer
pub mod Scan
pub mod Prompt
pub mod Found
pub mod Bounds
pub mod Chrome
pub mod Screen
pub mod Snapshot
pub mod Cycle
pub mod Idle
pub mod Queue
pub mod Tui
pub mod Tests
pub mod RowTests

abbrev pub Marker : Type 0
Marker = ℕ

pub data ℤ : Type 0 where
  pos negsuc : ℕ → ℤ

pub data TerminalBlockPhase : Type 0 where
  prompt_start command_start output_start command_end : TerminalBlockPhase

pub record BlockMeta : Type 0 where
  pub cwd : Option Text
  pub git_branch : Option Text
  pub started_at : ℕ
  pub ended_at : Option ℕ

-- The id is the number of `block-<number>`.
pub record FinishedBlock : Type 0 where
  pub id : ℕ
  pub prompt : Marker
  pub command : Marker
  pub end : Marker
  pub from_input : Bool
  pub command_text : Text
  pub output_text : Text
  pub exit_code : Option ℤ
  pub meta : BlockMeta
  pub line_count : ℕ

pub record ActiveBlock : Type 0 where
  pub prompt : Marker
  pub command : Marker
  pub meta : BlockMeta

-- The field `open` of a tracker; `command_from_input` is false where the code leaves it undefined.
pub record OpenBlock : Type 0 where
  pub prompt_start : Option Marker
  pub command_start : Option Marker
  pub output_start : Option Marker
  pub command_text : Option Text
  pub command_from_input : Bool
  pub meta : Option BlockMeta

abbrev pub closed : OpenBlock
closed = record {
  prompt_start = none;
  command_start = none;
  output_start = none;
  command_text = none;
  command_from_input = false;
  meta = none;
}

pub record BlockTracker : Type 0 where
  pub opened : OpenBlock
  pub pending : List (TerminalBlockPhase × Option ℤ)
  pub finished : List FinishedBlock
  pub active : Option ActiveBlock
  pub next_id : ℕ

abbrev pub ensure : BlockTracker
ensure = record { opened = closed; pending = []; finished = []; active = none; next_id = 0 }

pub record TuiState : Type 0 where
  pub sync : Bool
  pub mouse : Bool
  pub cursor_hidden : Bool
  pub agent_launched : Bool
  pub launch_wiped : Bool

abbrev pub fresh_tui_state : TuiState
fresh_tui_state = record {
  sync = false;
  mouse = false;
  cursor_hidden = false;
  agent_launched = false;
  launch_wiped = false;
}

pub record Submission : Type 0 where
  pub text : Text
  pub at : ℕ

pub record Session : Type 0 where
  pub tracker : BlockTracker
  pub tui : TuiState
  pub submitted : List Submission
  pub disposed : List Marker

-- Signals of full-screen programs (registry.ts).
abbrev pub reset_tui_state : TuiState → TuiState
reset_tui_state t = record {
  sync = false;
  mouse = false;
  cursor_hidden = false;
  agent_launched = t.agent_launched;
  launch_wiped = t.launch_wiped;
}

abbrev pub with_launch : Bool → Bool → TuiState → TuiState
with_launch launched wiped t = record {
  sync = t.sync;
  mouse = t.mouse;
  cursor_hidden = t.cursor_hidden;
  agent_launched = launched;
  launch_wiped = wiped;
}

abbrev pub mark_agent_launched : Bool → TuiState → TuiState
mark_agent_launched true t = if t.agent_launched then t else with_launch true t.launch_wiped t
mark_agent_launched false t = if t.agent_launched then with_launch false false t else t

-- ED3 outside the alternate screen, as far as the signals go.
abbrev pub mark_wiped : TuiState → TuiState
mark_wiped t = if t.agent_launched then with_launch true true t else t

abbrev pub mouse_modes : List ℕ
mouse_modes = 1000 ∷ 1001 ∷ 1002 ∷ 1003 ∷ 1005 ∷ 1006 ∷ 1015 ∷ []

abbrev pub is_mouse_mode : ℕ → Bool
is_mouse_mode mode = any (λ m. m == mode) mouse_modes

-- One mode of DECSET (`set`) or DECRST.
unfoldable pub dec_mode : Bool → ℕ → TuiState → TuiState
dec_mode set mode t =
    if mode == 2026
    then record {
      sync = true;
      mouse = t.mouse;
      cursor_hidden = t.cursor_hidden;
      agent_launched = t.agent_launched;
      launch_wiped = t.launch_wiped;
    }
    else if is_mouse_mode mode
    then record {
      sync = t.sync;
      mouse = set;
      cursor_hidden = t.cursor_hidden;
      agent_launched = t.agent_launched;
      launch_wiped = t.launch_wiped;
    }
    else if mode == 25
    then record {
      sync = t.sync;
      mouse = t.mouse;
      cursor_hidden = not set;
      agent_launched = t.agent_launched;
      launch_wiped = t.launch_wiped;
    }
    else t

unfoldable pub on_dec_mode : Bool → List ℕ → TuiState → TuiState
on_dec_mode set [] t = t
on_dec_mode set (mode ∷ modes) t = on_dec_mode set modes (dec_mode set mode t)

-- `noteSubmittedCommand` and `takeSubmittedCommand`.
abbrev pub shift_to : ℕ → List Submission → List Submission
shift_to bound [] = []
shift_to bound (e ∷ es) =
    let rest = shift_to bound es in if ltb bound (length (e ∷ es)) then rest else e ∷ es

unfoldable pub note_submitted_command : ℕ → Text → List Submission → List Submission
note_submitted_command now text queue =
    if is_empty (trim text)
    then queue
    else shift_to 32 (queue ++ record { text = trim text; at = now } ∷ [])

unfoldable pub take_submitted_command : ℕ → List Submission → Option Text × List Submission
take_submitted_command now [] = (none, [])
take_submitted_command now (e ∷ es) =
    let rest = take_submitted_command now es in
    if leb now (e.at + 30000) then (some e.text, es) else rest
