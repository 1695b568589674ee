-- ===== src/Blocks/Phases.antt =====
-- apps/ui/src/terminal/blocks.ts: the OSC 133 phases. What a handler reads of the terminal at the time of
-- its call is a record, `View`: the marker that `registerMarker` gives, the rows that the scans of the
-- buffer find, any functions, and the plausibility test on texts, any function too. A line is counted from
-- one, and a disposed marker's line is 0.
use tethra.Base.{
  Bool, List, Option, Text, [], false, if◌then◌else◌, none, some, starts_with, text_eq, true, ℕ,
  ◌++◌, ◌==◌, ◌||◌, ◌∷◌,
}
use tethra.Blocks.{
  ActiveBlock, BlockMeta, Marker, OpenBlock, Session, Submission, TuiState, reset_tui_state,
  take_submitted_command,
}

pub record Found : Type 0 where
  pub line : ℕ
  pub command_text : Text

pub record View : Type 0 where
  pub now : ℕ
  pub cwd : Option Text
  pub git_branch : Option Text
  -- `terminal.registerMarker(0)`.
  pub cursor_marker : Option Marker
  pub line : Marker → ℕ
  -- `findCommandAboveCursor`, `findFirstPromptRowAbove` at the row above, `markerAtLine`.
  pub found : Option Found
  pub settled : ℕ → Option Found
  pub marker_at : ℕ → Option Marker
  -- `extractCommandLine(terminal, command, prompt)`, `textBetween`, `isPlausibleCommandText`.
  pub extract : Option Marker → Option Marker → Text
  pub text_between : Option Marker → Marker → Text
  pub plausible : Text → Bool

module _ {A : Type 0} where
  -- `a ?? b`.
  abbrev pub or_default : Option A → A → A
  or_default none b = b
  or_default (some a) b = a

  -- `a ?? b` where `b` may be missing too.
  abbrev pub or_other : Option A → Option A → Option A
  or_other none b = b
  or_other (some a) b = some a

abbrev pub found_text : Option Found → Text
found_text none = []
found_text (some f) = f.command_text

-- `text || other`.
abbrev pub text_or : Text → Text → Text
text_or [] other = other
text_or (c ∷ cs) other = c ∷ cs

abbrev pub dispose : List Marker → Session → Session
dispose ms s = record {
  tracker = s.tracker;
  tui = s.tui;
  submitted = s.submitted;
  disposed = ms ++ s.disposed;
}

abbrev pub with_tui : TuiState → Session → Session
with_tui t s = record {
  tracker = s.tracker;
  tui = t;
  submitted = s.submitted;
  disposed = s.disposed;
}

abbrev pub with_open : OpenBlock → Option ActiveBlock → Session → Session
with_open o a s = record {
  tracker = record {
    opened = o;
    pending = s.tracker.pending;
    finished = s.tracker.finished;
    active = a;
    next_id = s.tracker.next_id;
  };
  tui = s.tui;
  submitted = s.submitted;
  disposed = s.disposed;
}

abbrev pub fresh_meta : View → BlockMeta
fresh_meta v = record {
  cwd = v.cwd;
  git_branch = v.git_branch;
  started_at = v.now;
  ended_at = none;
}

-- OSC 133 A.
abbrev pub at_prompt : View → Option Marker → Session → Session
at_prompt v none s = s
at_prompt v (some m) s =
    with_open
      (record {
        prompt_start = some m;
        command_start = s.tracker.opened.command_start;
        output_start = s.tracker.opened.output_start;
        command_text = s.tracker.opened.command_text;
        command_from_input = s.tracker.opened.command_from_input;
        meta = some (fresh_meta v);
      })
      (some (record { prompt = m; command = m; meta = fresh_meta v })) s

unfoldable pub prompt_start_phase : View → Session → Session
prompt_start_phase v s = at_prompt v v.cursor_marker (with_tui (reset_tui_state s.tui) s)

-- OSC 133 B.
abbrev pub at_command : View → Option Marker → Session → Session
at_command v none s = s
at_command v (some m) s =
    let prompt = or_default s.tracker.opened.prompt_start m in
    let meta = or_default s.tracker.opened.meta (fresh_meta v) in
    with_open
      (record {
        prompt_start = some prompt;
        command_start = some m;
        output_start = none;
        command_text = none;
        command_from_input = false;
        meta = some meta;
      })
      (some (record { prompt = prompt; command = m; meta = meta })) s

unfoldable pub command_start_phase : View → Session → Session
command_start_phase v s = at_command v v.cursor_marker s

-- OSC 133 C. Whether the row that the scan found shows the submitted command.
abbrev pub shows : Option Text → Found → Bool
shows none f = true
shows (some t) f = text_eq f.command_text t || starts_with f.command_text (t ++ 32 ∷ [])

abbrev pub rebound_at : View → Option Text → Option Found → Option Marker
rebound_at v submitted none = none
rebound_at v submitted (some f) = if shows submitted f then v.marker_at f.line else none

-- `if (a && a !== b) a.dispose()`.
abbrev pub unless_same : Option Marker → Option Marker → List Marker
unless_same none b = []
unless_same (some a) none = a ∷ []
unless_same (some a) (some b) = if a == b then [] else a ∷ []

abbrev pub both : List Marker → List Marker → List Marker
both [] ms = []
both (m ∷ _) [] = []
both (m ∷ _) (n ∷ _) = n ∷ []

abbrev pub rebound_active : Marker → Option ActiveBlock → Option ActiveBlock
rebound_active m none = none
rebound_active m (some a) = some (record { prompt = m; command = m; meta = a.meta })

abbrev pub with_marks : Option Marker → Option Marker → OpenBlock → OpenBlock
with_marks p c o = record {
  prompt_start = p;
  command_start = c;
  output_start = o.output_start;
  command_text = o.command_text;
  command_from_input = o.command_from_input;
  meta = o.meta;
}

abbrev pub rebind : Option Marker → Session → Session
rebind none s = s
rebind (some m) s =
    let o = s.tracker.opened in
    dispose
      (unless_same o.prompt_start (some m)
        ++ both (unless_same o.command_start o.prompt_start) (unless_same o.command_start (some m)))
      (with_open (with_marks (some m) (some m) o) (rebound_active m s.tracker.active) s)

abbrev pub is_submitted : Option Text → Bool → Bool
is_submitted none before = before
is_submitted (some []) before = before
is_submitted (some (c ∷ cs)) before = true

abbrev pub start_output : View → Option Text → Marker → Session → Session
start_output v submitted m s =
    let o = s.tracker.opened in
    with_open
      (record {
        prompt_start = o.prompt_start;
        command_start = o.command_start;
        output_start = some m;
        command_text = some (
            text_or (or_default submitted (found_text v.found))
              (v.extract o.command_start o.prompt_start));
        command_from_input = is_submitted submitted o.command_from_input;
        meta = o.meta;
      })
      s.tracker.active s

abbrev pub with_submitted : List Submission → Session → Session
with_submitted q s = record {
  tracker = s.tracker;
  tui = s.tui;
  submitted = q;
  disposed = s.disposed;
}

abbrev pub at_output : View → Option Marker → Option Text × List Submission → Session → Session
at_output v none taken s = s
at_output v (some m) (submitted, queue) s =
    start_output v submitted m (rebind (rebound_at v submitted v.found) (with_submitted queue s))

unfoldable pub output_start_phase : View → Session → Session
output_start_phase v s = at_output v v.cursor_marker (take_submitted_command v.now s.submitted) s
