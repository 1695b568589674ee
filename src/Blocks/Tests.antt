-- ===== src/Blocks/Tests.antt =====
-- A session in which a prompt is reported, and the scrollback erased.
use tethra.Base.{
  List, [], arith, codes, false, is_empty, is_space, none, refl, some, trim, true, ◌∷◌, ◌≡◌,
}
use tethra.Blocks.{
  Session, Submission, command_end, ensure, fresh_tui_state, pos, prompt_start, with_launch,
}
use tethra.Blocks.Phases.{View}
use tethra.Blocks.Bounds.{Event, IsValid, erased, flushed, handle_all, handle_all-IsValid, queued}

abbrev view : View
view = record {
  now = 7;
  cwd = none;
  git_branch = none;
  cursor_marker = some 3;
  line = λ m. m;
  found = none;
  settled = λ l. none;
  marker_at = λ l. none;
  extract = λ c p. codes "ls";
  text_between = λ o e. [];
  plausible = λ t. true;
}

abbrev session : Session
session = record { tracker = ensure; tui = fresh_tui_state; submitted = []; disposed = [] }

abbrev events : List Event
events =
    queued prompt_start none
    ∷ flushed view
    ∷ queued command_end (some (pos 0))
    ∷ flushed view
    ∷ erased
    ∷ []

session-IsValid : IsValid session
session-IsValid = (omega arith, omega arith, refl)

handle_all-IsValid_example : IsValid (handle_all events session)
handle_all-IsValid_example = handle_all-IsValid events session session-IsValid

abbrev stale : List Submission
stale = record { text = codes "make"; at = 10 } ∷ []

not_blank : is_empty (trim (codes " ls ")) ≡ false
unfolding trim is_space
not_blank = refl

abbrev launched : Session
launched = record {
  tracker = ensure;
  tui = with_launch true true fresh_tui_state;
  submitted = [];
  disposed = [];
}
