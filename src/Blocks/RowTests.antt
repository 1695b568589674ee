-- ===== src/Blocks/RowTests.antt =====
-- A terminal with a classic prompt above the cursor.
use tethra.Blocks.{Session, ensure, fresh_tui_state}
use tethra.Blocks.Rows.{
  is_plausible_command_text, looks_like_directory_listing, looks_like_prompt_line,
}
use tethra.Base.{
  Option, Text, [], all, ap, arith, codes, if◌then◌else◌, is_space, none, refl, some, text_eq, trim,
  trim_end, trim_start, true, ℕ, ◌-◌, ◌==◌, ◌∙◌, ◌≡◌,
}
use tethra.Blocks.Phases.{Found, View}
use tethra.Blocks.Buffer.{
  Buffer, buffer_view, find_command_above_cursor, find_first_prompt_row_above, is_command_row,
  row_command,
}
use tethra.Blocks.Prompt.{Prompt, is_classic, is_trimmed, prompt_row, row_command-prompt_row}
use tethra.Blocks.Found.{
  find_command_above_cursor-prompt_row, is_command_row-prompt_row, scan_up-finds,
}
use tethra.Blocks.Scan.{lines_up, skips}

abbrev prompt : Prompt
prompt = record {
  user₀ = b'r';
  user = codes "oot";
  host₀ = b'h';
  host = codes "1";
  path = codes "~/a$b";
  end = b'#';
}

abbrev command : Text
command = codes "ls -la"

abbrev shown_row : ℕ → Option Text
shown_row y = if y == 1 then some (prompt_row prompt command) else none

abbrev buffer : Buffer
buffer = record {
  row = shown_row;
  cursor = 2;
  cursor_column = 0;
  line = λ m. m;
  marker_above = λ n. some (2 - n);
  marker_below = λ n. none;
}

abbrev found : Found
found = record { line = 1; command_text = command }

classic : is_classic prompt ≡ true
unfolding is_space
classic = refl

trimmed : is_trimmed command ≡ true
unfolding is_space trim_end text_eq
trimmed = refl

plausible : is_plausible_command_text command ≡ true
unfolding is_plausible_command_text looks_like_directory_listing is_space trim trim_start trim_end
    text_eq
plausible = refl

row_command-prompt_row_example :
    (row_command (prompt_row prompt command) ≡ command)
    × (looks_like_prompt_line (prompt_row prompt command) ≡ true)
row_command-prompt_row_example = row_command-prompt_row prompt command classic trimmed

below_skipped : all (skips buffer) (lines_up 1 2) ≡ true
unfolding is_command_row trim trim_start trim_end
below_skipped = refl

find_command_above_cursor-prompt_row_example : find_command_above_cursor buffer ≡ some found
find_command_above_cursor-prompt_row_example =
    find_command_above_cursor-prompt_row buffer prompt command 1 0 classic trimmed plausible refl
      (omega arith) (omega arith) below_skipped

found_from_two : find_first_prompt_row_above buffer 2 ≡ some found
found_from_two =
    scan_up-finds buffer 2001 1 0 2 (omega arith) (omega arith)
      (is_command_row-prompt_row prompt command classic trimmed plausible) below_skipped
    ∙ ap (λ t. some (record { line = 1; command_text = t }))
        (row_command-prompt_row prompt command classic trimmed).0

abbrev at : ℕ → View
at now = buffer_view buffer now (some (codes "/srv")) none

abbrev submitted_session : Session
submitted_session = record {
  tracker = ensure;
  tui = fresh_tui_state;
  submitted = [];
  disposed = [];
}
