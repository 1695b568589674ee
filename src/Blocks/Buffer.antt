-- ===== src/Blocks/Buffer.antt =====
-- apps/ui/src/terminal/blocks.ts: the scans of the terminal's buffer, and the `View` of a phase that they
-- make. A line is counted from one here, so that 0 is no line.
use tethra.Inject.{newline}
use tethra.Blocks.{Marker}
use tethra.Blocks.Rows.{is_plausible_command_text, looks_like_prompt_line, strip_ps1}
use tethra.Base.{
  Bool, List, Option, Text, [], if◌then◌else◌, is_empty, join, leb, ltb, none, not, some, suc, trim,
  zero, ℕ, ◌&&◌, ◌+◌, ◌-◌, ◌==◌, ◌||◌, ◌∷◌,
}
use tethra.Blocks.Phases.{Found, View, or_default}

-- What xterm shows: the text of a row, if there is one, trimmed at its end and not; the cursor's line; the
-- line of a marker, 0 when it is disposed; and the marker that is registered at so many lines from the
-- cursor, below it or above.
pub record Buffer : Type 0 where
  pub row : ℕ → Option Text
  pub cursor : ℕ
  pub cursor_column : ℕ
  pub line : Marker → ℕ
  pub marker_above : ℕ → Option Marker
  pub marker_below : ℕ → Option Marker

abbrev pub row_text : Buffer → ℕ → Text
row_text b y = or_default (b.row y) []

-- `stripPs1(raw).trim()`.
abbrev pub row_command : Text → Text
row_command raw = trim (strip_ps1 raw)

-- What the two scans accept.
unfoldable pub is_command_row : Text → Bool
is_command_row raw =
    not (is_empty (trim raw))
    && looks_like_prompt_line raw
    && is_plausible_command_text (row_command raw)

-- The loop of both: so many rows, upwards from a line.
unfoldable pub scan_up : Buffer → ℕ → ℕ → Option Found
scan_up b zero y = none
scan_up b (suc n) zero = none
scan_up b (suc n) (suc y) =
    let further = scan_up b n y in
    if is_command_row (row_text b (suc y))
    then some (record { line = suc y; command_text = row_command (row_text b (suc y)) })
    else further

abbrev pub find_command_above_cursor : Buffer → Option Found
find_command_above_cursor b = scan_up b 7 b.cursor

-- From a line upwards, with `maxUp` 2000.
abbrev pub find_first_prompt_row_above : Buffer → ℕ → Option Found
find_first_prompt_row_above b from = scan_up b 2001 from

abbrev line_or : ℕ → ℕ → ℕ
line_or zero other = other
line_or (suc n) other = suc n

abbrev pub marker_line : Buffer → Option Marker → ℕ
marker_line b none = 0
marker_line b (some m) = b.line m

abbrev extract_at : Buffer → ℕ → Text
extract_at b zero = []
extract_at b (suc y) =
    let raw = row_text b (suc y) in
    if looks_like_prompt_line raw && is_plausible_command_text (row_command raw)
    then row_command raw
    else []

unfoldable pub extract_command_line : Buffer → Option Marker → Option Marker → Text
extract_command_line b command prompt =
    extract_at b (line_or (marker_line b command) (marker_line b prompt))

unfoldable pub marker_at_line : Buffer → ℕ → Option Marker
marker_at_line b y =
    if ltb (y + 4000) b.cursor || ltb (b.cursor + 10) y
    then none
    else if leb y b.cursor
    then b.marker_above (b.cursor - y)
    else b.marker_below (y - b.cursor)

abbrev rows_from : Buffer → ℕ → ℕ → List Text
rows_from b zero y = []
rows_from b (suc n) y = let rest = rows_from b n (suc y) in cons_row (b.row y) rest
  where
    cons_row : Option Text → List Text → List Text
    cons_row none rest = rest
    cons_row (some t) rest = t ∷ rest

unfoldable pub text_between : Buffer → Option Marker → Marker → Text
text_between b none end = []
text_between b (some start) end =
    if b.line start == 0 || b.line end == 0 || ltb (b.line end) (b.line start)
    then []
    else trim (join newline (rows_from b (b.line end + 1 - b.line start) (b.line start)))

-- The view of a phase at a time.
abbrev pub buffer_view : Buffer → ℕ → Option Text → Option Text → View
buffer_view b now cwd git_branch = record {
  now = now;
  cwd = cwd;
  git_branch = git_branch;
  cursor_marker = b.marker_above 0;
  line = b.line;
  found = find_command_above_cursor b;
  settled = λ end. find_first_prompt_row_above b (b.line end - 1);
  marker_at = marker_at_line b;
  extract = extract_command_line b;
  text_between = text_between b;
  plausible = is_plausible_command_text;
}
