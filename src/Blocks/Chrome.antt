-- ===== src/Blocks/Chrome.antt =====
-- apps/ui/src/terminal/blocks.ts: `getBlockChromeSnapshot`, what the overlay paints of the blocks. A line of an entry is counted from one, like a
-- row of the buffer; the negative numbers are the sentinels of blocks whose rows are gone.
use tethra.Blocks.Rows.{is_plausible_command_text}
use tethra.Blocks.Phases.{or_default, text_or}
use tethra.Blocks.Finish.{session_has_running_command}
use tethra.Base.{
  Bool, List, Option, Text, [], any, false, if◌then◌else◌, is_empty, is_some, max, none, not, some,
  suc, trim, true, zero, ℕ, ◌&&◌, ◌++◌, ◌+◌, ◌-◌, ◌==◌, ◌||◌, ◌∷◌,
}
use tethra.Blocks.Buffer.{Buffer, row_command, row_text}
use tethra.Blocks.{
  ActiveBlock, BlockMeta, BlockTracker, FinishedBlock, OpenBlock, Session, negsuc, pos, ℤ,
}

pub data Kind : Type 0 where
  active_kind ok_kind failed_kind : Kind

pub data EntryId : Type 0 where
  numbered : ℕ → EntryId
  active_id : EntryId

pub record BlockChromeEntry : Type 0 where
  pub id : EntryId
  pub kind : Kind
  pub composing : Bool
  pub prompt_line : ℤ
  pub command_line : ℤ
  pub end_line : ℤ
  pub command_text : Text
  pub output_text : Text
  pub exit_code : Option ℤ
  pub meta : BlockMeta
  pub line_count : ℕ

pub record BlockChromeSnapshot : Type 0 where
  pub blocks : List BlockChromeEntry
  pub running : Bool

abbrev pub same_line : ℤ → ℤ → Bool
same_line (pos m) (pos n) = m == n
same_line (pos m) (negsuc n) = false
same_line (negsuc m) (pos n) = false
same_line (negsuc m) (negsuc n) = m == n

abbrev pub kind_of : Option ℤ → Kind
kind_of none = ok_kind
kind_of (some (pos n)) = if n == 0 then ok_kind else failed_kind
kind_of (some (negsuc n)) = failed_kind

-- Whether a finished block gets an entry.
abbrev pub has_chrome : FinishedBlock → Bool
has_chrome f =
    let text = trim f.command_text in
    not (is_empty text) && (f.from_input || is_plausible_command_text text)

-- `-100000 - n`.
abbrev pub sentinel : ℕ → ℤ
sentinel n = negsuc (99999 + n)

abbrev pub is_gone : Buffer → FinishedBlock → Bool
is_gone b f = b.line f.prompt == 0 || b.line f.end == 0

abbrev pub or_line : ℕ → ℕ → ℕ
or_line zero other = other
or_line (suc n) other = suc n

abbrev entry_at : FinishedBlock → ℤ → ℤ → ℤ → BlockChromeEntry
entry_at f prompt command end = record {
  id = numbered f.id;
  kind = kind_of f.exit_code;
  composing = false;
  prompt_line = prompt;
  command_line = command;
  end_line = end;
  command_text = trim f.command_text;
  output_text = f.output_text;
  exit_code = f.exit_code;
  meta = f.meta;
  line_count = f.line_count;
}

-- The entry of a block, where so many before it have lost their rows.
abbrev pub finished_entry : Buffer → ℕ → FinishedBlock → BlockChromeEntry
finished_entry b gone f =
    if is_gone b f
    then entry_at f (sentinel gone) (sentinel gone) (sentinel gone)
    else entry_at f (pos (b.line f.prompt))
        (pos (max (b.line f.prompt) (or_line (b.line f.command) (b.line f.prompt))))
        (pos (b.line f.end))

abbrev pub has_line : ℤ → List ℤ → Bool
has_line l seen = any (λ k. same_line l k) seen

-- The loop over the finished blocks, with the lines seen.
unfoldable pub finished_entries : Buffer → ℕ → List ℤ → List FinishedBlock → List BlockChromeEntry
finished_entries b gone seen [] = []
finished_entries b gone seen (f ∷ fs) =
    let e = finished_entry b gone f in
    let pushed = has_chrome f && not (has_line e.prompt_line seen) in
    let gone' = if has_chrome f && is_gone b f then suc gone else gone in
    let seen' = if pushed then e.prompt_line ∷ seen else seen in
    let rest = finished_entries b gone' seen' fs in if pushed then e ∷ rest else rest

abbrev pub command_of_row : Text → Text
command_of_row raw = if is_plausible_command_text (row_command raw) then row_command raw else []

-- The text of the active block.
abbrev pub live_command : Buffer → Bool → OpenBlock → ℕ → Text
live_command b composing o prompt =
    if composing
    then []
    else text_or (trim (or_default o.command_text [])) (command_of_row (row_text b prompt))

abbrev pub active_entry : Buffer → Bool → OpenBlock → ActiveBlock → ℕ → ℕ → List BlockChromeEntry
active_entry b composing o a zero command = []
active_entry b composing o a (suc prompt) zero = []
active_entry b composing o a (suc prompt) (suc command) =
    record {
      id = active_id;
      kind = active_kind;
      composing = composing;
      prompt_line = pos (suc prompt);
      command_line = pos (max (suc prompt) (suc command));
      end_line = pos (max (suc prompt) b.cursor);
      command_text = live_command b composing o (suc prompt);
      output_text = [];
      exit_code = none;
      meta = a.meta;
      line_count = max 1 (b.cursor + 1 - suc prompt);
    }
    ∷ []

-- The entry of the active block of a session whose terminal is live: at the cursor's row while the
-- command is composed, at the markers when it runs.
abbrev pub active_entries : Buffer → BlockTracker → Option ActiveBlock → List BlockChromeEntry
active_entries b t none = []
active_entries b t (some a) =
    if is_some t.opened.output_start
    then active_entry b false t.opened a (b.line a.prompt)
        (or_line (b.line a.command) (b.line a.prompt))
    else active_entry b true t.opened a b.cursor b.cursor

unfoldable pub get_block_chrome_snapshot : Buffer → Session → BlockChromeSnapshot
get_block_chrome_snapshot b s = record {
  blocks =
      finished_entries b 0 [] s.tracker.finished ++ active_entries b s.tracker s.tracker.active;
  running = session_has_running_command s;
}
