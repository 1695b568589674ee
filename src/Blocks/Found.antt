-- ===== src/Blocks/Found.antt =====
-- The scan at the start of a command's output, in front of a classic prompt.
use tethra.Blocks.Phases.{or_default}
use tethra.Blocks.Rows.{is_plausible_command_text}
use tethra.Base.{
  Text, [], all, ap, arith, false, is_space, not, refl, some, suc, true, zero, ℕ, ◌+◌, ◌-◌, ◌<◌,
  ◌∙◌, ◌≡◌,
}
use tethra.Blocks.Buffer.{
  Buffer, find_command_above_cursor, is_command_row, row_command, row_text, scan_up,
}
use tethra.Blocks.Prompt.{
  Prompt, is_classic, is_trimmed, name_not_space, prompt_row, row_command-prompt_row,
  solid_occupied, trim_end-prompt_row, trim_trimmed, trimmed_parts,
}
use tethra.Blocks.Scan.{lines_up, skips}

pub is_command_row-prompt_row :
    (p : Prompt) (command : Text)
    → is_classic p ≡ true
    → is_trimmed command ≡ true
    → is_plausible_command_text command ≡ true
    → is_command_row (prompt_row p command) ≡ true
unfolding is_command_row
is_command_row-prompt_row p command h trimmed plausible =
    let (solid, end, line) = trimmed_parts command trimmed in
    let e = trim_end-prompt_row p command (solid_occupied command solid) end in
    let start : not (is_space p.user₀) ≡ true = ap not (name_not_space p.user₀ (ground arith)) in
    let (read, prompt) = row_command-prompt_row p command h trimmed in
    rw (trim_trimmed (prompt_row p command) start e) (rw (prompt, read) (rw plausible refl))

-- A row that is accepted, with none below it down to the start.
pub scan_up-finds :
    (b : Buffer) (n k y c : ℕ)
    → k < n
    → c ≡ k + suc y
    → is_command_row (row_text b (suc y)) ≡ true
    → all (skips b) (lines_up k c) ≡ true
    → scan_up b n c
      ≡ some (record { line = suc y; command_text = row_command (row_text b (suc y)) })
unfolding scan_up
scan_up-finds b zero k y c l e h s = absurd (omega arith)
scan_up-finds b (suc n) k y zero l e h s = absurd (omega arith)
scan_up-finds b (suc n) zero y (suc c) l e h s =
    let same : c ≡ y = omega arith in rw same (rw h refl)
scan_up-finds b (suc n) (suc k) y (suc c) l e h s =
    let back : suc c - 1 ≡ c = omega arith in
    let skipped : is_command_row (row_text b (suc c)) ≡ false = ground arith in
    let above : all (skips b) (lines_up k (suc c - 1)) ≡ true = ground arith in
    rw skipped (scan_up-finds b n k y c (omega arith) (omega arith) h (rw back at above))

-- When a row at most six above the cursor shows a classic prompt with a plausible command, and no row
-- from the cursor up to it passes for a prompt with a command, the scan at the start of the output finds
-- that row and exactly that command.
pub find_command_above_cursor-prompt_row :
    (b : Buffer) (p : Prompt) (command : Text) (k y : ℕ)
    → is_classic p ≡ true
    → is_trimmed command ≡ true
    → is_plausible_command_text command ≡ true
    → b.row (suc y) ≡ some (prompt_row p command)
    → k < 7
    → b.cursor ≡ k + suc y
    → all (skips b) (lines_up k b.cursor) ≡ true
    → find_command_above_cursor b ≡ some (record { line = suc y; command_text = command })
find_command_above_cursor-prompt_row b p command k y h trimmed plausible row near below skipped =
    let shown : row_text b (suc y) ≡ prompt_row p command = ap (λ r. or_default r []) row in
    scan_up-finds b 7 k y b.cursor near below
      (ap is_command_row shown ∙ is_command_row-prompt_row p command h trimmed plausible) skipped
    ∙ ap (λ t. some (record { line = suc y; command_text = t }))
        (ap row_command shown ∙ (row_command-prompt_row p command h trimmed).0)
