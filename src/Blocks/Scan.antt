-- ===== src/Blocks/Scan.antt =====
-- What the scans find.
use tethra.Base.{
  Bool, Bool-cases, List, [], all, arith, false, inl, inr, not, refl, some, suc, true, zero, ℕ, ◌+◌,
  ◌-◌, ◌<◌, ◌∷◌, ◌≡◌, ◌≤◌,
}
use mathlib.Core.Path.{subst}
use mathlib.Core.Option.{some-injective}
use tethra.Blocks.Buffer.{
  Buffer, find_command_above_cursor, find_first_prompt_row_above, is_command_row, row_command,
  row_text, scan_up,
}
use tethra.Blocks.Phases.{Found}

-- So many lines from `y` upwards.
abbrev pub lines_up : ℕ → ℕ → List ℕ
lines_up zero y = []
lines_up (suc n) y = y ∷ lines_up n (y - 1)

abbrev pub skips : Buffer → ℕ → Bool
skips b k = not (is_command_row (row_text b k))

-- The row that was found, with no other between it and the start, which is fewer than `n` lines below.
abbrev pub IsNearest : Buffer → ℕ → ℕ → Found → Type 0
IsNearest b n y f =
    (is_command_row (row_text b f.line) ≡ true)
    × (f.command_text ≡ row_command (row_text b f.line))
    × (f.line ≤ y)
    × (y < f.line + n)
    × (all (skips b) (lines_up (y - f.line) y) ≡ true)

IsNearest-here :
    (b : Buffer) (n y : ℕ)
    → is_command_row (row_text b (suc y)) ≡ true
    → IsNearest b
        (suc n)
        (suc y)
        (record { line = suc y; command_text = row_command (row_text b (suc y)) })
IsNearest-here b n y e = (e, refl, omega arith, omega arith, rw none_left refl)
  where
    none_left : suc y - suc y ≡ 0
    none_left = omega arith

IsNearest-further :
    (b : Buffer) (n y : ℕ) (f : Found)
    → is_command_row (row_text b (suc y)) ≡ false
    → IsNearest b n y f
    → IsNearest b (suc n) (suc y) f
IsNearest-further b n y f e (row, text, below, close, between) =
    (row, text, omega arith, omega arith, rw (one_more, back_one) (rw e between))
  where
    one_more : suc y - f.line ≡ suc (y - f.line)
    one_more = omega arith

    back_one : suc y - 1 ≡ y
    back_one = omega arith

scan_up-IsNearest : (b : Buffer) (n y : ℕ) (f : Found) → scan_up b n y ≡ some f → IsNearest b n y f
unfolding scan_up
scan_up-IsNearest b zero y f h = cc
scan_up-IsNearest b (suc n) zero f h = cc
scan_up-IsNearest b (suc n) (suc y) f h = elim (Bool-cases (is_command_row (row_text b (suc y)))) [
  | inl e ↦
      subst (IsNearest b (suc n) (suc y)) (some-injective _ _ (rw e at h)) (IsNearest-here b n y e)
  | inr e ↦ IsNearest-further b n y f e (scan_up-IsNearest b n y f (rw e at h))
]

-- Whatever the terminal shows: the row that the scan at the start of the output finds is a prompt with a
-- plausible command, is at most six rows above the cursor, and no row from the cursor up to it is such a
-- row; so too, within 2000 rows, for the scan at the end of a command from any line.
pub scans-IsNearest :
    (b : Buffer) (y : ℕ) (f g : Found)
    → find_command_above_cursor b ≡ some f
    → find_first_prompt_row_above b y ≡ some g
    → IsNearest b 7 b.cursor f × IsNearest b 2001 y g
scans-IsNearest b y f g h k = (scan_up-IsNearest b 7 b.cursor f h, scan_up-IsNearest b 2001 y g k)
