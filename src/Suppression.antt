-- ===== src/Suppression.antt =====
-- apps/ui/src/terminal/registry.ts: the windows of time in which a terminal's user input is dropped. The
-- map of the sessions is an association list, the latest entry first.
use tethra.Base.{Bool, List, Text, [], if◌then◌else◌, ltb, max, text_eq, ℕ, ◌+◌, ◌||◌, ◌∷◌}
pub mod Windows
pub mod Tests

pub record Gates : Type 0 where
  pub global_until : ℕ
  pub until : List (Text × ℕ)

abbrev pub look_up : Text → List (Text × ℕ) → ℕ
look_up id [] = 0
look_up id ((k, t) ∷ rest) = let found = look_up id rest in if text_eq k id then t else found

unfoldable pub input_is_suppressed : ℕ → Text → Gates → Bool
input_is_suppressed now id g = ltb now g.global_until || ltb now (look_up id g.until)

unfoldable pub suppress_terminal_user_input : ℕ → Text → ℕ → Gates → Gates
suppress_terminal_user_input now id duration g = record {
  global_until = max g.global_until (now + duration);
  until = (id, max (look_up id g.until) (now + duration)) ∷ g.until;
}

abbrev pub arm_all : ℕ → List Text → List (Text × ℕ) → List (Text × ℕ)
arm_all limit [] until = until
arm_all limit (id ∷ ids) until = arm_all limit ids ((id, max (look_up id until) limit) ∷ until)

-- At the sessions that have a terminal.
unfoldable pub suppress_all_terminal_user_input : ℕ → List Text → ℕ → Gates → Gates
suppress_all_terminal_user_input now terminals duration g = record {
  global_until = max g.global_until (now + duration);
  until = arm_all (now + duration) terminals g.until;
}
