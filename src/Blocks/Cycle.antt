-- ===== src/Blocks/Cycle.antt =====
-- One command that was submitted from the input box, from its prompt to its end.
use tethra.Base.{Bool, List, Option, Text, [], leb, some, true, ℕ, ◌++◌, ◌+◌, ◌∷◌, ◌≡◌}
use tethra.Blocks.{FinishedBlock, Session, Submission, note_submitted_command, ℤ}
use tethra.Blocks.Phases.{View, fresh_meta, with_submitted}
use tethra.Blocks.Finish.{ended, kept, launch_script}

-- What stays the same from the prompt to the end: the facts of the prompt and the finished blocks.
abbrev Since : View → Session → Session → Type 0
Since va s r =
    (r.tracker.opened.meta ≡ some (fresh_meta va))
    × (r.tracker.finished ≡ s.tracker.finished)
    × (r.tracker.next_id ≡ s.tracker.next_id)
    × (launch_script r ≡ launch_script s)

-- The text of the command, known to come from the input box.
abbrev Labelled : Text → List Submission → Session → Type 0
Labelled t queue r =
    (r.tracker.opened.command_text ≡ some t)
    × (r.tracker.opened.command_from_input ≡ true)
    × (r.submitted ≡ queue)

-- The block that a command makes: its text, its exit code, and the directory, the branch and the time of
-- its prompt.
abbrev pub Records : View → View → Option ℤ → Text → FinishedBlock → Type 0
Records va v x t b =
    (b.command_text ≡ t)
    × (b.exit_code ≡ x)
    × (b.meta ≡ ended v (some (fresh_meta va)))
    × (b.from_input ≡ true)

abbrev pub Pushed : View → View → Option ℤ → Text → List Submission → Session → Session → Type 0
Pushed va v x t queue s r =
    (b : FinishedBlock) × (r.tracker.finished ≡ kept (s.tracker.finished ++ b ∷ []))
    × Records va v x t b
    × (b.id ≡ s.tracker.next_id + 1)
    × (r.submitted ≡ queue)

-- An entry of the input box that can still be taken.
abbrev pub is_fresh : ℕ → Submission → Bool
is_fresh now e = leb now (e.at + 30000)

-- The input box submits a text.
abbrev pub submit : ℕ → Text → Session → Session
submit now text r = with_submitted (note_submitted_command now text r.submitted) r
