-- ===== src/Blocks/Queue.antt =====
-- The queue of submitted commands.
use tethra.Base.{
  Bool, Bool-cases, List, Text, [], all, ap, arith, false, inl, inr, is_empty, leb, length,
  length-append, not, refl, some, trim, true, ℕ, ◌++◌, ◌+◌, ◌∙◌, ◌∷◌, ◌≡◌, ◌≤◌,
}
use tethra.Blocks.{Submission, note_submitted_command, shift_to, take_submitted_command}

shift_to-short : (bound : ℕ) (q : List Submission) → length q ≤ bound → shift_to bound q ≡ q
shift_to-short bound [] h = refl
shift_to-short bound (e ∷ es) h = ground (arith, shift_to-short bound es)

abbrev pub is_stale : ℕ → Submission → Bool
is_stale now e = not (leb now (e.at + 30000))

take-stale :
    (now : ℕ) (q : List Submission) (e : Submission)
    → all (is_stale now) q ≡ true
    → leb now (e.at + 30000) ≡ true
    → take_submitted_command now (q ++ e ∷ []) ≡ (some e.text, [])
unfolding take_submitted_command
take-stale now [] e h f = rw f refl
take-stale now (x ∷ xs) e h f = elim (Bool-cases (leb now (x.at + 30000))) [
  | inl g ↦ ground arith
  | inr g ↦ rw g (take-stale now xs e (ground arith) f)
]

-- A command that is submitted, not blank, and taken within 30 seconds is taken trimmed, and empties the
-- queue, when the at most 31 commands before it have gone stale.
pub take-note_submitted_command :
    (now then_at : ℕ) (text : Text) (q : List Submission)
    → is_empty (trim text) ≡ false
    → length q ≤ 31
    → all (is_stale then_at) q ≡ true
    → leb then_at (now + 30000) ≡ true
    → take_submitted_command then_at (note_submitted_command now text q) ≡ (some (trim text), [])
unfolding note_submitted_command
take-note_submitted_command now then_at text q b l s f = rw b (
    ap (take_submitted_command then_at) (
      shift_to-short 32 (q ++ record { text = trim text; at = now } ∷ [])
        (omega (arith, length-append q (record { text = trim text; at = now } ∷ []))))
    ∙ take-stale then_at q (record { text = trim text; at = now }) s f)
