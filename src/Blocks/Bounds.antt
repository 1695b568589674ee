-- ===== src/Blocks/Bounds.antt =====
-- The list of finished blocks, under every phase.
use tethra.Base.{
  Bool, Bool-cases, List, Option, Text, [], all, all-append, arith, false, inl, inr, is_empty,
  length, ltb, none, not, refl, some, true, ℕ, ◌++◌, ◌<◌, ◌∙◌, ◌∷◌, ◌≡◌, ◌≤◌,
}
use tethra.Blocks.{
  FinishedBlock, Marker, Session, Submission, TerminalBlockPhase, command_end, command_start,
  output_start, prompt_start, reset_tui_state, take_submitted_command, ℤ,
}
use tethra.Blocks.Phases.{
  View, at_command, at_output, at_prompt, command_start_phase, dispose, output_start_phase,
  prompt_start_phase, rebind, rebound_at, with_submitted, with_tui,
}
use tethra.Blocks.Finish.{
  Draft, apply_phase, at_end, block_of, command_end_phase, conclude, discards, draft, fallback,
  flush_block_phases, flush_first, forget_finished_blocks, kept, launch_script, leave_launch,
  on_erase_scrollback, queue_block_phase, unless_repeated, with_pending,
}

-- Numbers that increase strictly from above `lo` to at most `hi`.
abbrev pub Increasing : ℕ → List FinishedBlock → ℕ → Type 0
Increasing lo [] hi = lo ≤ hi
Increasing lo (b ∷ bs) hi = (lo < b.id) × Increasing b.id bs hi

abbrev pub is_named : FinishedBlock → Bool
is_named b = not (is_empty b.command_text)

abbrev pub BlocksIn : List FinishedBlock → ℕ → Type 0
BlocksIn bs hi = (length bs ≤ 80) × Increasing 0 bs hi × (all is_named bs ≡ true)

abbrev pub IsValid : Session → Type 0
IsValid s = BlocksIn s.tracker.finished s.tracker.next_id

length-kept : (bs : List FinishedBlock) → length (kept bs) ≤ 80
length-kept [] = omega arith
length-kept (b ∷ bs) = ground (arith, length-kept bs)

all-kept :
    (p : FinishedBlock → Bool) (bs : List FinishedBlock) → all p bs ≡ true → all p (kept bs) ≡ true
all-kept p [] h = refl
all-kept p (b ∷ bs) h = ground (arith, all-kept p bs)

lower :
    (lo lo' hi : ℕ) (bs : List FinishedBlock)
    → lo ≤ lo'
    → Increasing lo' bs hi
    → Increasing lo bs hi
lower lo lo' hi [] l h = omega arith
lower lo lo' hi (b ∷ bs) l (h, t) = (omega arith, t)

Increasing-kept :
    (lo hi : ℕ) (bs : List FinishedBlock) → Increasing lo bs hi → Increasing lo (kept bs) hi
Increasing-kept lo hi [] h = h
Increasing-kept lo hi (b ∷ bs) (h, t) = elim (Bool-cases (ltb 80 (length (b ∷ bs)))) [
  | inl e ↦ rw e (lower lo b.id hi (kept bs) (omega arith) (Increasing-kept b.id hi bs t))
  | inr e ↦ rw e (h, t)
]

Increasing-append :
    (lo hi : ℕ) (bs : List FinishedBlock) (b : FinishedBlock)
    → Increasing lo bs hi
    → hi < b.id
    → Increasing lo (bs ++ b ∷ []) b.id
Increasing-append lo hi [] b h l = (omega arith, omega arith)
Increasing-append lo hi (c ∷ cs) b (h, t) l = (h, Increasing-append c.id hi cs b t l)

pub push-BlocksIn :
    (bs : List FinishedBlock) (b : FinishedBlock) (hi : ℕ)
    → BlocksIn bs hi
    → hi < b.id
    → is_named b ≡ true
    → BlocksIn (kept (bs ++ b ∷ [])) b.id
push-BlocksIn bs b hi (l, i, n) h e = (
  length-kept (bs ++ b ∷ []),
  Increasing-kept 0 b.id (bs ++ b ∷ []) (Increasing-append 0 hi bs b i h),
  all-kept is_named (bs ++ b ∷ []) (all-append is_named bs (b ∷ []) ∙ rw (n, e) refl),
)

at_prompt-IsValid :
    (v : View) (m : Option Marker) (s : Session) → IsValid s → IsValid (at_prompt v m s)
at_prompt-IsValid v none s h = h
at_prompt-IsValid v (some m) s h = h

at_command-IsValid :
    (v : View) (m : Option Marker) (s : Session) → IsValid s → IsValid (at_command v m s)
at_command-IsValid v none s h = h
at_command-IsValid v (some m) s h = h

rebind-IsValid : (m : Option Marker) (s : Session) → IsValid s → IsValid (rebind m s)
rebind-IsValid none s h = h
rebind-IsValid (some m) s h = h

at_output-IsValid :
    (v : View) (m : Option Marker) (taken : Option Text × List Submission) (s : Session)
    → IsValid s
    → IsValid (at_output v m taken s)
at_output-IsValid v none taken s h = h
at_output-IsValid v (some m) (t, q) s h =
    rebind-IsValid (rebound_at v t v.found) (with_submitted q s) h

leave_launch-IsValid : (s : Session) → IsValid s → IsValid (leave_launch s)
leave_launch-IsValid s h = elim (Bool-cases (launch_script s)) [ inl e ↦ rw e h | inr e ↦ rw e h ]

leave_launch-next_id : (s : Session) → (leave_launch s).tracker.next_id ≡ s.tracker.next_id
leave_launch-next_id s = elim (Bool-cases (launch_script s)) [
  | inl e ↦ rw e refl
  | inr e ↦ rw e refl
]

named :
    (v : View) (launch from_input : Bool) (text : Text)
    → discards v launch from_input text ≡ false
    → not (is_empty text) ≡ true
named v launch from_input [] h = cc
named v launch from_input (c ∷ cs) h = refl

conclude-IsValid :
    (v : View) (exit_code : Option ℤ) (end : Marker) (d : Draft) (text output : Text) (s : Session)
    → IsValid s
    → IsValid (conclude v exit_code end d text output s)
conclude-IsValid v exit_code end d text output s h =
    elim (Bool-cases (discards v (launch_script s) s.tracker.opened.command_from_input text)) [
      | inl e ↦ rw e (leave_launch-IsValid s h)
      | inr e ↦ rw e (
          push-BlocksIn (leave_launch s).tracker.finished (block_of v exit_code end d text output s)
            (leave_launch s).tracker.next_id (leave_launch-IsValid s h)
            (omega (arith, leave_launch-next_id s))
            (named v (launch_script s) s.tracker.opened.command_from_input text e))
    ]

at_end-IsValid :
    (v : View) (exit_code : Option ℤ) (m : Option Marker) (s : Session)
    → IsValid s
    → IsValid (at_end v exit_code m s)
at_end-IsValid v exit_code none s h = h
at_end-IsValid v exit_code (some m) s h =
    let drafted = draft v s.tracker.opened m in
    conclude-IsValid v exit_code m drafted.0
      (unless_repeated v s.tracker.opened.command_from_input (fallback v drafted.0)
        (v.text_between s.tracker.opened.output_start m) drafted.0.prompt)
      (v.text_between s.tracker.opened.output_start m) (dispose drafted.1 s) h

apply_phase-IsValid :
    (v : View) (phase : TerminalBlockPhase) (exit_code : Option ℤ) (s : Session)
    → IsValid s
    → IsValid (apply_phase v phase exit_code s)
unfolding prompt_start_phase command_start_phase output_start_phase command_end_phase apply_phase
apply_phase-IsValid v prompt_start exit_code s h =
    at_prompt-IsValid v v.cursor_marker (with_tui (reset_tui_state s.tui) s) h
apply_phase-IsValid v command_start exit_code s h = at_command-IsValid v v.cursor_marker s h
apply_phase-IsValid v output_start exit_code s h =
    at_output-IsValid v v.cursor_marker (take_submitted_command v.now s.submitted) s h
apply_phase-IsValid v command_end exit_code s h =
    at_end-IsValid v exit_code v.cursor_marker (with_tui (reset_tui_state s.tui) s) h

flush_first-IsValid :
    (v : View) (ps : List (TerminalBlockPhase × Option ℤ)) (s : Session)
    → IsValid s
    → IsValid (flush_first v ps s)
flush_first-IsValid v [] s h = h
flush_first-IsValid v ((p, x) ∷ ps) s h = apply_phase-IsValid v p x (with_pending ps s) h

-- What happens to a session: a phase is queued or applied, or the scrollback is erased.
pub data Event : Type 0 where
  queued : TerminalBlockPhase → Option ℤ → Event
  flushed : View → Event
  erased : Event

abbrev pub handle : Event → Session → Session
handle (queued p x) s = queue_block_phase p x s
handle (flushed v) s = flush_block_phases v s
handle erased s = on_erase_scrollback s

abbrev pub handle_all : List Event → Session → Session
handle_all [] s = s
handle_all (e ∷ es) s = handle_all es (handle e s)

handle-IsValid : (e : Event) (s : Session) → IsValid s → IsValid (handle e s)
unfolding queue_block_phase flush_block_phases on_erase_scrollback forget_finished_blocks
handle-IsValid (queued p x) s h = h
handle-IsValid (flushed v) s h = flush_first-IsValid v s.tracker.pending s h
handle-IsValid erased s h = (omega arith, omega arith, refl)

-- Whatever phases come in whatever order, whatever the terminal shows, and wherever the scrollback is
-- erased between them, a session keeps at most 80 finished blocks, with ids that increase strictly up to
-- the last one given, and none with an empty command.
pub handle_all-IsValid : (es : List Event) (s : Session) → IsValid s → IsValid (handle_all es s)
handle_all-IsValid [] s h = h
handle_all-IsValid (e ∷ es) s h = handle_all-IsValid es (handle e s) (handle-IsValid e s h)
