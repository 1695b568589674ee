-- ===== src/Inject/Delivery.antt =====
-- What the calls of an injection do to a line editor.
use tethra.Inject.Clean.{is_clean, sanitize_shell_payload-clean}
use tethra.Base.{
  Bool, Bool-cases, List, Text, [], all, any, arith, false, if◌then◌else◌, inl, inr, is_empty, none,
  refl, some, true, ℕ, ◌++◌, ◌∙◌, ◌∷◌, ◌≡◌,
}
use tethra.Inject.{
  InjectCall, InjectShellOptions, arm, body_of, clean_text, cons_unless_newline, ctrl_u,
  gated_calls, inject_clean, inject_shell_text, newline, or_else, sanitize_shell_payload, use_gates,
  without_leading, without_trailing,
}
use tethra.Inject.Editor.{Editor, editor, feed, feed-with_bracketed_paste, feed_calls}

-- The line with the text at its end, submitted or not.
abbrev pub after_text : Bool → Text → List Text → Editor
after_text run line submitted =
    if run then editor [] (submitted ++ line ∷ []) false else editor line submitted false

feed-newline :
    (run : Bool) (l : Text) (s : List Text)
    → feed 0 (if run then newline else []) (editor l s false) ≡ after_text run l s
unfolding feed
feed-newline true l s = refl
feed-newline false l s = refl

feed-body :
    (options : InjectShellOptions) (t l : Text) (s : List Text)
    → all is_clean t ≡ true
    → feed 0 (body_of options t) (editor l s false)
      ≡ after_text (or_else options.run false) (l ++ t) s
feed-body options t l s h =
    feed-with_bracketed_paste t (if or_else options.run false then newline else []) l s h
    ∙ feed-newline (or_else options.run false) (l ++ t) s

feed-ctrl_u :
    (u l : Text) (s : List Text)
    → feed 0 (ctrl_u ∷ u) (editor l s false) ≡ feed 0 u (editor [] s false)
unfolding feed
feed-ctrl_u u l s = refl

feed-gated_calls :
    (ms : ℕ) (options : InjectShellOptions) (t l : Text) (s : List Text)
    → all is_clean t ≡ true
    → feed_calls (gated_calls ms (body_of options t)) (editor l s false)
      ≡ after_text (or_else options.run false) t s
unfolding feed_calls feed
feed-gated_calls ms options t l s h =
    feed-ctrl_u (body_of options t) [] s ∙ feed-body options t [] s h

clean_text-clean : (text : Text) → all is_clean (clean_text text) ≡ true
clean_text-clean text =
    trailing (without_leading (sanitize_shell_payload text))
      (leading (sanitize_shell_payload text) (sanitize_shell_payload-clean text))
  where
    leading : (s : Text) → all is_clean s ≡ true → all is_clean (without_leading s) ≡ true
    leading [] h = refl
    leading (c ∷ cs) h = ground (arith, leading cs)

    kept :
        (c : ℕ) (s : Text)
        → is_clean c ≡ true
        → all is_clean s ≡ true
        → all is_clean (cons_unless_newline c s) ≡ true
    kept c [] h k = ground arith
    kept c (d ∷ ds) h k = ground arith

    trailing : (s : Text) → all is_clean s ≡ true → all is_clean (without_trailing s) ≡ true
    trailing [] h = refl
    trailing (c ∷ cs) h = kept c (without_trailing cs) (ground arith) (trailing cs (ground arith))

inject_clean-feed :
    (options : InjectShellOptions) (t l : Text) (s : List Text)
    → all is_clean t ≡ true
    → feed_calls (inject_clean options t) (editor l s false) ≡ (
        if is_empty t
        then editor l s false
        else after_text (or_else options.run false) ((if use_gates options then [] else l) ++ t) s)
unfolding feed_calls
inject_clean-feed options [] l s h = refl
inject_clean-feed options (c ∷ cs) l s h = elim (Bool-cases (use_gates options)) [
  | inl e ↦ rw e (feed-gated_calls (or_else options.suppress_ms 2500) options (c ∷ cs) l s h)
  | inr e ↦ rw e (feed-body options (c ∷ cs) l s h)
]

-- Whatever text is injected, with whatever options, into a shell whose line holds whatever was typed: a
-- text that is empty after the cleaning changes nothing; any other arrives as it is, its newlines
-- included, behind the line that was there for a paste and in its place when the gates are used; and it is
-- submitted, as one command, exactly when it is to be run.
pub inject_shell_text-feed :
    (text : Text) (options : InjectShellOptions) (line : Text) (submitted : List Text)
    → feed_calls (inject_shell_text text options) (editor line submitted false) ≡ (
        if is_empty (clean_text text)
        then editor line submitted false
        else after_text
            (or_else options.run false)
            ((if use_gates options then [] else line) ++ clean_text text)
            submitted)
unfolding inject_shell_text
inject_shell_text-feed text options line submitted =
    inject_clean-feed options (clean_text text) line submitted (clean_text-clean text)

abbrev pub is_arm : InjectCall → Bool
is_arm (arm ms) = true
is_arm _ = false

-- A paste, which does not clear the line and asks for no gates, arms none, whatever is pasted.
pub inject_shell_text-paste :
    (text : Text) (options : InjectShellOptions)
    → options.clear_line ≡ some false
    → options.arm_gates ≡ none
    → any is_arm (inject_shell_text text options) ≡ false
unfolding inject_shell_text
inject_shell_text-paste text options c g = paste (clean_text text)
  where
    paste : (t : Text) → any is_arm (inject_clean options t) ≡ false
    paste [] = refl
    paste (d ∷ ds) = rw (c, g) refl
