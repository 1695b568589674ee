-- ===== src/PromptPanel/Local.antt =====
-- The commands that stay in the box.
use tethra.Base.{
  Bool, Bool-cases, Text, [], ap, arith, codes, false, inl, inr, not, refl, some, true, ◌&&◌, ◌||◌,
  ◌∙◌, ◌≡◌,
}
use tethra.PromptPanel.{
  KeyboardEvent, Panel, handle_local_command_key, is_key, is_single, local_key, on_key_down, typed,
}

-- A key that composes a command: it is not Enter, and no chord.
abbrev pub composes : KeyboardEvent → Bool
composes e = not e.meta_key && not e.ctrl_key && not (is_key e (codes "Enter"))

module _ (utf8 lower_case : Text → Text) where
  local_key-quiet :
      (current : Text) (e : KeyboardEvent) (p : Panel)
      → (e.meta_key || e.ctrl_key) ≡ false
      → is_key e (codes "Enter") ≡ false
      → (typed utf8 lower_case e p (local_key (some current) e p)).1 ≡ []
  local_key-quiet current e p h n = elim (Bool-cases (is_key e (codes "Escape"))) [
    | inl a ↦ rw (h, a) refl
    | inr a ↦ elim (Bool-cases (is_key e (codes "Backspace"))) [
      | inl b ↦ rw (h, a, b) refl
      | inr b ↦ elim (Bool-cases (is_single e.key && not e.alt_key)) [
        | inl c ↦ rw (h, a, b, n, c) refl
        | inr c ↦ rw (h, a, b, n, c) refl
      ]
    ]
  ]

  -- While a command is composed in the box, the keys other than Enter and the chords send nothing to the
  -- shell and note no command.
  pub on_key_down-local :
      (current : Text) (e : KeyboardEvent) (p : Panel)
      → p.local_cmd ≡ some current
      → composes e ≡ true
      → (on_key_down utf8 lower_case false e p).1 ≡ []
  unfolding on_key_down handle_local_command_key
  on_key_down-local current e p h c =
      ap (λ l. (typed utf8 lower_case e p (local_key l e p)).1) h
      ∙ local_key-quiet current e p (ground arith) (ground arith)
