-- ===== src/Launch/Quote.antt =====
-- The shell reads quoted text back as one word, and a command line as its words.
use tethra.Agents.{AgentSpecDto}
use tethra.Launch.{
  agent_argv, backslash, cd_line, escape_quotes, escape_unit, is_safe, is_safe_word, shell_escape,
  shell_single_quote, single_quote, space,
}
use mathlib.Core.Path.{subst}
use mathlib.Core.Option.{some-injective}
use tethra.Base.{
  ==_iff, Bool-cases, List, Option, Text, [], all, ap, append-nil, append_assoc, arith, codes,
  false, inl, inr, join, length, ltb, map, none, refl, some, sym, trim, true, ℕ, ◌++◌, ◌==◌, ◌∙◌,
  ◌∷◌, ◌≡◌,
}
use tethra.Launch.Words.{
  Mode, bare, escaped, gap, is_literal, lex, lex_step, quoted, shell_words, with_words,
}

with_words_nil : (r : Option (List Text)) → with_words [] r ≡ r
with_words_nil none = refl
with_words_nil (some ws) = refl

-- One character that the lexer takes without completing a word.
lex-cons :
    (m m' : Mode) (w w' : Text) (c : ℕ) (rest : Text)
    → lex_step m w c ≡ some (m', w', [])
    → lex m w (c ∷ rest) ≡ lex m' w' rest
unfolding lex
lex-cons m m' w w' c rest h = rw (h, lex) (with_words_nil (lex m' w' rest))

lex_step-quoted :
    (w : Text) (c : ℕ)
    → (c == single_quote) ≡ false
    → lex_step quoted w c ≡ some (quoted, w ++ c ∷ [], [])
unfolding lex_step
lex_step-quoted w c h = rw h

safe_literal : (c : ℕ) → is_safe c ≡ true → is_literal c ≡ true
unfolding is_safe is_literal
safe_literal c h = ground arith

lex_step-safe :
    (w : Text) (c : ℕ)
    → is_safe c ≡ true
    → (lex_step bare w c ≡ some (bare, w ++ c ∷ [], []))
      × (lex_step gap [] c ≡ some (bare, c ∷ [], []))
unfolding lex_step is_safe
lex_step-safe w c h = ground (arith, safe_literal c h)

-- The four characters that stand for a quote.
lex-reopen :
    (w rest : Text)
    → lex quoted w (single_quote ∷ backslash ∷ single_quote ∷ single_quote ∷ rest)
      ≡ lex quoted (w ++ single_quote ∷ []) rest
unfolding lex_step
lex-reopen w rest =
    lex-cons quoted bare w w single_quote (backslash ∷ single_quote ∷ single_quote ∷ rest) refl
    ∙ lex-cons bare escaped w w backslash (single_quote ∷ single_quote ∷ rest) refl
    ∙ lex-cons escaped bare w (w ++ single_quote ∷ []) single_quote (single_quote ∷ rest) refl
    ∙ lex-cons bare quoted (w ++ single_quote ∷ []) (w ++ single_quote ∷ []) single_quote rest refl

lex-escape_unit :
    (c : ℕ) (w rest : Text) → lex quoted w (escape_unit c ++ rest) ≡ lex quoted (w ++ c ∷ []) rest
lex-escape_unit c w rest = elim (Bool-cases (c == single_quote)) [
  | inl e ↦ rw ((==_iff c single_quote).0 e) (lex-reopen w rest)
  | inr e ↦ rw e (lex-cons quoted quoted w (w ++ c ∷ []) c rest (lex_step-quoted w c e))
]

lex-escape_quotes :
    (value w rest : Text)
    → lex quoted w (escape_quotes value ++ single_quote ∷ rest) ≡ lex bare (w ++ value) rest
unfolding escape_quotes lex_step
lex-escape_quotes [] w rest = rw append-nil (lex-cons quoted bare w w single_quote rest refl)
lex-escape_quotes (c ∷ cs) w rest =
    ap (lex quoted w) (append_assoc (escape_unit c) (escape_quotes cs) (single_quote ∷ rest))
    ∙ lex-escape_unit c w (escape_quotes cs ++ single_quote ∷ rest)
    ∙ lex-escape_quotes cs (w ++ c ∷ []) rest
    ∙ ap (λ t. lex bare t rest) (append_assoc w (c ∷ []) cs)

-- A quotation at the start of a word.
lex-single_quote :
    (value rest : Text) → lex gap [] (shell_single_quote value ++ rest) ≡ lex bare value rest
unfolding shell_single_quote lex_step
lex-single_quote value rest =
    lex-cons gap quoted [] [] single_quote ((escape_quotes value ++ single_quote ∷ []) ++ rest) refl
    ∙ ap (lex quoted []) (append_assoc (escape_quotes value) (single_quote ∷ []) rest)
    ∙ lex-escape_quotes value [] rest

lex-safe :
    (value w rest : Text)
    → all is_safe value ≡ true
    → lex bare w (value ++ rest) ≡ lex bare (w ++ value) rest
lex-safe [] w rest h = rw append-nil
lex-safe (c ∷ cs) w rest h =
    lex-cons bare bare w (w ++ c ∷ []) c (cs ++ rest) (lex_step-safe w c (ground arith)).0
    ∙ lex-safe cs (w ++ c ∷ []) rest (ground arith)
    ∙ ap (λ t. lex bare t rest) (append_assoc w (c ∷ []) cs)

lex-safe_word :
    (value rest : Text)
    → is_safe_word value ≡ true
    → lex gap [] (value ++ rest) ≡ lex bare value rest
lex-safe_word [] rest h = cc
lex-safe_word (c ∷ cs) rest h =
    lex-cons gap bare [] (c ∷ []) c (cs ++ rest) (lex_step-safe [] c (ground arith)).1
    ∙ lex-safe cs (c ∷ []) rest (ground arith)

-- However a word is escaped, the shell reads it back as the word.
lex-escape : (value rest : Text) → lex gap [] (shell_escape value ++ rest) ≡ lex bare value rest
unfolding shell_escape
lex-escape value rest = elim (Bool-cases (is_safe_word value)) [
  | inl e ↦ rw e (lex-safe_word value rest e)
  | inr e ↦ rw e (lex-single_quote value rest)
]

lex-space : (w rest : Text) → lex bare w (b' ' ∷ rest) ≡ with_words (w ∷ []) (lex gap [] rest)
unfolding lex lex_step
lex-space w rest = refl

lex_words :
    (p : Text) (ps : List Text)
    → shell_words (join space (map shell_escape (p ∷ ps))) ≡ some (p ∷ ps)
unfolding lex
lex_words p [] = ap shell_words (sym (append-nil (shell_escape p))) ∙ lex-escape p []
lex_words p (q ∷ qs) =
    lex-escape p (b' ' ∷ join space (map shell_escape (q ∷ qs)))
    ∙ lex-space p (join space (map shell_escape (q ∷ qs)))
    ∙ ap (with_words (p ∷ [])) (lex_words q qs)

-- A shell splits the command line of an agent into its command and its arguments, each one word, in which
-- no character has a meaning of its own, whatever characters stand in them. What the shell does with the
-- words is left open: a command such as `A=1` is an assignment to it.
pub shell_words-agent_argv :
    (a : AgentSpecDto) (line : Text)
    → agent_argv (some a) ≡ some line
    → shell_words line ≡ some (a.command ∷ a.args)
unfolding agent_argv
shell_words-agent_argv a line h = elim (Bool-cases (ltb 0 (length (trim a.command)))) [
  | inl e ↦
      subst (λ t. shell_words t ≡ some (a.command ∷ a.args)) (some-injective _ _ (rw e at h))
        (lex_words a.command a.args)
  | inr e ↦ cc (rw e at h)
]

-- A shell splits the line that changes to the project's directory into `cd` and the path, whatever
-- characters stand in the path.
pub shell_words-cd_line :
    (path : Text) → shell_words (cd_line path none) ≡ some (codes "cd" ∷ path ∷ [])
unfolding is_safe lex
shell_words-cd_line path =
    lex-safe_word (codes "cd") (b' ' ∷ shell_single_quote path) refl
    ∙ lex-space (codes "cd") (shell_single_quote path)
    ∙ ap (with_words (codes "cd" ∷ []))
        (ap shell_words (sym (append-nil (shell_single_quote path))) ∙ lex-single_quote path [])
