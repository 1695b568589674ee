-- ===== src/Launch/Words.antt =====
-- How a POSIX shell splits a command line of literal characters and quotations into words (XCU 2.2 and
-- 2.3): the description that the quoting is held to. What it makes of the words, a reserved word or an
-- assignment, is left out. `none` stands for text that is not such a line: an unquoted character with a
-- meaning of its own, or a quotation that does not end.
use tethra.Base.{
  Bool, List, Option, Text, [], any, codes, if◌then◌else◌, leb, none, not, some, ℕ, ◌&&◌, ◌++◌,
  ◌==◌, ◌∷◌,
}
use tethra.Launch.{backslash, single_quote}

-- The characters that stand for themselves outside quotes: none that a shell may have to be quoted for
-- (XCU 2.2), no brace, no `!` of a history, and no blank or control.
unfoldable pub is_literal : ℕ → Bool
is_literal c =
    leb 0x21 c && not (c == 0x7f) && not (any (λ d. c == d) (codes "|&;<>()$`\\\"'*?[]#~%{}!^"))

-- Between words, in a word, in single quotes, behind a backslash.
pub data Mode : Type 0 where
  gap bare quoted escaped : Mode

-- The next mode, the word so far, and the words that are complete.
abbrev pub Next : Type 0
Next = Mode × Text × List Text

abbrev pub in_word : Mode → Text → Text
in_word gap w = []
in_word _ w = w

-- A character outside quotes.
abbrev pub unquoted : Mode → Text → List Text → ℕ → Option Next
unquoted m w done_words c =
    if c == b' '
    then some (gap, [], done_words)
    else if c == single_quote
    then some (quoted, w, [])
    else if c == backslash
    then some (escaped, w, [])
    else if is_literal c
    then some (bare, w ++ c ∷ [], [])
    else none

unfoldable pub lex_step : Mode → Text → ℕ → Option Next
unfolding is_literal
lex_step gap w c = unquoted gap [] [] c
lex_step bare w c = unquoted bare w (w ∷ []) c
lex_step quoted w c =
    if c == single_quote then some (bare, w, []) else some (quoted, w ++ c ∷ [], [])
lex_step escaped w c = some (bare, w ++ c ∷ [], [])

abbrev pub lex_end : Mode → Text → Option (List Text)
lex_end gap w = some []
lex_end bare w = some (w ∷ [])
lex_end quoted w = none
lex_end escaped w = none

abbrev pub with_words : List Text → Option (List Text) → Option (List Text)
with_words ws none = none
with_words ws (some rest) = some (ws ++ rest)

unfoldable pub lex : Mode → Text → Text → Option (List Text)
lex m w [] = lex_end m w
lex m w (c ∷ cs) = elim (lex_step m w c) [
  | none ↦ none
  | some (m', w', ws) ↦ with_words ws (lex m' w' cs)
]

-- The words of a command line.
abbrev pub shell_words : Text → Option (List Text)
shell_words = lex gap []
