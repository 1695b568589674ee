-- ===== src/Regex.antt =====
-- Regular expressions of ECMAScript, as far as the sources use them: classes of code units, sequence,
-- alternatives, greedy and lazy repetition and `$`. `rests` lists what is left of a text after each way
-- to match at its start, in the order in which the backtracking tries them, so its head is the match
-- that ECMAScript takes. A round of a repetition that consumes nothing is given up, as there.
use tethra.Base.{
  Bool, List, Option, Text, [], false, filter, flat_map, if◌then◌else◌, is_some, leb, length, ltb,
  none, not, some, suc, true, zero, ℕ, ◌&&◌, ◌++◌, ◌-◌, ◌==◌, ◌||◌, ◌∷◌,
}
pub mod Length
pub mod First
pub mod Replace
pub mod Runs

pub data Regex : Type 0 where
  one_of : (ℕ → Bool) → Regex
  nothing at_end : Regex
  seq alt : Regex → Regex → Regex
  many few : Regex → Regex

abbrev pub is_shorter : Text → Text → Bool
is_shorter s t = ltb (length t) (length s)

-- At most so many rounds; the length of the text is always enough.
abbrev pub many_rests : (Text → List Text) → ℕ → Text → List Text
many_rests f zero s = s ∷ []
many_rests f (suc n) s = flat_map (many_rests f n) (filter (is_shorter s) (f s)) ++ s ∷ []

abbrev pub few_rests : (Text → List Text) → ℕ → Text → List Text
few_rests f zero s = s ∷ []
few_rests f (suc n) s = s ∷ flat_map (few_rests f n) (filter (is_shorter s) (f s))

abbrev pub one_rest : (ℕ → Bool) → Text → List Text
one_rest p [] = []
one_rest p (c ∷ cs) = if p c then cs ∷ [] else []

abbrev pub end_rest : Text → List Text
end_rest [] = [] ∷ []
end_rest (c ∷ cs) = []

unfoldable pub rests : Regex → Text → List Text
unfolding flat_map
rests (one_of p) s = one_rest p s
rests nothing s = s ∷ []
rests at_end s = end_rest s
rests (seq a b) s = flat_map (rests b) (rests a s)
rests (alt a b) s = rests a s ++ rests b s
rests (many a) s = many_rests (rests a) (length s) s
rests (few a) s = few_rests (rests a) (length s) s

abbrev pub first_of : List Text → Option Text
first_of [] = none
first_of (t ∷ ts) = some t

-- What is left after the match at the start of the text.
abbrev pub rest_of : Regex → Text → Option Text
rest_of r s = first_of (rests r s)

-- `test` of an expression that starts with `^`, and of one that does not.
abbrev pub test_start : Regex → Text → Bool
test_start r s = is_some (rest_of r s)

unfoldable pub test : Regex → Text → Bool
unfolding rests
test r [] = test_start r []
test r (c ∷ cs) = test_start r (c ∷ cs) || test r cs

-- `replace(/r/g, by)`: the units of a match are skipped. An empty match is passed over; no expression
-- that the sources replace by has one.
unfoldable pub replace_from : Regex → Text → ℕ → Text → Text
unfolding rests
replace_from r by n [] = []
replace_from r by (suc n) (c ∷ cs) = replace_from r by n cs
replace_from r by zero (c ∷ cs) = elim (rest_of r (c ∷ cs)) [
  | none ↦ c ∷ replace_from r by zero cs
  | some t ↦ elim (is_shorter (c ∷ cs) t) [
    | true ↦ by ++ replace_from r by (length cs - length t) cs
    | false ↦ c ∷ replace_from r by zero cs
  ]
]

unfoldable pub replace_all : Regex → Text → Text → Text
unfolding replace_from
replace_all r by s = replace_from r by 0 s

-- Shorthands.
abbrev pub lit : ℕ → Regex
lit c = one_of (λ d. d == c)

abbrev pub word_of : Text → Regex
word_of [] = nothing
word_of (c ∷ cs) = seq (lit c) (word_of cs)

abbrev pub opt : Regex → Regex
opt r = alt r nothing

abbrev pub some_of : Regex → Regex
some_of r = seq r (many r)

-- `r{0,n}`, greedy.
abbrev pub up_to : ℕ → Regex → Regex
up_to zero r = nothing
up_to (suc n) r = opt (seq r (up_to n r))

abbrev pub is_digit : ℕ → Bool
is_digit c = leb 0x30 c && leb c 0x39

abbrev pub is_letter : ℕ → Bool
is_letter c = (leb 0x41 c && leb c 0x5a) || (leb 0x61 c && leb c 0x7a)

-- `\w`, and `.`.
abbrev pub is_word : ℕ → Bool
is_word c = is_letter c || is_digit c || c == 0x5f

abbrev pub is_not_newline : ℕ → Bool
is_not_newline c = not (c == 10 || c == 13 || (c == 0x2028 || c == 0x2029))
