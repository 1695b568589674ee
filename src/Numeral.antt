-- ===== src/Numeral.antt =====
-- Whole numbers as text, which the client writes with `String` and reads with `Number.parseInt`.
use tethra.Base.{
  Option, Text, [], if◌then◌else◌, is_empty, ltb, none, some, suc, trim_start, zero, ℕ, ◌%◌, ◌++◌,
  ◌+◌, ◌/◌, ◌==◌, ◌∷◌,
}
use tethra.Blocks.{negsuc, pos, ℤ}
use tethra.Regex.{is_digit}
use tethra.QuickConnect.{parse_digits}
pub mod RoundTrip

-- `String(n)`, with rounds enough for the digits.
abbrev pub decimal_digits : ℕ → ℕ → Text
decimal_digits zero n = []
decimal_digits (suc rounds) n =
    let rest = decimal_digits rounds (n / 10) in
    if ltb n 10 then (0x30 + n) ∷ [] else rest ++ (0x30 + n % 10) ∷ []

unfoldable pub decimal : ℕ → Text
decimal n = decimal_digits (suc n) n

abbrev pub leading_digits : Text → Text
leading_digits [] = []
leading_digits (c ∷ cs) = if is_digit c then c ∷ leading_digits cs else []

abbrev pub parse_unsigned : Text → Option ℕ
parse_unsigned s =
    if is_empty (leading_digits s) then none else some (parse_digits 0 (leading_digits s))

abbrev pub negated : Option ℕ → Option ℤ
negated none = none
negated (some zero) = some (pos 0)
negated (some (suc n)) = some (negsuc n)

abbrev pub as_integer : Option ℕ → Option ℤ
as_integer none = none
as_integer (some n) = some (pos n)

abbrev pub parse_signed : Text → Option ℤ
parse_signed [] = none
parse_signed (c ∷ cs) =
    if c == 0x2d
    then negated (parse_unsigned cs)
    else if c == 0x2b
    then as_integer (parse_unsigned cs)
    else as_integer (parse_unsigned (c ∷ cs))

-- `Number.parseInt(s, 10)`, with `none` for NaN.
unfoldable pub parse_int : Text → Option ℤ
unfolding trim_start
parse_int s = parse_signed (trim_start s)
