-- ===== src/Numeral/RoundTrip.antt =====
-- A number that is written and read again.
use tethra.Base.{
  Bool, Text, [], all, ap, arith, false, if◌then◌else◌, is_empty, is_space, ltb, refl, some, suc,
  trim_start, true, zero, ℕ, ◌%◌, ◌*◌, ◌++◌, ◌+◌, ◌-◌, ◌/◌, ◌<◌, ◌∙◌, ◌∷◌, ◌≡◌, ◌≤◌,
}
use tethra.Numeral.{
  as_integer, decimal, decimal_digits, leading_digits, parse_int, parse_signed, parse_unsigned,
}
use tethra.QuickConnect.{parse_digits}
use tethra.Regex.{is_digit}
use tethra.Blocks.{pos}

parse_digits-append :
    (ds : Text) (d m : ℕ) → parse_digits m (ds ++ d ∷ []) ≡ parse_digits m ds * 10 + (d - 0x30)
parse_digits-append [] d m = refl
parse_digits-append (c ∷ cs) d m = parse_digits-append cs d (m * 10 + (c - 0x30))

-- What the digits are: digits, at least one of them, and worth the number.
abbrev pub IsNumeral : Text → ℕ → Type 0
IsNumeral ds n = (all is_digit ds ≡ true) × (is_empty ds ≡ false) × (parse_digits 0 ds ≡ n)

digit-IsNumeral : (n : ℕ) → n < 10 → IsNumeral ((0x30 + n) ∷ []) n
digit-IsNumeral n h = (ground arith, refl, omega (arith, h))

all_digits-append :
    (ds : Text) (d : ℕ)
    → all is_digit ds ≡ true
    → is_digit d ≡ true
    → (all is_digit (ds ++ d ∷ []) ≡ true) × (is_empty (ds ++ d ∷ []) ≡ false)
all_digits-append [] d h k = (ground arith, refl)
all_digits-append (c ∷ cs) d h k = (ground (arith, all_digits-append cs d), refl)

IsNumeral-append :
    (ds : Text) (n : ℕ) → IsNumeral ds (n / 10) → IsNumeral (ds ++ (0x30 + n % 10) ∷ []) n
IsNumeral-append ds n (a, e, v) =
    let digit : is_digit (0x30 + n % 10) ≡ true = ground arith in
    let both = all_digits-append ds (0x30 + n % 10) a digit in
    (both.0, both.1, parse_digits-append ds (0x30 + n % 10) 0 ∙ rw v (omega arith))

step_of_test :
    (test : Bool) (ds : Text) (n : ℕ)
    → ltb n 10 ≡ test
    → (test ≡ false → IsNumeral ds (n / 10))
    → IsNumeral (if test then (0x30 + n) ∷ [] else ds ++ (0x30 + n % 10) ∷ []) n
step_of_test true ds n h k = digit-IsNumeral n (ground (arith, h))
step_of_test false ds n h k = IsNumeral-append ds n (k refl)

tenth_smaller : (n rounds : ℕ) → ltb n 10 ≡ false → n < suc rounds → n / 10 < rounds
tenth_smaller n rounds p h = let big : 10 ≤ n = ground (arith, p) in omega (arith, big, h)

decimal_digits-IsNumeral : (rounds n : ℕ) → n < rounds → IsNumeral (decimal_digits rounds n) n
decimal_digits-IsNumeral zero n h = ground (arith, h)
decimal_digits-IsNumeral (suc rounds) n h =
    step_of_test (ltb n 10) (decimal_digits rounds (n / 10)) n refl
      (λ p. decimal_digits-IsNumeral rounds (n / 10) (tenth_smaller n rounds p h))

pub decimal-IsNumeral : (n : ℕ) → IsNumeral (decimal n) n
unfolding decimal
decimal-IsNumeral n = decimal_digits-IsNumeral (suc n) n (omega arith)

leading_digits-all : (ds : Text) → all is_digit ds ≡ true → leading_digits ds ≡ ds
leading_digits-all [] h = refl
leading_digits-all (c ∷ cs) h = ground (arith, leading_digits-all cs)

parse_unsigned-all :
    (ds : Text)
    → all is_digit ds ≡ true
    → is_empty ds ≡ false
    → parse_unsigned ds ≡ some (parse_digits 0 ds)
parse_unsigned-all ds a e = rw (leading_digits-all ds a, e) refl

parse_signed_digits :
    (c : ℕ) (cs : Text)
    → is_digit c ≡ true
    → parse_signed (c ∷ cs) ≡ as_integer (parse_unsigned (c ∷ cs))
parse_signed_digits c cs h = ground arith

trim_start_digits : (c : ℕ) (cs : Text) → is_digit c ≡ true → trim_start (c ∷ cs) ≡ c ∷ cs
unfolding trim_start is_space
trim_start_digits c cs h = ground arith

parsed_numeral : (ds : Text) (n : ℕ) → IsNumeral ds n → parse_int ds ≡ some (pos n)
unfolding parse_int
parsed_numeral [] n (a, e, v) = ground arith
parsed_numeral (c ∷ cs) n (a, e, v) =
    let d : is_digit c ≡ true = ground arith in
    ap parse_signed (trim_start_digits c cs d)
    ∙ parse_signed_digits c cs d
    ∙ ap as_integer (parse_unsigned-all (c ∷ cs) a refl)
    ∙ ap (λ m. some (pos m)) v

-- A number that is written as text is read back.
pub parse_int-decimal : (n : ℕ) → parse_int (decimal n) ≡ some (pos n)
parse_int-decimal n = parsed_numeral (decimal n) n (decimal-IsNumeral n)
