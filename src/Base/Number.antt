-- ===== src/Base/Number.antt =====
-- JavaScript numbers, which are doubles: an interface. `Num` stands for the finite ones, and NaN and
-- the infinities show only as the `none` of `parse`. The two zeros count as one, and the laws are meant
-- for numbers of the size of the preferences and ratios, where no operation overflows.
use tethra.Base.{
  Bool, Option, Text, [], arith, false, if◌then◌else◌, ltb, none, not, refl, some, true, ℕ, ◌&&◌,
  ◌*◌, ◌+◌, ◌/◌, ◌∷◌, ◌≡◌,
}

pub record Numbers : Type 1 where
  pub Num : Type 0
  pub lt : Num → Num → Bool
  -- The literal of so many hundredths: 0.15 is `hundredths 15`.
  pub hundredths : ℕ → Num
  -- `Math.round`.
  pub round : Num → Num
  -- `Math.round(x * 100) / 100`.
  pub round2 : Num → Num
  -- `Number(text)`, or `none` where that is not finite; and `String(number)`.
  pub parse : Text → Option Num
  pub print : Num → Text
  pub lt-asymm : (a b : Num) → lt a b ≡ true → lt b a ≡ false
  pub lt-hundredths : (a b : ℕ) → lt (hundredths a) (hundredths b) ≡ ltb a b
  pub round-round : (a : Num) → round (round a) ≡ round a
  pub round-hundredths : (n : ℕ) → round (hundredths (n * 100)) ≡ hundredths (n * 100)
  pub round-mono : (a b : Num) → lt a b ≡ false → lt (round a) (round b) ≡ false
  pub round2-mono : (a b : Num) → lt a b ≡ false → lt (round2 a) (round2 b) ≡ false
  pub round2-hundredths : (n : ℕ) → round2 (hundredths n) ≡ hundredths n
  pub parse-print : (a : Num) → parse (print a) ≡ some a

module _ (js : Numbers) where
  open js use {Num, lt, hundredths, lt-asymm, lt-hundredths}

  abbrev pub math_min : Num → Num → Num
  math_min a b = if lt b a then b else a

  abbrev pub math_max : Num → Num → Num
  math_max a b = if lt a b then b else a

  -- `Math.min(hi, Math.max(lo, x))` at two literals.
  unfoldable pub clamp : ℕ → ℕ → Num → Num
  clamp lo hi x = math_min (hundredths hi) (math_max (hundredths lo) x)

  abbrev pub Within : ℕ → ℕ → Num → Type 0
  Within lo hi x = (lt x (hundredths lo) ≡ false) × (lt (hundredths hi) x ≡ false)

  pub lt_irrefl : (a : Num) → lt a a ≡ false
  lt_irrefl a = ground (arith, lt-asymm a a)

  pub clamp-Within : (lo hi : ℕ) (x : Num) → ltb hi lo ≡ false → Within lo hi (clamp lo hi x)
  unfolding clamp
  clamp-Within lo hi x h = ground (
    arith,
    lt_irrefl (hundredths lo),
    lt_irrefl (hundredths hi),
    lt-asymm (hundredths lo) x,
    lt-asymm x (hundredths hi),
    lt-hundredths hi lo,
  )

  -- `a === b`, for numbers that are no NaN.
  abbrev pub equal : Num → Num → Bool
  equal a b = not (lt a b) && not (lt b a)

  -- A number in the range is left alone, but for a tie with a bound.
  pub clamp_fixed :
      (lo hi : ℕ) (x : Num)
      → ltb hi lo ≡ false
      → lt (hundredths lo) x ≡ true
      → lt x (hundredths hi) ≡ true
      → clamp lo hi x ≡ x
  unfolding clamp
  clamp_fixed lo hi x h l u = ground arith

-- Numbers of two decimals with a one-unit notation: a model of the interface.
abbrev pub centi_parse : Text → Option ℕ
centi_parse [] = none
centi_parse (n ∷ []) = some n
centi_parse (n ∷ m ∷ rest) = none

pub centi_lt-asymm : (a b : ℕ) → ltb a b ≡ true → ltb b a ≡ false
centi_lt-asymm a b h = ground arith

abbrev pub centi_round : ℕ → ℕ
centi_round n = (n + 50) / 100 * 100

pub centi_round-round : (n : ℕ) → centi_round (centi_round n) ≡ centi_round n
centi_round-round n = omega arith

pub centi_round-hundredths : (n : ℕ) → centi_round (n * 100) ≡ n * 100
centi_round-hundredths n = omega arith

pub centi_round_mono : (a b : ℕ) → ltb a b ≡ false → ltb (centi_round a) (centi_round b) ≡ false
centi_round_mono a b h = ground arith

abbrev pub centi : Numbers
centi = record {
  Num = ℕ;
  lt = ltb;
  hundredths = λ n. n;
  round = centi_round;
  round2 = λ n. n;
  parse = centi_parse;
  print = λ n. n ∷ [];
  lt-asymm = centi_lt-asymm;
  lt-hundredths = λ a b. refl;
  round-round = centi_round-round;
  round-hundredths = centi_round-hundredths;
  round-mono = centi_round_mono;
  round2-mono = λ a b h. h;
  round2-hundredths = λ n. refl;
  parse-print = λ n. refl;
}
