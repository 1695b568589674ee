-- ===== src/Base/Strings.antt =====
-- The methods of `String.prototype` that the program calls, on lists of code units.
use tethra.Base.Tests.{if◌then◌else◌, leb, ◌==◌}
use tethra.Base.Units.{Text}
use tethra.Base.Lists.{any}
use Prim.Native.Nat.{ℕ}
use mathlib.Core.Bool.{Bool, true, false, ◌&&◌, ◌||◌}
use mathlib.Core.List.{List, [], ◌∷◌, ◌++◌}

-- White space and line terminators of ECMAScript.
unfoldable pub is_space : ℕ → Bool
is_space c =
    c == 0x20
    || (leb 9 c && leb c 13)
    || c == 0xa0
    || c == 0x1680
    || (leb 0x2000 c && leb c 0x200a)
    || (c == 0x2028 || c == 0x2029)
    || c == 0x202f
    || c == 0x205f
    || c == 0x3000
    || c == 0xfeff

unfoldable pub trim_start : Text → Text
unfolding is_space
trim_start [] = []
trim_start (c ∷ cs) = if is_space c then trim_start cs else c ∷ cs

unfoldable pub cons_unless_blank : ℕ → Text → Text
unfolding is_space
cons_unless_blank c [] = if is_space c then [] else c ∷ []
cons_unless_blank c (d ∷ ds) = c ∷ d ∷ ds

unfoldable pub trim_end : Text → Text
unfolding cons_unless_blank
trim_end [] = []
trim_end (c ∷ cs) = cons_unless_blank c (trim_end cs)

unfoldable pub trim : Text → Text
unfolding trim_start trim_end
trim s = trim_start (trim_end s)

abbrev pub starts_with : Text → Text → Bool
starts_with s [] = true
starts_with [] (p ∷ ps) = false
starts_with (c ∷ cs) (p ∷ ps) = c == p && starts_with cs ps

unfoldable pub includes : Text → Text → Bool
includes [] p = starts_with [] p
includes (c ∷ cs) p = starts_with (c ∷ cs) p || includes cs p

-- `endsWith` and `includes` of one character.
abbrev pub ends_with_unit : Text → ℕ → Bool
ends_with_unit [] d = false
ends_with_unit (c ∷ []) d = c == d
ends_with_unit (c ∷ e ∷ cs) d = ends_with_unit (e ∷ cs) d

abbrev pub includes_unit : Text → ℕ → Bool
includes_unit s d = any (λ c. c == d) s

-- `split` at one character: always at least one piece.
abbrev pub cons_head : ℕ → List Text → List Text
cons_head c [] = (c ∷ []) ∷ []
cons_head c (p ∷ ps) = (c ∷ p) ∷ ps

unfoldable pub split_on : ℕ → Text → List Text
split_on d [] = [] ∷ []
split_on d (c ∷ cs) = let rest = split_on d cs in if c == d then [] ∷ rest else cons_head c rest

-- `join` of an array by a separator.
abbrev pub join : Text → List Text → Text
join sep [] = []
join sep (p ∷ []) = p
join sep (p ∷ q ∷ ps) = p ++ (sep ++ join sep (q ∷ ps))
