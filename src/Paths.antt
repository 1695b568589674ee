-- ===== src/Paths.antt =====
-- Paths of the two panes of the SFTP view (apps/ui/src/sftp/path.ts). The functions that print sizes
-- and times are left out: they rest on `toFixed` and on the locale.
pub mod RoundTrip
mod Tests
use tethra.Base.{
  Option, Text, [], codes, ends_with_unit, if◌then◌else◌, none, some, starts_with, suc, take,
  text_eq, zero, ℕ, ◌++◌, ◌==◌, ◌||◌, ◌∷◌,
}

abbrev pub slash : ℕ
slash = b'/'

-- One step of `path.replace(/\/+$/, "")`, from the end of the path.
unfoldable pub cons_unless_trailing : ℕ → Text → Text
cons_unless_trailing c [] = if c == slash then [] else c ∷ []
cons_unless_trailing c (d ∷ ds) = c ∷ d ∷ ds

unfoldable pub strip_slashes : Text → Text
unfolding cons_unless_trailing
strip_slashes [] = []
strip_slashes (c ∷ cs) = cons_unless_trailing c (strip_slashes cs)

-- `lastIndexOf` of one character; `none` stands for -1.
unfoldable pub last_index_of : ℕ → Text → Option ℕ
last_index_of d [] = none
last_index_of d (c ∷ cs) = elim (last_index_of d cs) [
  | none ↦ if c == d then some 0 else none
  | some i ↦ some (suc i)
]

abbrev pub root_or_dot : Text → Text
root_or_dot normalized = if starts_with normalized (codes "/") then codes "/" else codes "."

abbrev pub cut_at : Text → Option ℕ → Text
cut_at normalized none = root_or_dot normalized
cut_at normalized (some zero) = root_or_dot normalized
cut_at normalized (some (suc i)) = take (suc i) normalized

abbrev pub parent_of : Text → Text
parent_of normalized = cut_at normalized (last_index_of slash normalized)

unfoldable pub parent_path : Text → Text
parent_path [] = codes "."
parent_path (c ∷ cs) =
    if text_eq (c ∷ cs) (codes ".") || text_eq (c ∷ cs) (codes "/")
    then c ∷ cs
    else parent_of (strip_slashes (c ∷ cs))

unfoldable pub join_path : Text → Text → Text
join_path [] name = name
join_path (c ∷ cs) name =
    if text_eq (c ∷ cs) (codes ".")
    then name
    else if ends_with_unit (c ∷ cs) slash
    then (c ∷ cs) ++ name
    else (c ∷ cs) ++ slash ∷ name
