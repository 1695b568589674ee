-- ===== src/Base/StringLaws.antt =====
-- Laws of the string methods.
use tethra.Base.Strings.{cons_unless_blank}
use tethra.Base.{
  All, Bool, List, Text, [], all, any, ap, arith, false, if◌then◌else◌, is_empty, is_space, join,
  not, refl, split_on, trim, trim_end, trim_start, true, ℕ, ◌&&◌, ◌++◌, ◌==◌, ◌∙◌, ◌∷◌, ◌≡◌,
}

split_on_last : (d : ℕ) (p : Text) → any (λ c. c == d) p ≡ false → split_on d p ≡ p ∷ []
unfolding split_on
split_on_last d [] h = refl
split_on_last d (c ∷ cs) h = ground (arith, split_on_last d cs)

split_on_first :
    (d : ℕ) (p rest : Text)
    → any (λ c. c == d) p ≡ false
    → split_on d (p ++ d ∷ rest) ≡ p ∷ split_on d rest
unfolding split_on
split_on_first d [] rest h = ground arith
split_on_first d (c ∷ cs) rest h = ground (arith, split_on_first d cs rest)

-- Splitting undoes joining, for pieces without the separator.
pub split_on-join :
    (d : ℕ) (p : Text) (ps : List Text)
    → All (λ q. any (λ c. c == d) q ≡ false) (p ∷ ps)
    → split_on d (join (d ∷ []) (p ∷ ps)) ≡ p ∷ ps
split_on-join d p [] h = split_on_last d p h.0
split_on-join d p (q ∷ qs) h =
    rw (split_on_first d p (join (d ∷ []) (q ∷ qs)) h.0, split_on-join d q qs h.1)

cons_unless_blank_fixed : (c : ℕ) (cs : Text) → is_space c ≡ false → cons_unless_blank c cs ≡ c ∷ cs
unfolding cons_unless_blank
cons_unless_blank_fixed c [] h = ground arith
cons_unless_blank_fixed c (d ∷ ds) h = refl

trim_end_fixed : (s : Text) → any is_space s ≡ false → trim_end s ≡ s
unfolding trim_end
trim_end_fixed [] h = refl
trim_end_fixed (c ∷ cs) h =
    rw (trim_end_fixed cs (ground arith)) (cons_unless_blank_fixed c cs (ground arith))

trim_start_fixed : (s : Text) → any is_space s ≡ false → trim_start s ≡ s
unfolding trim_start
trim_start_fixed [] h = refl
trim_start_fixed (c ∷ cs) h = ground arith

-- Text without white space is its own trimming.
pub trim_fixed : (s : Text) → any is_space s ≡ false → trim s ≡ s
unfolding trim
trim_fixed s h = rw (trim_end_fixed s h) (trim_start_fixed s h)

keep_before :
    (c : ℕ) (cs t : Text) → is_empty t ≡ false → cons_unless_blank c (cs ++ t) ≡ c ∷ cs ++ t
unfolding cons_unless_blank
keep_before c [] [] e = cc
keep_before c [] (d ∷ ds) e = refl
keep_before c (d ∷ ds) t e = refl

-- A text that keeps its end keeps the end of what it is put behind.
pub trim_end-append :
    (s t : Text) → is_empty t ≡ false → trim_end t ≡ t → trim_end (s ++ t) ≡ s ++ t
unfolding trim_end
trim_end-append [] t e h = h
trim_end-append (c ∷ cs) t e h = rw (trim_end-append cs t e h) (keep_before c cs t e)

-- White space only.
abbrev pub is_blank : Text → Bool
is_blank s = all is_space s

trim_start-blank : (s : Text) → is_blank (trim_start s) ≡ is_blank s
unfolding trim_start
trim_start-blank [] = refl
trim_start-blank (c ∷ cs) = ground (arith, trim_start-blank cs)

kept_blank : (c : ℕ) (s : Text) → is_blank (cons_unless_blank c s) ≡ (is_space c && is_blank s)
unfolding cons_unless_blank
kept_blank c [] = ground arith
kept_blank c (d ∷ ds) = refl

trim_end-blank : (s : Text) → is_blank (trim_end s) ≡ is_blank s
unfolding trim_end
trim_end-blank [] = refl
trim_end-blank (c ∷ cs) = kept_blank c (trim_end cs) ∙ ap (λ b. is_space c && b) (trim_end-blank cs)

unless_blank :
    (b : Bool) (c : ℕ) (rest cs : Text)
    → is_empty rest ≡ is_blank cs
    → is_empty (if b then rest else c ∷ cs) ≡ (b && is_blank cs)
unless_blank true c rest cs h = h
unless_blank false c rest cs h = refl

trim_start-empty : (s : Text) → is_empty (trim_start s) ≡ is_blank s
unfolding trim_start
trim_start-empty [] = refl
trim_start-empty (c ∷ cs) = unless_blank (is_space c) c (trim_start cs) cs (trim_start-empty cs)

-- A text is trimmed to nothing just when it is blank.
pub trim-empty : (s : Text) → is_empty (trim s) ≡ is_blank s
unfolding trim
trim-empty s = trim_start-empty (trim_end s) ∙ trim_end-blank s

pub trim-blank : (s : Text) → is_blank (trim s) ≡ is_blank s
unfolding trim
trim-blank s = trim_start-blank (trim_end s) ∙ trim_end-blank s

abbrev pub begins_solid : Text → Bool
begins_solid [] = true
begins_solid (c ∷ cs) = not (is_space c)

solid_or :
    (b : Bool) (c : ℕ) (rest cs : Text)
    → is_space c ≡ b
    → begins_solid rest ≡ true
    → begins_solid (if b then rest else c ∷ cs) ≡ true
solid_or true c rest cs e h = h
solid_or false c rest cs e h = ap not e

trim_start-solid : (s : Text) → begins_solid (trim_start s) ≡ true
unfolding trim_start
trim_start-solid [] = refl
trim_start-solid (c ∷ cs) = solid_or (is_space c) c (trim_start cs) cs refl (trim_start-solid cs)

-- A trimmed text begins with no white space.
pub trim-solid : (s : Text) → begins_solid (trim s) ≡ true
unfolding trim
trim-solid s = trim_start-solid (trim_end s)
