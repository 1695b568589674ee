-- ===== src/Paths/RoundTrip.antt =====
-- The parent of a joined path, and of a path of slashes.
use mathlib.Core.Path.{subst}
use tethra.Base.{
  Bool, Bool-cases, Text, [], ap, append_assoc, arith, codes, ends_with_unit, eq_of_text_eq, false,
  includes_unit, inl, inr, length, ltb, none, not, refl, replicate, some, suc, sym, take, text_eq,
  true, zero, ℕ, ◌&&◌, ◌++◌, ◌∙◌, ◌∷◌, ◌≡◌, ◌⊎◌,
}
use tethra.Paths.{cut_at, join_path, last_index_of, parent_of, parent_path, slash, strip_slashes}

-- The name of a directory entry.
abbrev pub is_name : Text → Bool
is_name name = not (includes_unit name slash) && ltb 0 (length name)

strip_slashes-name :
    (c : ℕ) (cs : Text) → includes_unit (c ∷ cs) slash ≡ false → strip_slashes (c ∷ cs) ≡ c ∷ cs
unfolding strip_slashes
strip_slashes-name c [] h = ground arith
strip_slashes-name c (d ∷ ds) h = rw (strip_slashes-name d ds (ground arith)) refl

strip_slashes-append :
    (p : Text) (c : ℕ) (cs : Text)
    → includes_unit (c ∷ cs) slash ≡ false
    → strip_slashes (p ++ c ∷ cs) ≡ p ++ c ∷ cs
unfolding strip_slashes
strip_slashes-append [] c cs h = strip_slashes-name c cs h
strip_slashes-append (x ∷ []) c cs h = rw (strip_slashes-append [] c cs h) refl
strip_slashes-append (x ∷ y ∷ ys) c cs h = rw (strip_slashes-append (y ∷ ys) c cs h) refl

pub last_index_of-none : (d : ℕ) (s : Text) → includes_unit s d ≡ false → last_index_of d s ≡ none
unfolding last_index_of
last_index_of-none d [] h = refl
last_index_of-none d (c ∷ cs) h = simp (last_index_of-none d cs (ground arith)) (ground arith)

pub last_index_of-append :
    (d : ℕ) (p s : Text)
    → includes_unit s d ≡ false
    → last_index_of d (p ++ d ∷ s) ≡ some (length p)
unfolding last_index_of
last_index_of-append d [] s h = simp (last_index_of-none d s h) (ground arith)
last_index_of-append d (c ∷ cs) s h = simp (last_index_of-append d cs s h)

pub take-length_append : (p s : Text) → take (length p) (p ++ s) ≡ p
take-length_append [] s = refl
take-length_append (c ∷ cs) s = rw (take-length_append cs s)

parent_of-join :
    (p name : Text)
    → includes_unit name slash ≡ false
    → ltb 0 (length p) ≡ true
    → parent_of (p ++ slash ∷ name) ≡ p
parent_of-join [] name h l = cc
parent_of-join (c ∷ cs) name h l =
    rw (last_index_of-append slash (c ∷ cs) name h)
      (ap (c ∷◌) (take-length_append cs (slash ∷ name)))

-- A path of a directory and an entry in it is neither "." nor "/", and has no slash at its end.
-- The stripping of such a path, with its slash in front of the name.
strip_slashes-join :
    (p : Text) (c : ℕ) (cs : Text)
    → includes_unit (c ∷ cs) slash ≡ false
    → strip_slashes (p ++ slash ∷ c ∷ cs) ≡ p ++ slash ∷ c ∷ cs
strip_slashes-join p c cs h =
    subst (λ t. strip_slashes t ≡ t) (append_assoc p (slash ∷ []) (c ∷ cs))
      (strip_slashes-append (p ++ slash ∷ []) c cs h)

parent_path-join :
    (p : Text) (c : ℕ) (cs : Text)
    → includes_unit (c ∷ cs) slash ≡ false
    → parent_path (p ++ slash ∷ c ∷ cs) ≡ parent_of (p ++ slash ∷ c ∷ cs)
unfolding parent_path text_eq
parent_path-join [] c cs h = ap parent_of (strip_slashes-append (slash ∷ []) c cs h)
parent_path-join (x ∷ []) c cs h = ground (arith, strip_slashes-join (x ∷ []) c cs h)
parent_path-join (x ∷ y ∷ ys) c cs h = ground (arith, strip_slashes-join (x ∷ y ∷ ys) c cs h)

parent_path-name : (name : Text) → is_name name ≡ true → parent_path name ≡ codes "."
unfolding parent_path
parent_path-name [] h = cc
parent_path-name (c ∷ cs) h = ground (
  arith,
  strip_slashes-name c cs,
  last_index_of-none slash (c ∷ cs),
  eq_of_text_eq (c ∷ cs) (codes "."),
  eq_of_text_eq (c ∷ cs) (codes "/"),
)

ends_in-slash_ne :
    (p : Text) (c : ℕ) (cs : Text)
    → includes_unit (c ∷ cs) slash ≡ false
    → ltb 0 (length p) ≡ true
    → parent_path (p ++ slash ∷ c ∷ cs) ≡ p
ends_in-slash_ne p c cs h l = parent_path-join p c cs h ∙ parent_of-join p (c ∷ cs) h l

at_root :
    (x : ℕ) (xs : Text)
    → includes_unit (x ∷ xs) slash ≡ false
    → parent_path (join_path (codes "/") (x ∷ xs)) ≡ codes "/"
unfolding join_path text_eq
at_root x xs h =
    parent_path-join [] x xs h
    ∙ ap (cut_at (slash ∷ x ∷ xs)) (last_index_of-append slash [] (x ∷ xs) h)

-- The parent of a joined path is the directory, for the entry names that a directory can hold, and for
-- a directory that is the root or does not end in a slash.
pub parent_path-join_path :
    (p name : Text)
    → is_name name ≡ true
    → ltb 0 (length p) ≡ true
    → (ends_with_unit p slash ≡ false) ⊎ (p ≡ codes "/")
    → parent_path (join_path p name) ≡ p
unfolding join_path
parent_path-join_path [] name n l e = cc
parent_path-join_path (c ∷ cs) [] n l e = cc
parent_path-join_path (c ∷ cs) (x ∷ xs) n l (inr root) =
    subst (λ p. parent_path (join_path p (x ∷ xs)) ≡ p) (sym root) (at_root x xs (ground arith))
parent_path-join_path (c ∷ cs) (x ∷ xs) n l (inl open_end) =
    elim (Bool-cases (text_eq (c ∷ cs) (codes "."))) [
      | inl dot ↦ rw dot (parent_path-name (x ∷ xs) n ∙ sym (eq_of_text_eq _ _ dot))
      | inr other ↦ rw (other, open_end) (ends_in-slash_ne (c ∷ cs) x xs (ground arith) l)
    ]

strip_slashes-slashes : (n : ℕ) → strip_slashes (replicate n slash) ≡ []
unfolding strip_slashes
strip_slashes-slashes zero = refl
strip_slashes-slashes (suc n) = rw (strip_slashes-slashes n)

-- The parent of two or more slashes is the relative directory ".", though they name the root.
pub parent_path-slashes : (n : ℕ) → parent_path (replicate (suc (suc n)) slash) ≡ codes "."
unfolding parent_path text_eq last_index_of
parent_path-slashes n = ap parent_of (strip_slashes-slashes (suc (suc n)))
