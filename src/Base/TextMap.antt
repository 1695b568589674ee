-- ===== src/Base/TextMap.antt =====
-- Maps with texts for keys, as association lists: the objects and the `Map`s of the program.
use tethra.Base.{
  List, Option, Text, [], arith, eq_of_text_eq, if◌then◌else◌, none, refl, some, text_eq,
  text_eq_refl, ◌∙◌, ◌∷◌, ◌≡◌,
}

abbrev pub TextMap {ℓ} : Type ℓ → Type ℓ
TextMap V = List (Text × V)

module _ {ℓ} {V : Type ℓ} where
  abbrev pub get : Text → TextMap V → Option V
  get k [] = none
  get k ((j, v) ∷ m) = if text_eq j k then some v else get k m

  abbrev pub put : Text → V → TextMap V → TextMap V
  put k v [] = (k, v) ∷ []
  put k v ((j, w) ∷ m) = if text_eq j k then (k, v) ∷ m else (j, w) ∷ put k v m

  abbrev pub delete : Text → TextMap V → TextMap V
  delete k [] = []
  delete k ((j, w) ∷ m) = let rest = delete k m in if text_eq j k then rest else (j, w) ∷ rest

  pub get-put :
      (j k : Text) (v : V) (m : TextMap V)
      → get j (put k v m) ≡ (if text_eq k j then some v else get j m)
  get-put j k v [] = refl
  get-put j k v ((i, w) ∷ m) =
      ground (arith, eq_of_text_eq i k, eq_of_text_eq k j, text_eq_refl j, get-put j k v m)

  pub get-delete :
      (j k : Text) (m : TextMap V) → get j (delete k m) ≡ (if text_eq k j then none else get j m)
  get-delete j k [] = ground arith
  get-delete j k ((i, w) ∷ m) =
      ground (arith, eq_of_text_eq i k, eq_of_text_eq k j, text_eq_refl j, get-delete j k m)

  pub get-put_self : (k : Text) (v : V) (m : TextMap V) → get k (put k v m) ≡ some v
  get-put_self k v m = get-put k k v m ∙ rw (text_eq_refl k) refl
