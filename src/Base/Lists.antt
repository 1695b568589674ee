-- ===== src/Base/Lists.antt =====
-- Lists counted by native numbers and searched by Boolean tests, under the library's names.
use Prim.Native.Nat.{ℕ, zero, suc, ◌+◌, ◌-◌, min}
use mathlib.Core.Path.{◌≡◌, refl, sym}
use mathlib.Core.Bool.{Bool, true, false, ◌&&◌, ◌||◌}
use mathlib.Core.List.{List, [], ◌∷◌, ◌++◌, append_assoc, flat_map}
use mathlib.Core.Option.{Option, none, some}
use native.Mathlib.Omega.{arith}
use mathlib.Core.Logic.{inl, inr}
use tethra.Base.Tests.{Bool-cases, if◌then◌else◌}

module _ {ℓ} {A : Type ℓ} where
  abbrev pub length : List A → ℕ
  length [] = 0
  length (x ∷ xs) = suc (length xs)

  abbrev pub take : ℕ → List A → List A
  take zero xs = []
  take (suc n) [] = []
  take (suc n) (x ∷ xs) = x ∷ take n xs

  abbrev pub drop : ℕ → List A → List A
  drop zero xs = xs
  drop (suc n) [] = []
  drop (suc n) (x ∷ xs) = drop n xs

  abbrev pub replicate : ℕ → A → List A
  replicate zero a = []
  replicate (suc n) a = a ∷ replicate n a

  abbrev pub filter : (A → Bool) → List A → List A
  filter p [] = []
  filter p (x ∷ xs) = if p x then x ∷ filter p xs else filter p xs

  -- `Array.prototype.some` and `every`.
  abbrev pub any : (A → Bool) → List A → Bool
  any p [] = false
  any p (x ∷ xs) = p x || any p xs

  abbrev pub all : (A → Bool) → List A → Bool
  all p [] = true
  all p (x ∷ xs) = p x && all p xs

  -- `Array.prototype.find`.
  abbrev pub find? : (A → Bool) → List A → Option A
  find? p [] = none
  find? p (x ∷ xs) = if p x then some x else find? p xs

  abbrev pub All {κ} : (A → Type κ) → List A → Type κ
  All P [] = Unit
  All P (x ∷ xs) = P x × All P xs

  pub length-append : (xs ys : List A) → length (xs ++ ys) ≡ length xs + length ys
  length-append [] ys = omega arith
  length-append (x ∷ xs) ys = omega (arith, length-append xs ys)

  pub length-take : (n : ℕ) (xs : List A) → length (take n xs) ≡ min n (length xs)
  length-take zero xs = omega arith
  length-take (suc n) [] = omega arith
  length-take (suc n) (x ∷ xs) = omega (arith, length-take n xs)

  pub length-drop : (n : ℕ) (xs : List A) → length (drop n xs) ≡ length xs - n
  length-drop zero xs = omega arith
  length-drop (suc n) [] = omega arith
  length-drop (suc n) (x ∷ xs) = omega (arith, length-drop n xs)

  pub filter-append :
      (p : A → Bool) (xs ys : List A) → filter p (xs ++ ys) ≡ filter p xs ++ filter p ys
  filter-append p [] ys = refl
  filter-append p (x ∷ xs) ys = ground (arith, filter-append p xs ys)

  pub all-append : (p : A → Bool) (xs ys : List A) → all p (xs ++ ys) ≡ (all p xs && all p ys)
  all-append p [] ys = refl
  all-append p (x ∷ xs) ys = ground (arith, all-append p xs ys)

  pub any-append : (p : A → Bool) (xs ys : List A) → any p (xs ++ ys) ≡ (any p xs || any p ys)
  any-append p [] ys = refl
  any-append p (x ∷ xs) ys = ground (arith, any-append p xs ys)

  pub all-take : (p : A → Bool) (n : ℕ) (xs : List A) → all p xs ≡ true → all p (take n xs) ≡ true
  all-take p zero xs h = refl
  all-take p (suc n) [] h = refl
  all-take p (suc n) (x ∷ xs) h = ground (arith, all-take p n xs)

  pub all-filter : (p : A → Bool) (xs : List A) → all p (filter p xs) ≡ true
  all-filter p [] = refl
  all-filter p (x ∷ xs) = ground (arith, all-filter p xs)

pub flat_map-append {ℓ κ} :
    {A : Type ℓ} {B : Type κ} (f : A → List B) (xs ys : List A)
    → flat_map f (xs ++ ys) ≡ flat_map f xs ++ flat_map f ys
unfolding flat_map
flat_map-append f [] ys = refl
flat_map-append f (x ∷ xs) ys =
    rw (flat_map-append f xs ys) (sym (append_assoc (f x) (flat_map f xs) (flat_map f ys)))

module _ {ℓ} {A : Type ℓ} where
  -- A change of the object that `find` returns.
  abbrev pub modify_first : (A → Bool) → (A → A) → List A → List A
  modify_first p g [] = []
  modify_first p g (x ∷ xs) = if p x then g x ∷ xs else x ∷ modify_first p g xs

  -- Changing the found element, by a change that keeps the test true.
  pub find?-modify_first :
      (p : A → Bool) (g : A → A) (xs : List A) (x : A)
      → ((y : A) → p y ≡ true → p (g y) ≡ true)
      → find? p xs ≡ some x
      → find? p (modify_first p g xs) ≡ some (g x)
  find?-modify_first p g [] x keep h = cc
  find?-modify_first p g (y ∷ ys) x keep h = elim (Bool-cases (p y)) [
    | inl e ↦ ground (arith, keep y e)
    | inr e ↦ ground (arith, find?-modify_first p g ys x keep)
  ]

  -- A change elsewhere.
  pub find?-modify_first_ne :
      (p q : A → Bool) (g : A → A) (xs : List A) (x : A)
      → ((y : A) → p (g y) ≡ p y)
      → q x ≡ false
      → find? p xs ≡ some x
      → find? p (modify_first q g xs) ≡ some x
  find?-modify_first_ne p q g [] x keep n h = cc
  find?-modify_first_ne p q g (y ∷ ys) x keep n h = elim (Bool-cases (p y)) [
    | inl e ↦ ground (arith, keep y)
    | inr e ↦ ground (arith, keep y, find?-modify_first_ne p q g ys x keep n)
  ]

  pub any-modify_first :
      (p q : A → Bool) (g : A → A) (xs : List A)
      → ((x : A) → p x ≡ false → p (g x) ≡ false)
      → any p xs ≡ false
      → any p (modify_first q g xs) ≡ false
  any-modify_first p q g [] keep h = refl
  any-modify_first p q g (x ∷ xs) keep h = elim (Bool-cases (q x)) [
    | inl e ↦ rw e (ground (arith, keep x))
    | inr e ↦ rw e (ground (arith, any-modify_first p q g xs keep))
  ]

  -- Among elements that fail `q`, the one that `p` finds is changed to satisfy `q`, and is then the
  -- first that satisfies it.
  pub find?-modify_first_only :
      (p q : A → Bool) (g : A → A) (xs : List A) (x : A)
      → ((y : A) → q (g y) ≡ true)
      → any q xs ≡ false
      → find? p xs ≡ some x
      → find? q (modify_first p g xs) ≡ some (g x)
  find?-modify_first_only p q g [] x keep n h = cc
  find?-modify_first_only p q g (y ∷ ys) x keep n h = elim (Bool-cases (p y)) [
    | inl e ↦ ground (arith, keep y)
    | inr e ↦ ground (arith, find?-modify_first_only p q g ys x keep)
  ]
