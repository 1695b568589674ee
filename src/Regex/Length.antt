-- ===== src/Regex/Length.antt =====
-- How much of a text a match takes at least.
use tethra.Base.{
  All, Bool, Bool-cases, List, Text, [], arith, filter, flat_map, if-intro, inl, inr, length, min,
  refl, suc, zero, ℕ, ◌++◌, ◌+◌, ◌<◌, ◌∷◌, ◌≡◌, ◌≤◌,
}
use tethra.Regex.{
  Regex, alt, at_end, end_rest, few, few_rests, is_shorter, many, many_rests, nothing, one_of,
  one_rest, rests, seq,
}

abbrev pub min_length : Regex → ℕ
min_length (one_of p) = 1
min_length nothing = 0
min_length at_end = 0
min_length (seq a b) = min_length a + min_length b
min_length (alt a b) = min (min_length a) (min_length b)
min_length (many a) = 0
min_length (few a) = 0

module _ {A : Type 0} (P : A → Type 0) where
  pub All-append : (xs ys : List A) → All P xs → All P ys → All P (xs ++ ys)
  All-append [] ys h k = k
  All-append (x ∷ xs) ys (h, hs) k = (h, All-append xs ys hs k)

  pub All-filter : (p : A → Bool) (xs : List A) → All P xs → All P (filter p xs)
  All-filter p [] h = h
  All-filter p (x ∷ xs) (h, hs) = elim (Bool-cases (p x)) [
    | inl e ↦ rw e (h, All-filter p xs hs)
    | inr e ↦ rw e (All-filter p xs hs)
  ]

pub All-weaken :
    {A : Type 0} (P Q : A → Type 0) (xs : List A) → ((x : A) → P x → Q x) → All P xs → All Q xs
All-weaken P Q [] k h = tt
All-weaken P Q (x ∷ xs) k (h, hs) = (k x h, All-weaken P Q xs k hs)

module _ {A B : Type 0} (P : A → Type 0) (Q : B → Type 0) where
  pub flat_map-All :
      (f : A → List B) (xs : List A)
      → ((x : A) → P x → All Q (f x))
      → All P xs
      → All Q (flat_map f xs)
  unfolding flat_map
  flat_map-All f [] k h = tt
  flat_map-All f (x ∷ xs) k (h, hs) =
      All-append Q (f x) (flat_map f xs) (k x h) (flat_map-All f xs k hs)

-- What is left when at least `m` units of `n` are taken.
abbrev pub Leaves : ℕ → ℕ → Text → Type 0
Leaves m n t = length t + m ≤ n

rounds-Leaves :
    (g f : Text → List Text) (s : Text)
    → ((u : Text) → All (Leaves 0 (length u)) (g u))
    → All (Leaves 0 (length s)) (f s)
    → All (Leaves 0 (length s)) (flat_map g (filter (is_shorter s) (f s)))
rounds-Leaves g f s j k =
    flat_map-All (Leaves 0 (length s)) (Leaves 0 (length s)) g (filter (is_shorter s) (f s))
      (λ t h.
        All-weaken (Leaves 0 (length t)) (Leaves 0 (length s)) (g t) (λ u l. omega arith) (j t))
      (All-filter (Leaves 0 (length s)) (is_shorter s) (f s) k)

many_rests-Leaves :
    (f : Text → List Text) (n : ℕ) (s : Text)
    → ((u : Text) → All (Leaves 0 (length u)) (f u))
    → All (Leaves 0 (length s)) (many_rests f n s)
many_rests-Leaves f zero s k = (omega arith, tt)
many_rests-Leaves f (suc n) s k =
    All-append (Leaves 0 (length s)) (flat_map (many_rests f n) (filter (is_shorter s) (f s)))
      (s ∷ []) (rounds-Leaves (many_rests f n) f s (λ u. many_rests-Leaves f n u k) (k s))
      (omega arith, tt)

few_rests-Leaves :
    (f : Text → List Text) (n : ℕ) (s : Text)
    → ((u : Text) → All (Leaves 0 (length u)) (f u))
    → All (Leaves 0 (length s)) (few_rests f n s)
few_rests-Leaves f zero s k = (omega arith, tt)
few_rests-Leaves f (suc n) s k =
    (omega arith, rounds-Leaves (few_rests f n) f s (λ u. few_rests-Leaves f n u k) (k s))

one_rest-Leaves : (p : ℕ → Bool) (s : Text) → All (Leaves 1 (length s)) (one_rest p s)
one_rest-Leaves p [] = tt
one_rest-Leaves p (c ∷ cs) = if-intro (All (Leaves 1 (length (c ∷ cs)))) (p c) (omega arith, tt) tt

end_rest-Leaves : (s : Text) → All (Leaves 0 (length s)) (end_rest s)
end_rest-Leaves [] = (omega arith, tt)
end_rest-Leaves (c ∷ cs) = tt

-- Every match takes at least the minimum.
pub rests-Leaves : (r : Regex) (s : Text) → All (Leaves (min_length r) (length s)) (rests r s)
unfolding rests
rests-Leaves (one_of p) s = one_rest-Leaves p s
rests-Leaves nothing s = (omega arith, tt)
rests-Leaves at_end s = end_rest-Leaves s
rests-Leaves (seq a b) s =
    flat_map-All (Leaves (min_length a) (length s))
      (Leaves (min_length a + min_length b) (length s)) (rests b) (rests a s)
      (λ t h.
        All-weaken (Leaves (min_length b) (length t))
          (Leaves (min_length a + min_length b) (length s)) (rests b t) (λ u l. omega arith)
          (rests-Leaves b t))
      (rests-Leaves a s)
rests-Leaves (alt a b) s =
    All-append (Leaves (min (min_length a) (min_length b)) (length s)) (rests a s) (rests b s)
      (All-weaken (Leaves (min_length a) (length s))
        (Leaves (min (min_length a) (min_length b)) (length s)) (rests a s) (λ u l. omega arith)
        (rests-Leaves a s))
      (All-weaken (Leaves (min_length b) (length s))
        (Leaves (min (min_length a) (min_length b)) (length s)) (rests b s) (λ u l. omega arith)
        (rests-Leaves b s))
rests-Leaves (many a) s = many_rests-Leaves (rests a) (length s) s (λ u.
    All-weaken (Leaves (min_length a) (length u)) (Leaves 0 (length u)) (rests a u)
      (λ t l. omega arith) (rests-Leaves a u))
rests-Leaves (few a) s = few_rests-Leaves (rests a) (length s) s (λ u.
    All-weaken (Leaves (min_length a) (length u)) (Leaves 0 (length u)) (rests a u)
      (λ t l. omega arith) (rests-Leaves a u))

-- No match in a text that is too short.
pub rests_short : (r : Regex) (s : Text) → length s < min_length r → rests r s ≡ []
rests_short r s h = none_of (rests r s) (rests-Leaves r s)
  where
    none_of : (ts : List Text) → All (Leaves (min_length r) (length s)) ts → ts ≡ []
    none_of [] k = refl
    none_of (t ∷ ts) (k, ks) = absurd (omega arith)
