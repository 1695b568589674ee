-- ===== src/Regex/First.antt =====
-- The units at which a match can start.
use tethra.Base.{
  All, Bool, Bool-cases, List, Text, [], ap, arith, false, filter, flat_map, inl, inr, length, refl,
  suc, sym, zero, ℕ, ◌&&◌, ◌<◌, ◌==◌, ◌||◌, ◌∷◌, ◌≡◌,
}
use tethra.Regex.{
  Regex, alt, at_end, few, few_rests, is_shorter, many, many_rests, nothing, one_of, rests, seq,
}
use tethra.Regex.Length.{All-append, Leaves, flat_map-All, min_length, rests-Leaves}
use mathlib.Core.Path.{subst}

abbrev pub can_start : Regex → ℕ → Bool
can_start (one_of p) c = p c
can_start nothing c = false
can_start at_end c = false
can_start (seq a b) c = can_start a c || (min_length a == 0 && can_start b c)
can_start (alt a b) c = can_start a c || can_start b c
can_start (many a) c = can_start a c
can_start (few a) c = can_start a c

none_shorter : (s : Text) (ts : List Text) → All (λ t. t ≡ s) ts → filter (is_shorter s) ts ≡ []
none_shorter s [] h = refl
none_shorter s (t ∷ ts) (e, h) = rw e (ground (arith, none_shorter s ts h))

many_rests-stay :
    (f : Text → List Text) (n : ℕ) (s : Text) → All (λ t. t ≡ s) (f s) → many_rests f n s ≡ s ∷ []
unfolding flat_map
many_rests-stay f zero s h = refl
many_rests-stay f (suc n) s h = rw (none_shorter s (f s) h) refl

few_rests-stay :
    (f : Text → List Text) (n : ℕ) (s : Text) → All (λ t. t ≡ s) (f s) → few_rests f n s ≡ s ∷ []
unfolding flat_map
few_rests-stay f zero s h = refl
few_rests-stay f (suc n) s h = rw (none_shorter s (f s) h) refl

no_match :
    (m : ℕ) (s : Text) (ts : List Text)
    → 0 < m
    → All (λ t. t ≡ s) ts
    → All (Leaves m (length s)) ts
    → ts ≡ []
no_match m s [] h e l = refl
no_match m s (t ∷ ts) h (e, es) (l, ls) = absurd (omega (arith, ap length e))

seq-stay :
    (a b : Regex) (s : Text)
    → All (λ t. t ≡ s) (rests a s)
    → ((min_length a ≡ 0) → All (λ t. t ≡ s) (rests b s))
    → All (λ t. t ≡ s) (flat_map (rests b) (rests a s))
unfolding flat_map
seq-stay a b s h k = elim (Bool-cases (min_length a == 0)) [
  | inl e ↦
      flat_map-All (λ t. t ≡ s) (λ t. t ≡ s) (rests b) (rests a s)
        (λ t u. subst (λ t. All (λ v. v ≡ s) (rests b t)) (sym u) (k (ground arith))) h
  | inr e ↦ rw (no_match (min_length a) s (rests a s) (ground arith) h (rests-Leaves a s)) tt
]

-- A match at a unit where it cannot start takes nothing.
rests-stay :
    (r : Regex) (c : ℕ) (cs : Text)
    → can_start r c ≡ false
    → All (λ t. t ≡ c ∷ cs) (rests r (c ∷ cs))
unfolding rests
rests-stay (one_of p) c cs h = rw h tt
rests-stay nothing c cs h = (refl, tt)
rests-stay at_end c cs h = tt
rests-stay (seq a b) c cs h =
    seq-stay a b (c ∷ cs) (rests-stay a c cs (ground arith)) (λ e. rests-stay b c cs (ground arith))
rests-stay (alt a b) c cs h =
    All-append (λ t. t ≡ c ∷ cs) (rests a (c ∷ cs)) (rests b (c ∷ cs))
      (rests-stay a c cs (ground arith)) (rests-stay b c cs (ground arith))
rests-stay (many a) c cs h =
    subst (All (λ t. t ≡ c ∷ cs))
      (sym (many_rests-stay (rests a) (length (c ∷ cs)) (c ∷ cs) (rests-stay a c cs h))) (refl, tt)
rests-stay (few a) c cs h =
    subst (All (λ t. t ≡ c ∷ cs))
      (sym (few_rests-stay (rests a) (length (c ∷ cs)) (c ∷ cs) (rests-stay a c cs h))) (refl, tt)

-- An expression that matches no empty text has no match at such a unit.
pub rests-can_start :
    (r : Regex) (c : ℕ) (cs : Text)
    → 0 < min_length r
    → can_start r c ≡ false
    → rests r (c ∷ cs) ≡ []
rests-can_start r c cs m h =
    no_match (min_length r) (c ∷ cs) (rests r (c ∷ cs)) m (rests-stay r c cs h)
      (rests-Leaves r (c ∷ cs))

-- A repetition there stays where it is.
pub rests-many-can_start :
    (r : Regex) (c : ℕ) (cs : Text)
    → can_start r c ≡ false
    → rests (many r) (c ∷ cs) ≡ (c ∷ cs) ∷ []
unfolding rests
rests-many-can_start r c cs h =
    many_rests-stay (rests r) (length (c ∷ cs)) (c ∷ cs) (rests-stay r c cs h)
