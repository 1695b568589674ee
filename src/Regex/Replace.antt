-- ===== src/Regex/Replace.antt =====
-- What `replace` keeps.
use tethra.Regex.First.{can_start, rests-can_start}
use tethra.Regex.Length.{min_length, rests_short}
use tethra.Base.{
  Bool, Bool-cases, List, Option-cases, Text, [], all, all-append, ap, append-nil, arith, false,
  inl, inr, length, none, not, refl, some, suc, sym, true, zero, ℕ, ◌++◌, ◌-◌, ◌<◌, ◌∙◌, ◌∷◌, ◌≡◌,
}
use tethra.Regex.{Regex, first_of, is_shorter, one_of, replace_all, replace_from, rest_of, rests}

pub replace_from-none :
    (r : Regex) (by : Text) (c : ℕ) (cs : Text)
    → rests r (c ∷ cs) ≡ []
    → replace_from r by 0 (c ∷ cs) ≡ c ∷ replace_from r by 0 cs
unfolding replace_from
replace_from-none r by c cs e = rw (e, replace_from) refl

pub replace_from-some :
    (r : Regex) (by : Text) (c : ℕ) (cs t : Text)
    → rest_of r (c ∷ cs) ≡ some t
    → is_shorter (c ∷ cs) t ≡ true
    → replace_from r by 0 (c ∷ cs) ≡ by ++ replace_from r by (length cs - length t) cs
unfolding replace_from
replace_from-some r by c cs t e g = rw (e, g, replace_from) refl

replace_from-empty :
    (r : Regex) (by : Text) (c : ℕ) (cs t : Text)
    → rest_of r (c ∷ cs) ≡ some t
    → is_shorter (c ∷ cs) t ≡ false
    → replace_from r by 0 (c ∷ cs) ≡ c ∷ replace_from r by 0 cs
unfolding replace_from
replace_from-empty r by c cs t e g = rw (e, g, replace_from) refl

none_first : (ts : List Text) → first_of ts ≡ none → ts ≡ []
none_first [] h = refl
none_first (t ∷ ts) h = cc

-- What holds of every unit of the text and of what takes the place of the matches holds of the result.
all-replace_from :
    (p : ℕ → Bool) (r : Regex) (by : Text) (n : ℕ) (s : Text)
    → all p by ≡ true
    → all p s ≡ true
    → all p (replace_from r by n s) ≡ true
unfolding replace_from
all-replace_from p r by n [] k h = refl
all-replace_from p r by (suc n) (c ∷ cs) k h = all-replace_from p r by n cs k (ground arith)
all-replace_from p r by zero (c ∷ cs) k h = elim (Option-cases (rest_of r (c ∷ cs))) [
  | inl e ↦
      rw (replace_from-none r by c cs (none_first (rests r (c ∷ cs)) e))
        (ground (arith, all-replace_from p r by zero cs k))
  | inr (t, e) ↦ elim (Bool-cases (is_shorter (c ∷ cs) t)) [
    | inl g ↦ rw (replace_from-some r by c cs t e g) (
        all-append p by (replace_from r by (length cs - length t) cs)
        ∙ ground (arith, all-replace_from p r by (length cs - length t) cs k))
    | inr g ↦
        rw (replace_from-empty r by c cs t e g) (ground (arith, all-replace_from p r by zero cs k))
  ]
]

pub all-replace_all :
    (p : ℕ → Bool) (r : Regex) (by s : Text)
    → all p by ≡ true
    → all p s ≡ true
    → all p (replace_all r by s) ≡ true
unfolding replace_all
all-replace_all p r by s = all-replace_from p r by 0 s

-- Where no match can start, nothing is replaced.
pub replace_from-plain :
    (r : Regex) (by s t : Text)
    → 0 < min_length r
    → all (λ c. not (can_start r c)) s ≡ true
    → replace_from r by 0 (s ++ t) ≡ s ++ replace_from r by 0 t
replace_from-plain r by [] t m h = refl
replace_from-plain r by (c ∷ cs) t m h =
    replace_from-none r by c (cs ++ t) (rests-can_start r c (cs ++ t) m (ground arith))
    ∙ ap (λ u. c ∷ u) (replace_from-plain r by cs t m (ground arith))

pub replace_all_plain :
    (r : Regex) (by s : Text)
    → 0 < min_length r
    → all (λ c. not (can_start r c)) s ≡ true
    → replace_all r by s ≡ s
unfolding replace_all replace_from
replace_all_plain r by s m h =
    ap (replace_from r by 0) (sym (append-nil s)) ∙ replace_from-plain r by s [] m h ∙ append-nil s

-- A text shorter than every match is kept.
pub replace_all_one :
    (r : Regex) (by : Text) (c : ℕ) → 1 < min_length r → replace_all r by (c ∷ []) ≡ c ∷ []
unfolding replace_all replace_from
replace_all_one r by c m = replace_from-none r by c [] (rests_short r (c ∷ []) m)

-- A class of units that is replaced by a text without them is gone.
all-replace_one_of :
    (p : ℕ → Bool) (by : Text) (n : ℕ) (s : Text)
    → all (λ c. not (p c)) by ≡ true
    → all (λ c. not (p c)) (replace_from (one_of p) by n s) ≡ true
unfolding replace_from rests
all-replace_one_of p by n [] h = refl
all-replace_one_of p by (suc n) (c ∷ cs) h = all-replace_one_of p by n cs h
all-replace_one_of p by zero (c ∷ cs) h = elim (Bool-cases (p c)) [
  | inl e ↦ rw (replace_from-some (one_of p) by c cs cs (rw e refl) (ground arith)) (
      all-append (λ c. not (p c)) by (replace_from (one_of p) by (length cs - length cs) cs)
      ∙ ground (arith, all-replace_one_of p by (length cs - length cs) cs h))
  | inr e ↦
      rw (replace_from-none (one_of p) by c cs (rw e refl))
        (ground (arith, all-replace_one_of p by zero cs h))
]

pub all-replace_all_one_of :
    (p : ℕ → Bool) (by s : Text)
    → all (λ c. not (p c)) by ≡ true
    → all (λ c. not (p c)) (replace_all (one_of p) by s) ≡ true
unfolding replace_all
all-replace_all_one_of p by s = all-replace_one_of p by 0 s
