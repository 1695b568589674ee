-- ===== src/Regex/Runs.antt =====
-- A greedy repetition of a class, in front of what comes next.
use tethra.Base.{
  Bool, List, Text, [], all, ap, append-nil, append_assoc, arith, false, flat_map, flat_map-append,
  length, length-append, refl, suc, sym, true, zero, ℕ, ◌++◌, ◌<◌, ◌∙◌, ◌∷◌, ◌≡◌, ◌≤◌,
}
use tethra.Regex.{Regex, is_shorter, many, many_rests, one_of, one_rest, rests, seq}

module _ (p : ℕ → Bool) where
  longer : (c : ℕ) (cs : Text) → is_shorter (c ∷ cs) cs ≡ true
  longer c cs = ground arith

  pub many_step :
      (n c : ℕ) (cs : Text)
      → p c ≡ true
      → many_rests (one_rest p) (suc n) (c ∷ cs) ≡ many_rests (one_rest p) n cs ++ (c ∷ cs) ∷ []
  unfolding flat_map
  many_step n c cs h =
      rw (h, longer c cs)
        (ap (λ ts. ts ++ (c ∷ cs) ∷ []) (append-nil (many_rests (one_rest p) n cs)))

  pub many_stop :
      (n d : ℕ) (rest : Text) → p d ≡ false → many_rests (one_rest p) n (d ∷ rest) ≡ (d ∷ rest) ∷ []
  unfolding flat_map
  many_stop zero d rest h = refl
  many_stop (suc n) d rest h = rw h refl

  module _ (k : Text → List Text) where
    flat_map-step :
        (n c : ℕ) (cs : Text)
        → p c ≡ true
        → flat_map k (many_rests (one_rest p) (suc n) (c ∷ cs))
          ≡ flat_map k (many_rests (one_rest p) n cs) ++ k (c ∷ cs)
    unfolding flat_map
    flat_map-step n c cs h =
        ap (flat_map k) (many_step n c cs h)
        ∙ flat_map-append k (many_rests (one_rest p) n cs) ((c ∷ cs) ∷ [])
        ∙ ap (λ ts. flat_map k (many_rests (one_rest p) n cs) ++ ts) (append-nil (k (c ∷ cs)))

    flat_map-stop :
        (n d : ℕ) (rest : Text)
        → p d ≡ false
        → flat_map k (many_rests (one_rest p) n (d ∷ rest)) ≡ k (d ∷ rest)
    unfolding flat_map
    flat_map-stop n d rest h = ap (flat_map k) (many_stop n d rest h) ∙ append-nil (k (d ∷ rest))

    -- Where what comes next cannot stand at a unit of the class, only the whole run is left.
    pub run-disjoint :
        (n : ℕ) (u : Text) (d : ℕ) (rest : Text)
        → length u ≤ n
        → all p u ≡ true
        → p d ≡ false
        → ((c : ℕ) (cs : Text) → p c ≡ true → k (c ∷ cs) ≡ [])
        → flat_map k (many_rests (one_rest p) n (u ++ d ∷ rest)) ≡ k (d ∷ rest)
    run-disjoint n [] d rest l h e j = flat_map-stop n d rest e
    run-disjoint zero (c ∷ cs) d rest l h e j = absurd (omega arith)
    run-disjoint (suc n) (c ∷ cs) d rest l h e j =
        flat_map-step n c (cs ++ d ∷ rest) (ground arith)
        ∙ rw (j c (cs ++ d ∷ rest) (ground arith))
            (append-nil (flat_map k (many_rests (one_rest p) n (cs ++ d ∷ rest))))
        ∙ run-disjoint n cs d rest (omega arith) (ground arith) e j

    -- Where it cannot stand behind the run but at its last unit, that comes first.
    pub run-last :
        (n : ℕ) (u : Text) (d e : ℕ) (rest : Text)
        → length u < n
        → all p u ≡ true
        → p d ≡ true
        → p e ≡ false
        → k (e ∷ rest) ≡ []
        → (more : List Text) × (flat_map k (many_rests (one_rest p) n (u ++ d ∷ e ∷ rest))
            ≡ k (d ∷ e ∷ rest) ++ more)
    run-last zero u d e rest l h i f j = absurd (omega arith)
    run-last (suc n) [] d e rest l h i f j = (
      [],
      flat_map-step n d (e ∷ rest) i
          ∙ rw (flat_map-stop n e rest f, j) (sym (append-nil (k (d ∷ e ∷ rest)))),
    )
    run-last (suc n) (c ∷ cs) d e rest l h i f j =
        let (more, q) = run-last n cs d e rest (omega arith) (ground arith) i f j in
        (
          more ++ k (c ∷ cs ++ d ∷ e ∷ rest),
          flat_map-step n c (cs ++ d ∷ e ∷ rest) (ground arith)
              ∙ ap (λ ts. ts ++ k (c ∷ cs ++ d ∷ e ∷ rest)) q
              ∙ append_assoc (k (d ∷ e ∷ rest)) more (k (c ∷ cs ++ d ∷ e ∷ rest)),
        )

flat_map-flat_map :
    (f g : Text → List Text) (ts : List Text)
    → flat_map g (flat_map f ts) ≡ flat_map (λ t. flat_map g (f t)) ts
unfolding flat_map
flat_map-flat_map f g [] = refl
flat_map-flat_map f g (t ∷ ts) =
    flat_map-append g (f t) (flat_map f ts)
    ∙ ap (λ us. flat_map g (f t) ++ us) (flat_map-flat_map f g ts)

-- A sequence can be bracketed to the right.
pub rests-seq_assoc :
    (a b c : Regex) (s : Text) → rests (seq (seq a b) c) s ≡ rests (seq a (seq b c)) s
unfolding rests
rests-seq_assoc a b c s = flat_map-flat_map (rests b) (rests c) (rests a s)

-- One unit of a class, and a run of them, at the front of a sequence.
pub rests-one :
    (p : ℕ → Bool) (k : Regex) (c : ℕ) (cs : Text)
    → p c ≡ true
    → rests (seq (one_of p) k) (c ∷ cs) ≡ rests k cs
unfolding rests flat_map
rests-one p k c cs h = rw h (append-nil (rests k cs))

pub rests-not_one :
    (p : ℕ → Bool) (k : Regex) (c : ℕ) (cs : Text)
    → p c ≡ false
    → rests (seq (one_of p) k) (c ∷ cs) ≡ []
unfolding rests flat_map
rests-not_one p k c cs h = rw h refl

length-run : (u : Text) (d : ℕ) (rest : Text) → length u < length (u ++ d ∷ rest)
length-run u d rest = omega (arith, length-append u (d ∷ rest))

-- In front of a unit outside the class, where the next expression wants a unit outside it.
pub rests-run :
    (p q : ℕ → Bool) (k : Regex) (u : Text) (d : ℕ) (rest : Text)
    → all p u ≡ true
    → p d ≡ false
    → ((c : ℕ) → p c ≡ true → q c ≡ false)
    → rests (seq (many (one_of p)) (seq (one_of q) k)) (u ++ d ∷ rest)
      ≡ rests (seq (one_of q) k) (d ∷ rest)
unfolding rests
rests-run p q k u d rest h e j =
    let l : length u ≤ length (u ++ d ∷ rest) = omega (arith, length-run u d rest) in
    run-disjoint p (rests (seq (one_of q) k)) (length (u ++ d ∷ rest)) u d rest l h e
      (λ c cs i. rests-not_one q k c cs (j c i))

pub rests-run_last :
    (p q : ℕ → Bool) (k : Regex) (u : Text) (d e : ℕ) (rest : Text)
    → all p u ≡ true
    → p d ≡ true
    → p e ≡ false
    → q e ≡ false
    → (more : List Text) × (rests (seq (many (one_of p)) (seq (one_of q) k)) (u ++ d ∷ e ∷ rest)
        ≡ rests (seq (one_of q) k) (d ∷ e ∷ rest) ++ more)
unfolding rests
rests-run_last p q k u d e rest h i f j =
    run-last p (rests (seq (one_of q) k)) (length (u ++ d ∷ e ∷ rest)) u d e rest
      (length-run u d (e ∷ rest)) h i f (rests-not_one q k e rest j)

-- Expressions with the same matches in the same order.
abbrev pub Same : Regex → Regex → Type 0
Same a b = (s : Text) → rests a s ≡ rests b s

flat_map-ext :
    (f g : Text → List Text) (ts : List Text)
    → ((t : Text) → f t ≡ g t)
    → flat_map f ts ≡ flat_map g ts
unfolding flat_map
flat_map-ext f g [] h = refl
flat_map-ext f g (t ∷ ts) h = rw (h t, flat_map-ext f g ts h) refl

pub Same-seq : (a b c : Regex) → Same b c → Same (seq a b) (seq a c)
unfolding rests
Same-seq a b c h s = flat_map-ext (rests b) (rests c) (rests a s) h

-- Three pieces before the last, bracketed to the right.
pub Same-seq₃ : (a b c d : Regex) → Same (seq (seq a (seq b c)) d) (seq a (seq b (seq c d)))
Same-seq₃ a b c d s =
    rests-seq_assoc a (seq b c) d s
    ∙ Same-seq a (seq (seq b c) d) (seq b (seq c d)) (rests-seq_assoc b c d) s
