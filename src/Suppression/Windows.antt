-- ===== src/Suppression/Windows.antt =====
-- How long input is dropped.
use tethra.Base.{
  Bool-cases, List, Text, [], arith, eq_of_text_eq, inl, inr, ltb, max, refl, text_eq, ℕ, ◌+◌, ◌||◌,
  ◌∙◌, ◌∷◌, ◌≡◌,
}
use mathlib.Core.Path.{subst}
use tethra.Suppression.{
  Gates, arm_all, input_is_suppressed, look_up, suppress_all_terminal_user_input,
  suppress_terminal_user_input,
}

look_up-put :
    (t limit : ℕ) (i id : Text) (until : List (Text × ℕ))
    → (ltb t (look_up id ((i, max (look_up i until) limit) ∷ until)) || ltb t limit)
      ≡ (ltb t (look_up id until) || ltb t limit)
look_up-put t limit i id until = elim (Bool-cases (text_eq i id)) [
  | inl e ↦ rw e (
      subst
        (λ j.
          (ltb t (max (look_up i until) limit) || ltb t limit)
          ≡ (ltb t (look_up j until) || ltb t limit))
        (eq_of_text_eq i id e) (ground arith))
  | inr e ↦ rw e refl
]

look_up-arm_all :
    (t limit : ℕ) (id : Text) (ids : List Text) (until : List (Text × ℕ))
    → (ltb t (look_up id (arm_all limit ids until)) || ltb t limit)
      ≡ (ltb t (look_up id until) || ltb t limit)
look_up-arm_all t limit id [] until = refl
look_up-arm_all t limit id (i ∷ ids) until =
    look_up-arm_all t limit id ids ((i, max (look_up i until) limit) ∷ until)
    ∙ look_up-put t limit i id until

-- The two gates together, where the second is as good as another below the limit.
together :
    (t g limit a b : ℕ)
    → (ltb t a || ltb t limit) ≡ (ltb t b || ltb t limit)
    → (ltb t (max g limit) || ltb t a) ≡ ((ltb t g || ltb t b) || ltb t limit)
together t g limit a b h = ground arith

-- After the input of one session, or of all, is suppressed for a duration, the input of any session is
-- dropped at exactly the moments at which it was dropped before and those before the duration is over: no
-- window is ever shortened, and one named session closes the gate for every session.
pub input_is_suppressed-suppress :
    (now duration t : ℕ) (id other : Text) (terminals : List Text) (g : Gates)
    → (input_is_suppressed t other (suppress_terminal_user_input now id duration g)
        ≡ (input_is_suppressed t other g || ltb t (now + duration)))
      × (input_is_suppressed t other (suppress_all_terminal_user_input now terminals duration g)
          ≡ (input_is_suppressed t other g || ltb t (now + duration)))
unfolding input_is_suppressed suppress_terminal_user_input suppress_all_terminal_user_input
input_is_suppressed-suppress now duration t id other terminals g = (
  together t g.global_until (now + duration)
      (look_up other ((id, max (look_up id g.until) (now + duration)) ∷ g.until))
      (look_up other g.until) (look_up-put t (now + duration) id other g.until),
  together t g.global_until (now + duration)
      (look_up other (arm_all (now + duration) terminals g.until)) (look_up other g.until)
      (look_up-arm_all t (now + duration) other terminals g.until),
)
