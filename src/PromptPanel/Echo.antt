-- ===== src/PromptPanel/Echo.antt =====
-- The echo that the box predicts: what it shows while the shell answers.
use mathlib.Core.Path.{subst}
use tethra.Base.{
  Bool, Bool-cases, List, Option, Text, [], ap, append-nil, append_assoc, arith, drop, false,
  if◌then◌else◌, inl, inr, is_empty, length, ltb, none, refl, some, starts_with, sym, true, ℕ, ◌++◌,
  ◌||◌, ◌∙◌, ◌∷◌, ◌≡◌,
}
use tethra.PromptPanel.{
  Effect, KeyboardEvent, Panel, accept_line, count_misses, predict_key, reconcile, refresh_mirror,
  shown_value, value, with_prediction,
}

-- A key that types one unit.
abbrev pub plain : ℕ → KeyboardEvent
plain c = record {
  key = c ∷ [];
  is_composing = false;
  meta_key = false;
  ctrl_key = false;
  alt_key = false;
}

abbrev pub predict_all : Text → Panel → Panel
predict_all [] p = p
predict_all (c ∷ cs) p = predict_all cs (predict_key (plain c) p).0

-- The shell's line is `m`, and `q` is predicted behind it.
pub record Shows (m q : Text) (p : Panel) : Type 0 where
  pub line : p.mirror ≡ m
  pub accepted : p.mirror_ref ≡ m
  pub predicted : p.pending ≡ q
  pub base : p.pending_base ≡ m
  pub covered : p.uncover ≡ false
  pub plain_line : p.local_cmd ≡ none

with_prediction-Shows :
    (m q s : Text) (c : ℕ) (p : Panel)
    → s ≡ q
    → Shows m q p
    → Shows m (q ++ c ∷ []) (with_prediction (c ∷ []) s p)
with_prediction-Shows m q [] c p e h = record {
  line = h.line;
  accepted = h.accepted;
  predicted = ap (λ x. x ++ c ∷ []) e;
  base = h.accepted;
  covered = h.covered;
  plain_line = h.plain_line;
}
with_prediction-Shows m q (d ∷ ds) c p e h = record {
  line = h.line;
  accepted = h.accepted;
  predicted = ap (λ x. x ++ c ∷ []) e;
  base = h.base;
  covered = h.covered;
  plain_line = h.plain_line;
}

abbrev guarded : Panel × List Effect → Panel × List Effect → Bool → Panel
guarded a b t = (if t || false || false || false then a else b).0

predict_key-plain :
    (c : ℕ) (p : Panel)
    → p.uncover ≡ false
    → (predict_key (plain c) p).0 ≡ with_prediction (c ∷ []) p.pending p
unfolding predict_key
predict_key-plain c p h = ap (guarded (p, []) (with_prediction (c ∷ []) p.pending p, [])) h

predict_key-Shows :
    (m q : Text) (c : ℕ) (p : Panel)
    → Shows m q p
    → Shows m (q ++ c ∷ []) (predict_key (plain c) p).0
predict_key-Shows m q c p h =
    subst (λ r. Shows m (q ++ c ∷ []) r) (sym (predict_key-plain c p h.covered))
      (with_prediction-Shows m q p.pending c p h.predicted h)

pub predict_all-Shows :
    (m q cs : Text) (p : Panel) → Shows m q p → Shows m (q ++ cs) (predict_all cs p)
predict_all-Shows m q [] p h = subst (λ x. Shows m x p) (sym (append-nil q)) h
predict_all-Shows m q (c ∷ cs) p h =
    subst (λ x. Shows m x (predict_all cs (predict_key (plain c) p).0)) (append_assoc q (c ∷ []) cs)
      (predict_all-Shows m (q ++ c ∷ []) cs (predict_key (plain c) p).0
        (predict_key-Shows m q c p h))

starts_with-append : (s t : Text) → starts_with (s ++ t) s ≡ true
starts_with-append [] t = refl
starts_with-append (c ∷ cs) t = ground (arith, starts_with-append cs t)

drop-length_of : (s t : Text) → drop (length s) (s ++ t) ≡ t
drop-length_of [] t = refl
drop-length_of (c ∷ cs) t = drop-length_of cs t

echo_next :
    (m e : Text) (c : ℕ) (cs r : Text) (p : Panel)
    → p.pending_base ≡ m
    → c ∷ cs ≡ e ++ r
    → reconcile (m ++ e) (c ∷ cs) p ≡ accept_line (m ++ e) r p
echo_next m e c cs r p b q =
    rw
      (b, starts_with-append m e, drop-length_of m e, q, starts_with-append e r, drop-length_of e r)

reconcile-echo :
    (m e r : Text) (p : Panel)
    → p.pending_base ≡ m
    → reconcile (m ++ e) (e ++ r) p ≡ accept_line (m ++ e) r p
reconcile-echo m [] [] p b = refl
reconcile-echo m [] (c ∷ cs) p b = echo_next m [] c cs (c ∷ cs) p b refl
reconcile-echo m (c ∷ cs) r p b = echo_next m (c ∷ cs) c (cs ++ r) r p b refl

shown_value_plain :
    (o : Option Text) (b : Bool) (l : Text) → o ≡ none → b ≡ false → shown_value o b l ≡ l
shown_value_plain o b l e h = rw (e, h)

-- A line that is not empty uncovers nothing.
count_misses-value :
    (c : ℕ) (cs : Text) (p : Panel)
    → p.uncover ≡ false
    → p.local_cmd ≡ none
    → value (count_misses (c ∷ cs) p) ≡ p.mirror ++ p.pending
count_misses-value c cs p h n = elim (Bool-cases (ltb 0 p.forwarded_since_mirror)) [
  | inl e ↦ elim (Bool-cases p.last_forward_was_edit) [
    | inl f ↦ rw (e, f) (shown_value_plain p.local_cmd p.uncover (p.mirror ++ p.pending) n h)
    | inr f ↦ rw (e, f) (shown_value_plain p.local_cmd p.uncover (p.mirror ++ p.pending) n h)
  ]
  | inr e ↦ rw e (shown_value_plain p.local_cmd p.uncover (p.mirror ++ p.pending) n h)
]

accept_line-value :
    (line next : Text) (p : Panel)
    → is_empty line ≡ false
    → p.uncover ≡ false
    → p.local_cmd ≡ none
    → value (accept_line line next p) ≡ line ++ next
accept_line-value [] next p e h n = cc
accept_line-value (c ∷ cs) next p e h n =
    count_misses-value c cs
      (record p {
        pending_base = c ∷ cs;
        pending_mismatches = 0;
        pending = next;
        mirror_ref = c ∷ cs;
        mirror = c ∷ cs;
      })
      h n

refresh_mirror-covered :
    (line : Text) (p : Panel)
    → p.uncover ≡ false
    → refresh_mirror (some line) p ≡ reconcile line p.pending p
unfolding refresh_mirror
refresh_mirror-covered line p h =
    ap (λ b. if b then record p { mirror = [] } else reconcile line p.pending p) h

refresh_mirror-Shows :
    (m e r : Text) (p : Panel)
    → Shows m (e ++ r) p
    → is_empty (m ++ e) ≡ false
    → value (refresh_mirror (some (m ++ e)) p) ≡ (m ++ e) ++ r
refresh_mirror-Shows m e r p h n =
    ap value (refresh_mirror-covered (m ++ e) p h.covered)
    ∙ ap (λ q. value (reconcile (m ++ e) q p)) h.predicted
    ∙ ap value (reconcile-echo m e r p h.base)
    ∙ accept_line-value (m ++ e) r p n h.covered h.plain_line

Shows-value : (m q : Text) (p : Panel) → Shows m q p → value p ≡ m ++ q
Shows-value m q p h =
    shown_value_plain p.local_cmd p.uncover (p.mirror ++ p.pending) h.plain_line h.covered
    ∙ ap (λ x. x ++ p.pending) h.line
    ∙ ap (λ x. m ++ x) h.predicted

-- What is typed behind the shell's line is shown at once, and however much of it the shell has echoed
-- when the box is refreshed, the box goes on showing the same; the box mirrors the line with no
-- prediction open, and the line that the shell shows is not empty.
pub refresh_mirror-predict_all :
    (m e r : Text) (p : Panel)
    → Shows m [] p
    → is_empty (m ++ e) ≡ false
    → (value (predict_all (e ++ r) p) ≡ m ++ (e ++ r))
      × (value (refresh_mirror (some (m ++ e)) (predict_all (e ++ r) p)) ≡ m ++ (e ++ r))
refresh_mirror-predict_all m e r p h n =
    let s = predict_all-Shows m [] (e ++ r) p h in
    (
      Shows-value m (e ++ r) (predict_all (e ++ r) p) s,
      refresh_mirror-Shows m e r (predict_all (e ++ r) p) s n ∙ append_assoc m e r,
    )
