-- ===== src/Inject/Editor.antt =====
-- A shell's line editor, an independent account of who reads the injected text: it inserts what is typed,
-- Ctrl-U empties the line, a newline submits it, and between the marks of a bracketed paste every unit is
-- inserted as it is. The cursor is at the end of the line, and completion at a TAB is left out.
use tethra.Inject.Clean.{is_clean}
use tethra.Base.{
  Bool, Bool-cases, List, Text, [], all, ap, append-nil, append_assoc, arith, false, if◌then◌else◌,
  includes_unit, inl, inr, not, refl, starts_with, suc, sym, true, zero, ℕ, ◌&&◌, ◌++◌, ◌==◌, ◌∙◌,
  ◌∷◌, ◌≡◌,
}
use tethra.Inject.{InjectCall, ctrl_u, force_input, paste_end, paste_start, with_bracketed_paste}

pub record Editor : Type 0 where
  pub line : Text
  pub submitted : List Text
  pub pasting : Bool

abbrev pub editor : Text → List Text → Bool → Editor
editor line submitted pasting = record { line = line; submitted = submitted; pasting = pasting }

-- Whether a mark of the paste stands here that changes the mode.
abbrev pub at_mark : Bool → Text → Bool
at_mark false s = starts_with s paste_start
at_mark true s = starts_with s paste_end

abbrev pub key : ℕ → Editor → Editor
key c e =
    if e.pasting
    then editor (e.line ++ c ∷ []) e.submitted true
    else if c == ctrl_u
    then editor [] e.submitted false
    else if c == 10
    then editor [] (e.submitted ++ e.line ∷ []) false
    else editor (e.line ++ c ∷ []) e.submitted false

-- Reading a text, of which so many units are skipped: the rest of a mark.
unfoldable pub feed : ℕ → Text → Editor → Editor
feed n [] e = e
feed (suc n) (c ∷ cs) e = feed n cs e
feed zero (c ∷ cs) e = elim (at_mark e.pasting (c ∷ cs)) [
  | true ↦ feed 5 cs (editor e.line e.submitted (not e.pasting))
  | false ↦ feed 0 cs (key c e)
]

unfoldable pub feed_calls : List InjectCall → Editor → Editor
unfolding feed
feed_calls [] e = e
feed_calls (force_input t ∷ calls) e = feed_calls calls (feed 0 t e)
feed_calls (_ ∷ calls) e = feed_calls calls e

abbrev is_plain : ℕ → Bool
is_plain c = is_clean c && not (c == 10)

no_mark : (p : Bool) (c : ℕ) (cs : Text) → is_clean c ≡ true → at_mark p (c ∷ cs) ≡ false
no_mark true c cs h = ground arith
no_mark false c cs h = ground arith

feed-key :
    (c : ℕ) (cs : Text) (e : Editor)
    → at_mark e.pasting (c ∷ cs) ≡ false
    → feed 0 (c ∷ cs) e ≡ feed 0 cs (key c e)
unfolding feed
feed-key c cs e h = rw (h, feed) refl

key-plain :
    (c : ℕ) (l : Text) (s : List Text)
    → is_plain c ≡ true
    → key c (editor l s false) ≡ editor (l ++ c ∷ []) s false
key-plain c l s h =
    let u : (c == ctrl_u) ≡ false = ground arith in
    let n : (c == 10) ≡ false = ground arith in rw (u, n) refl

pub feed-plain :
    (t u l : Text) (s : List Text)
    → all is_plain t ≡ true
    → feed 0 (t ++ u) (editor l s false) ≡ feed 0 u (editor (l ++ t) s false)
feed-plain [] u l s h = ap (λ m. feed 0 u (editor m s false)) (sym (append-nil l))
feed-plain (c ∷ cs) u l s h =
    feed-key c (cs ++ u) (editor l s false) (no_mark false c (cs ++ u) (ground arith))
    ∙ ap (feed 0 (cs ++ u)) (key-plain c l s (ground arith))
    ∙ feed-plain cs u (l ++ c ∷ []) s (ground arith)
    ∙ ap (λ m. feed 0 u (editor m s false)) (append_assoc l (c ∷ []) cs)

-- Inside a paste.
feed-pasted :
    (t u l : Text) (s : List Text)
    → all is_clean t ≡ true
    → feed 0 (t ++ u) (editor l s true) ≡ feed 0 u (editor (l ++ t) s true)
feed-pasted [] u l s h = ap (λ m. feed 0 u (editor m s true)) (sym (append-nil l))
feed-pasted (c ∷ cs) u l s h =
    feed-key c (cs ++ u) (editor l s true) (no_mark true c (cs ++ u) (ground arith))
    ∙ feed-pasted cs u (l ++ c ∷ []) s (ground arith)
    ∙ ap (λ m. feed 0 u (editor m s true)) (append_assoc l (c ∷ []) cs)

feed-paste_start :
    (u l : Text) (s : List Text)
    → feed 0 (paste_start ++ u) (editor l s false) ≡ feed 0 u (editor l s true)
unfolding feed
feed-paste_start u l s = refl

feed-paste_end :
    (u l : Text) (s : List Text)
    → feed 0 (paste_end ++ u) (editor l s true) ≡ feed 0 u (editor l s false)
unfolding feed
feed-paste_end u l s = refl

plain_of_clean :
    (t : Text) → all is_clean t ≡ true → includes_unit t 10 ≡ false → all is_plain t ≡ true
plain_of_clean [] h n = refl
plain_of_clean (c ∷ cs) h n = ground (arith, plain_of_clean cs)

-- A clean text arrives as it is, whatever newlines stand in it.
pub feed-with_bracketed_paste :
    (t u l : Text) (s : List Text)
    → all is_clean t ≡ true
    → feed 0 (with_bracketed_paste t ++ u) (editor l s false) ≡ feed 0 u (editor (l ++ t) s false)
unfolding with_bracketed_paste
feed-with_bracketed_paste t u l s h = elim (Bool-cases (includes_unit t 10)) [
  | inl e ↦ rw e (
      ap (λ w. feed 0 w (editor l s false)) (append_assoc paste_start (t ++ paste_end) u)
      ∙ feed-paste_start ((t ++ paste_end) ++ u) l s
      ∙ ap (λ w. feed 0 w (editor l s true)) (append_assoc t paste_end u)
      ∙ feed-pasted t (paste_end ++ u) l s h
      ∙ feed-paste_end u (l ++ t) s)
  | inr e ↦ rw e (feed-plain t u l s (plain_of_clean t h e))
]
