-- ===== src/SessionOutput/Order.antt =====
-- The restoration of the scrollback keeps the order of the events.
use tethra.Attention.{NotifyPrefs}
use tethra.Base.{
  Bool, List, Text, [], ap, append-nil, append_assoc, false, map, refl, sym, true, ℕ, ◌++◌, ◌∙◌,
  ◌∷◌, ◌≡◌,
}
use tethra.SessionOutput.{Output, SessionEffect, TerminalEvent, after, handle, handle_all}
use tethra.SessionOutput.Attach.{Arrival, Attachment, arrive, arrive_all, arrived, attach, restored}

after-after {ℓ} :
    {S : Type ℓ} (a b : List SessionEffect) (x : S × List SessionEffect)
    → after a (after b x) ≡ after (a ++ b) x
after-after a b x = ap (λ l. (x.0, l)) (sym (append_assoc a b x.1))

abbrev pub outcome : Attachment × List SessionEffect → Output × List SessionEffect
outcome (a, effects) = (a.output, effects)

module _ (prefs : NotifyPrefs) (decode_base64 : Text → List ℕ) (decode : List ℕ → Text)
    (s m : Text) where
  abbrev handled : List (TerminalEvent × Bool) → Output → Output × List SessionEffect
  handled es o = handle_all prefs decode_base64 decode s m es o

  abbrev run : List Arrival → Attachment → Attachment × List SessionEffect
  run xs a = arrive_all prefs decode_base64 decode s m xs a

  abbrev gate : Bool → List (TerminalEvent × Bool) → Output → Attachment
  gate ready p o = record { ready = ready; pending = p; output = o }

  pub handle_all-append :
      (es fs : List (TerminalEvent × Bool)) (o : Output)
      → handled (es ++ fs) o ≡ after (handled es o).1 (handled fs (handled es o).0)
  unfolding handle_all
  handle_all-append [] fs o = refl
  handle_all-append (e ∷ es) fs o =
      let (o', effects) = handle prefs decode_base64 decode s m e o in
      ap (after effects) (handle_all-append es fs o')
      ∙ after-after effects (handled es o').1 (handled fs (handled es o').0)

  held :
      (es : List (TerminalEvent × Bool)) (rest : List Arrival) (p : List (TerminalEvent × Bool))
      (o : Output)
      → run (map (λ e. arrived e) es ++ rest) (gate false p o) ≡ run rest (gate false (p ++ es) o)
  unfolding arrive_all arrive
  held [] rest p o = ap (λ q. run rest (gate false q o)) (sym (append-nil p))
  held (e ∷ es) rest p o =
      held es rest (p ++ e ∷ []) o
      ∙ ap (λ q. run rest (gate false q o)) (append_assoc p (e ∷ []) es)

  passed :
      (es p : List (TerminalEvent × Bool)) (o : Output)
      → run (map (λ e. arrived e) es) (gate true p o)
        ≡ (gate true p (handled es o).0, (handled es o).1)
  unfolding arrive_all arrive handle_all
  passed [] p o = refl
  passed (e ∷ es) p o =
      let (o', effects) = handle prefs decode_base64 decode s m e o in
      ap (after effects) (passed es p o')

  restored_then :
      (before later : List (TerminalEvent × Bool)) (o : Output)
      → outcome (run (restored ∷ map (λ e. arrived e) later) (gate false before o))
        ≡ after (handled before o).1 (handled later (handled before o).0)
  unfolding arrive_all arrive
  restored_then before later o =
      let (o', effects) = handled before o in
      ap (λ x. outcome (after effects x)) (passed later before o')

  -- Whatever comes before the scrollback of a project is restored and whatever comes after, each event is
  -- handled once, in the order in which the events came: the state and the effects are those of a session
  -- that restores nothing.
  pub arrive_all-eq-handle_all :
      (before later : List (TerminalEvent × Bool)) (o : Output)
      → outcome (
          run
            (map (λ e. arrived e) before ++ restored ∷ map (λ e. arrived e) later)
            (attach true o))
        ≡ handled (before ++ later) o
  arrive_all-eq-handle_all before later o =
      ap outcome (held before (restored ∷ map (λ e. arrived e) later) [] o)
      ∙ restored_then before later o
      ∙ sym (handle_all-append before later o)
