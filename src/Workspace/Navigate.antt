-- ===== src/Workspace/Navigate.antt =====
-- The next and the previous tab, `go.next_tab` and `go.prev_tab` of handleMenuCommand in apps/ui/src/App.tsx.
use tethra.SessionOutput.{or_empty}
use tethra.Base.{
  Bool, List, Option, Text, [], any, ap, arith, false, if◌then◌else◌, length, none, not, refl, some,
  suc, sym, text_eq, text_eq_refl, true, zero, ℕ, ◌%◌, ◌&&◌, ◌+◌, ◌-◌, ◌<◌, ◌==◌, ◌∙◌, ◌∷◌, ◌≡◌,
}
use tethra.Workspace.State.{Tab, Workspace, find_index, session_at}
use tethra.Workspace.View.{activate_session, select_tab}
use native.Mathlib.Nat.{add-mod_right, mod-add-mod, mod-eq_of_lt, mod-lt}

abbrev pub active_index : Option Text → List Tab → Option ℕ
active_index none ts = none
active_index (some s) ts = find_index s ts

-- The index behind the one that is found, or -1, around the list; and the one before it.
abbrev pub index_after : ℕ → Option ℕ → ℕ
index_after n none = 0 % n
index_after n (some i) = (i + 1) % n

abbrev pub index_before : ℕ → Option ℕ → ℕ
index_before n none = (n - 2) % n
index_before n (some i) = (i + n - 1) % n

module _ {N : Type 0} where
  abbrev pub select_if : Option Text → Workspace N → Workspace N
  select_if none w = w
  select_if (some s) w = select_tab s w

  unfoldable pub next_tab : Workspace N → Workspace N
  unfolding select_tab
  next_tab w =
      if length w.tabs == 0
      then w
      else select_if
          (session_at w.tabs (index_after (length w.tabs) (active_index w.active_id w.tabs))) w

  unfoldable pub prev_tab : Workspace N → Workspace N
  unfolding select_tab
  prev_tab w =
      if length w.tabs == 0
      then w
      else select_if
          (session_at w.tabs (index_before (length w.tabs) (active_index w.active_id w.tabs))) w

abbrev pub is_distinct : List Tab → Bool
is_distinct [] = true
is_distinct (t ∷ ts) = not (any (λ u. text_eq t.session_id u.session_id) ts) && is_distinct ts

round_trip : (i n : ℕ) → i < n → (((i + 1) % n) + n - 1) % n ≡ i
round_trip i zero h = ground (arith, h)
round_trip i (suc n) h =
    let back : ((i + 1) % suc n + suc n - 1) ≡ (i + 1) % suc n + n = omega arith in
    let once : i + 1 + n ≡ i + suc n = omega arith in
    ap (λ k. k % suc n) back
    ∙ mod-add-mod (i + 1) (suc n) n
    ∙ ap (λ k. k % suc n) once
    ∙ add-mod_right i (suc n)
    ∙ mod-eq_of_lt h

at_least_one : (ts : List Tab) (i : ℕ) → i < length ts → (length ts == 0) ≡ false
at_least_one [] i h = ground (arith, h)
at_least_one (t ∷ ts) i h = ground arith

abbrev id_at : List Tab → ℕ → Text
id_at ts i = or_empty (session_at ts i)

at_index : (ts : List Tab) (i : ℕ) → i < length ts → session_at ts i ≡ some (id_at ts i)
at_index [] i h = ground (arith, h)
at_index (t ∷ ts) zero h = refl
at_index (t ∷ ts) (suc i) h = at_index ts i (omega (arith, h))

other_at :
    (s : Text) (ts : List Tab) (i : ℕ)
    → any (λ u. text_eq s u.session_id) ts ≡ false
    → i < length ts
    → text_eq s (id_at ts i) ≡ false
other_at s [] i a h = ground (arith, h)
other_at s (t ∷ ts) zero a h = ground (arith, a)
other_at s (t ∷ ts) (suc i) a h = other_at s ts i (ground (arith, a)) (omega (arith, h))

found_at :
    (ts : List Tab) (i : ℕ)
    → is_distinct ts ≡ true
    → i < length ts
    → find_index (id_at ts i) ts ≡ some i
found_at [] i d h = ground (arith, h)
found_at (t ∷ ts) zero d h = rw (text_eq_refl t.session_id) refl
found_at (t ∷ ts) (suc i) d h =
    rw
      (
        other_at t.session_id ts i (ground (arith, d)) (omega (arith, h)),
        found_at ts i (ground (arith, d)) (omega (arith, h)),
      )
      refl

index_active :
    (a : Option Text) (ts : List Tab) (i : ℕ)
    → is_distinct ts ≡ true
    → i < length ts
    → a ≡ session_at ts i
    → active_index a ts ≡ some i
index_active a ts i d h e = ap (λ o. active_index o ts) (e ∙ at_index ts i h) ∙ found_at ts i d h

module _ {N : Type 0} where
  -- To the tab that `f` gives for the one in focus.
  step_to :
      (f : ℕ → Option ℕ → ℕ) (w : Workspace N) (i : ℕ)
      → is_distinct w.tabs ≡ true
      → i < length w.tabs
      → w.active_id ≡ session_at w.tabs i
      → f (length w.tabs) (some i) < length w.tabs
      → (if length w.tabs == 0
          then w
          else select_if
              (session_at w.tabs (f (length w.tabs) (active_index w.active_id w.tabs)))
              w)
        ≡ select_tab (id_at w.tabs (f (length w.tabs) (some i))) w
  step_to f w i d h a b =
      ap
        (λ c.
          if c
          then w
          else select_if (session_at w.tabs (f (length w.tabs) (active_index w.active_id w.tabs)))
              w)
        (at_least_one w.tabs i h)
      ∙ ap (λ o. select_if (session_at w.tabs (f (length w.tabs) o)) w)
          (index_active w.active_id w.tabs i d h a)
      ∙ ap (λ s. select_if s w) (at_index w.tabs (f (length w.tabs) (some i)) b)

  -- From a tab in focus, when the tabs have different ids, going to the next tab and back to the previous
  -- one comes back to it.
  pub prev_tab-next_tab :
      (w : Workspace N) (i : ℕ)
      → is_distinct w.tabs ≡ true
      → i < length w.tabs
      → w.active_id ≡ session_at w.tabs i
      → (prev_tab (next_tab w)).active_id ≡ w.active_id
  unfolding next_tab prev_tab select_tab activate_session
  prev_tab-next_tab w i d h a =
      let n = length w.tabs in
      let j = (i + 1) % n in
      let filled : 0 < n = omega (arith, h) in
      let there : j < n = mod-lt (i + 1) filled in
      let w' = select_tab (id_at w.tabs j) w in
      let back : (prev_tab w').active_id ≡ some (id_at w.tabs ((j + n - 1) % n)) =
        ap (λ v. v.active_id)
          (step_to index_before w' j d there (sym (at_index w.tabs j there))
            (mod-lt (j + n - 1) filled)) in
      ap (λ v. (prev_tab v).active_id) (step_to index_after w i d h a there)
      ∙ back
      ∙ ap (λ k. some (id_at w.tabs k)) (round_trip i n h)
      ∙ sym (a ∙ at_index w.tabs i h)
