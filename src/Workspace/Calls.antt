-- ===== src/Workspace/Calls.antt =====
-- Each call, event and answer keeps the panes and the focus on open tabs.
use mathlib.Core.Path.{subst}
use tethra.Base.{
  Bool, Bool-cases, List, Option, Text, [], all, any, arith, false, filter, find?, inl, inr,
  is_empty, is_some, none, not, refl, some, sym, text_eq, true, ◌&&◌, ◌||◌, ◌∙◌, ◌∷◌, ◌≡◌,
}
use tethra.Layout.{LayoutNode, collect_session_ids, contains_session, leaf, node}
use tethra.Layout.Sessions.{survivors}
use tethra.Workspace.State.{
  Host, Json, OpenTerminalResult, Tab, Workspace, has_session, is_local_tab, is_text,
  without_session,
}
use tethra.Workspace.View.{
  activate_session, connect_failed, connect_opened, is_split, opened_tab, pane_layout, replace_tab,
  toggle_zoom_at, update_tab,
}
use tethra.Workspace.Close.{close_tab, drop_tab, lock_now, vault_locked}
use tethra.Workspace.Handover.{adopt_transfer, move_out, parse_layout, reclaim, stringify_layout}
use tethra.Workspace.Open.{
  IsOpen, IsOpen-imp, all-member, all_imp, is_open, is_open-replaced, is_open-update,
  is_open-without_session, session_at-IsOpen,
}
use tethra.Workspace.Invariant.{
  IsValid, active_among-IsOpen, adopt_transfer-IsValid, drop_tab-IsValid, launcher_if_empty-IsValid,
}

pub all_one : (p : Text → Bool) (s : Text) → p s ≡ true → all p (s ∷ []) ≡ true
all_one p s h = ground arith

found_here :
    (a : Text) (u : Tab) (us : List Tab) (t : Tab)
    → has_session a u ≡ true
    → find? (has_session a) (u ∷ us) ≡ some t
    → some u ≡ some t
found_here a u us t e h = rw (sym h) (rw e)

abbrev tab_session : Option Tab → Option Text
tab_session none = none
tab_session (some t) = some t.session_id

pub find?-is_open :
    (a : Text) (ts : List Tab) (t : Tab)
    → find? (has_session a) ts ≡ some t
    → is_open ts t.session_id ≡ true
find?-is_open a [] t h = cc
find?-is_open a (u ∷ us) t h = elim (Bool-cases (has_session a u)) [
  | inl e ↦
      subst (λ o. IsOpen (u ∷ us) (tab_session o)) (found_here a u us t e h)
        (session_at-IsOpen (u ∷ us) 0)
  | inr e ↦ ground (arith, find?-is_open a us t)
]

all-others :
    (p q : Text → Bool) (sid : Text) (xs : List Text)
    → ((s : Text) → p s ≡ true → text_eq s sid ≡ false → q s ≡ true)
    → any (λ t. text_eq t sid) xs ≡ false
    → all p xs ≡ true
    → all q xs ≡ true
all-others p q sid [] f n h = refl
all-others p q sid (x ∷ xs) f n h = ground (arith, f x, all-others p q sid xs f)

refused-focus :
    (pending : Text) (ts : List Tab) (o : Option Text)
    → is_text pending o ≡ false
    → IsOpen ts o
    → IsOpen (without_session pending ts) o
refused-focus pending ts none n h = h
refused-focus pending ts (some a) n h = is_open-without_session a pending ts n h

module _ {N : Type 0} where
  shown-holds :
      (p : Text → Bool) (s : Text) (n : LayoutNode N)
      → all p (collect_session_ids n) ≡ true
      → contains_session n s ≡ true
      → p s ≡ true
  unfolding contains_session
  shown-holds p s n h c = all-member p (collect_session_ids n) s h c

  pane_layout-fresh :
      (p : Text → Bool) (s : Text) (l : Option (LayoutNode N))
      → all p (survivors l) ≡ true
      → p s ≡ false
      → pane_layout s l ≡ leaf s
  pane_layout-fresh p s none h n = refl
  pane_layout-fresh p s (some (leaf t)) h n = refl
  pane_layout-fresh p s (some (node id o r a b)) h n =
      elim (Bool-cases (contains_session (node id o r a b) s)) [
        | inl c ↦ ground (arith, shown-holds p s (node id o r a b) h c)
        | inr c ↦ rw c
      ]

  pub connect_opened-IsValid :
      (pending : Text) (host : Host) (mux : Text) (r : OpenTerminalResult) (w : Workspace N)
      → is_open w.tabs pending ≡ true
      → is_open w.tabs r.session_id ≡ false
      → IsValid w
      → IsValid (connect_opened pending host mux r w)
  unfolding connect_opened activate_session collect_session_ids
  connect_opened-IsValid pending host mux r w o n h =
      let e = is_open-replaced pending (opened_tab r host mux) w.tabs o in
      record {
        panes =
            rw (pane_layout-fresh (is_open w.tabs) r.session_id w.layout h.panes n) (
              all_one (is_open (replace_tab pending (opened_tab r host mux) w.tabs)) r.session_id
                e);
        focus = e;
      }

  pub connect_failed-IsValid :
      (pending : Text) (w : Workspace N)
      → is_text pending w.active_id ≡ false
      → any (λ t. text_eq t pending) (survivors w.layout) ≡ false
      → IsValid w
      → IsValid (connect_failed pending w)
  unfolding connect_failed
  connect_failed-IsValid pending w n m h = record {
    panes =
        all-others (is_open w.tabs) (is_open (without_session pending w.tabs)) pending
          (survivors w.layout) (λ s o e. is_open-without_session s pending w.tabs e o) m h.panes;
    focus = refused-focus pending w.tabs w.active_id n h.focus;
  }

  pub toggle_zoom_at-IsValid :
      (o : Option Text) (w : Workspace N) → IsValid w → IsValid (toggle_zoom_at o w)
  toggle_zoom_at-IsValid none w h = h
  toggle_zoom_at-IsValid (some a) w h =
      elim (Bool-cases (is_empty a || (not (is_some w.zoomed_id) && not (is_split w.layout)))) [
        | inl e ↦ rw e h
        | inr e ↦ rw e (record { panes = h.panes; focus = h.focus })
      ]

  pub update_tab-IsValid :
      (s : Text) (f : Tab → Tab) (w : Workspace N)
      → ((t : Tab) → (f t).session_id ≡ t.session_id)
      → IsValid w
      → IsValid (update_tab s f w)
  update_tab-IsValid s f w keep h = record {
    panes =
        all_imp (is_open w.tabs) (is_open (update_tab s f w).tabs) (survivors w.layout)
          (λ x o. is_open-update s x f w.tabs keep ∙ o) h.panes;
    focus =
        IsOpen-imp w.tabs (update_tab s f w).tabs w.active_id
          (λ x o. is_open-update s x f w.tabs keep ∙ o) h.focus;
  }

  pub lock_now-IsValid : (w : Workspace N) → IsValid (lock_now w).0
  unfolding lock_now
  lock_now-IsValid w = record {
    panes = refl;
    focus = session_at-IsOpen (filter is_local_tab w.tabs) 0;
  }

  pub vault_locked-IsValid : (w : Workspace N) → IsValid (vault_locked w).0
  unfolding vault_locked
  vault_locked-IsValid w = record {
    panes = refl;
    focus = active_among-IsOpen (filter is_local_tab w.tabs) w.active_id;
  }

  pub close_tab-IsValid :
      (s : Text) (keep_mux is_running : Bool) (w : Workspace N)
      → IsValid w
      → IsValid (close_tab s keep_mux is_running w).0
  unfolding close_tab
  close_tab-IsValid s keep_mux is_running w h =
      launcher_if_empty-IsValid (without_session s w.tabs) (drop_tab s w) (drop_tab-IsValid s w h)

module _ {N : Type 0} (json : Json N) where
  parse_layout-stringify :
      (p : Text → Bool) (l : Option (LayoutNode N))
      → all p (survivors l) ≡ true
      → all p (survivors (parse_layout json (stringify_layout json l))) ≡ true
  parse_layout-stringify p none h = refl
  parse_layout-stringify p (some n) h = elim (Bool-cases (is_empty (json.stringify n))) [
    | inl e ↦ rw e refl
    | inr e ↦ rw (e, json.parse-stringify n) h
  ]

  pub reclaimed-IsValid :
      (v w : Workspace N) → IsValid v → IsValid w → IsValid (adopt_transfer json (reclaim json v) w)
  unfolding reclaim
  reclaimed-IsValid v w h k =
      adopt_transfer-IsValid json (reclaim json v) w
        (parse_layout-stringify (is_open v.tabs) v.layout h.panes) h.focus k

  pub adopted-IsValid :
      (t : Tab) (v w : Workspace N)
      → IsValid w
      → IsValid (adopt_transfer json (move_out json t v) w)
  unfolding move_out collect_session_ids text_eq
  adopted-IsValid t v w k =
      adopt_transfer-IsValid json (move_out json t v) w
        (parse_layout-stringify (is_open (t ∷ [])) (some (leaf t.session_id))
          (all_one (is_open (t ∷ [])) t.session_id (session_at-IsOpen (t ∷ []) 0)))
        (session_at-IsOpen (t ∷ []) 0) k
