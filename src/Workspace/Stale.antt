-- ===== src/Workspace/Stale.antt =====
-- The handlers of apps/ui/src/App.tsx that change a workspace by the tabs and the focus of an earlier render.
use tethra.Workspace.View.{launcher_if_empty}
use tethra.Layout.Sessions.{survivors}
use mathlib.Core.Path.{subst}
use tethra.Base.{
  Bool, Bool-cases, List, Text, [], all, any, ap, arith, eq_of_text_eq, false, filter,
  if◌then◌else◌, inl, inr, not, refl, some, sym, text_eq_refl, true, ◌∙◌, ◌∷◌, ◌≡◌,
}
use tethra.Workspace.State.{
  Tab, Workspace, find_index, focus_after, has_host, has_session, is_local_tab, is_text, left_of,
  session_at, without_session,
}
use tethra.Workspace.Focus.{launcher_if_empty-active, launcher_if_empty-tabs}
use tethra.Workspace.Close.{
  close_tab_from, confirm_delete_from, drop_related, drop_related_from, drop_tab, drop_tab_from,
  is_active, layout_without_all, lock_now_from,
}
use tethra.Workspace.Open.{IsOpen, IsOpen-imp, all_imp, is_open, session_at-IsOpen}
use tethra.Workspace.Invariant.{
  IsValid, drop_related-IsValid, drop_tab-IsValid, launcher_if_empty-IsValid,
}

-- Since the render `seen` no tab has been opened, and the focus is the same.
abbrev pub IsCurrent : {N : Type 0} → Workspace N → Workspace N → Type 0
IsCurrent seen w =
    (all (λ t. is_open seen.tabs t.session_id) w.tabs ≡ true) × (seen.active_id ≡ w.active_id)

is_open-all :
    (ts us : List Tab) (s : Text)
    → all (λ t. is_open us t.session_id) ts ≡ true
    → is_open ts s ≡ true
    → is_open us s ≡ true
is_open-all [] us s a h = ground (arith, h)
is_open-all (t ∷ ts) us s a h = elim (Bool-cases (has_session s t)) [
  | inl e ↦ subst (λ x. is_open us x ≡ true) (eq_of_text_eq t.session_id s e) (ground (arith, a))
  | inr e ↦ is_open-all ts us s (ground (arith, a)) (ground (arith, h, e))
]

absent-filter :
    (host s : Text) (ts : List Tab)
    → is_open ts s ≡ false
    → is_open (filter (λ t. not (has_host host t)) ts) s ≡ false
absent-filter host s [] h = refl
absent-filter host s (t ∷ ts) h = ground (arith, absent-filter host s ts)

module _ {N : Type 0} where
  IsCurrent-IsValid :
      (seen w : Workspace N)
      → IsCurrent seen w
      → IsValid w
      → IsValid (record w { tabs = seen.tabs })
  IsCurrent-IsValid seen w (opened, focus) h = record {
    panes =
        all_imp (is_open w.tabs) (is_open seen.tabs) (survivors w.layout)
          (λ s. is_open-all w.tabs seen.tabs s opened) h.panes;
    focus =
        IsOpen-imp w.tabs seen.tabs w.active_id (λ s. is_open-all w.tabs seen.tabs s opened)
          h.focus;
  }

  drop_tab_from-IsValid :
      (s : Text) (seen w : Workspace N)
      → IsCurrent seen w
      → IsValid w
      → IsValid (drop_tab_from s seen w)
  unfolding drop_tab drop_tab_from
  drop_tab_from-IsValid s seen w c h =
      let v = drop_tab-IsValid s (record w { tabs = seen.tabs }) (IsCurrent-IsValid seen w c h) in
      record {
        panes = v.panes;
        focus =
            subst
              (λ a.
                IsOpen (without_session s seen.tabs)
                  (if is_text s a then focus_after s seen.tabs else w.active_id))
              (sym c.1) v.focus;
      }

  pub close_tab_from-IsValid :
      (s : Text) (keep_mux is_running : Bool) (seen w : Workspace N)
      → IsCurrent seen w
      → IsValid w
      → IsValid (close_tab_from s keep_mux is_running seen w).0
  unfolding close_tab_from
  close_tab_from-IsValid s keep_mux is_running seen w c h =
      launcher_if_empty-IsValid (without_session s seen.tabs) (drop_tab_from s seen w)
        (drop_tab_from-IsValid s seen w c h)

  -- The active tab of `seen` is moved out; the tabs are those of `w`.
  pub moved_out-IsValid :
      (s : Text) (seen w : Workspace N)
      → seen.active_id ≡ some s
      → IsValid w
      → IsValid (drop_tab_from s (record seen { tabs = w.tabs }) w)
  unfolding drop_tab drop_tab_from
  moved_out-IsValid s seen w a h =
      let v = drop_tab-IsValid s w h in
      let active : is_text s seen.active_id ≡ true = ap (is_text s) a ∙ text_eq_refl s in
      record {
        panes = v.panes;
        focus =
            subst
              (λ b.
                IsOpen (without_session s w.tabs) (if b then focus_after s w.tabs else w.active_id))
              (sym active)
              (session_at-IsOpen (without_session s w.tabs) (left_of (find_index s w.tabs)));
      }

  pub drop_related_from-IsValid :
      (gone : Tab → Bool) (seen w : Workspace N)
      → IsCurrent seen w
      → IsValid w
      → IsValid (drop_related_from gone seen w)
  unfolding drop_related drop_related_from
  drop_related_from-IsValid gone seen w c h =
      let related = filter gone seen.tabs in
      let next_tabs = filter (λ t. not (gone t)) seen.tabs in
      subst
        (λ a. IsValid (
          launcher_if_empty next_tabs (record w {
            tabs = next_tabs;
            active_id = if any (is_active a) related then session_at next_tabs 0 else w.active_id;
            layout = layout_without_all related w.layout;
          })))
        (sym c.1)
        (drop_related-IsValid gone (record w { tabs = seen.tabs }) (IsCurrent-IsValid seen w c h))

  pub lock_now_from-IsValid : (seen w : Workspace N) → IsValid (lock_now_from seen w).0
  unfolding lock_now_from
  lock_now_from-IsValid seen w = record {
    panes = refl;
    focus = session_at-IsOpen (filter is_local_tab seen.tabs) 0;
  }

  -- A tab that is opened while a host is being deleted, of another host, is lost when the deletion ends:
  -- its session has no tab, and the focus, which opening it has given to it, stays on it, unless a tab of
  -- the deleted host had the focus when the user confirmed.
  pub confirm_delete_from-lost :
      (host s : Text) (seen w : Workspace N)
      → is_open seen.tabs s ≡ false
      → w.active_id ≡ some s
      → any (is_active seen.active_id) (filter (has_host host) seen.tabs) ≡ false
      → (is_open (confirm_delete_from host seen w).0.tabs s ≡ false)
        × ((confirm_delete_from host seen w).0.active_id ≡ some s)
  unfolding confirm_delete_from drop_related_from
  confirm_delete_from-lost host s seen w n a k =
      let related = filter (has_host host) seen.tabs in
      let next_tabs = filter (λ t. not (has_host host t)) seen.tabs in
      (
        ap (λ ts. is_open ts s) (launcher_if_empty-tabs next_tabs _)
            ∙ absent-filter host s seen.tabs n,
        launcher_if_empty-active next_tabs _
            ∙ ap (λ b. if b then session_at next_tabs 0 else w.active_id) k
            ∙ a,
      )
