-- ===== src/Workspace/Invariant.antt =====
-- Every pane and the focus belong to an open tab.
use tethra.Workspace.Handover.{adopt_transfer, parse_layout}
use tethra.Base.{
  Bool, Bool-cases, List, Option, Text, [], all, any, any-append, arith, filter, if◌then◌else◌, inl,
  inr, is_empty, none, not, refl, some, text_eq, text_eq_refl, true, ◌&&◌, ◌++◌, ◌∷◌, ◌≡◌,
}
use tethra.Layout.{LayoutNode, collect_session_ids, contains_session, leaf, node}
use tethra.Layout.Sessions.{survivors}
use tethra.Workspace.State.{
  Json, Tab, Workspace, WorkspaceTransfer, find_index, focus_after, has_session, is_text, left_of,
  put_tabs, session_at, truthy_or, without_session,
}
use tethra.Workspace.View.{activate_session, add_tab, launcher_if_empty, pane_layout, select_tab}
use tethra.Workspace.Close.{active_among, drop_related, drop_tab, is_active, layout_without_all}
use tethra.Workspace.Open.{
  IsOpen, IsOpen-imp, all_imp, any-filter, is_open, is_open-put_tabs, is_open-without_session,
  layout_without-all, layout_without_all-all, session_at-IsOpen, text_eq_comm,
}

pub record IsValid {N : Type 0} (w : Workspace N) : Type 0 where
  pub panes : all (is_open w.tabs) (survivors w.layout) ≡ true
  pub focus : IsOpen w.tabs w.active_id

pub is_open-last : (ts : List Tab) (t : Tab) → is_open (ts ++ t ∷ []) t.session_id ≡ true
is_open-last ts t =
    rw (any-append (has_session t.session_id) ts (t ∷ []))
      (ground (arith, text_eq_refl t.session_id))

pub is_open-append :
    (ts us : List Tab) (s : Text) → is_open ts s ≡ true → is_open (ts ++ us) s ≡ true
is_open-append ts us s h = rw (any-append (has_session s) ts us) (ground arith)

focus_after-IsOpen :
    (s : Text) (ts : List Tab) (o : Option Text)
    → IsOpen ts o
    → IsOpen (without_session s ts) (if is_text s o then focus_after s ts else o)
focus_after-IsOpen s ts none h = tt
focus_after-IsOpen s ts (some a) h = elim (Bool-cases (text_eq a s)) [
  | inl e ↦ rw e (session_at-IsOpen (without_session s ts) (left_of (find_index s ts)))
  | inr e ↦ rw e (is_open-without_session a s ts e h)
]

any-is_active : (a : Text) (ts : List Tab) → any (is_active (some a)) ts ≡ is_open ts a
any-is_active a [] = refl
any-is_active a (t ∷ ts) = ground (arith, text_eq_comm a t.session_id, any-is_active a ts)

truthy_or-IsOpen :
    (ts : List Tab) (new old : Option Text)
    → IsOpen ts new
    → IsOpen ts old
    → IsOpen ts (truthy_or new old)
truthy_or-IsOpen ts none old h k = k
truthy_or-IsOpen ts (some s) old h k = elim (Bool-cases (is_empty s)) [
  | inl e ↦ rw e k
  | inr e ↦ rw e h
]

-- What is left when every tab that `gone` accepts is taken away.
is_open-kept :
    (gone : Tab → Bool) (ts : List Tab) (s : Text)
    → (is_open ts s && not (is_open (filter gone ts) s)) ≡ true
    → is_open (filter (λ t. not (gone t)) ts) s ≡ true
is_open-kept gone ts s h = ground (arith, any-filter (has_session s) gone ts)

drop_related-focus :
    (gone : Tab → Bool) (ts : List Tab) (o : Option Text)
    → IsOpen ts o
    → IsOpen (filter (λ t. not (gone t)) ts) (
        if any (is_active o) (filter gone ts)
        then session_at (filter (λ t. not (gone t)) ts) 0
        else o)
drop_related-focus gone ts none h = elim (Bool-cases (any (is_active none) (filter gone ts))) [
  | inl e ↦ rw e (session_at-IsOpen (filter (λ t. not (gone t)) ts) 0)
  | inr e ↦ rw e tt
]
drop_related-focus gone ts (some a) h =
    elim (Bool-cases (any (is_active (some a)) (filter gone ts))) [
      | inl e ↦ rw e (session_at-IsOpen (filter (λ t. not (gone t)) ts) 0)
      | inr e ↦ rw e (is_open-kept gone ts a (ground (arith, any-is_active a (filter gone ts))))
    ]

pub active_among-IsOpen : (ts : List Tab) (o : Option Text) → IsOpen ts (active_among ts o)
active_among-IsOpen ts none = elim (Bool-cases (any (is_active none) ts)) [
  | inl e ↦ rw e tt
  | inr e ↦ rw e (session_at-IsOpen ts 0)
]
active_among-IsOpen ts (some a) = elim (Bool-cases (any (is_active (some a)) ts)) [
  | inl e ↦ rw e (ground (arith, any-is_active a ts))
  | inr e ↦ rw e (session_at-IsOpen ts 0)
]

module _ {N : Type 0} where
  pane_layout-all :
      (p : Text → Bool) (s : Text) (l : Option (LayoutNode N))
      → p s ≡ true
      → all p (survivors l) ≡ true
      → all p (collect_session_ids (pane_layout s l)) ≡ true
  unfolding collect_session_ids
  pane_layout-all p s none e h = ground arith
  pane_layout-all p s (some (leaf t)) e h = ground arith
  pane_layout-all p s (some (node id o r a b)) e h =
      elim (Bool-cases (contains_session (node id o r a b) s)) [
        | inl c ↦ rw c h
        | inr c ↦ rw c (ground arith)
      ]

  -- Once a session is open, it can be shown.
  pub activate_session-IsValid :
      (s : Text) (w : Workspace N)
      → is_open w.tabs s ≡ true
      → all (is_open w.tabs) (survivors w.layout) ≡ true
      → IsValid (activate_session s w)
  unfolding activate_session
  activate_session-IsValid s w o h = record {
    panes = pane_layout-all (is_open w.tabs) s w.layout o h;
    focus = o;
  }

  -- A new tab takes the focus.
  pub added-IsValid :
      (t : Tab) (w : Workspace N) → IsValid w → IsValid (select_tab t.session_id (add_tab t w))
  unfolding select_tab add_tab
  added-IsValid t w h =
      let v = activate_session-IsValid t.session_id (add_tab t w) (is_open-last w.tabs t) (
        all_imp (is_open w.tabs) (is_open (w.tabs ++ t ∷ [])) (survivors w.layout)
          (is_open-append w.tabs (t ∷ [])) h.panes) in
      record { panes = v.panes; focus = v.focus }

  pub drop_tab-IsValid : (s : Text) (w : Workspace N) → IsValid w → IsValid (drop_tab s w)
  unfolding drop_tab
  drop_tab-IsValid s w h = record {
    panes =
        layout_without-all (is_open w.tabs) (is_open (without_session s w.tabs)) s w.layout
          (λ a o n. is_open-without_session a s w.tabs n o) h.panes;
    focus = focus_after-IsOpen s w.tabs w.active_id h.focus;
  }

  pub launcher_if_empty-IsValid :
      (ts : List Tab) (w : Workspace N) → IsValid w → IsValid (launcher_if_empty ts w)
  launcher_if_empty-IsValid [] w h = record { panes = h.panes; focus = h.focus }
  launcher_if_empty-IsValid (t ∷ ts) w h = h

  pub drop_related-IsValid :
      (gone : Tab → Bool) (w : Workspace N) → IsValid w → IsValid (drop_related gone w)
  unfolding drop_related
  drop_related-IsValid gone w h = launcher_if_empty-IsValid _ _ (record {
    panes =
        all_imp (λ s. is_open w.tabs s && not (is_open (filter gone w.tabs) s))
          (is_open (filter (λ t. not (gone t)) w.tabs))
          (survivors (layout_without_all (filter gone w.tabs) w.layout)) (is_open-kept gone w.tabs)
          (layout_without_all-all (is_open w.tabs) (filter gone w.tabs) w.layout h.panes);
    focus = drop_related-focus gone w.tabs w.active_id h.focus;
  })

  abbrev merged : Workspace N → WorkspaceTransfer → List Tab
  merged w t = put_tabs (put_tabs [] w.tabs) t.tabs

  is_open-incoming :
      (w : Workspace N) (t : WorkspaceTransfer) (s : Text)
      → is_open t.tabs s ≡ true
      → is_open (merged w t) s ≡ true
  is_open-incoming w t s h = ground (arith, is_open-put_tabs (put_tabs [] w.tabs) t.tabs s)

  is_open-present :
      (w : Workspace N) (t : WorkspaceTransfer) (s : Text)
      → is_open w.tabs s ≡ true
      → is_open (merged w t) s ≡ true
  is_open-present w t s h =
      ground (arith, is_open-put_tabs (put_tabs [] w.tabs) t.tabs s, is_open-put_tabs [] w.tabs s)

  pub adopt_transfer-IsValid :
      (json : Json N) (t : WorkspaceTransfer) (w : Workspace N)
      → all (is_open t.tabs) (survivors (parse_layout json t.layout_json)) ≡ true
      → IsOpen t.tabs t.active_id
      → IsValid w
      → IsValid (adopt_transfer json t w)
  unfolding adopt_transfer
  adopt_transfer-IsValid json t w p a h = record {
    panes =
        all_imp (is_open t.tabs) (is_open (merged w t))
          (survivors (parse_layout json t.layout_json)) (is_open-incoming w t) p;
    focus =
        truthy_or-IsOpen (merged w t) t.active_id w.active_id
          (IsOpen-imp t.tabs (merged w t) t.active_id (is_open-incoming w t) a)
          (IsOpen-imp w.tabs (merged w t) w.active_id (is_open-present w t) h.focus);
  }
