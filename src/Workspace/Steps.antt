-- ===== src/Workspace/Steps.antt =====
-- The workspaces that the windows of the application come to show. A step is a call of the interface, an
-- event of a terminal or the answer of the backend, in any order. A handler that changes the tabs after it
-- has waited for the backend is a step at the time of the change, with the workspace of the render that made
-- it, `seen`. A window that closes hands its tabs to
-- another one, and a tab is moved to another window.
use tethra.Base.{Bool, List, Text, [], any, false, none, some, text_eq, true, ℕ, ◌≡◌}
use tethra.Base.Number.{Numbers}
use tethra.Layout.{LayoutNode, SplitOrientation, set_split_ratio}
use tethra.Layout.Sessions.{survivors}
use tethra.Workspace.State.{Host, Json, OpenTerminalResult, Tab, Workspace, is_text, launcher}
use tethra.Workspace.View.{
  begin_connect, connect_failed, connect_opened, focus_pane, open_files, open_local, select_tab,
  set_layout, split_pane, toggle_zoom, update_tab,
}
use tethra.Workspace.Close.{
  close_tab_from, confirm_delete_from, confirm_delete_project_from, drop_tab_from, lock_now_from,
  vault_locked,
}
use tethra.Workspace.Handover.{adopt_transfer, move_out, reclaim}
use tethra.Workspace.Open.{is_open}
use tethra.Workspace.Stale.{IsCurrent}

abbrev pub empty_workspace : {N : Type 0} → Workspace N
empty_workspace = record {
  tabs = [];
  layout = none;
  active_id = none;
  zoomed_id = none;
  app_mode = launcher;
}

module _ (js : Numbers) (uuid : ℕ → Text) (json : Json (Numbers.Num js)) where
  open js use {Num}

  pub data Reach : Workspace Num → Type 0 where
    begin : Reach empty_workspace
    selected :
        {w : Workspace Num} (s : Text) → Reach w → is_open w.tabs s ≡ true → Reach (select_tab s w)
    -- A pane of the tree that is shown takes the focus, or its divider is moved.
    focused :
        {w : Workspace Num} (s : Text)
        → Reach w
        → any (λ t. text_eq t s) (survivors w.layout) ≡ true
        → Reach (focus_pane s w)
    dragged :
        {w : Workspace Num} (n : LayoutNode Num) (id : Text) (x : Num)
        → Reach w
        → w.layout ≡ some n
        → Reach (set_layout (set_split_ratio js n id x) w)
    zoomed : {w : Workspace Num} → Reach w → Reach (toggle_zoom w)
    updated :
        {w : Workspace Num} (s : Text) (f : Tab → Tab)
        → Reach w
        → ((t : Tab) → (f t).session_id ≡ t.session_id)
        → Reach (update_tab s f w)
    connecting :
        {w : Workspace Num} (pending : Text) (h : Host) (mux : Text)
        → Reach w
        → Reach (begin_connect pending h mux w)
    -- The tab is still there, and the session is a new one.
    connected :
        {w : Workspace Num} (pending : Text) (h : Host) (mux : Text) (r : OpenTerminalResult)
        → Reach w
        → is_open w.tabs pending ≡ true
        → is_open w.tabs r.session_id ≡ false
        → Reach (connect_opened pending h mux r w)
    -- The user has gone to another session meanwhile.
    refused :
        {w : Workspace Num} (pending : Text)
        → Reach w
        → is_text pending w.active_id ≡ false
        → any (λ t. text_eq t pending) (survivors w.layout) ≡ false
        → Reach (connect_failed pending w)
    opened_local : {w : Workspace Num} (s : Text) → Reach w → Reach (open_local s w)
    opened_files :
        {w : Workspace Num} (s path home : Text) (h : Host)
        → Reach w
        → Reach (open_files s path home h w)
    -- A terminal has been opened beside the session of `t`, the active tab when the split was asked for,
    -- which still has its tab.
    split_off :
        {w : Workspace Num} (hosts : List Host) (t : Tab) (r : OpenTerminalResult)
        (o : SplitOrientation) (k : ℕ)
        → Reach w
        → is_open w.tabs t.session_id ≡ true
        → Reach (split_pane js uuid hosts t r o k w)
    -- The handlers that change `w` by the render `seen`: those that close a tab, by the user or by the
    -- timer of a reconnection, and those that delete a host or a project, when it is current.
    closed :
        {w : Workspace Num} (s : Text) (keep_mux is_running : Bool) (seen : Workspace Num)
        → Reach w
        → IsCurrent seen w
        → Reach (close_tab_from s keep_mux is_running seen w).0
    moved_out :
        {w : Workspace Num} (s : Text) (seen : Workspace Num)
        → Reach w
        → seen.active_id ≡ some s
        → Reach (drop_tab_from s (record seen { tabs = w.tabs }) w)
    host_deleted :
        {w : Workspace Num} (h : Text) (seen : Workspace Num)
        → Reach w
        → IsCurrent seen w
        → Reach (confirm_delete_from h seen w).0
    project_deleted :
        {w : Workspace Num} (p : Text) (seen : Workspace Num)
        → Reach w
        → IsCurrent seen w
        → Reach (confirm_delete_project_from p seen w).0
    -- Locking, by any render.
    locked : {w : Workspace Num} (seen : Workspace Num) → Reach w → Reach (lock_now_from seen w).0
    vault_closed : {w : Workspace Num} → Reach w → Reach (vault_locked w).0
    -- Another window, `v`, has closed, or has moved its tab `t` here.
    reclaimed :
        {v w : Workspace Num} → Reach v → Reach w → Reach (adopt_transfer json (reclaim json v) w)
    adopted :
        {v w : Workspace Num} (t : Tab)
        → Reach v
        → Reach w
        → Reach (adopt_transfer json (move_out json t v) w)
