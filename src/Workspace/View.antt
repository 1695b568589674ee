-- ===== src/Workspace/View.antt =====
-- Opening, focusing, zooming and splitting (apps/ui/src/App.tsx).
use tethra.Base.{
  Bool, List, Option, Text, [], codes, false, find?, if◌then◌else◌, is_empty, is_some, map, none,
  not, some, text_eq, true, ℕ, ◌&&◌, ◌++◌, ◌||◌, ◌∷◌,
}
use tethra.Base.Number.{Numbers}
use tethra.Layout.{LayoutNode, SplitOrientation, contains_session, leaf, node, split_leaf}
use tethra.Workspace.State.{
  Host, OpenTerminalResult, Tab, Workspace, has_session, is_local, is_sftp, keep_zoom, launcher,
  local_tab, new_tab, sftp, terminal, without_session, workspace,
}

abbrev pub pending_tab : Text → Host → Text → Tab
pending_tab pending host mux =
    record (new_tab pending host.id host.label terminal false host.color) { mux_name = some mux }

abbrev pub opened_tab : OpenTerminalResult → Host → Text → Tab
opened_tab r host mux = record (new_tab r.session_id host.id host.label terminal true host.color) {
  mux_name = some mux;
  agent_forward = r.agent_forward;
  agent_forward_hint = r.agent_forward_hint;
}

abbrev pub replace_tab : Text → Tab → List Tab → List Tab
replace_tab s t ts = map (λ u. if has_session s u then t else u) ts

abbrev pub flip_zoom : Text → Option Text → Option Text
flip_zoom a none = some a
flip_zoom a (some z) = if text_eq z a then none else some a

abbrev pub disconnected : Tab → Tab
disconnected t = record t { connected = false }

abbrev pub files_tab : Text → Text → Text → Host → Tab
files_tab s path home host =
    record (new_tab s host.id (host.label ++ codes " files") sftp true host.color) {
      remote_path = some path;
      local_path = some home;
    }

module _ {N : Type 0} where
  abbrev pub pane_layout : Text → Option (LayoutNode N) → LayoutNode N
  pane_layout s none = leaf s
  pane_layout s (some (leaf t)) = leaf s
  pane_layout s (some (node id o r a b)) =
      if contains_session (node id o r a b) s then node id o r a b else leaf s

  unfoldable pub activate_session : Text → Workspace N → Workspace N
  activate_session s w = record w {
    active_id = some s;
    zoomed_id = keep_zoom s w.zoomed_id;
    layout = some (pane_layout s w.layout);
  }

  abbrev pub enter_workspace : Workspace N → Workspace N
  enter_workspace w = record w { app_mode = workspace }

  abbrev pub go_launcher : Workspace N → Workspace N
  go_launcher w = record w { app_mode = launcher; zoomed_id = none }

  abbrev pub launcher_if_empty : List Tab → Workspace N → Workspace N
  launcher_if_empty [] w = go_launcher w
  launcher_if_empty (t ∷ ts) w = w

  unfoldable pub add_tab : Tab → Workspace N → Workspace N
  add_tab t w = record w { tabs = w.tabs ++ t ∷ [] }

  -- `selectTab`, and `connect` to a host with an open terminal.
  unfoldable pub select_tab : Text → Workspace N → Workspace N
  unfolding activate_session
  select_tab s w = enter_workspace (activate_session s w)

  -- `connect` up to its call of `openTerminal`, on a new session.
  unfoldable pub begin_connect : Text → Host → Text → Workspace N → Workspace N
  unfolding select_tab add_tab
  begin_connect pending host mux w = select_tab pending (add_tab (pending_tab pending host mux) w)

  -- The rest of `connect`, when the terminal is open.
  unfoldable pub connect_opened :
      Text → Host → Text → OpenTerminalResult → Workspace N → Workspace N
  unfolding activate_session
  connect_opened pending host mux r w =
      activate_session r.session_id
        (record w { tabs = replace_tab pending (opened_tab r host mux) w.tabs })

  -- The same, when it could not be opened.
  unfoldable pub connect_failed : Text → Workspace N → Workspace N
  connect_failed pending w = record w { tabs = without_session pending w.tabs }

  -- `openFiles`, when the connection is open.
  unfoldable pub open_files : Text → Text → Text → Host → Workspace N → Workspace N
  unfolding select_tab add_tab
  open_files s path home host w = select_tab s (add_tab (files_tab s path home host) w)

  -- `openLocal`, when the shell has been opened.
  unfoldable pub open_local : Text → Workspace N → Workspace N
  unfolding select_tab add_tab
  open_local s w = select_tab s (add_tab (local_tab s) w)

  abbrev pub is_split : Option (LayoutNode N) → Bool
  is_split none = false
  is_split (some (leaf s)) = false
  is_split (some (node id o r a b)) = true

  abbrev pub toggle_zoom_at : Option Text → Workspace N → Workspace N
  toggle_zoom_at none w = w
  toggle_zoom_at (some a) w =
      if is_empty a || (not (is_some w.zoomed_id) && not (is_split w.layout))
      then w
      else record w { zoomed_id = flip_zoom a w.zoomed_id }

  unfoldable pub toggle_zoom : Workspace N → Workspace N
  toggle_zoom w = toggle_zoom_at w.active_id w

  -- A leaf of the split panes takes the focus.
  abbrev pub focus_pane : Text → Workspace N → Workspace N
  focus_pane s w = record w { active_id = some s }

  -- `onLayoutChange`.
  abbrev pub set_layout : LayoutNode N → Workspace N → Workspace N
  set_layout n w = record w { layout = some n }

  -- The terminal's events that change a tab, `closed` among them.
  abbrev pub update_tab : Text → (Tab → Tab) → Workspace N → Workspace N
  update_tab s f w = record w { tabs = map (λ t. if has_session s t then f t else t) w.tabs }

module _ (js : Numbers) (uuid : ℕ → Text) where
  open js use {Num}

  abbrev pub or_leaf : Text → Option (LayoutNode Num) → LayoutNode Num
  or_leaf s none = leaf s
  or_leaf s (some n) = n

  abbrev or_color : Option Text → Option Text → Option Text
  or_color none other = other
  or_color (some c) other = some c

  abbrev host_title : Option Host → Tab → Text
  host_title none t = t.title
  host_title (some h) t = h.label

  abbrev host_color : Option Host → Tab → Option Text
  host_color none t = t.color
  host_color (some h) t = or_color h.color t.color

  abbrev pub split_tab : List Host → Tab → OpenTerminalResult → Tab
  split_tab hosts active r =
      if is_local active.kind
      then local_tab r.session_id
      else let host = find? (λ h. text_eq h.id active.host_id) hosts in
        record (new_tab r.session_id active.host_id (host_title host active) terminal true
          (host_color host active)) {
            agent_forward = r.agent_forward;
            agent_forward_hint = r.agent_forward_hint;
          }

  -- `splitPane` for the tab in focus, when the new session is open; the count is that of the ids drawn.
  unfoldable pub split_pane :
      List Host → Tab → OpenTerminalResult → SplitOrientation → ℕ → Workspace Num → Workspace Num
  unfolding split_leaf
  split_pane hosts active r o k w = if is_sftp active.kind then w else record w {
    tabs = w.tabs ++ split_tab hosts active r ∷ [];
    layout =
        some
          (split_leaf js uuid (or_leaf active.session_id w.layout) active.session_id r.session_id o
            k).0;
    active_id = some r.session_id;
  }
