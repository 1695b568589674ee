-- ===== src/Workspace/Close.antt =====
-- Closing tabs, deleting hosts and projects, and locking the vault (apps/ui/src/App.tsx). A handler reads the
-- tabs and the session in focus of the render that made it, `seen`; when it has waited for the backend, or
-- a timer has called it, that may no longer be the workspace `w` that it changes.
use tethra.Base.{
  Bool, List, Option, Text, [], any, false, filter, find?, flat_map, if◌then◌else◌, is_empty, none,
  not, some, ◌&&◌, ◌++◌, ◌∷◌,
}
use tethra.Layout.{LayoutNode, remove_session}
use tethra.Workspace.State.{
  Effect, Tab, Workspace, close_effects, close_sftp, close_terminal, detach_effects,
  dispose_terminal, focus_after, has_host, has_project, has_session, is_local, is_local_tab,
  is_sftp, is_text, kill_mux_session, launcher, session_at, without_session,
}
use tethra.Workspace.View.{launcher_if_empty}

abbrev pub truthy : Option Text → Bool
truthy none = false
truthy (some s) = not (is_empty s)

abbrev is_plain_terminal : Tab → Bool
is_plain_terminal t = not (is_sftp t.kind) && not (is_local t.kind) && not (truthy t.project_id)

abbrev kill_mux : Tab → Option Text → List Effect
kill_mux t none = []
kill_mux t (some m) = if is_empty m then [] else kill_mux_session t.host_id m ∷ []

-- `is_running`: whether the session belongs to a running agent.
abbrev close_tab_effects : Text → Bool → Bool → Option Tab → List Effect
close_tab_effects s keep_mux is_running none = close_sftp s ∷ []
close_tab_effects s keep_mux is_running (some t) =
    (if not keep_mux && is_plain_terminal t && not is_running then kill_mux t t.mux_name else [])
    ++ close_effects t

abbrev pub is_active : Option Text → Tab → Bool
is_active active t = is_text t.session_id active

abbrev is_terminal : Tab → Bool
is_terminal t = not (is_sftp t.kind) && not (is_local t.kind)

-- `confirmDelete` takes every tab of the host that is no terminal for a file browser.
abbrev host_effects : Tab → List Effect
host_effects t = if is_terminal t then close_effects t else close_sftp t.session_id ∷ []

abbrev project_effects : Tab → List Effect
project_effects t =
    if is_sftp t.kind then [] else dispose_terminal t.session_id ∷ close_terminal t.session_id ∷ []

abbrev pub active_among : List Tab → Option Text → Option Text
active_among ts active = if any (is_active active) ts then active else session_at ts 0

module _ {N : Type 0} where
  abbrev pub layout_without : Text → Option (LayoutNode N) → Option (LayoutNode N)
  layout_without s none = none
  layout_without s (some n) = remove_session n s

  -- What `closeTab` does to the view, and, where the tabs are those of `w`, the move to a new window.
  unfoldable pub drop_tab_from : Text → Workspace N → Workspace N → Workspace N
  drop_tab_from s seen w = record w {
    tabs = without_session s seen.tabs;
    layout = layout_without s w.layout;
    zoomed_id = if is_text s seen.zoomed_id then none else w.zoomed_id;
    active_id = if is_text s seen.active_id then focus_after s seen.tabs else w.active_id;
  }

  unfoldable pub drop_tab : Text → Workspace N → Workspace N
  unfolding drop_tab_from
  drop_tab s w = drop_tab_from s w w

  unfoldable pub close_tab_from :
      Text → Bool → Bool → Workspace N → Workspace N → Workspace N × List Effect
  unfolding drop_tab_from
  close_tab_from s keep_mux is_running seen w = (
    launcher_if_empty (without_session s seen.tabs) (drop_tab_from s seen w),
    close_tab_effects s keep_mux is_running (find? (has_session s) seen.tabs),
  )

  unfoldable pub close_tab : Text → Bool → Bool → Workspace N → Workspace N × List Effect
  unfolding close_tab_from drop_tab
  close_tab s keep_mux is_running w = close_tab_from s keep_mux is_running w w

  -- The loop of `confirmDelete` and `confirmDeleteProject`.
  abbrev pub layout_without_all : List Tab → Option (LayoutNode N) → Option (LayoutNode N)
  layout_without_all [] l = l
  layout_without_all (t ∷ ts) none = none
  layout_without_all (t ∷ ts) (some n) = layout_without_all ts (remove_session n t.session_id)

  -- What both do to the view, `gone` being the test on the tabs.
  unfoldable pub drop_related_from : (Tab → Bool) → Workspace N → Workspace N → Workspace N
  drop_related_from gone seen w =
      let related = filter gone seen.tabs in
      let next_tabs = filter (λ t. not (gone t)) seen.tabs in
      launcher_if_empty next_tabs (record w {
        tabs = next_tabs;
        active_id =
            if any (is_active seen.active_id) related then session_at next_tabs 0 else w.active_id;
        layout = layout_without_all related w.layout;
      })

  unfoldable pub drop_related : (Tab → Bool) → Workspace N → Workspace N
  unfolding drop_related_from
  drop_related gone w = drop_related_from gone w w

  unfoldable pub confirm_delete_from : Text → Workspace N → Workspace N → Workspace N × List Effect
  unfolding drop_related_from flat_map
  confirm_delete_from host seen w = (
    drop_related_from (has_host host) seen w,
    flat_map host_effects (filter (has_host host) seen.tabs),
  )

  unfoldable pub confirm_delete : Text → Workspace N → Workspace N × List Effect
  unfolding confirm_delete_from drop_related
  confirm_delete host w = confirm_delete_from host w w

  unfoldable pub confirm_delete_project_from :
      Text → Workspace N → Workspace N → Workspace N × List Effect
  unfolding drop_related_from flat_map
  confirm_delete_project_from project seen w = (
    drop_related_from (has_project project) seen w,
    flat_map project_effects (filter (has_project project) seen.tabs),
  )

  unfoldable pub lock_now_from : Workspace N → Workspace N → Workspace N × List Effect
  unfolding flat_map
  lock_now_from seen w =
      let local_tabs = filter is_local_tab seen.tabs in
      (
        record w {
          tabs = local_tabs;
          layout = none;
          zoomed_id = none;
          active_id = session_at local_tabs 0;
        },
        flat_map close_effects seen.tabs,
      )

  unfoldable pub lock_now : Workspace N → Workspace N × List Effect
  unfolding lock_now_from
  lock_now w = lock_now_from w w

  -- The effect of a vault that is locked.
  unfoldable pub vault_locked : Workspace N → Workspace N × List Effect
  unfolding flat_map
  vault_locked w =
      let local_tabs = filter is_local_tab w.tabs in
      (
        record w {
          tabs = local_tabs;
          layout = none;
          zoomed_id = none;
          active_id = active_among local_tabs w.active_id;
          app_mode = launcher;
        },
        flat_map detach_effects w.tabs,
      )
