-- ===== src/Workspace/Tests.antt =====
-- A workspace that connects to a host, splits the pane, and takes over what a closing window shows.
use tethra.Base.{Text, [], arith, codes, false, map, none, refl, some, text_eq, true, ℕ, ◌∷◌, ◌≡◌}
use tethra.Base.Number.{centi}
use tethra.Layout.{horizontal, leaf, split_leaf}
use tethra.Workspace.State.{Host, OpenTerminalResult, Tab, Workspace, local_tab, workspace}
use tethra.Workspace.View.{
  activate_session, add_tab, begin_connect, connect_failed, connect_opened, opened_tab, select_tab,
  split_pane,
}
use tethra.Workspace.Navigate.{next_tab, prev_tab, prev_tab-next_tab}
use tethra.Workspace.Saved.{
  Render, connect, open_local, relaunch, render_all, render_tabs, restore_tabs, save_tabs,
}
use tethra.Workspace.Restored.{as_local, as_terminal, opened, render_all-save}
use tethra.Workspace.SavedCoding.{saved_coding}
use tethra.Workspace.Close.{close_tab, confirm_delete}
use tethra.Workspace.Handover.{adopt_transfer, reclaim}
use tethra.Workspace.Open.{is_open}
use tethra.Workspace.Steps.{empty_workspace}
use tethra.Workspace.Focus.{close_tab-left, confirm_delete-zoomed, connect_failed-begin_connect}
use tethra.Workspace.Coding.{coding}

abbrev fresh : ℕ → Text
fresh k = k ∷ []

abbrev box : Host
box = record { id = codes "h"; label = codes "box"; color = none }

abbrev answer : Text → OpenTerminalResult
answer s = record { session_id = s; agent_forward = none; agent_forward_hint = none }

abbrev waiting : Workspace ℕ
waiting = begin_connect (codes "p") box (codes "m") empty_workspace

abbrev at_work : Workspace ℕ
at_work = connect_opened (codes "p") box (codes "m") (answer (codes "s")) waiting

abbrev first_tab : Tab
first_tab = opened_tab (answer (codes "s")) box (codes "m")

abbrev side_by_side : Workspace ℕ
side_by_side = split_pane centi fresh (box ∷ []) first_tab (answer (codes "t")) horizontal 0 at_work

abbrev taken_over : Workspace ℕ
taken_over = adopt_transfer coding (reclaim coding side_by_side) empty_workspace

-- The window that takes over shows both panes.
taken_over_panes : map (λ t. t.session_id) taken_over.tabs ≡ codes "s" ∷ codes "t" ∷ []
unfolding adopt_transfer reclaim split_pane split_leaf connect_opened begin_connect select_tab
    activate_session add_tab text_eq
taken_over_panes = refl

abbrev shell_and_box : Workspace ℕ
shell_and_box = record {
  tabs = local_tab (codes "l") ∷ first_tab ∷ [];
  layout = some (leaf (codes "s"));
  active_id = some (codes "s");
  zoomed_id = some (codes "s");
  app_mode = workspace;
}

close_tab-left_example :
    (close_tab (codes "s") false false shell_and_box).0.active_id ≡ some (codes "l")
unfolding text_eq
close_tab-left_example =
    close_tab-left (codes "s") false false shell_and_box [] (local_tab (codes "l")) first_tab []
      refl refl refl refl refl

connect_failed-begin_connect_example :
    ((connect_failed (codes "p") (begin_connect (codes "p") box (codes "m") shell_and_box)).tabs
      ≡ shell_and_box.tabs)
    × ((connect_failed
          (codes "p")
          (begin_connect (codes "p") box (codes "m") shell_and_box)).active_id
        ≡ some (codes "p"))
unfolding text_eq
connect_failed-begin_connect_example =
    connect_failed-begin_connect (codes "p") box (codes "m") shell_and_box refl

confirm_delete-zoomed_example :
    ((confirm_delete (codes "h") shell_and_box).0.zoomed_id ≡ some (codes "s"))
    × (is_open (confirm_delete (codes "h") shell_and_box).0.tabs (codes "s") ≡ false)
unfolding text_eq
confirm_delete-zoomed_example =
    confirm_delete-zoomed (codes "h") (codes "s") shell_and_box (local_tab (codes "l")) [] refl refl
      refl

-- The box is the last tab, so that the next one is the first.
prev_tab-next_tab_example : (prev_tab (next_tab shell_and_box)).active_id ≡ some (codes "s")
unfolding text_eq
prev_tab-next_tab_example = prev_tab-next_tab shell_and_box 1 refl (omega arith) refl

abbrev last_render : Render
last_render = record {
  unlocked = true;
  hosts_loaded = true;
  projects_loaded = true;
  tabs = local_tab (codes "l") ∷ first_tab ∷ [];
  projects = [];
  hosts = [];
}

abbrev locked_render : Render
locked_render = record {
  unlocked = false;
  hosts_loaded = false;
  projects_loaded = false;
  tabs = [];
  projects = [];
  hosts = [];
}

abbrev ready_render : Render
ready_render = record {
  unlocked = true;
  hosts_loaded = true;
  projects_loaded = true;
  tabs = [];
  projects = [];
  hosts = box ∷ [];
}

restored_tabs_test :
    restore_tabs [] (box ∷ []) (save_tabs last_render.tabs)
    ≡ open_local ∷ connect box (some (codes "m")) ∷ []
unfolding text_eq
restored_tabs_test = refl

render_all-save_example :
    map opened
      (render_all saved_coding (locked_render ∷ ready_render ∷ []) (
        relaunch
          (render_tabs saved_coding last_render
            (record { restored = true; open_tabs = none })).0)).1
    ≡ as_local ∷ as_terminal (codes "h") (some (codes "m")) ∷ []
unfolding text_eq
render_all-save_example =
    render_all-save saved_coding last_render ready_render (locked_render ∷ []) none refl refl refl
      refl refl
