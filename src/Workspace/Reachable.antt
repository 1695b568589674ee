-- ===== src/Workspace/Reachable.antt =====
-- The workspaces that come up keep their panes and their focus on open tabs.
use tethra.Workspace.State.{Workspace}
