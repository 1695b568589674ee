-- ===== src/Workspace.antt =====
-- The workspace of a window (apps/ui/src/App.tsx): the open tabs, the pane tree, the session in focus, the
-- zoomed one, and the handover of tabs to another window (apps/ui/src/terminal/windows.ts). An update of
-- React's state is applied at once. What an operation asks of the terminals and of the backend is a list
-- of effects. JSON is an interface; ids of sessions and windows are given from outside.
pub mod State
pub mod View
pub mod Close
pub mod Handover
pub mod Open
pub mod Stale
pub mod Steps
pub mod Invariant
pub mod Calls
pub mod Reachable
pub mod Focus
pub mod Navigate
pub mod Saved
pub mod Restored
mod Coding
mod SavedCoding
mod Tests
