-- ===== src/Workspace/Handover.antt =====
-- The handover of tabs between windows (apps/ui/src/App.tsx).
use tethra.Base.{Option, Text, [], if◌then◌else◌, is_empty, none, some, ◌∷◌}
use tethra.Layout.{LayoutNode, leaf}
use tethra.Workspace.State.{Json, Tab, Workspace, WorkspaceTransfer, is_text, put_tabs, truthy_or}

module _ {N : Type 0} where
  module _ (json : Json N) where
    open json use {parse, stringify}

    abbrev pub stringify_layout : Option (LayoutNode N) → Option Text
    stringify_layout none = none
    stringify_layout (some n) = some (stringify n)

    abbrev pub parse_layout : Option Text → Option (LayoutNode N)
    parse_layout none = none
    parse_layout (some s) = if is_empty s then none else parse s

    unfoldable pub adopt_transfer : WorkspaceTransfer → Workspace N → Workspace N
    adopt_transfer t w = record w {
      tabs = put_tabs (put_tabs [] w.tabs) t.tabs;
      layout = parse_layout t.layout_json;
      active_id = truthy_or t.active_id w.active_id;
      zoomed_id = truthy_or t.zoomed_id w.zoomed_id;
    }

    -- What a secondary window that closes sends back.
    unfoldable pub reclaim : Workspace N → WorkspaceTransfer
    reclaim w = record {
      tabs = w.tabs;
      layout_json = stringify_layout w.layout;
      active_id = w.active_id;
      zoomed_id = w.zoomed_id;
    }

    abbrev zoom_of : Text → Option Text → Option Text
    zoom_of s zoomed = if is_text s zoomed then some s else none

    -- What `moveActiveToNewWindow` sends for the active tab.
    unfoldable pub move_out : Tab → Workspace N → WorkspaceTransfer
    move_out t w = record {
      tabs = t ∷ [];
      layout_json = some (stringify (leaf t.session_id));
      active_id = some t.session_id;
      zoomed_id = zoom_of t.session_id w.zoomed_id;
    }
