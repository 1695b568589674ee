-- ===== src/Workspace/State.antt =====
-- The state of apps/ui/src/App.tsx that concerns tabs and panes, the messages of
-- apps/ui/src/terminal/windows.ts, and the functions on lists of tabs.
use tethra.Base.{
  Bool, List, Option, Text, [], codes, false, filter, if◌then◌else◌, is_empty, none, not, some, suc,
  text_eq, true, zero, ℕ, ◌&&◌, ◌++◌, ◌-◌, ◌∷◌, ◌≡◌,
}
use tethra.Layout.{LayoutNode}

pub data TabKind : Type 0 where
  terminal local sftp : TabKind

pub data AppMode : Type 0 where
  launcher workspace : AppMode

pub record Tab : Type 0 where
  pub session_id : Text
  pub host_id : Text
  pub title : Text
  pub kind : TabKind
  pub connected : Bool
  pub mux_name : Option Text
  pub color : Option Text
  pub remote_path : Option Text
  pub local_path : Option Text
  pub cwd : Option Text
  pub git_branch : Option Text
  pub project_id : Option Text
  pub agent_forward : Option Text
  pub agent_forward_hint : Option Text

-- The fields of a host that the tabs use.
pub record Host : Type 0 where
  pub id : Text
  pub label : Text
  pub color : Option Text

-- What `openTerminal` resolves to.
pub record OpenTerminalResult : Type 0 where
  pub session_id : Text
  pub agent_forward : Option Text
  pub agent_forward_hint : Option Text

pub data Effect : Type 0 where
  kill_mux_session : Text → Text → Effect
  persist_project_scrollback : Text → Text → Effect
  dispose_terminal close_terminal close_sftp : Text → Effect

pub record Workspace (N : Type 0) : Type 0 where
  pub tabs : List Tab
  pub layout : Option (LayoutNode N)
  pub active_id : Option Text
  pub zoomed_id : Option Text
  pub app_mode : AppMode

-- `JSON` on pane trees; `parse` throws where it gives none.
pub record Json (N : Type 0) : Type 0 where
  pub stringify : LayoutNode N → Text
  pub parse : Text → Option (LayoutNode N)
  pub parse-stringify : (n : LayoutNode N) → parse (stringify n) ≡ some n

pub record WorkspaceTransfer : Type 0 where
  pub tabs : List Tab
  pub layout_json : Option Text
  pub active_id : Option Text
  pub zoomed_id : Option Text

-- A tab with the fields that every caller gives.
abbrev pub new_tab : Text → Text → Text → TabKind → Bool → Option Text → Tab
new_tab s host title kind connected color = record {
  session_id = s;
  host_id = host;
  title = title;
  kind = kind;
  connected = connected;
  mux_name = none;
  color = color;
  remote_path = none;
  local_path = none;
  cwd = none;
  git_branch = none;
  project_id = none;
  agent_forward = none;
  agent_forward_hint = none;
}

abbrev pub local_tab : Text → Tab
local_tab s = new_tab s (codes "local") (codes "Local") local true (some (codes "#8B8B8B"))

abbrev pub has_session : Text → Tab → Bool
has_session s t = text_eq t.session_id s

abbrev pub has_host : Text → Tab → Bool
has_host h t = text_eq t.host_id h

abbrev pub is_text : Text → Option Text → Bool
is_text s none = false
is_text s (some t) = text_eq t s

abbrev pub has_project : Text → Tab → Bool
has_project p t = is_text p t.project_id

abbrev pub is_local : TabKind → Bool
is_local local = true
is_local terminal = false
is_local sftp = false

abbrev pub is_sftp : TabKind → Bool
is_sftp sftp = true
is_sftp terminal = false
is_sftp local = false

abbrev pub is_local_tab : Tab → Bool
is_local_tab t = is_local t.kind

-- `tabs[index]?.sessionId`.
abbrev pub session_at : List Tab → ℕ → Option Text
session_at [] i = none
session_at (t ∷ ts) zero = some t.session_id
session_at (t ∷ ts) (suc i) = session_at ts i

abbrev pub next_index : Option ℕ → Option ℕ
next_index none = none
next_index (some i) = some (suc i)

-- `findIndex`, with none for -1.
abbrev pub find_index : Text → List Tab → Option ℕ
find_index s [] = none
find_index s (t ∷ ts) =
    let later = next_index (find_index s ts) in if has_session s t then some 0 else later

-- `Math.max(0, index - 1)`.
abbrev pub left_of : Option ℕ → ℕ
left_of none = 0
left_of (some i) = i - 1

abbrev pub without_session : Text → List Tab → List Tab
without_session s ts = filter (λ t. not (has_session s t)) ts

-- The session that takes the focus when `s` goes.
abbrev pub focus_after : Text → List Tab → Option Text
focus_after s ts = session_at (without_session s ts) (left_of (find_index s ts))

-- `setZoomedId(undefined)` if it is `s`.
abbrev pub unzoom : Text → Option Text → Option Text
unzoom s none = none
unzoom s (some z) = if text_eq z s then none else some z

abbrev pub keep_zoom : Text → Option Text → Option Text
keep_zoom s none = none
keep_zoom s (some z) = if not (is_empty z) && not (text_eq z s) then none else some z

abbrev pub persist : Tab → Option Text → List Effect
persist t none = []
persist t (some p) = if is_empty p then [] else persist_project_scrollback t.session_id p ∷ []

abbrev pub close_effects : Tab → List Effect
close_effects t =
    if is_sftp t.kind
    then close_sftp t.session_id ∷ []
    else persist t t.project_id ++ dispose_terminal t.session_id ∷ close_terminal t.session_id ∷ []

-- The tab moved to another window: the session stays.
abbrev pub detach_effects : Tab → List Effect
detach_effects t =
    if is_sftp t.kind then [] else persist t t.project_id ++ dispose_terminal t.session_id ∷ []

-- A tab of the map `byId`, which keeps the place of a tab that it replaces.
abbrev pub put_tab : Tab → List Tab → List Tab
put_tab t [] = t ∷ []
put_tab t (u ∷ us) = if has_session t.session_id u then t ∷ us else u ∷ put_tab t us

abbrev pub put_tabs : List Tab → List Tab → List Tab
put_tabs acc [] = acc
put_tabs acc (t ∷ ts) = put_tabs (put_tab t acc) ts

abbrev pub truthy_or : Option Text → Option Text → Option Text
truthy_or none old = old
truthy_or (some s) old = if is_empty s then old else some s
