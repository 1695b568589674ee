-- ===== src/Workspace/Saved.antt =====
-- The open tabs, kept in the local storage and opened again after a relaunch: the two effects on
-- `restoredTabs` in apps/ui/src/App.tsx. A render stands for a change of what the effects depend on. JSON on
-- the list is an interface; a project is its id.
use tethra.Base.{
  Bool, List, Option, Text, [], any, ap, append-nil, arith, codes, false, filter, find?,
  if◌then◌else◌, is_empty, length, map, none, not, refl, some, text_eq, true, ◌&&◌, ◌++◌, ◌==◌,
  ◌||◌, ◌∙◌, ◌∷◌, ◌≡◌,
}
use tethra.Workspace.State.{Host, Tab, is_sftp}

pub record SavedTab : Type 0 where
  pub host_id : Text
  pub mux_name : Option Text
  pub project_id : Option Text

-- `JSON` on the saved tabs; `parse` throws where it gives none.
pub record SavedJson : Type 0 where
  pub stringify : List SavedTab → Text
  pub parse : Text → Option (List SavedTab)
  pub parse-stringify : (ts : List SavedTab) → parse (stringify ts) ≡ some ts

pub data RestoreCall : Type 0 where
  open_project : Text → RestoreCall
  open_local : RestoreCall
  connect : Host → Option Text → RestoreCall

pub record Storage : Type 0 where
  -- `restoredTabs.current`.
  pub restored : Bool
  -- The item `tethra.openTabs`.
  pub open_tabs : Option Text

pub record Render : Type 0 where
  pub unlocked : Bool
  pub hosts_loaded : Bool
  pub projects_loaded : Bool
  pub tabs : List Tab
  pub projects : List Text
  pub hosts : List Host

abbrev pub saved_tab : Tab → SavedTab
saved_tab t = record { host_id = t.host_id; mux_name = t.mux_name; project_id = t.project_id }

abbrev pub save_tabs : List Tab → List SavedTab
save_tabs ts = map saved_tab (filter (λ t. not (is_sftp t.kind)) ts)

abbrev pub project_call : Option Text → List RestoreCall
project_call none = []
project_call (some p) = open_project p ∷ []

abbrev pub host_call : Option Text → Option Host → List RestoreCall
host_call mux none = []
host_call mux (some h) = connect h mux ∷ []

abbrev pub host_entry : List Host → SavedTab → List RestoreCall
host_entry hosts e =
    if text_eq e.host_id (codes "local")
    then open_local ∷ []
    else host_call e.mux_name (find? (λ h. text_eq h.id e.host_id) hosts)

abbrev pub restore_entry : List Text → List Host → SavedTab → Option Text → List RestoreCall
restore_entry projects hosts e none = host_entry hosts e
restore_entry projects hosts e (some p) =
    if is_empty p then host_entry hosts e else project_call (find? (λ q. text_eq q p) projects)

abbrev pub restore_tabs : List Text → List Host → List SavedTab → List RestoreCall
restore_tabs projects hosts [] = []
restore_tabs projects hosts (e ∷ es) =
    restore_entry projects hosts e e.project_id ++ restore_tabs projects hosts es

abbrev pub restore_calls : Render → Option (List SavedTab) → List RestoreCall
restore_calls r none = []
restore_calls r (some saved) = restore_tabs r.projects r.hosts saved

abbrev pub is_ready : Render → Bool
is_ready r = r.unlocked && r.hosts_loaded && r.projects_loaded

-- A program that has just been started.
abbrev pub relaunch : Storage → Storage
relaunch s = record s { restored = false }

module _ (J : SavedJson) where
  abbrev pub save_effect : Render → Storage → Storage
  save_effect r s =
      if not r.unlocked || not s.restored
      then s
      else record s { open_tabs = some (J.stringify (save_tabs r.tabs)) }

  abbrev pub read_saved : Option Text → Option (List SavedTab)
  read_saved none = J.parse (codes "[]")
  read_saved (some text) = J.parse text

  abbrev pub restore_effect : Render → Storage → Storage × List RestoreCall
  restore_effect r s = if s.restored then (s, []) else if not (is_ready r) then (s, []) else (
    record s { restored = true },
    if not (length r.tabs == 0) then [] else restore_calls r (read_saved s.open_tabs),
  )

  -- The effects run in the order in which they are declared.
  unfoldable pub render_tabs : Render → Storage → Storage × List RestoreCall
  render_tabs r s = restore_effect r (save_effect r s)

  unfoldable pub render_all : List Render → Storage → Storage × List RestoreCall
  unfolding render_tabs
  render_all [] s = (s, [])
  render_all (r ∷ rs) s =
      let (s', calls) = render_tabs r s in
      let (s'', more) = render_all rs s' in (s'', calls ++ more)

  abbrev waiting_for : Option Text → Storage
  waiting_for text = record { restored = false; open_tabs = text }

  skipped : (u : Bool) (s t : Storage) → (if not u || true then s else t) ≡ s
  skipped true s t = refl
  skipped false s t = refl

  not_saved :
      (r : Render) (text : Option Text) → save_effect r (waiting_for text) ≡ waiting_for text
  not_saved r text = skipped r.unlocked (waiting_for text) _

  -- What a render does after a launch, if it is ready or not.
  abbrev once : Render → Option Text → Bool → Storage × List RestoreCall
  once r text b = if not b then (waiting_for text, []) else (
    record { restored = true; open_tabs = text },
    if not (length r.tabs == 0) then [] else restore_calls r (read_saved text),
  )

  idle :
      (r : Render) (text : Option Text)
      → is_ready r ≡ false
      → render_tabs r (waiting_for text) ≡ (waiting_for text, [])
  unfolding render_tabs
  idle r text h = ap (restore_effect r) (not_saved r text) ∙ ap (once r text) h

  awake :
      (r : Render) (text : Option Text)
      → is_ready r ≡ true
      → r.tabs ≡ []
      → (render_tabs r (waiting_for text)).1 ≡ restore_calls r (read_saved text)
  unfolding render_tabs
  awake r text h e =
      ap (λ s. (restore_effect r s).1) (not_saved r text)
      ∙ ap (λ b. (once r text b).1) h
      ∙ ap (λ ts. if not (length ts == 0) then [] else restore_calls r (read_saved text)) e

  pub started :
      (waits : List Render) (r : Render) (text : Option Text)
      → any is_ready waits ≡ false
      → is_ready r ≡ true
      → r.tabs ≡ []
      → (render_all (waits ++ r ∷ []) (waiting_for text)).1 ≡ restore_calls r (read_saved text)
  unfolding render_all
  started [] r text w h e = append-nil _ ∙ awake r text h e
  started (v ∷ waits) r text w h e =
      ap (λ x. x.1 ++ (render_all (waits ++ r ∷ []) x.0).1) (idle v text (ground (arith, w)))
      ∙ started waits r text (ground (arith, w)) h e

  pub saved_once :
      (last : Render) (text : Option Text)
      → last.unlocked ≡ true
      → (render_tabs last (record { restored = true; open_tabs = text })).0
        ≡ record { restored = true; open_tabs = some (J.stringify (save_tabs last.tabs)) }
  unfolding render_tabs
  saved_once last text u =
      ap
        (λ b.
          (restore_effect last (
            if not b || false then record { restored = true; open_tabs = text } else record {
              restored = true;
              open_tabs = some (J.stringify (save_tabs last.tabs));
            })).0)
        u
