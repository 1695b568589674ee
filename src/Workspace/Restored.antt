-- ===== src/Workspace/Restored.antt =====
-- What the next launch opens of the tabs that were open (apps/ui/src/App.tsx).
use tethra.Base.{
  Bool, Bool-cases, List, Option, Text, [], all, any, ap, arith, codes, eq_of_text_eq, false,
  filter, find?, if◌then◌else◌, inl, inr, map, map-append, none, not, refl, some, text_eq, true,
  ◌++◌, ◌∙◌, ◌∷◌, ◌≡◌,
}
use tethra.Workspace.State.{Host, Tab, is_sftp}
use tethra.Workspace.Saved.{
  Render, RestoreCall, SavedJson, connect, host_call, host_entry, is_ready, open_local,
  open_project, project_call, relaunch, render_all, render_tabs, restore_calls, restore_entry,
  restore_tabs, save_tabs, saved_once, saved_tab, started,
}

-- What a tab is opened as: a project, a local shell, or a terminal of a host with its multiplexer.
pub data Opening : Type 0 where
  as_project : Text → Opening
  as_local : Opening
  as_terminal : Text → Option Text → Opening

abbrev pub opening_of_host : Tab → Opening
opening_of_host t =
    if text_eq t.host_id (codes "local") then as_local else as_terminal t.host_id t.mux_name

abbrev pub opening_of_project : Tab → Option Text → Opening
opening_of_project t none = opening_of_host t
opening_of_project t (some []) = opening_of_host t
opening_of_project t (some (c ∷ cs)) = as_project (c ∷ cs)

abbrev pub opening_of : Tab → Opening
opening_of t = opening_of_project t t.project_id

-- What a call opens.
abbrev pub opened : RestoreCall → Opening
opened (open_project p) = as_project p
opened open_local = as_local
opened (connect h mux) = as_terminal h.id mux

-- The project or the host that a tab needs is still there.
abbrev pub is_known : List Text → List Host → Opening → Bool
is_known projects hosts (as_project p) = any (λ q. text_eq q p) projects
is_known projects hosts as_local = true
is_known projects hosts (as_terminal h mux) = any (λ k. text_eq k.id h) hosts

known_project :
    (p : Text) (projects : List Text)
    → any (λ q. text_eq q p) projects ≡ true
    → map opened (project_call (find? (λ q. text_eq q p) projects)) ≡ as_project p ∷ []
known_project p [] h = ground (arith, h)
known_project p (q ∷ qs) h = elim (Bool-cases (text_eq q p)) [
  | inl e ↦ rw e (ap (λ r. as_project r ∷ []) (eq_of_text_eq q p e))
  | inr e ↦ rw e (known_project p qs (ground (arith, h, e)))
]

known_host :
    (id : Text) (mux : Option Text) (hosts : List Host)
    → any (λ k. text_eq k.id id) hosts ≡ true
    → map opened (host_call mux (find? (λ k. text_eq k.id id) hosts)) ≡ as_terminal id mux ∷ []
known_host id mux [] h = ground (arith, h)
known_host id mux (k ∷ ks) h = elim (Bool-cases (text_eq k.id id)) [
  | inl e ↦ rw e (ap (λ r. as_terminal r mux ∷ []) (eq_of_text_eq k.id id e))
  | inr e ↦ rw e (known_host id mux ks (ground (arith, h, e)))
]

host_opened :
    (projects : List Text) (hosts : List Host) (t : Tab)
    → is_known projects hosts (opening_of_host t) ≡ true
    → map opened (host_entry hosts (saved_tab t)) ≡ opening_of_host t ∷ []
host_opened projects hosts t h = elim (Bool-cases (text_eq t.host_id (codes "local"))) [
  | inl e ↦ rw e refl
  | inr e ↦ rw e (known_host t.host_id t.mux_name hosts (rw e at h))
]

entry_opened :
    (projects : List Text) (hosts : List Host) (t : Tab) (p : Option Text)
    → is_known projects hosts (opening_of_project t p) ≡ true
    → map opened (restore_entry projects hosts (saved_tab t) p) ≡ opening_of_project t p ∷ []
entry_opened projects hosts t none h = host_opened projects hosts t h
entry_opened projects hosts t (some []) h = host_opened projects hosts t h
entry_opened projects hosts t (some (c ∷ cs)) h = known_project (c ∷ cs) projects h

abbrev pub is_kept : Tab → Bool
is_kept t = not (is_sftp t.kind)

abbrev pub all_known : List Text → List Host → List Tab → Bool
all_known projects hosts ts = all (λ t. is_known projects hosts (opening_of t)) ts

tabs_opened :
    (projects : List Text) (hosts : List Host) (ts : List Tab)
    → all_known projects hosts ts ≡ true
    → map opened (restore_tabs projects hosts (map saved_tab ts)) ≡ map opening_of ts
tabs_opened projects hosts [] h = refl
tabs_opened projects hosts (t ∷ ts) h =
    map-append opened (restore_entry projects hosts (saved_tab t) t.project_id)
      (restore_tabs projects hosts (map saved_tab ts))
    ∙ ap (λ l. l ++ map opened (restore_tabs projects hosts (map saved_tab ts)))
        (entry_opened projects hosts t t.project_id (ground (arith, h)))
    ∙ ap (λ l. opening_of t ∷ l) (tabs_opened projects hosts ts (ground (arith, h)))

module _ (J : SavedJson) where
  -- The terminals and local shells that are open at a render with the vault unlocked, when that run has
  -- decided on its own restoration, are what the next launch opens, in their order, when their projects and hosts are still known: a tab of
  -- a project as the project, a local shell as one, and any other as a terminal of its host with the name of
  -- its multiplexer. The browsers of files are not among them. However often it renders before the vault is
  -- unlocked and the hosts and projects are loaded, the list is not overwritten; the first render that is
  -- ready, without a tab, opens it.
  pub render_all-save :
      (last r : Render) (waits : List Render) (text : Option Text)
      → last.unlocked ≡ true
      → any is_ready waits ≡ false
      → is_ready r ≡ true
      → r.tabs ≡ []
      → all_known r.projects r.hosts (filter is_kept last.tabs) ≡ true
      → (let s = (render_tabs J last (record { restored = true; open_tabs = text })).0 in
          map opened (render_all J (waits ++ r ∷ []) (relaunch s)).1
          ≡ map opening_of (filter is_kept last.tabs))
  render_all-save last r waits text u w h e k =
      let saved = some (J.stringify (save_tabs last.tabs)) in
      ap (λ s. map opened (render_all J (waits ++ r ∷ []) (relaunch s)).1)
        (saved_once J last text u)
      ∙ ap (map opened) (
          started J waits r saved w h e
          ∙ ap (restore_calls r) (J.parse-stringify (save_tabs last.tabs)))
      ∙ tabs_opened r.projects r.hosts (filter is_kept last.tabs) k
