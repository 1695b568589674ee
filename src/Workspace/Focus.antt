-- ===== src/Workspace/Focus.antt =====
-- Which session is in focus or zoomed after a tab is closed, a connection fails or a host is deleted, and
-- what the lock closes.
use tethra.Base.{
  Bool, List, Option, Text, [], all, any, any-append, ap, arith, false, filter, flat_map,
  if◌then◌else◌, length, not, refl, some, suc, text_eq, text_eq_refl, true, ℕ, ◌++◌, ◌-◌, ◌||◌, ◌∙◌,
  ◌∷◌, ◌≡◌,
}
use tethra.Workspace.State.{
  Effect, Host, Tab, TabKind, Workspace, close_effects, close_sftp, close_terminal,
  dispose_terminal, find_index, focus_after, has_host, has_session, is_local, is_local_tab, is_sftp,
  is_text, kill_mux_session, local, persist, persist_project_scrollback, session_at, sftp, terminal,
  without_session,
}
use tethra.Workspace.View.{
  activate_session, add_tab, begin_connect, connect_failed, launcher_if_empty, pending_tab,
  select_tab,
}
use tethra.Workspace.Close.{close_tab, confirm_delete, drop_related, drop_tab, lock_now}
use tethra.Workspace.Open.{is_open}

abbrev pub has_other : Text → Tab → Bool
has_other s t = not (has_session s t)

not_first :
    (s : Text) (x : Tab) (pre : List Tab)
    → all (has_other s) (x ∷ pre) ≡ true
    → has_session s x ≡ false
not_first s x pre h = ground arith

all_rest : (p : Tab → Bool) (x : Tab) (xs : List Tab) → all p (x ∷ xs) ≡ true → all p xs ≡ true
all_rest p x xs h = ground arith

find_index_left :
    (s : Text) (pre : List Tab) (p t : Tab) (post : List Tab)
    → all (has_other s) pre ≡ true
    → has_session s p ≡ false
    → has_session s t ≡ true
    → find_index s (pre ++ p ∷ t ∷ post) ≡ some (suc (length pre))
find_index_left s [] p t post h n e = rw (n, e) refl
find_index_left s (x ∷ pre) p t post h n e =
    rw (not_first s x pre h, find_index_left s pre p t post (all_rest (has_other s) x pre h) n e)
      refl

session_at_left :
    (s : Text) (pre : List Tab) (p : Tab) (post : List Tab)
    → all (has_other s) pre ≡ true
    → has_session s p ≡ false
    → session_at (without_session s (pre ++ p ∷ post)) (length pre) ≡ some p.session_id
session_at_left s [] p post h n = rw n refl
session_at_left s (x ∷ pre) p post h n =
    rw (not_first s x pre h) (session_at_left s pre p post (all_rest (has_other s) x pre h) n)

minus_one : (n : ℕ) → suc n - 1 ≡ n
minus_one n = omega arith

focus_left :
    (s : Text) (ts : List Tab) (o : Option Text) (pre : List Tab) (p t : Tab) (post : List Tab)
    → ts ≡ pre ++ p ∷ t ∷ post
    → o ≡ some s
    → all (has_other s) pre ≡ true
    → has_session s p ≡ false
    → has_session s t ≡ true
    → (if is_text s o then focus_after s ts else o) ≡ some p.session_id
focus_left s ts o pre p t post e a h n c =
    rw (e, a, text_eq_refl s, find_index_left s pre p t post h n c, minus_one (length pre))
      (session_at_left s pre p (t ∷ post) h n)

without_last :
    (s : Text) (ts : List Tab) (t : Tab)
    → is_open ts s ≡ false
    → has_session s t ≡ true
    → without_session s (ts ++ t ∷ []) ≡ ts
without_last s [] t h e = rw e refl
without_last s (x ∷ ts) t h e = ground (arith, without_last s ts t)

gone-host :
    (host z : Text) (ts : List Tab)
    → all (λ u. not (has_session z u) || has_host host u) ts ≡ true
    → is_open (filter (λ u. not (has_host host u)) ts) z ≡ false
gone-host host z [] h = refl
gone-host host z (t ∷ ts) h = ground (arith, gone-host host z ts)

abbrev pub closes_terminal : Text → Effect → Bool
closes_terminal s (close_terminal t) = text_eq t s
closes_terminal s (kill_mux_session h m) = false
closes_terminal s (persist_project_scrollback t p) = false
closes_terminal s (dispose_terminal t) = false
closes_terminal s (close_sftp t) = false

not_sftp : (k : TabKind) → is_local k ≡ true → is_sftp k ≡ false
not_sftp terminal h = refl
not_sftp local h = refl
not_sftp sftp h = cc

closes-local :
    (s : Text) (t : Tab)
    → is_local t.kind ≡ true
    → has_session s t ≡ true
    → any (closes_terminal s) (close_effects t) ≡ true
closes-local s t l e =
    rw
      (
        not_sftp t.kind l,
        any-append (closes_terminal s) (persist t t.project_id)
            (dispose_terminal t.session_id ∷ close_terminal t.session_id ∷ []),
      )
      (ground arith)

kept-closes :
    (s : Text) (ts : List Tab)
    → is_open (filter is_local_tab ts) s ≡ true
    → any (closes_terminal s) (flat_map close_effects ts) ≡ true
unfolding flat_map
kept-closes s [] h = cc
kept-closes s (t ∷ ts) h =
    rw (any-append (closes_terminal s) (close_effects t) (flat_map close_effects ts))
      (ground (arith, closes-local s t, kept-closes s ts))

module _ {N : Type 0} where
  pub launcher_if_empty-active :
      (ts : List Tab) (w : Workspace N) → (launcher_if_empty ts w).active_id ≡ w.active_id
  launcher_if_empty-active [] w = refl
  launcher_if_empty-active (t ∷ ts) w = refl

  -- Closing the tab in focus moves the focus to the tab on its left, when there is one.
  pub close_tab-left :
      (s : Text) (keep_mux is_running : Bool) (w : Workspace N) (pre : List Tab) (p t : Tab)
      (post : List Tab)
      → w.tabs ≡ pre ++ p ∷ t ∷ post
      → w.active_id ≡ some s
      → all (has_other s) pre ≡ true
      → has_session s p ≡ false
      → has_session s t ≡ true
      → (close_tab s keep_mux is_running w).0.active_id ≡ some p.session_id
  unfolding close_tab drop_tab
  close_tab-left s keep_mux is_running w pre p t post e a h n c =
      launcher_if_empty-active (without_session s w.tabs) (drop_tab s w)
      ∙ focus_left s w.tabs w.active_id pre p t post e a h n c

  -- When the connection for a new tab fails, the tab goes, and the focus stays on it: no tab of the
  -- window is in focus.
  pub connect_failed-begin_connect :
      (pending : Text) (host : Host) (mux : Text) (w : Workspace N)
      → is_open w.tabs pending ≡ false
      → ((connect_failed pending (begin_connect pending host mux w)).tabs ≡ w.tabs)
        × ((connect_failed pending (begin_connect pending host mux w)).active_id ≡ some pending)
  unfolding connect_failed begin_connect select_tab activate_session add_tab
  connect_failed-begin_connect pending host mux w h =
      (without_last pending w.tabs (pending_tab pending host mux) h (text_eq_refl pending), refl)

  launcher_if_empty-zoom :
      (t : Tab) (ts us : List Tab) (w : Workspace N)
      → us ≡ t ∷ ts
      → (launcher_if_empty us w).zoomed_id ≡ w.zoomed_id
  launcher_if_empty-zoom t ts us w e = rw e refl

  pub launcher_if_empty-tabs :
      (ts : List Tab) (w : Workspace N) → (launcher_if_empty ts w).tabs ≡ w.tabs
  launcher_if_empty-tabs [] w = refl
  launcher_if_empty-tabs (t ∷ ts) w = refl

  -- Deleting a host takes away the tab of a zoomed pane of the host and leaves the pane zoomed, provided
  -- that a tab of another host is left.
  pub confirm_delete-zoomed :
      (host z : Text) (w : Workspace N) (t : Tab) (ts : List Tab)
      → w.zoomed_id ≡ some z
      → all (λ u. not (has_session z u) || has_host host u) w.tabs ≡ true
      → filter (λ u. not (has_host host u)) w.tabs ≡ t ∷ ts
      → ((confirm_delete host w).0.zoomed_id ≡ some z)
        × (is_open (confirm_delete host w).0.tabs z ≡ false)
  unfolding confirm_delete drop_related
  confirm_delete-zoomed host z w t ts e h k = (
    launcher_if_empty-zoom t ts _ _ k ∙ e,
    ap (λ us. is_open us z) (launcher_if_empty-tabs (filter (λ u. not (has_host host u)) w.tabs) _)
        ∙ gone-host host z w.tabs h,
  )

  -- Locking closes the shell of every tab that it keeps.
  pub lock_now-kept :
      (w : Workspace N) (s : Text)
      → is_open (lock_now w).0.tabs s ≡ true
      → any (closes_terminal s) (lock_now w).1 ≡ true
  unfolding lock_now
  lock_now-kept w s h = kept-closes s w.tabs h
