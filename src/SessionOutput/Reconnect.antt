-- ===== src/SessionOutput/Reconnect.antt =====
-- How often and how soon a session that was dropped is connected again.
use tethra.Workspace.Open.{is_open}
use tethra.SessionOutput.Attach.{forget_session, open_tab}
use tethra.Blocks.{TerminalBlockPhase, command_end, command_start, output_start, prompt_start, ℤ}
use tethra.Attention.{
  AgentAttentionState, Notification, NotifyPrefs, SessionAttention, maybe_notify_attention,
  merge_attention, running,
}
use tethra.Base.{
  Bool, Bool-cases, List, Option, Text, [], any, ap, arith, codes, false, find?, if-intro, inl, inr,
  is_empty, ltb, none, not, refl, some, suc, tests, text_eq, true, ℕ, ◌&&◌, ◌++◌, ◌+◌, ◌-◌, ◌||◌,
  ◌∙◌, ◌∷◌, ◌≡◌, ◌≤◌,
}
use tethra.Base.TextMap.{delete, get, get-delete, get-put, get-put_self, put}
use tethra.SessionOutput.{
  Output, RunningSession, SessionEffect, TerminalEvent, apply_pty_attention, attention_event,
  block_attention, block_event, bytes_event, change_notice, closed_event, exit_state, find_running,
  handle, handle_all, handle_attention, handle_block, handle_bytes, handle_closed, ignores,
  is_remote_terminal, is_running_state, notice, notify, or_zero, plain_attention, put_attention,
  queue_block_phase, raise_running, reconnect_after, reconnect_later, reconnect_mux, reconnect_tab,
  same_attention, same_state, schedule_flush_block_phases, set_disconnected, store_exit_code,
  title_of, write_terminal, write_terminal_message,
}
use tethra.Workspace.State.{Tab, has_session, without_session}

-- How many reconnections are among the effects.
abbrev pub reconnects : List SessionEffect → ℕ
reconnects [] = 0
reconnects (reconnect_later s host mux delay ∷ es) = suc (reconnects es)
reconnects (write_terminal s bytes ∷ es) = reconnects es
reconnects (write_terminal_message s text ∷ es) = reconnects es
reconnects (queue_block_phase s phase code ∷ es) = reconnects es
reconnects (schedule_flush_block_phases s ∷ es) = reconnects es
reconnects (notify n ∷ es) = reconnects es

reconnects-append : (a b : List SessionEffect) → reconnects (a ++ b) ≡ reconnects a + reconnects b
reconnects-append [] b = omega arith
reconnects-append (reconnect_later s host mux delay ∷ es) b = omega (arith, reconnects-append es b)
reconnects-append (write_terminal s bytes ∷ es) b = reconnects-append es b
reconnects-append (write_terminal_message s text ∷ es) b = reconnects-append es b
reconnects-append (queue_block_phase s phase code ∷ es) b = reconnects-append es b
reconnects-append (schedule_flush_block_phases s ∷ es) b = reconnects-append es b
reconnects-append (notify n ∷ es) b = reconnects-append es b

abbrev pub tries : Text → Output → ℕ
tries s o = or_zero (get s o.reconnect_attempts)

-- Nothing that concerns the reconnection.
abbrev Quiet : Output → Output × List SessionEffect → Type 0
Quiet o (r, effects) = (r.reconnect_attempts ≡ o.reconnect_attempts) × (reconnects effects ≡ 0)

reconnects-notice : (n : Option Notification) → reconnects (notice n) ≡ 0
reconnects-notice none = refl
reconnects-notice (some n) = refl

module _ (prefs : NotifyPrefs) (s : Text) where
  reconnects-change_notice :
      (i : Text) (prev : Option SessionAttention) (merged : SessionAttention)
      (r : Option RunningSession)
      → reconnects (change_notice prefs i prev merged r) ≡ 0
  reconnects-change_notice i prev merged r =
      if-intro (λ es. reconnects es ≡ 0)
        (same_attention prev merged
          || same_state prev merged.state
          || is_running_state merged.state)
        refl
        (reconnects-notice
          (maybe_notify_attention prefs merged.state (title_of r) merged.message i))

  raise_running-Quiet :
      (r : Option Text) (next : SessionAttention) (source : Text) (o : Output)
      → Quiet o (raise_running prefs r next source o)
  raise_running-Quiet none next source o = (refl, refl)
  raise_running-Quiet (some i) next source o =
      let prev = get i o.session_attention in
      (
        refl,
        reconnects-change_notice i prev (merge_attention prev next source)
            (find_running i o.running_sessions),
      )

  apply_pty_attention-Quiet :
      (next : SessionAttention) (source : Text) (o : Output)
      → Quiet o (apply_pty_attention prefs s next source o)
  unfolding apply_pty_attention
  apply_pty_attention-Quiet next source o =
      raise_running-Quiet (get s o.pty_to_running) next source (record o {
        pty_attention =
            put_attention s (merge_attention (get s o.pty_attention) next source) o.pty_attention;
      })

  block_attention-Quiet :
      (phase : TerminalBlockPhase) (code : Option ℤ) (o : Output)
      → Quiet o (block_attention prefs s phase code o)
  block_attention-Quiet prompt_start code o = (refl, refl)
  block_attention-Quiet command_start code o =
      apply_pty_attention-Quiet (plain_attention running none) (codes "activity") o
  block_attention-Quiet output_start code o =
      apply_pty_attention-Quiet (plain_attention running none) (codes "activity") o
  block_attention-Quiet command_end none o = (refl, refl)
  block_attention-Quiet command_end (some code) o =
      apply_pty_attention-Quiet (plain_attention (exit_state code) none) (codes "exit") o

  handle_block-Quiet :
      (phase : TerminalBlockPhase) (code : Option ℤ) (o : Output)
      → Quiet o (handle_block prefs s phase code o)
  handle_block-Quiet phase none o = block_attention-Quiet phase none o
  handle_block-Quiet phase (some code) o =
      let q = block_attention-Quiet phase (some code) (store_exit_code s (some code) o) in
      (q.0, q.1)

  handle_attention-Quiet :
      (agent : Bool) (state : AgentAttentionState) (message : Option Text) (source : Text)
      (o : Output)
      → Quiet o (handle_attention prefs s agent state message source o)
  handle_attention-Quiet agent state message source o =
      if-intro (Quiet o) (ignores s agent source o) (refl, refl)
        (apply_pty_attention-Quiet (plain_attention state message) source o)

-- A step adds its reconnections to the count, up to three.
abbrev Counts : Text → Output → Output × List SessionEffect → Type 0
Counts s o (r, effects) =
    (tries s r ≡ tries s o + reconnects effects) × (reconnects effects ≤ 3 - tries s o)

Counts-Quiet : (s : Text) (o : Output) (x : Output × List SessionEffect) → Quiet o x → Counts s o x
Counts-Quiet s o x q = omega (arith, ap (λ m. or_zero (get s m)) q.0, q.1)

reconnect_after-Counts :
    (s : Text) (t : Tab) (mux : Text) (o : Output)
    → Counts s o (reconnect_after s t mux (tries s o) o)
reconnect_after-Counts s t mux o = elim (Bool-cases (ltb (tries s o) 3)) [
  | inl e ↦ rw e (
      let n : tries s
            (record o { reconnect_attempts = put s (suc (tries s o)) o.reconnect_attempts })
          ≡ suc (tries s o) =
        ap or_zero (get-put_self s (suc (tries s o)) o.reconnect_attempts) in
      omega (tests, n, e))
  | inr e ↦ rw e (omega arith)
]

reconnect_mux-Counts :
    (s : Text) (t : Tab) (mux : Option Text) (o : Output) → Counts s o (reconnect_mux s t mux o)
reconnect_mux-Counts s t none o = omega arith
reconnect_mux-Counts s t (some mux) o =
    if-intro (Counts s o) (is_remote_terminal t && not (is_empty mux))
      (reconnect_after-Counts s t mux o) (omega arith)

reconnect_tab-Counts : (s : Text) (t : Option Tab) (o : Output) → Counts s o (reconnect_tab s t o)
reconnect_tab-Counts s none o = omega arith
reconnect_tab-Counts s (some t) o = reconnect_mux-Counts s t t.mux_name o

module _ (prefs : NotifyPrefs) (decode_base64 : Text → List ℕ) (decode : List ℕ → Text)
    (s m : Text) where
  handle_bytes-Quiet :
      (payload : Text) (dropped : Bool) (o : Output)
      → Quiet o (handle_bytes decode_base64 decode s payload dropped o)
  handle_bytes-Quiet payload true o = (refl, refl)
  handle_bytes-Quiet payload false o = (refl, refl)

  handle-Counts :
      (e : TerminalEvent × Bool) (o : Output)
      → Counts s o (handle prefs decode_base64 decode s m e o)
  unfolding handle
  handle-Counts (bytes_event payload dropped, agent) o =
      Counts-Quiet s o (handle_bytes decode_base64 decode s payload dropped o)
        (handle_bytes-Quiet payload dropped o)
  handle-Counts (block_event phase code, agent) o =
      Counts-Quiet s o (handle_block prefs s phase code o) (handle_block-Quiet prefs s phase code o)
  handle-Counts (attention_event state message source, agent) o =
      Counts-Quiet s o (handle_attention prefs s agent state message source o)
        (handle_attention-Quiet prefs s agent state message source o)
  handle-Counts (closed_event, agent) o =
      reconnect_tab-Counts s (find? (has_session s) o.tabs) (set_disconnected s o)

  -- However many events a session has, it is connected again three times at most, together with those
  -- that were counted before.
  pub handle_all-reconnects :
      (es : List (TerminalEvent × Bool)) (o : Output)
      → reconnects (handle_all prefs decode_base64 decode s m es o).1 ≤ 3 - tries s o
  unfolding handle_all
  handle_all-reconnects [] o = omega arith
  handle_all-reconnects (e ∷ es) o =
      let (o', effects) = handle prefs decode_base64 decode s m e o in
      let c = handle-Counts e o in
      omega (
        arith,
        c.0,
        c.1,
        reconnects-append effects (handle_all prefs decode_base64 decode s m es o').1,
        handle_all-reconnects es o',
      )

-- The tab of a remote terminal with a named multiplexer, connected to `s`.
abbrev pub IsNamedMux : Text → Tab → Text → Type 0
IsNamedMux s t mux =
    (has_session s t ≡ true)
    × (is_remote_terminal t ≡ true)
    × (t.mux_name ≡ some mux)
    × (is_empty mux ≡ false)

find?-last :
    (s : Text) (ts : List Tab) (t : Tab)
    → any (has_session s) ts ≡ false
    → has_session s t ≡ true
    → find? (has_session s) (ts ++ t ∷ []) ≡ some t
find?-last s [] t n h = rw h refl
find?-last s (u ∷ us) t n h = ground (arith, find?-last s us t)

first_try :
    (s mux : Text) (t : Tab) (o : Output)
    → IsNamedMux s t mux
    → get s o.reconnect_attempts ≡ none
    → reconnects (reconnect_mux s t (some mux) o).1 ≡ 1
first_try s mux t o h a =
    rw (h.1, h.3) (ap (λ n. reconnects (reconnect_after s t mux (or_zero n) o).1) a)

-- What a closed event does to the tab that is found.
reconnect_tab-first :
    (s mux : Text) (t : Tab) (o : Output)
    → IsNamedMux s t mux
    → get s o.reconnect_attempts ≡ none
    → reconnects (reconnect_tab s (some t) o).1 ≡ 1
reconnect_tab-first s mux t o h a =
    ap (λ x. reconnects (reconnect_mux s t x o).1) h.2 ∙ first_try s mux t o h a

-- What a closed session leaves alone: the tabs, and the count of another session.
abbrev Leaves : Text → Output → Output × List SessionEffect → Type 0
Leaves s o (r, effects) =
    (r.tabs ≡ o.tabs) × (get s r.reconnect_attempts ≡ get s o.reconnect_attempts)

reconnect_after-Leaves :
    (s other : Text) (t : Tab) (mux : Text) (n : ℕ) (o : Output)
    → text_eq s other ≡ false
    → Leaves other o (reconnect_after s t mux n o)
reconnect_after-Leaves s other t mux n o h =
    if-intro (Leaves other o) (ltb n 3)
      (refl, get-put other s (suc n) o.reconnect_attempts ∙ rw h refl) (refl, refl)

reconnect_mux-Leaves :
    (s other : Text) (t : Tab) (mux : Option Text) (o : Output)
    → text_eq s other ≡ false
    → Leaves other o (reconnect_mux s t mux o)
reconnect_mux-Leaves s other t none o h = (refl, refl)
reconnect_mux-Leaves s other t (some mux) o h =
    if-intro (Leaves other o) (is_remote_terminal t && not (is_empty mux))
      (reconnect_after-Leaves s other t mux (tries s o) o h) (refl, refl)

reconnect_tab-Leaves :
    (s other : Text) (t : Option Tab) (o : Output)
    → text_eq s other ≡ false
    → Leaves other o (reconnect_tab s t o)
reconnect_tab-Leaves s other none o h = (refl, refl)
reconnect_tab-Leaves s other (some t) o h = reconnect_mux-Leaves s other t t.mux_name o h

absent-without :
    (s other : Text) (ts : List Tab)
    → is_open ts other ≡ false
    → is_open (without_session s ts) other ≡ false
absent-without s other [] h = refl
absent-without s other (t ∷ ts) h = ground (arith, absent-without s other ts)

-- The count of the reconnections is that of a session, and a session that takes the place of a dropped one
-- is a new one: whatever was counted, and whichever tabs the one that closes it sees, the new session is
-- connected again when it is dropped in turn. Its tab is that of a remote terminal with a named
-- multiplexer, and nothing is known of it before.
pub forget_session-reconnects :
    (s next m m' mux : Text) (t : Tab) (seen : List Tab) (o : Output)
    → text_eq s next ≡ false
    → IsNamedMux next t mux
    → is_open seen next ≡ false
    → get next o.reconnect_attempts ≡ none
    → reconnects
        (handle_closed next m' (open_tab t (forget_session s seen (handle_closed s m o).0))).1
      ≡ 1
unfolding forget_session
forget_session-reconnects s next m m' mux t seen o n h a k =
    let closed = (handle_closed s m o).0 in
    let l = reconnect_tab-Leaves s next (find? (has_session s) o.tabs) (set_disconnected s o) n in
    let found = find?-last next (without_session s seen) t (absent-without s next seen a) h.0 in
    let fresh : get next (delete s closed.reconnect_attempts) ≡ none =
      get-delete next s closed.reconnect_attempts ∙ rw n (l.1 ∙ k) in
    let opened = set_disconnected next (open_tab t (forget_session s seen closed)) in
    ap (λ x. reconnects (reconnect_tab next x opened).1) found
    ∙ reconnect_tab-first next mux t opened h fresh
