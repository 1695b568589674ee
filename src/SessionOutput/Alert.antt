-- ===== src/SessionOutput/Alert.antt =====
-- What makes a session be shown as waiting.
use tethra.Blocks.{TerminalBlockPhase, command_end, command_start, output_start, prompt_start, ℤ}
use tethra.Workspace.State.{Tab, has_session}
use mathlib.Core.Path.{subst}
use tethra.Attention.{
  AgentAttentionState, NotifyPrefs, SessionAttention, done, failed, is_waiting, may_raise,
  merge_attention, running, waiting,
}
use tethra.Base.{
  Bool, Bool-cases, List, Option, Text, [], any, ap, arith, codes, false, find?, if-intro, inl, inr,
  is_empty, is_some, ltb, none, not, refl, some, sym, text_eq, true, ℕ, ◌&&◌, ◌||◌, ◌∙◌, ◌∷◌, ◌≡◌,
}
use tethra.Base.TextMap.{TextMap, get, get-put_self}
use tethra.Attention.History.{merge_attention-waits, waits}
use tethra.SessionOutput.{
  Output, SessionEffect, TerminalEvent, apply_pty_attention, attention_eq, attention_event,
  block_attention, block_event, bytes_event, closed_event, exit_state, handle, handle_all,
  handle_attention, handle_block, handle_closed, ignores, is_remote_terminal, or_zero,
  plain_attention, put_attention, raise_running, reconnect_mux, reconnect_tab, same_attention,
  set_disconnected, store_exit_code,
}

-- The event asks for attention: an OSC or a signal of tmux, or a bell while an agent runs in the session.
abbrev pub asks : Bool → TerminalEvent × Bool → Bool
asks linked (attention_event state message source, agent) =
    is_waiting state
    && (text_eq source (codes "osc")
        || text_eq source (codes "tmux")
        || (text_eq source (codes "bel") && (agent || linked)))
asks linked (bytes_event payload dropped, agent) = false
asks linked (block_event phase code, agent) = false
asks linked (closed_event, agent) = false

abbrev pub pty_waits : Text → Output → Bool
pty_waits s o = waits (get s o.pty_attention)

abbrev pub is_linked : Text → Output → Bool
is_linked s o = is_some (get s o.pty_to_running)

state_waits : (a b : AgentAttentionState) → attention_eq a b ≡ true → is_waiting a ≡ is_waiting b
state_waits running running h = refl
state_waits running waiting h = cc
state_waits running done h = refl
state_waits running failed h = refl
state_waits waiting running h = cc
state_waits waiting waiting h = refl
state_waits waiting done h = cc
state_waits waiting failed h = cc
state_waits done running h = refl
state_waits done waiting h = cc
state_waits done done h = refl
state_waits done failed h = refl
state_waits failed running h = refl
state_waits failed waiting h = cc
state_waits failed done h = refl
state_waits failed failed h = refl

same_attention-waits :
    (p : Option SessionAttention) (q : SessionAttention)
    → same_attention p q ≡ true
    → waits p ≡ is_waiting q.state
same_attention-waits none q h = cc
same_attention-waits (some p) q h = state_waits p.state q.state (ground arith)

put_attention-waits :
    (s : Text) (q : SessionAttention) (m : TextMap SessionAttention)
    → waits (get s (put_attention s q m)) ≡ is_waiting q.state
put_attention-waits s q m = elim (Bool-cases (same_attention (get s m) q)) [
  | inl e ↦ rw e (same_attention-waits (get s m) q e)
  | inr e ↦ rw e (ap waits (get-put_self s q m))
]

-- Nothing that concerns the attention of the terminals.
abbrev SamePty : Output → Output → Type 0
SamePty o r = (r.pty_attention ≡ o.pty_attention) × (r.pty_to_running ≡ o.pty_to_running)

abbrev StepSamePty : Output → Output × List SessionEffect → Type 0
StepSamePty o (r, effects) = SamePty o r

reconnect_mux-SamePty :
    (s : Text) (t : Tab) (mux : Option Text) (o : Output) → SamePty o (reconnect_mux s t mux o).0
reconnect_mux-SamePty s t none o = (refl, refl)
reconnect_mux-SamePty s t (some mux) o =
    if-intro (StepSamePty o) (is_remote_terminal t && not (is_empty mux))
      (if-intro (StepSamePty o) (ltb (or_zero (get s o.reconnect_attempts)) 3) (refl, refl)
        (refl, refl))
      (refl, refl)

reconnect_tab-SamePty : (s : Text) (t : Option Tab) (o : Output) → SamePty o (reconnect_tab s t o).0
reconnect_tab-SamePty s none o = (refl, refl)
reconnect_tab-SamePty s (some t) o = reconnect_mux-SamePty s t t.mux_name o

-- The session waits afterwards only if it waited before or is asked to.
abbrev Asked : Text → Bool → Output → Output → Type 0
Asked s asked o r =
    (r.pty_to_running ≡ o.pty_to_running) × (pty_waits s r ≡ true → (pty_waits s o || asked) ≡ true)

Asked-SamePty : (s : Text) (asked : Bool) (o r : Output) → SamePty o r → Asked s asked o r
Asked-SamePty s asked o r h = (h.1, λ w. ground (arith, ap (λ m. waits (get s m)) h.0))

waits_or :
    (s : Text) (next : SessionAttention) (source : Text) (o : Output)
    → is_waiting (merge_attention (get s o.pty_attention) next source).state ≡ true
    → (pty_waits s o || (is_waiting next.state && may_raise source)) ≡ true
waits_or s next source o w = elim (merge_attention-waits (get s o.pty_attention) next source w) [
  | inl old ↦ ground arith
  | inr new ↦ ground arith
]

module _ (prefs : NotifyPrefs) (s : Text) where
  raise_running-SamePty :
      (i : Option Text) (next : SessionAttention) (source : Text) (o : Output)
      → SamePty o (raise_running prefs i next source o).0
  raise_running-SamePty none next source o = (refl, refl)
  raise_running-SamePty (some i) next source o = (refl, refl)

  apply_pty_attention-Asked :
      (next : SessionAttention) (source : Text) (o : Output)
      → Asked s
          (is_waiting next.state && may_raise source)
          o
          (apply_pty_attention prefs s next source o).0
  unfolding apply_pty_attention
  apply_pty_attention-Asked next source o =
      let merged = merge_attention (get s o.pty_attention) next source in
      let put_in : Output = record o { pty_attention = put_attention s merged o.pty_attention } in
      let same = raise_running-SamePty (get s o.pty_to_running) next source put_in in
      (
        same.1,
        λ w. waits_or s next source o (
            sym (put_attention-waits s merged o.pty_attention)
            ∙ sym (ap (λ m. waits (get s m)) same.0)
            ∙ w),
      )

  block_attention-Asked :
      (phase : TerminalBlockPhase) (code : Option ℤ) (o : Output)
      → Asked s false o (block_attention prefs s phase code o).0
  block_attention-Asked prompt_start code o = (refl, λ w. ground arith)
  block_attention-Asked command_start code o =
      apply_pty_attention-Asked (plain_attention running none) (codes "activity") o
  block_attention-Asked output_start code o =
      apply_pty_attention-Asked (plain_attention running none) (codes "activity") o
  block_attention-Asked command_end none o = (refl, λ w. ground arith)
  block_attention-Asked command_end (some code) o =
      let a = apply_pty_attention-Asked (plain_attention (exit_state code) none) (codes "exit") o in
      (a.0, λ w. ground (arith, a.1 w))

  handle_block-Asked :
      (phase : TerminalBlockPhase) (code : Option ℤ) (o : Output)
      → Asked s false o (handle_block prefs s phase code o).0
  handle_block-Asked phase none o = block_attention-Asked phase none o
  handle_block-Asked phase (some code) o =
      let a = block_attention-Asked phase (some code) (store_exit_code s (some code) o) in
      (a.0, a.1)

  handle_attention-Asked :
      (agent : Bool) (state : AgentAttentionState) (message : Option Text) (source : Text)
      (o : Output)
      → Asked s
          (asks (is_linked s o) (attention_event state message source, agent))
          o
          (handle_attention prefs s agent state message source o).0
  handle_attention-Asked agent state message source o =
      elim (Bool-cases (ignores s agent source o)) [
        | inl e ↦ rw e (refl, λ w. ground arith)
        | inr e ↦
            let a = apply_pty_attention-Asked (plain_attention state message) source o in
            rw e (a.0, λ w. ground (arith, a.1 w))
      ]

module _ (prefs : NotifyPrefs) (decode_base64 : Text → List ℕ) (decode : List ℕ → Text)
    (s m : Text) where
  handle-Asked :
      (e : TerminalEvent × Bool) (o : Output)
      → Asked s (asks (is_linked s o) e) o (handle prefs decode_base64 decode s m e o).0
  unfolding handle
  handle-Asked (bytes_event payload dropped, agent) o = (refl, λ w. ground arith)
  handle-Asked (block_event phase code, agent) o = handle_block-Asked prefs s phase code o
  handle-Asked (attention_event state message source, agent) o =
      handle_attention-Asked prefs s agent state message source o
  handle-Asked (closed_event, agent) o =
      Asked-SamePty s false o (handle_closed s m o).0
        (reconnect_tab-SamePty s (find? (has_session s) o.tabs) (set_disconnected s o))

  -- A session that waits for the user after some events waited before, or one of them was an OSC or a
  -- signal of tmux that says so, or a bell while an agent ran in it. No bell of a plain shell, no silence
  -- and no end of a command makes it wait.
  pub handle_all-asks :
      (es : List (TerminalEvent × Bool)) (o : Output)
      → pty_waits s (handle_all prefs decode_base64 decode s m es o).0 ≡ true
      → (pty_waits s o || any (asks (is_linked s o)) es) ≡ true
  unfolding handle_all
  handle_all-asks [] o w = ground arith
  handle_all-asks (e ∷ es) o w =
      let o' = (handle prefs decode_base64 decode s m e o).0 in
      let a = handle-Asked e o in
      let later : (pty_waits s o' || any (asks (is_linked s o)) es) ≡ true =
        subst (λ r. (pty_waits s o' || any (asks (is_some (get s r))) es) ≡ true) a.0
          (handle_all-asks es o' w) in
      elim (Bool-cases (pty_waits s o')) [
        | inl p ↦ ground (arith, a.1 p)
        | inr p ↦ ground (arith, later)
      ]
