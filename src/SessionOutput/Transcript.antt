-- ===== src/SessionOutput/Transcript.antt =====
-- The transcript of a session holds the end of its output.
use mathlib.Core.Path.{subst}
use tethra.Blocks.{TerminalBlockPhase, command_end, command_start, output_start, prompt_start, ℤ}
use tethra.Base.TextMap.{get, get-put_self}
use tethra.Attention.{AgentAttentionState, NotifyPrefs, SessionAttention}
use tethra.Workspace.State.{Tab, has_session}
use tethra.Base.{
  Bool, Bool-cases, List, Option, Text, [], ap, append-nil, append_assoc, arith, drop, find?,
  flat_map, inl, inr, is_empty, length, length-append, length-drop, ltb, none, not, refl, some, suc,
  sym, zero, ℕ, ◌&&◌, ◌++◌, ◌+◌, ◌-◌, ◌∙◌, ◌∷◌, ◌≡◌, ◌≤◌,
}
use tethra.SessionOutput.{
  Output, TerminalEvent, apply_pty_attention, attention_event, block_event, bytes_event,
  closed_event, handle, handle_all, handle_attention, handle_block, handle_closed, ignores,
  is_remote_terminal, or_empty, or_zero, plain_attention, raise_running, reconnect_after,
  reconnect_mux, reconnect_tab, set_disconnected, store_exit_code, take_last,
}

drop-append_le : (k : ℕ) (a b : Text) → k ≤ length a → drop k a ++ b ≡ drop k (a ++ b)
drop-append_le zero a b h = refl
drop-append_le (suc k) [] b h = ground arith
drop-append_le (suc k) (c ∷ cs) b h = drop-append_le k cs b (omega arith)

drop_nil : (n : ℕ) → drop {A = ℕ} n [] ≡ []
drop_nil zero = refl
drop_nil (suc n) = refl

drop-drop : (i k n : ℕ) (s : Text) → n ≡ k + i → drop i (drop k s) ≡ drop n s
drop-drop i zero n s h = ap (λ j. drop j s) (omega arith)
drop-drop i (suc k) zero s h = absurd (omega arith)
drop-drop i (suc k) (suc n) [] h = drop_nil i
drop-drop i (suc k) (suc n) (c ∷ cs) h = drop-drop i k n cs (omega arith)

-- Cutting the beginning before or after more text is put behind.
pub take_last-append :
    (n : ℕ) (a b : Text) → take_last n (take_last n a ++ b) ≡ take_last n (a ++ b)
take_last-append n a b =
    let k : ℕ = length a - n in
    let i : ℕ = length (drop k a ++ b) - n in
    ap (drop i) (drop-append_le k a b (omega arith))
    ∙ drop-drop i k (length (a ++ b) - n) (a ++ b)
        (omega (arith, length-append (drop k a) b, length-append a b, length-drop k a))

take_last_short : (n : ℕ) (a : Text) → length a ≤ n → take_last n a ≡ a
take_last_short n a h = let e : length a - n ≡ 0 = omega arith in ap (λ k. drop k a) e

length-take_last : (n : ℕ) (a : Text) → length (take_last n a) ≤ n
length-take_last n a = omega (arith, length-drop (length a - n) a)

abbrev pub transcript : Text → Output → Text
transcript s o = or_empty (get s o.transcripts)

-- The transcript stays as it is under what concerns the attention and the connection.
module _ (prefs : NotifyPrefs) (s : Text) where
  raise_running-transcripts :
      (r : Option Text) (next : SessionAttention) (source : Text) (o : Output)
      → (raise_running prefs r next source o).0.transcripts ≡ o.transcripts
  raise_running-transcripts none next source o = refl
  raise_running-transcripts (some i) next source o = refl

  apply_pty_attention-transcripts :
      (next : SessionAttention) (source : Text) (o : Output)
      → (apply_pty_attention prefs s next source o).0.transcripts ≡ o.transcripts
  unfolding apply_pty_attention
  apply_pty_attention-transcripts next source o =
      raise_running-transcripts (get s o.pty_to_running) next source _

  store_exit_code-transcripts :
      (code : Option ℤ) (o : Output) → (store_exit_code s code o).transcripts ≡ o.transcripts
  store_exit_code-transcripts none o = refl
  store_exit_code-transcripts (some code) o = refl

  handle_block-transcripts :
      (phase : TerminalBlockPhase) (code : Option ℤ) (o : Output)
      → (handle_block prefs s phase code o).0.transcripts ≡ o.transcripts
  handle_block-transcripts prompt_start code o = store_exit_code-transcripts code o
  handle_block-transcripts command_start code o =
      apply_pty_attention-transcripts _ _ _ ∙ store_exit_code-transcripts code o
  handle_block-transcripts output_start code o =
      apply_pty_attention-transcripts _ _ _ ∙ store_exit_code-transcripts code o
  handle_block-transcripts command_end none o = refl
  handle_block-transcripts command_end (some code) o = apply_pty_attention-transcripts _ _ _

  handle_attention-transcripts :
      (agent : Bool) (state : AgentAttentionState) (message : Option Text) (source : Text)
      (o : Output)
      → (handle_attention prefs s agent state message source o).0.transcripts ≡ o.transcripts
  handle_attention-transcripts agent state message source o =
      elim (Bool-cases (ignores s agent source o)) [
        | inl e ↦ rw e refl
        | inr e ↦ rw e (apply_pty_attention-transcripts (plain_attention state message) source o)
      ]

reconnect_after-transcripts :
    (s : Text) (t : Tab) (mux : Text) (tries : ℕ) (o : Output)
    → (reconnect_after s t mux tries o).0.transcripts ≡ o.transcripts
reconnect_after-transcripts s t mux tries o = elim (Bool-cases (ltb tries 3)) [
  | inl e ↦ rw e refl
  | inr e ↦ rw e refl
]

reconnect_mux-transcripts :
    (s : Text) (t : Tab) (mux : Option Text) (o : Output)
    → (reconnect_mux s t mux o).0.transcripts ≡ o.transcripts
reconnect_mux-transcripts s t none o = refl
reconnect_mux-transcripts s t (some mux) o =
    elim (Bool-cases (is_remote_terminal t && not (is_empty mux))) [
      | inl e ↦ rw e (reconnect_after-transcripts s t mux (or_zero (get s o.reconnect_attempts)) o)
      | inr e ↦ rw e refl
    ]

reconnect_tab-transcripts :
    (s : Text) (t : Option Tab) (o : Output) → (reconnect_tab s t o).0.transcripts ≡ o.transcripts
reconnect_tab-transcripts s none o = refl
reconnect_tab-transcripts s (some t) o = reconnect_mux-transcripts s t t.mux_name o

module _ (prefs : NotifyPrefs) (decode_base64 : Text → List ℕ) (decode : List ℕ → Text)
    (s m : Text) where
  -- The text that an event writes.
  abbrev pub text_of : TerminalEvent × Bool → Text
  text_of (bytes_event payload dropped, agent) = decode (decode_base64 payload)
  text_of (block_event phase code, agent) = []
  text_of (attention_event state message source, agent) = []
  text_of (closed_event, agent) = []

  kept :
      (o r : Output)
      → r.transcripts ≡ o.transcripts
      → length (transcript s o) ≤ 16384
      → transcript s r ≡ take_last 16384 (transcript s o ++ [])
  kept o r e h =
      ap (λ t. or_empty (get s t)) e
      ∙ sym (
          ap (take_last 16384) (append-nil (transcript s o))
          ∙ take_last_short 16384 (transcript s o) h)

  handle-transcript :
      (e : TerminalEvent × Bool) (o : Output)
      → length (transcript s o) ≤ 16384
      → transcript s (handle prefs decode_base64 decode s m e o).0
        ≡ take_last 16384 (transcript s o ++ text_of e)
  unfolding handle
  handle-transcript (bytes_event payload dropped, agent) o h =
      let text = take_last 16384 (transcript s o ++ decode (decode_base64 payload)) in
      ap or_empty (get-put_self s text o.transcripts)
  handle-transcript (block_event phase code, agent) o h =
      kept o (handle_block prefs s phase code o).0 (handle_block-transcripts prefs s phase code o) h
  handle-transcript (attention_event state message source, agent) o h =
      kept o (handle_attention prefs s agent state message source o).0
        (handle_attention-transcripts prefs s agent state message source o) h
  handle-transcript (closed_event, agent) o h =
      kept o (handle_closed s m o).0
        (reconnect_tab-transcripts s (find? (has_session s) o.tabs) (set_disconnected s o)) h

  -- After any events the transcript is the end, of 16384 units at most, of what it was and all that the
  -- events wrote.
  pub handle_all-transcript :
      (es : List (TerminalEvent × Bool)) (o : Output)
      → length (transcript s o) ≤ 16384
      → transcript s (handle_all prefs decode_base64 decode s m es o).0
        ≡ take_last 16384 (transcript s o ++ flat_map text_of es)
  unfolding handle_all flat_map
  handle_all-transcript [] o h = kept o o refl h
  handle_all-transcript (e ∷ es) o h =
      let (o', effects) = handle prefs decode_base64 decode s m e o in
      let first = handle-transcript e o h in
      let short : length (transcript s o') ≤ 16384 =
        subst (λ t. length t ≤ 16384) (sym first)
          (length-take_last 16384 (transcript s o ++ text_of e)) in
      handle_all-transcript es o' short
      ∙ ap (λ t. take_last 16384 (t ++ flat_map text_of es)) first
      ∙ take_last-append 16384 (transcript s o ++ text_of e) (flat_map text_of es)
      ∙ ap (take_last 16384) (append_assoc (transcript s o) (text_of e) (flat_map text_of es))
