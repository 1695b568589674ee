-- ===== src/PromptPanel.antt =====
-- The input box under a session (apps/ui/src/components/PromptPanel.tsx): the keys that go to the shell, the
-- commands that stay in the box, and the prediction of the shell's echo. What `readActiveShellInputLine`
-- reads, UTF-8 and `toLowerCase` come from outside. A pause of a timer is left out.
use tethra.Base.{
  Bool, List, Option, Text, [], codes, drop, if◌then◌else◌, is_empty, leb, length, ltb, none, not,
  some, starts_with, suc, take, text_eq, trim, true, ℕ, ◌&&◌, ◌++◌, ◌-◌, ◌==◌, ◌||◌, ◌∷◌,
}
pub mod Echo
pub mod Local
mod Tests

pub record KeyboardEvent : Type 0 where
  pub key : Text
  pub is_composing : Bool
  pub meta_key : Bool
  pub ctrl_key : Bool
  pub alt_key : Bool

pub record Panel : Type 0 where
  -- The box shows `mirror`; `mirror_ref` is the last line that was accepted.
  pub mirror : Text
  pub mirror_ref : Text
  pub pending : Text
  pub pending_base : Text
  pub pending_mismatches : ℕ
  pub uncover : Bool
  pub local_cmd : Option Text
  pub cmd_hint : Option Text
  pub mirror_misses : ℕ
  pub forwarded_since_mirror : ℕ
  pub last_forward_was_edit : Bool

pub data Effect : Type 0 where
  note_submitted_command : Text → Effect
  send_terminal_input : List ℕ → Effect
  clear_terminal_viewport : Effect

-- The value of the text area.
abbrev pub shown_value : Option Text → Bool → Text → Text
shown_value (some cmd) uncover line = cmd
shown_value none uncover line = if uncover then [] else line

abbrev pub value : Panel → Text
value p = shown_value p.local_cmd p.uncover (p.mirror ++ p.pending)

abbrev pub is_single : Text → Bool
is_single key = length key == 1

abbrev pub is_key : KeyboardEvent → Text → Bool
is_key e name = text_eq e.key name

-- The bytes of the keys that have a name.
abbrev named_keys : List (Text × Text)
named_keys =
    (codes "Enter", 0x0d ∷ [])
    ∷ (codes "Backspace", 0x7f ∷ [])
    ∷ (codes "Tab", 0x09 ∷ [])
    ∷ (codes "Escape", 0x1b ∷ [])
    ∷ (codes "ArrowUp", 0x1b ∷ codes "[A")
    ∷ (codes "ArrowDown", 0x1b ∷ codes "[B")
    ∷ (codes "ArrowRight", 0x1b ∷ codes "[C")
    ∷ (codes "ArrowLeft", 0x1b ∷ codes "[D")
    ∷ (codes "Home", 0x1b ∷ codes "[H")
    ∷ (codes "End", 0x1b ∷ codes "[F")
    ∷ (codes "Delete", 0x1b ∷ codes "[3~")
    ∷ (codes "PageUp", 0x1b ∷ codes "[5~")
    ∷ (codes "PageDown", 0x1b ∷ codes "[6~")
    ∷ []

abbrev lookup : Text → List (Text × Text) → Option Text
lookup key [] = none
lookup key ((name, bytes) ∷ rest) =
    let later = lookup key rest in if text_eq key name then some bytes else later

abbrev or_bytes : Option Text → Option Text → Option Text
or_bytes none other = other
or_bytes (some bytes) other = some bytes

-- `k >= "a" && k <= "z"`, and the byte of such a key.
abbrev pub control_byte : Text → Option Text
control_byte [] = none
control_byte (c ∷ cs) =
    if leb b'a' c && (ltb c b'z' || (c == b'z' && is_empty cs)) then some ((c - 96) ∷ []) else none

module _ (utf8 lower_case : Text → Text) where
  unfoldable pub encode_key_to_pty : KeyboardEvent → Option Text
  unfolding text_eq
  encode_key_to_pty e =
      if e.is_composing || e.meta_key
      then none
      else if e.ctrl_key && not e.alt_key
      then or_bytes (control_byte (if is_single e.key then lower_case e.key else []))
          (if is_key e (codes "Enter") then some (10 ∷ []) else none)
      else or_bytes (lookup e.key named_keys) (if is_single e.key then some (utf8 e.key) else none)

-- `slice(0, -1)`.
abbrev pub without_last_unit : Text → Text
without_last_unit s = take (length s - 1) s

abbrev pub with_prediction : Text → Text → Panel → Panel
with_prediction key [] p = record p { pending_base = p.mirror_ref; pending = key }
with_prediction key (c ∷ cs) p = record p { pending = (c ∷ cs) ++ key }

-- What is predicted, and the command that is noted on Enter.
unfoldable pub predict_key : KeyboardEvent → Panel → Panel × List Effect
unfolding text_eq
predict_key e p =
    if p.uncover || e.meta_key || e.ctrl_key || e.alt_key
    then (p, [])
    else if is_single e.key
    then (with_prediction e.key p.pending p, [])
    else if is_key e (codes "Backspace")
    then (record p { pending = without_last_unit p.pending }, [])
    else (
      record p { pending = []; pending_base = p.mirror_ref },
      if is_key e (codes "Enter")
          then note_submitted_command (p.mirror_ref ++ p.pending) ∷ []
          else [],
    )

abbrev uncover_if_missed : Panel → Panel
uncover_if_missed p = if leb 3 p.mirror_misses then record p { uncover = true; mirror = [] } else p

abbrev misses_after : Text → Panel → ℕ
misses_after line p =
    if not p.last_forward_was_edit
    then 0
    else if is_empty line
    then (if leb 2 p.forwarded_since_mirror then suc p.mirror_misses else p.mirror_misses)
    else 0

abbrev pub count_misses : Text → Panel → Panel
count_misses line p =
    if ltb 0 p.forwarded_since_mirror
    then uncover_if_missed
        (record p { mirror_misses = misses_after line p; forwarded_since_mirror = 0 })
    else p

abbrev pub accept_line : Text → Text → Panel → Panel
accept_line line next_pending p = count_misses line (record p {
  pending_base = line;
  pending_mismatches = 0;
  pending = next_pending;
  mirror_ref = line;
  mirror = line;
})

abbrev pub reconcile : Text → Text → Panel → Panel
reconcile line [] p = accept_line line [] p
reconcile line (c ∷ cs) p =
    let echoed = drop (length p.pending_base) line in
    if starts_with line p.pending_base && starts_with (c ∷ cs) echoed
    then accept_line line (drop (length echoed) (c ∷ cs)) p
    else if ltb p.pending_mismatches 1
    then record p { pending_mismatches = suc p.pending_mismatches }
    else accept_line line [] p

abbrev pub refresh_line : Option Text → Panel → Panel
refresh_line none p = record p { mirror_ref = []; mirror = []; pending = []; pending_base = [] }
refresh_line (some line) p = reconcile line p.pending p

unfoldable pub refresh_mirror : Option Text → Panel → Panel
refresh_mirror line p = if p.uncover then record p { mirror = [] } else refresh_line line p

abbrev run_local_command : Text → Panel → Panel × List Effect
run_local_command cmd p =
    if text_eq cmd (codes "/clear")
    then (
      p,
      note_submitted_command (codes "clear")
          ∷ send_terminal_input (codes "clear" ++ 10 ∷ [])
          ∷ clear_terminal_viewport
          ∷ [],
    )
    else (record p { cmd_hint = some (codes "Unknown command: " ++ cmd) }, [])

abbrev pub with_local : Option Text → Panel → Panel
with_local cmd p = record p { local_cmd = cmd }

abbrev non_empty : Text → Option Text
non_empty [] = none
non_empty (c ∷ cs) = some (c ∷ cs)

-- Whether the key is taken is whether there is a result.
abbrev pub local_key : Option Text → KeyboardEvent → Panel → Option (Panel × List Effect)
local_key none e p =
    if is_key e (codes "/")
      && not e.meta_key
      && not e.ctrl_key
      && not e.alt_key
      && is_empty p.mirror_ref
      && is_empty p.pending
    then some (with_local (some (codes "/")) p, [])
    else none
local_key (some current) e p =
    if e.meta_key || e.ctrl_key
    then none
    else if is_key e (codes "Escape")
    then some (with_local none p, [])
    else if is_key e (codes "Backspace")
    then some (with_local (non_empty (without_last_unit current)) p, [])
    else if is_key e (codes "Enter")
    then some (run_local_command (trim current) (with_local none p))
    else if is_single e.key && not e.alt_key
    then some (with_local (some (current ++ e.key)) p, [])
    else some (p, [])

unfoldable pub handle_local_command_key : KeyboardEvent → Panel → Option (Panel × List Effect)
unfolding text_eq trim
handle_local_command_key e p = local_key p.local_cmd e p

abbrev pub is_edit : KeyboardEvent → Bool
is_edit e =
    is_single e.key
    || is_key e (codes "Backspace")
    || is_key e (codes "Tab")
    || is_key e (codes "Delete")

abbrev forward_bytes : KeyboardEvent → Text → Panel × List Effect → Panel × List Effect
forward_bytes e bytes (p, effects) = (
  record p {
    forwarded_since_mirror = suc p.forwarded_since_mirror;
    last_forward_was_edit = is_edit e;
  },
  effects ++ send_terminal_input bytes ∷ [],
)

abbrev forwarded : KeyboardEvent → Panel → Option Text → Panel × List Effect
forwarded e p none = (p, [])
forwarded e p (some bytes) = forward_bytes e bytes (predict_key e p)

module _ (utf8 lower_case : Text → Text) where
  abbrev pub typed : KeyboardEvent → Panel → Option (Panel × List Effect) → Panel × List Effect
  typed e p (some taken) = taken
  typed e p none = forwarded e p (encode_key_to_pty utf8 lower_case e)

  -- `onKeyDown`; `busy` is `busyWithApp`.
  unfoldable pub on_key_down : Bool → KeyboardEvent → Panel → Panel × List Effect
  unfolding handle_local_command_key predict_key encode_key_to_pty
  on_key_down busy e p = if busy then (p, []) else typed e p (handle_local_command_key e p)
