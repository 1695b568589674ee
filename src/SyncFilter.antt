-- ===== src/SyncFilter.antt =====
-- The filter between the PTY and xterm (apps/ui/src/terminal/syncFilter.ts). Bytes are numbers below
-- 256, and the string `csi` is the list of its bytes. Where the source pushes onto the array `out`,
-- a function here returns the bytes that it pushes.
pub mod Chunks
pub mod Sequences
pub mod Transparent
mod Tests
use tethra.Base.{
  Bool, List, Text, [], any, codes, drop, false, if◌then◌else◌, includes_unit, leb, length, ltb,
  not, split_on, starts_with, text_eq, trim, true, ℕ, ◌&&◌, ◌++◌, ◌==◌, ◌||◌, ◌∷◌,
}

pub data State : Type 0 where
  ground esc csi : State

pub record SyncClearFilter : Type 0 where
  pub state : State
  -- The parameter and intermediate bytes of an unfinished CSI.
  pub params : Text
  -- Inside CSI ? 2026 h … l.
  pub in_sync : Bool

abbrev pub initial : SyncClearFilter
initial = record { state = ground; params = []; in_sync = false }

abbrev pub emit_csi : Text → ℕ → List ℕ
emit_csi params final = 0x1b ∷ 0x5b ∷ (params ++ final ∷ [])

unfoldable pub contains_esc : List ℕ → Bool
contains_esc data_bytes = includes_unit data_bytes 0x1b

abbrev pub is_mode_switch : Text → ℕ → Bool
is_mode_switch params final = starts_with params (codes "?") && (final == b'h' || final == b'l')

-- The modes behind the question mark include 2026.
unfoldable pub names_sync : Text → Bool
unfolding split_on trim text_eq
names_sync params = any (λ p. text_eq (trim p) (codes "2026")) (split_on b';' (drop 1 params))

-- The first parameter of an ED, 0 by default. `split` gives at least one piece.
abbrev pub first_piece : List Text → Text
first_piece [] = codes "0"
first_piece (p ∷ ps) = p

unfoldable pub erase_param : Text → Text
unfolding split_on
erase_param [] = codes "0"
erase_param (c ∷ cs) = first_piece (split_on b';' (c ∷ cs))

-- What takes the place of ED2: DECSC, CUP 1;1, ED0, DECRC.
abbrev pub home_and_erase : List ℕ
home_and_erase = 0x1b ∷ 0x37 ∷ (emit_csi (codes "1;1") b'H' ++ emit_csi [] b'J' ++ 0x1b ∷ 0x38 ∷ [])

unfoldable pub handle_csi : SyncClearFilter → Text → ℕ → SyncClearFilter × List ℕ
unfolding names_sync erase_param
handle_csi f params final =
    if is_mode_switch params final
    then (
      (if names_sync params then record f { in_sync = final == b'h' } else f),
      emit_csi params final,
    )
    else if final == b'J' && not (includes_unit params b'?')
    then if f.in_sync && text_eq (erase_param params) (codes "3")
      then (f, [])
      else if f.in_sync && text_eq (erase_param params) (codes "2")
      then (f, home_and_erase)
      else (f, emit_csi params final)
    else (f, emit_csi params final)

abbrev pub is_final : ℕ → Bool
is_final byte = leb 0x40 byte && leb byte 0x7e

abbrev pub is_param : ℕ → Bool
is_param byte = leb 0x20 byte && leb byte 0x3f

abbrev pub to_ground : SyncClearFilter → SyncClearFilter
to_ground f = record f { state = ground; params = [] }

-- A byte of a CSI that does not end it.
abbrev pub collect : SyncClearFilter → ℕ → SyncClearFilter × List ℕ
collect f byte =
    if is_param byte
    then (let grown = f.params ++ byte ∷ [] in
        if ltb 64 (length grown)
        then (to_ground f, emit_csi grown byte)
        else (record f { params = grown }, []))
    else (to_ground f, emit_csi f.params byte)

-- One turn of the loop of `push`, by the state.
unfoldable pub step_in : State → SyncClearFilter → ℕ → SyncClearFilter × List ℕ
unfolding handle_csi
step_in ground f byte = if byte == 0x1b then (record f { state = esc }, []) else (f, byte ∷ [])
step_in esc f byte =
    if byte == 0x5b
    then (record f { state = csi; params = [] }, [])
    else (record f { state = ground }, 0x1b ∷ byte ∷ [])
step_in csi f byte =
    if is_final byte then handle_csi (to_ground f) f.params byte else collect f byte

abbrev pub step : SyncClearFilter → ℕ → SyncClearFilter × List ℕ
step f = step_in f.state f

-- The loop of `push`.
unfoldable pub run : SyncClearFilter → List ℕ → SyncClearFilter × List ℕ
unfolding step_in
run f [] = (f, [])
run f (byte ∷ rest) =
    let (f', out) = step f byte in let (f'', out') = run f' rest in (f'', out ++ out')

abbrev pub is_ground : State → Bool
is_ground ground = true
is_ground esc = false
is_ground csi = false

unfoldable pub push : SyncClearFilter → List ℕ → SyncClearFilter × List ℕ
unfolding run contains_esc
push f input =
    if not f.in_sync && is_ground f.state && not (contains_esc input)
    then (f, input)
    else run f input

unfoldable pub reset : SyncClearFilter → SyncClearFilter
reset f = record f { state = ground; params = []; in_sync = false }
