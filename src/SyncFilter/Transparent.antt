-- ===== src/SyncFilter/Transparent.antt =====
-- Outside sync blocks the filter only delays bytes, and where it does not keep them.
use tethra.SyncFilter.Chunks.{push-eq-run, run_plain}
use tethra.Base.{
  List, Text, [], append-nil, append_assoc, arith, false, length, length-append, refl, sym, true, ℕ,
  ◌++◌, ◌<◌, ◌∷◌, ◌≡◌,
}
use tethra.SyncFilter.{
  State, SyncClearFilter, contains_esc, csi, emit_csi, esc, handle_csi, is_param, push, run, step,
  step_in, to_ground,
}

-- The bytes that the filter has read and not yet written.
abbrev pub pending_in : State → Text → List ℕ
pending_in State.ground params = []
pending_in esc params = 0x1b ∷ []
pending_in csi params = 0x1b ∷ 0x5b ∷ params

abbrev pub pending : SyncClearFilter → List ℕ
pending f = pending_in f.state f.params

-- The byte does not make the parameters longer than the buffer.
abbrev pub FitsBuffer : SyncClearFilter → ℕ → Type 0
FitsBuffer f byte = f.state ≡ csi → is_param byte ≡ true → length f.params < 64

-- No byte of the input is read inside a sync block or overruns the buffer.
abbrev pub Quiet : SyncClearFilter → List ℕ → Type 0
Quiet f [] = Unit
Quiet f (byte ∷ rest) = (f.in_sync ≡ false) × FitsBuffer f byte × Quiet (step f byte).0 rest

handle_csi-quiet :
    (f : SyncClearFilter) (params : Text) (final : ℕ)
    → f.in_sync ≡ false
    → ((handle_csi f params final).1 ≡ emit_csi params final)
      × ((handle_csi f params final).0.state ≡ f.state)
unfolding handle_csi
handle_csi-quiet f params final h = ground arith

step_in-quiet :
    (s : State) (f : SyncClearFilter) (byte : ℕ)
    → f.state ≡ s
    → f.in_sync ≡ false
    → FitsBuffer f byte
    → (step_in s f byte).1 ++ pending (step_in s f byte).0 ≡ pending_in s f.params ++ byte ∷ []
unfolding step_in
step_in-quiet State.ground f byte e q l = ground arith
step_in-quiet esc f byte e q l = ground arith
step_in-quiet csi f byte e q l = ground (
  arith,
  handle_csi-quiet (to_ground f) f.params byte,
  length-append f.params (byte ∷ []),
  append-nil (emit_csi f.params byte),
)

run-pending :
    (f : SyncClearFilter) (xs : List ℕ)
    → Quiet f xs
    → (run f xs).1 ++ pending (run f xs).0 ≡ pending f ++ xs
unfolding run
run-pending f [] h = sym (append-nil (pending f))
run-pending f (x ∷ xs) h = rw (
  append_assoc,
  run-pending (step f x).0 xs h.2,
  ← append_assoc,
  step_in-quiet f.state f x refl h.0 h.1,
  append_assoc,
)

-- Outside sync blocks, and while no parameter string overruns the buffer, nothing is lost, added or
-- changed: what the filter held, followed by the input, is what it writes, followed by what it holds.
pub push-pending :
    (f : SyncClearFilter) (xs : List ℕ)
    → Quiet f xs
    → (push f xs).1 ++ pending (push f xs).0 ≡ pending f ++ xs
push-pending f xs h = rw (push-eq-run f xs) (run-pending f xs h)

-- A parameter string one byte longer than the buffer is written with its last byte doubled.
pub step-overrun :
    (f : SyncClearFilter) (byte : ℕ)
    → f.state ≡ csi
    → length f.params ≡ 64
    → is_param byte ≡ true
    → (step f byte).1 ++ pending (step f byte).0 ≡ pending f ++ byte ∷ byte ∷ []
unfolding step_in
step-overrun f byte s l p = ground (
  arith,
  length-append f.params (byte ∷ []),
  append_assoc f.params (byte ∷ []) (byte ∷ []),
  append-nil (emit_csi (f.params ++ byte ∷ []) byte),
)

run-double_escape :
    (f : SyncClearFilter) (xs : List ℕ)
    → f.state ≡ State.ground
    → contains_esc xs ≡ false
    → run f (0x1b ∷ 0x1b ∷ xs) ≡ (f, 0x1b ∷ 0x1b ∷ xs)
unfolding run step_in
run-double_escape f xs s h =
    let e : step f 0x1b ≡ (record f { state = esc }, []) = ground arith in
    let back : record f { state = State.ground } ≡ f = ground arith in
    rw (e, run_plain (record f { state = State.ground }) xs refl h, back)

-- An escape byte behind an escape byte hides the sequence that it starts: that passes through as it is,
-- inside a sync block too.
pub push-double_escape :
    (f : SyncClearFilter) (xs : List ℕ)
    → f.state ≡ State.ground
    → contains_esc xs ≡ false
    → push f (0x1b ∷ 0x1b ∷ xs) ≡ (f, 0x1b ∷ 0x1b ∷ xs)
push-double_escape f xs s h = rw (push-eq-run f (0x1b ∷ 0x1b ∷ xs)) (run-double_escape f xs s h)
