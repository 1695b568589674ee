-- ===== src/SyncFilter/Chunks.antt =====
-- How the stream is cut into chunks makes no difference, and what the buffer of a filter may hold.
use mathlib.Core.List.{flatten}
use tethra.Base.{
  Bool-cases, List, Text, [], all, append_assoc, arith, false, if-intro, inl, inr, length, ltb,
  refl, sym, true, ℕ, ◌++◌, ◌==◌, ◌∷◌, ◌≡◌, ◌≢◌, ◌≤◌,
}
use tethra.SyncFilter.{
  State, SyncClearFilter, collect, contains_esc, csi, esc, handle_csi, is_final, is_ground,
  is_param, push, reset, run, step, step_in, to_ground,
}

-- A run over a longer input goes on from the filter that the first part leaves.
pub run-append :
    (f : SyncClearFilter) (xs ys : List ℕ)
    → run f (xs ++ ys) ≡ ((run (run f xs).0 ys).0, (run f xs).1 ++ (run (run f xs).0 ys).1)
unfolding run
run-append f [] ys = refl
run-append f (x ∷ xs) ys = simp (run-append (step f x).0 xs ys, append_assoc)

pub run_plain :
    (f : SyncClearFilter) (xs : List ℕ)
    → is_ground f.state ≡ true
    → contains_esc xs ≡ false
    → run f xs ≡ (f, xs)
unfolding run contains_esc
run_plain f [] g h = refl
run_plain f (x ∷ xs) g h = ground (arith, run_plain f xs)

-- The shortcut for plain chunks gives what the state machine gives.
pub push-eq-run : (f : SyncClearFilter) (xs : List ℕ) → push f xs ≡ run f xs
unfolding push
push-eq-run f xs = ground (arith, run_plain f xs)

-- The chunks of a stream, one `push` after another.
unfoldable pub push_all : SyncClearFilter → List (List ℕ) → SyncClearFilter × List ℕ
push_all f [] = (f, [])
push_all f (chunk ∷ chunks) =
    let (f', out) = push f chunk in let (f'', out') = push_all f' chunks in (f'', out ++ out')

push-eq-run_nil : (f : SyncClearFilter) → push f [] ≡ (f, [])
unfolding run
push-eq-run_nil f = push-eq-run f []

-- However a stream is cut into chunks, also in the middle of an escape sequence, the filter writes the
-- same bytes and ends in the same state as for the stream in one chunk.
pub push_all-eq-push :
    (f : SyncClearFilter) (chunks : List (List ℕ)) → push_all f chunks ≡ push f (flatten chunks)
unfolding push_all flatten
push_all-eq-push f [] = sym (push-eq-run_nil f)
push_all-eq-push f (chunk ∷ chunks) = rw (
  push-eq-run f (chunk ++ flatten chunks),
  run-append f chunk (flatten chunks),
  push-eq-run f chunk,
  push_all-eq-push (run f chunk).0 chunks,
  push-eq-run (run f chunk).0 (flatten chunks),
)

-- The buffer holds parameter bytes, at most 64, and only inside a CSI.
pub record IsValid (f : SyncClearFilter) : Type 0 where
  pub short : length f.params ≤ 64
  pub bytes : all is_param f.params ≡ true
  pub outside : f.state ≢ csi → f.params ≡ []

handle_csi-params :
    (f : SyncClearFilter) (params : Text) (final : ℕ)
    → (handle_csi f params final).0.params ≡ f.params
unfolding handle_csi
handle_csi-params f params final = ground arith

all-snoc :
    (xs : Text) (x : ℕ)
    → all is_param xs ≡ true
    → is_param x ≡ true
    → all is_param (xs ++ x ∷ []) ≡ true
all-snoc [] x h k = ground arith
all-snoc (y ∷ ys) x h k = ground (arith, all-snoc ys x)

IsValid-emptied : (f : SyncClearFilter) → f.params ≡ [] → IsValid f
IsValid-emptied f e = record { short = rw e (omega arith); bytes = rw e; outside = λ _. e }

-- The branches of `csi` that do not end the sequence.
collect-IsValid :
    (f : SyncClearFilter) (byte : ℕ) → f.state ≡ csi → IsValid f → IsValid (collect f byte).0
collect-IsValid f byte e v = elim (Bool-cases (is_param byte)) [
  | inr other ↦ rw other (IsValid-emptied _ refl)
  | inl param ↦ elim (Bool-cases (ltb 64 (length (f.params ++ byte ∷ [])))) [
    | inl long ↦ rw (param, long) (IsValid-emptied _ refl)
    | inr fits ↦
        rw (param, fits)
          (record {
            short = ground arith;
            bytes = all-snoc f.params byte v.bytes param;
            outside = λ c. absurd (c e);
          })
  ]
]

-- `step_in` at the state of the filter; the state stands apart for the split.
step_in-IsValid :
    (s : State) (f : SyncClearFilter) (byte : ℕ)
    → f.state ≡ s
    → IsValid f
    → IsValid (step_in s f byte).0
unfolding step_in
step_in-IsValid State.ground f byte e v =
    let nil = v.outside (λ c. cc) in
    if-intro (λ (t : SyncClearFilter × List ℕ). IsValid t.0) (byte == 0x1b) (IsValid-emptied _ nil)
      v
step_in-IsValid esc f byte e v =
    let nil = v.outside (λ c. cc) in
    if-intro (λ (t : SyncClearFilter × List ℕ). IsValid t.0) (byte == 0x5b) (IsValid-emptied _ refl)
      (IsValid-emptied _ nil)
step_in-IsValid csi f byte e v =
    if-intro (λ (t : SyncClearFilter × List ℕ). IsValid t.0) (is_final byte)
      (IsValid-emptied _ (handle_csi-params (to_ground f) f.params byte))
      (collect-IsValid f byte e v)

run-IsValid : (f : SyncClearFilter) (xs : List ℕ) → IsValid f → IsValid (run f xs).0
unfolding run
run-IsValid f [] v = v
run-IsValid f (x ∷ xs) v = run-IsValid (step f x).0 xs (step_in-IsValid f.state f x refl v)

-- Every filter that a stream can lead to is valid: `push` and `reset` keep that.
pub push-IsValid :
    (f : SyncClearFilter) (xs : List ℕ) → IsValid f → IsValid (push f xs).0 × IsValid (reset f)
unfolding reset
push-IsValid f xs v = (rw (push-eq-run f xs) (run-IsValid f xs v), IsValid-emptied _ refl)
