-- ===== src/SyncFilter/Sequences.antt =====
-- What the filter does to a whole control sequence, fed at once or byte by byte.
use tethra.Base.StringLaws.{split_on-join, trim_fixed}
use tethra.SyncFilter.Chunks.{IsValid, push-eq-run}
use tethra.Base.{
  All, Bool, List, Text, [], all, all-append, any, any-append, append-nil, append_assoc, arith,
  codes, false, if◌then◌else◌, is_space, join, leb, length, length-append, refl, text_eq, trim,
  true, ℕ, ◌&&◌, ◌++◌, ◌+◌, ◌<◌, ◌==◌, ◌∷◌, ◌≡◌, ◌≤◌, ◌⊎◌,
}
use tethra.SyncFilter.{
  State, SyncClearFilter, csi, emit_csi, esc, handle_csi, is_final, is_param, names_sync, push, run,
  step, step_in, to_ground,
}

step-final :
    (f : SyncClearFilter) (byte : ℕ)
    → f.state ≡ csi
    → is_final byte ≡ true
    → step f byte ≡ handle_csi (to_ground f) f.params byte
unfolding step_in
step-final f byte s e = ground arith

step-param :
    (f : SyncClearFilter) (byte : ℕ)
    → f.state ≡ csi
    → is_param byte ≡ true
    → length f.params + 1 ≤ 64
    → step f byte ≡ (record f { params = f.params ++ byte ∷ [] }, [])
unfolding step_in
step-param f byte s p l = ground (arith, length-append f.params (byte ∷ []))

run-in_csi :
    (f : SyncClearFilter) (ps : Text) (final : ℕ)
    → f.state ≡ csi
    → all is_param ps ≡ true
    → length f.params + length ps ≤ 64
    → is_final final ≡ true
    → run f (ps ++ final ∷ []) ≡ handle_csi (to_ground f) (f.params ++ ps) final
unfolding run
run-in_csi f [] final s p l e = rw (step-final f final s e, append-nil, append-nil)
run-in_csi f (c ∷ cs) final s p l e = rw (
  step-param f c s (ground arith) (omega arith),
  run-in_csi (record f { params = f.params ++ c ∷ [] }) cs final s (ground arith)
      (omega (arith, length-append f.params (c ∷ []))) e,
  append_assoc,
)

settled : (f : SyncClearFilter) → IsValid f → f.state ≡ State.ground → to_ground f ≡ f
settled f v s = let nil : f.params ≡ [] = v.outside (λ c. cc) in ground arith

enter_csi :
    (f : SyncClearFilter) (rest : List ℕ)
    → f.state ≡ State.ground
    → run f (0x1b ∷ 0x5b ∷ rest) ≡ run (record f { state = csi; params = [] }) rest
unfolding run step_in
enter_csi f rest s = let e : step f 0x1b ≡ (record f { state = esc }, []) = ground arith in rw e

-- A whole sequence takes a valid filter from the ground state through `handleCsi`.
pub push-emit_csi :
    (f : SyncClearFilter) (ps : Text) (final : ℕ)
    → IsValid f
    → f.state ≡ State.ground
    → all is_param ps ≡ true
    → length ps ≤ 64
    → is_final final ≡ true
    → push f (emit_csi ps final) ≡ handle_csi f ps final
push-emit_csi f ps final v s p l e = rw (
  push-eq-run f (emit_csi ps final),
  enter_csi f (ps ++ final ∷ []) s,
  run-in_csi (record f { state = csi; params = [] }) ps final refl p (omega arith) e,
  settled f v s,
)

-- `text` is a parameter string: digits, with no separator.
abbrev pub is_digits : Text → Bool
is_digits = all (λ c. leb b'0' c && leb c b'9')

digits_plain :
    (q : Text)
    → is_digits q ≡ true
    → (any (λ c. c == b';') q ≡ false)
      × (any is_space q ≡ false)
      × (any (λ c. c == b'?') q ≡ false)
      × (all is_param q ≡ true)
unfolding is_space
digits_plain [] h = (refl, refl, refl, refl)
digits_plain (c ∷ cs) h = ground (arith, digits_plain cs)

params-plain :
    (q : Text) (qs : List Text)
    → All (λ t. is_digits t ≡ true) (q ∷ qs)
    → (any (λ c. c == b'?') (join (b';' ∷ []) (q ∷ qs)) ≡ false)
      × (all is_param (join (b';' ∷ []) (q ∷ qs)) ≡ true)
params-plain q [] h = let (i, j, k, l) = digits_plain q h.0 in (k, l)
params-plain q (r ∷ rs) h =
    let (i, j, k, l) = digits_plain q h.0 in
    let (m, n) = params-plain r rs h.1 in
    let tail = join (b';' ∷ []) (r ∷ rs) in
    (
      rw (any-append (λ c. c == b'?') q (b';' ∷ tail), k, m),
      rw (all-append is_param q (b';' ∷ tail), l, n),
    )

separable :
    (qs : List Text)
    → All (λ t. is_digits t ≡ true) qs
    → All (λ t. any (λ c. c == b';') t ≡ false) qs
separable [] h = tt
separable (q ∷ qs) h = ((digits_plain q h.0).0, separable qs h.1)

-- Trimming does nothing to digits.
any-trim :
    (qs : List Text)
    → All (λ t. is_digits t ≡ true) qs
    → any (λ p. text_eq (trim p) (codes "2026")) qs ≡ any (λ p. text_eq p (codes "2026")) qs
any-trim [] h = refl
any-trim (q ∷ qs) h = rw (trim_fixed q (digits_plain q h.0).1, any-trim qs h.1)

names_sync-join :
    (q : Text) (qs : List Text)
    → All (λ t. is_digits t ≡ true) (q ∷ qs)
    → names_sync (b'?' ∷ join (b';' ∷ []) (q ∷ qs)) ≡ any (λ p. text_eq p (codes "2026")) (q ∷ qs)
unfolding names_sync
names_sync-join q qs h = rw (split_on-join b';' q qs (separable (q ∷ qs) h)) (any-trim (q ∷ qs) h)

-- A private mode switch passes through, and leaves the filter in a sync block just where it names
-- mode 2026 to set it, outside where it names it to reset it, and where it was otherwise.
pub push-mode_switch :
    (f : SyncClearFilter) (q : Text) (qs : List Text) (final : ℕ)
    → IsValid f
    → f.state ≡ State.ground
    → All (λ t. is_digits t ≡ true) (q ∷ qs)
    → length (join (b';' ∷ []) (q ∷ qs)) < 64
    → (final ≡ b'h') ⊎ (final ≡ b'l')
    → push f (emit_csi (b'?' ∷ join (b';' ∷ []) (q ∷ qs)) final) ≡ (
      record f {
        in_sync = if any (λ m. text_eq m (codes "2026")) (q ∷ qs) then final == b'h' else f.in_sync;
      },
      emit_csi (b'?' ∷ join (b';' ∷ []) (q ∷ qs)) final,
    )
unfolding handle_csi
push-mode_switch f q qs final v s d l e =
    let params = b'?' ∷ join (b';' ∷ []) (q ∷ qs) in
    let through = push-emit_csi f params final v s (params-plain q qs d).1 l (ground arith) in
    rw through (ground (arith, names_sync-join q qs d))
