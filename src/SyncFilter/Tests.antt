-- ===== src/SyncFilter/Tests.antt =====
-- Runs of the filter, and its theorems at concrete streams.
use mathlib.Core.List.{flatten}
use tethra.Base.{List, [], arith, codes, false, refl, replicate, true, ℕ, ◌++◌, ◌∷◌, ◌≡◌}
use tethra.SyncFilter.{SyncClearFilter, csi, emit_csi, home_and_erase, initial, push, step_in}
use tethra.SyncFilter.Chunks.{IsValid, push_all, push_all-eq-push}
use tethra.SyncFilter.Transparent.{Quiet, pending, push-pending}

-- The filter inside a sync block.
abbrev syncing : SyncClearFilter
syncing = record initial { in_sync = true }

-- A sync block with an ED2 in it, cut in the middle of two sequences.
abbrev frame : List (List ℕ)
frame =
    (0x1b ∷ codes "[?20")
    ∷ (codes "26hA" ++ 0x1b ∷ [])
    ∷ codes "[2JB"
    ∷ (0x1b ∷ codes "[?2026l")
    ∷ []

push_all-frame :
    (push_all initial frame).1
    ≡ emit_csi (codes "?2026") b'h'
      ++ codes "A"
      ++ home_and_erase
      ++ codes "B"
      ++ emit_csi (codes "?2026") b'l'
unfolding push_all push
push_all-frame = refl

push_plain : push syncing (codes "ls") ≡ (syncing, codes "ls")
unfolding push
push_plain = refl

initial-IsValid : IsValid initial
initial-IsValid = record { short = omega arith; bytes = refl; outside = λ _. refl }

push_all-eq-push_example : push_all initial frame ≡ push initial (flatten frame)
push_all-eq-push_example = push_all-eq-push initial frame

plain_title : Quiet initial (0x1b ∷ codes "[1mx")
unfolding step_in
plain_title = (
  refl,
  (λ s p. omega arith),
  (
    refl,
    (λ s p. omega arith),
    (refl, (λ s p. omega arith), (refl, (λ s p. omega arith), (refl, (λ s p. omega arith), tt))),
  ),
)

push-pending_example :
    (push initial (0x1b ∷ codes "[1mx")).1 ++ pending (push initial (0x1b ∷ codes "[1mx")).0
    ≡ 0x1b ∷ codes "[1mx"
push-pending_example = push-pending initial (0x1b ∷ codes "[1mx") plain_title

abbrev full : SyncClearFilter
full = record { state = csi; params = replicate 64 b'1'; in_sync = false }
