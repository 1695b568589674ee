-- ===== src/Layout/Tests.antt =====
-- Runs of the pane tree, and its theorems at a tree of three panes.
use tethra.Base.{Text, [], codes, filter, not, refl, text_eq, ℕ, ◌∷◌, ◌≡◌}
use tethra.Base.Number.{centi}
use tethra.Layout.{
  LayoutNode, collect_session_ids, horizontal, leaf, node, remove_session, set_split_ratio,
  split_leaf, vertical,
}
use tethra.Layout.Sessions.{survivors, survivors-remove_session}

abbrev a : Text
a = codes "a"

abbrev b : Text
b = codes "b"

abbrev fresh : ℕ → Text
fresh k = k ∷ []

abbrev panes : LayoutNode ℕ
panes = node (codes "x") horizontal 50 (leaf a) (node (codes "y") vertical 20 (leaf b) (leaf a))

-- A drag past the edge is clamped, and each pane of a session is split.
set_split_ratio_test :
    set_split_ratio centi panes (codes "y") 99
    ≡ node (codes "x") horizontal 50 (leaf a) (node (codes "y") vertical 85 (leaf b) (leaf a))
unfolding set_split_ratio text_eq
set_split_ratio_test = refl

split_leaf_test :
    (split_leaf centi fresh panes b (codes "c") vertical 7).0
    ≡ node (codes "x") horizontal 50 (leaf a) (
        node
          (codes "y")
          vertical
          20
          (node (7 ∷ []) vertical 50 (leaf b) (leaf (codes "c")))
          (leaf a))
unfolding split_leaf text_eq
split_leaf_test = refl

survivors-remove_session_example :
    survivors (remove_session panes a) ≡ filter (λ s. not (text_eq s a)) (collect_session_ids panes)
survivors-remove_session_example = survivors-remove_session panes a
