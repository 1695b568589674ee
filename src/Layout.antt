-- ===== src/Layout.antt =====
-- The pane tree of a window (apps/ui/src/terminal/layout.ts). A ratio is a number of the interface
-- `Numbers`; `crypto.randomUUID()` is a parameter that gives the text of each draw in turn, so a
-- function that may draw takes the count of draws so far and returns the new one.
pub mod Sessions
pub mod Ratio
mod Tests
use tethra.Base.{
  ℕ, suc, Bool, List, [], ◌∷◌, ◌++◌, Option, none, some, if◌then◌else◌, any, Text, text_eq,
}
use tethra.Base.Number.{Numbers, clamp}

pub data SplitOrientation : Type 0 where
  horizontal vertical : SplitOrientation

-- The constructors are the two shapes of the union, `node` the one of type "split".
pub data LayoutNode (N : Type 0) : Type 0 where
  leaf : Text → LayoutNode N
  node : Text → SplitOrientation → N → LayoutNode N → LayoutNode N → LayoutNode N

module _ {N : Type 0} where
  unfoldable pub collect_session_ids : LayoutNode N → List Text
  collect_session_ids (leaf s) = s ∷ []
  collect_session_ids (node id o r first second) =
      collect_session_ids first ++ collect_session_ids second

  unfoldable pub replace_session : LayoutNode N → Text → Text → LayoutNode N
  replace_session (leaf s) from to = if text_eq s from then leaf to else leaf s
  replace_session (node id o r first second) from to =
      node id o r (replace_session first from to) (replace_session second from to)

  -- The last three lines of `removeSession`, on the two results.
  abbrev pub join_survivors :
      Text
      → SplitOrientation
      → N
      → Option (LayoutNode N)
      → Option (LayoutNode N)
      → Option (LayoutNode N)
  join_survivors id o r none second = second
  join_survivors id o r (some first) none = some first
  join_survivors id o r (some first) (some second) = some (node id o r first second)

  unfoldable pub remove_session : LayoutNode N → Text → Option (LayoutNode N)
  remove_session (leaf s) sid = if text_eq s sid then none else some (leaf s)
  remove_session (node id o r first second) sid =
      join_survivors id o r (remove_session first sid) (remove_session second sid)

  unfoldable pub contains_session : LayoutNode N → Text → Bool
  unfolding collect_session_ids
  contains_session n sid = any (λ s. text_eq s sid) (collect_session_ids n)

module _ (js : Numbers) where
  open js use {Num, hundredths}

  unfoldable pub clamp_ratio : Num → Num
  unfolding clamp
  clamp_ratio = clamp js 15 85

  unfoldable pub set_split_ratio : LayoutNode Num → Text → Num → LayoutNode Num
  unfolding clamp_ratio
  set_split_ratio (leaf s) sid ratio = leaf s
  set_split_ratio (node id o r first second) sid ratio =
      if text_eq id sid
      then node id o (clamp_ratio ratio) first second
      else node id o r (set_split_ratio first sid ratio) (set_split_ratio second sid ratio)

  module _ (uuid : ℕ → Text) where
    abbrev split_ratio :
        SplitOrientation → LayoutNode Num → LayoutNode Num → Num → ℕ → LayoutNode Num × ℕ
    split_ratio o first second ratio k = (node (uuid k) o (clamp_ratio ratio) first second, suc k)

    -- `split` at its default ratio.
    unfoldable pub split :
        SplitOrientation → LayoutNode Num → LayoutNode Num → ℕ → LayoutNode Num × ℕ
    unfolding clamp_ratio
    split o first second k = split_ratio o first second (hundredths 50) k

    unfoldable pub split_leaf :
        LayoutNode Num → Text → Text → SplitOrientation → ℕ → LayoutNode Num × ℕ
    unfolding split
    split_leaf (leaf s) sid new o k =
        if text_eq s sid then split o (leaf s) (leaf new) k else (leaf s, k)
    split_leaf (node id o' r first second) sid new o k =
        let (f, k₁) = split_leaf first sid new o k in
        let (g, k₂) = split_leaf second sid new o k₁ in (node id o' r f g, k₂)
