-- ===== src/Layout/Ratio.antt =====
-- The ratio of every split stays between 0.15 and 0.85.
use tethra.Base.{ℕ, Option, none, some, refl, if-intro, Text, text_eq}
use tethra.Base.Number.{Numbers, Within, clamp-Within}
use tethra.Layout.{
  LayoutNode, leaf, node, SplitOrientation, replace_session, remove_session, join_survivors,
  clamp_ratio, set_split_ratio, split_leaf,
}

module _ (js : Numbers) where
  open js use {Num, hundredths}

  abbrev pub RatiosIn : LayoutNode Num → Type 0
  RatiosIn (leaf s) = Unit
  RatiosIn (node id o r a b) = Within js 15 85 r × RatiosIn a × RatiosIn b

  abbrev pub Survivor : Option (LayoutNode Num) → Type 0
  Survivor none = Unit
  Survivor (some n) = RatiosIn n

  clamp_ratio-Within : (x : Num) → Within js 15 85 (clamp_ratio js x)
  unfolding clamp_ratio
  clamp_ratio-Within x = clamp-Within js 15 85 x refl

  join_survivors-RatiosIn :
      (id : Text) (o : SplitOrientation) (r : Num) (a b : Option (LayoutNode Num))
      → Within js 15 85 r
      → Survivor a
      → Survivor b
      → Survivor (join_survivors id o r a b)
  join_survivors-RatiosIn id o r none b w p q = q
  join_survivors-RatiosIn id o r (some a) none w p q = p
  join_survivors-RatiosIn id o r (some a) (some b) w p q = (w, p, q)

  remove_session-RatiosIn :
      (n : LayoutNode Num) (sid : Text) → RatiosIn n → Survivor (remove_session n sid)
  unfolding remove_session
  remove_session-RatiosIn (leaf s) sid h = if-intro Survivor (text_eq s sid) tt tt
  remove_session-RatiosIn (node id o r a b) sid h =
      join_survivors-RatiosIn id o r (remove_session a sid) (remove_session b sid) h.0
        (remove_session-RatiosIn a sid h.1) (remove_session-RatiosIn b sid h.2)

  replace_session-RatiosIn :
      (n : LayoutNode Num) (from to : Text) → RatiosIn n → RatiosIn (replace_session n from to)
  unfolding replace_session
  replace_session-RatiosIn (leaf s) from to h = if-intro RatiosIn (text_eq s from) tt tt
  replace_session-RatiosIn (node id o r a b) from to h =
      (h.0, replace_session-RatiosIn a from to h.1, replace_session-RatiosIn b from to h.2)

  set_split_ratio-RatiosIn :
      (n : LayoutNode Num) (id : Text) (x : Num) → RatiosIn n → RatiosIn (set_split_ratio js n id x)
  unfolding set_split_ratio
  set_split_ratio-RatiosIn (leaf s) id x h = tt
  set_split_ratio-RatiosIn (node i o r a b) id x h =
      if-intro RatiosIn (text_eq i id) (clamp_ratio-Within x, h.1, h.2)
        (h.0, set_split_ratio-RatiosIn a id x h.1, set_split_ratio-RatiosIn b id x h.2)

  module _ (uuid : ℕ → Text) where
    split_leaf-RatiosIn :
        (n : LayoutNode Num) (sid new : Text) (o : SplitOrientation) (k : ℕ)
        → RatiosIn n
        → RatiosIn (split_leaf js uuid n sid new o k).0
    unfolding split_leaf
    split_leaf-RatiosIn (leaf s) sid new o k h =
        if-intro (λ (t : LayoutNode Num × ℕ). RatiosIn t.0) (text_eq s sid)
          (clamp_ratio-Within (hundredths 50), tt, tt) tt
    split_leaf-RatiosIn (node id o' r a b) sid new o k h =
        (h.0, split_leaf-RatiosIn a sid new o k h.1, split_leaf-RatiosIn b sid new o _ h.2)

    -- The ratio of every split lies between 0.15 and 0.85: each operation on a tree keeps that,
    -- whatever ratio a drag asks for.
    pub layout-RatiosIn :
        (n : LayoutNode Num) (sid other : Text) (o : SplitOrientation) (x : Num) (k : ℕ)
        → RatiosIn n
        → RatiosIn (split_leaf js uuid n sid other o k).0
          × RatiosIn (set_split_ratio js n sid x)
          × RatiosIn (replace_session n sid other)
          × Survivor (remove_session n sid)
    layout-RatiosIn n sid other o x k h = (
      split_leaf-RatiosIn n sid other o k h,
      set_split_ratio-RatiosIn n sid x h,
      replace_session-RatiosIn n sid other h,
      remove_session-RatiosIn n sid h,
    )
