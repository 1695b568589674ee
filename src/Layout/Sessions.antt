-- ===== src/Layout/Sessions.antt =====
-- What each operation on a pane tree does to the sequence of sessions that the tree shows.
use tethra.Base.{
  Bool-cases, List, Option, Text, [], any, any-append, append-nil, arith, false, filter,
  filter-append, flat_map, flat_map-append, if◌then◌else◌, inl, inr, map, map-append, none, not,
  refl, some, sym, text_eq, text_eq_refl, ℕ, ◌++◌, ◌∙◌, ◌∷◌, ◌≡◌,
}
use tethra.Base.Number.{Numbers}
use tethra.Layout.{
  LayoutNode, SplitOrientation, collect_session_ids, contains_session, join_survivors, leaf, node,
  remove_session, replace_session, set_split_ratio, split_leaf,
}

module _ {N : Type 0} where
  -- The sessions of a tree that may be gone.
  abbrev pub survivors : Option (LayoutNode N) → List Text
  survivors none = []
  survivors (some n) = collect_session_ids n

  survivors-join_survivors :
      (id : Text) (o : SplitOrientation) (r : N) (a b : Option (LayoutNode N))
      → survivors (join_survivors id o r a b) ≡ survivors a ++ survivors b
  unfolding collect_session_ids
  survivors-join_survivors id o r none b = refl
  survivors-join_survivors id o r (some a) none = sym (append-nil _)
  survivors-join_survivors id o r (some a) (some b) = refl

  -- Removing a session leaves the other sessions, all of them and in their order; the result is null
  -- just where none is left.
  pub survivors-remove_session :
      (n : LayoutNode N) (sid : Text)
      → survivors (remove_session n sid) ≡ filter (λ s. not (text_eq s sid)) (collect_session_ids n)
  unfolding remove_session collect_session_ids
  survivors-remove_session (leaf s) sid = ground arith
  survivors-remove_session (node id o r a b) sid =
      survivors-join_survivors id o r (remove_session a sid) (remove_session b sid)
      ∙ rw (survivors-remove_session a sid, survivors-remove_session b sid)
          (sym (
            filter-append (λ s. not (text_eq s sid)) (collect_session_ids a)
              (collect_session_ids b)))

  -- Replacing a session renames it wherever it stands, and touches no other.
  pub collect_session_ids-replace_session :
      (n : LayoutNode N) (from to : Text)
      → collect_session_ids (replace_session n from to)
        ≡ map (λ s. if text_eq s from then to else s) (collect_session_ids n)
  unfolding replace_session collect_session_ids
  collect_session_ids-replace_session (leaf s) from to = ground arith
  collect_session_ids-replace_session (node id o r a b) from to =
      rw
        (
          collect_session_ids-replace_session a from to,
          collect_session_ids-replace_session b from to,
        )
        (sym (map-append _ _ _))

module _ (js : Numbers) (uuid : ℕ → Text) where
  open js use {Num}

  collect_session_ids-split_leaf_one :
      (s sid new : Text) (o : SplitOrientation) (k : ℕ)
      → collect_session_ids (split_leaf js uuid (leaf s) sid new o k).0
        ≡ flat_map (λ t. if text_eq t sid then t ∷ new ∷ [] else t ∷ []) (s ∷ [])
  unfolding split_leaf collect_session_ids flat_map
  collect_session_ids-split_leaf_one s sid new o k = elim (Bool-cases (text_eq s sid)) [
    | inl e ↦ rw e
    | inr e ↦ rw e
  ]

  -- Splitting a pane puts the new session right behind each pane of the session, and nowhere else.
  pub collect_session_ids-split_leaf :
      (n : LayoutNode Num) (sid new : Text) (o : SplitOrientation) (k : ℕ)
      → collect_session_ids (split_leaf js uuid n sid new o k).0
        ≡ flat_map (λ s. if text_eq s sid then s ∷ new ∷ [] else s ∷ []) (collect_session_ids n)
  unfolding split_leaf collect_session_ids
  collect_session_ids-split_leaf (leaf s) sid new o k =
      collect_session_ids-split_leaf_one s sid new o k
  collect_session_ids-split_leaf (node id o' r a b) sid new o k =
      rw
        (collect_session_ids-split_leaf a sid new o k, collect_session_ids-split_leaf b sid new o _)
        (sym (flat_map-append _ _ _))

  -- Moving a divider moves no session.
  pub collect_session_ids-set_split_ratio :
      (n : LayoutNode Num) (id : Text) (x : Num)
      → collect_session_ids (set_split_ratio js n id x) ≡ collect_session_ids n
  unfolding set_split_ratio collect_session_ids
  collect_session_ids-set_split_ratio (leaf s) id x = refl
  collect_session_ids-set_split_ratio (node i o r a b) id x = ground (
    arith,
    collect_session_ids-set_split_ratio a id x,
    collect_session_ids-set_split_ratio b id x,
  )

  remove_leaf :
      (s sid new : Text) (o : SplitOrientation) (k : ℕ)
      → text_eq s new ≡ false
      → remove_session (split_leaf js uuid (leaf s) sid new o k).0 new ≡ some (leaf s)
  unfolding split_leaf remove_session
  remove_leaf s sid new o k h = ground (arith, text_eq_refl new)

  remove_session-node :
      (id : Text) (o : SplitOrientation) (r : Num) (a b : LayoutNode Num) (sid : Text)
      → remove_session (node id o r a b) sid
        ≡ join_survivors id o r (remove_session a sid) (remove_session b sid)
  unfolding remove_session
  remove_session-node id o r a b sid = refl

  absent-node :
      (a b : LayoutNode Num) (sid : Text)
      → any (λ s. text_eq s sid) (collect_session_ids a ++ collect_session_ids b) ≡ false
      → (contains_session a sid ≡ false) × (contains_session b sid ≡ false)
  unfolding contains_session
  absent-node a b sid h =
      ground
        (arith, any-append (λ s. text_eq s sid) (collect_session_ids a) (collect_session_ids b))

  -- Closing a pane that was just split off gives back the tree as it was, provided that the tree did
  -- not already show the new session.
  pub remove_session-split_leaf :
      (n : LayoutNode Num) (sid new : Text) (o : SplitOrientation) (k : ℕ)
      → contains_session n new ≡ false
      → remove_session (split_leaf js uuid n sid new o k).0 new ≡ some n
  unfolding contains_session split_leaf
  remove_session-split_leaf (leaf s) sid new o k h = remove_leaf s sid new o k (ground arith)
  remove_session-split_leaf (node id o' r a b) sid new o k h =
      let (p, q) = absent-node a b new h in
      rw (
        remove_session-node,
        remove_session-split_leaf a sid new o k p,
        remove_session-split_leaf b sid new o _ q,
      )
