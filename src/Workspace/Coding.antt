-- ===== src/Workspace/Coding.antt =====
-- A coding of pane trees that has what the model asks of `JSON`: a leaf is 0, the length of its session and
-- the session; a split is 1 or 2, by its orientation, the length of its id, the id, the ratio and the panes.
use tethra.Workspace.State.{Json}
use mathlib.Core.Path.{subst}
use tethra.Base.{
  Option, Text, [], ap, append-nil, append_assoc, arith, drop, length, length-append, none, refl,
  some, suc, take, zero, ℕ, ◌++◌, ◌+◌, ◌∙◌, ◌∷◌, ◌≡◌, ◌≤◌,
}
use tethra.Layout.{LayoutNode, SplitOrientation, horizontal, leaf, node, vertical}

abbrev orientation_code : SplitOrientation → ℕ
orientation_code horizontal = 1
orientation_code vertical = 2

abbrev orientation_of : ℕ → SplitOrientation
orientation_of zero = horizontal
orientation_of (suc n) = vertical

abbrev encode : LayoutNode ℕ → Text
encode (leaf s) = 0 ∷ length s ∷ s
encode (node id o r a b) = orientation_code o ∷ length id ∷ id ++ (r ∷ encode a ++ encode b)

abbrev Decoded : Type 0
Decoded = Option (LayoutNode ℕ × Text)

abbrev then_second : Text → SplitOrientation → ℕ → LayoutNode ℕ → Decoded → Decoded
then_second id o r a none = none
then_second id o r a (some (b, rest)) = some (node id o r a b, rest)

abbrev second_with : (Text → Decoded) → Text → SplitOrientation → ℕ → Decoded → Decoded
second_with d id o r none = none
second_with d id o r (some (a, xs)) = then_second id o r a (d xs)

abbrev node_with : (Text → Decoded) → Text → SplitOrientation → Text → Decoded
node_with d id o [] = none
node_with d id o (r ∷ xs) = second_with d id o r (d xs)

abbrev decode : ℕ → Text → Decoded
decode zero xs = none
decode (suc n) [] = none
decode (suc n) (k ∷ []) = none
decode (suc n) (zero ∷ l ∷ xs) = some (leaf (take l xs), drop l xs)
decode (suc n) (suc k ∷ l ∷ xs) =
    node_with (λ ys. decode n ys) (take l xs) (orientation_of k) (drop l xs)

abbrev size : LayoutNode ℕ → ℕ
size (leaf s) = 1
size (node id o r a b) = suc (size a + size b)

take-length : (s t : Text) → take (length s) (s ++ t) ≡ s
take-length [] t = refl
take-length (c ∷ s) t = ap (λ u. c ∷ u) (take-length s t)

drop-length : (s t : Text) → drop (length s) (s ++ t) ≡ t
drop-length [] t = refl
drop-length (c ∷ s) t = drop-length s t

abbrev panes_text : ℕ → LayoutNode ℕ → LayoutNode ℕ → Text → Text
panes_text r a b rest = r ∷ (encode a ++ (encode b ++ rest))

node-encode :
    (id : Text) (r : ℕ) (a b : LayoutNode ℕ) (rest : Text)
    → (id ++ (r ∷ encode a ++ encode b)) ++ rest ≡ id ++ panes_text r a b rest
node-encode id r a b rest =
    rw (append_assoc id (r ∷ encode a ++ encode b) rest, append_assoc (encode a) (encode b) rest)

node_with-encode :
    (d : Text → Decoded) (id : Text) (o : SplitOrientation) (r : ℕ) (a b : LayoutNode ℕ)
    (rest : Text)
    → ((xs : Text) → d (encode a ++ xs) ≡ some (a, xs))
    → ((xs : Text) → d (encode b ++ xs) ≡ some (b, xs))
    → node_with d
        (take (length id) (id ++ panes_text r a b rest))
        o
        (drop (length id) (id ++ panes_text r a b rest))
      ≡ some (node id o r a b, rest)
node_with-encode d id o r a b rest p q =
    rw (take-length id (panes_text r a b rest), drop-length id (panes_text r a b rest))
      (ap (λ x. second_with d id o r x) (p (encode b ++ rest))
        ∙ ap (λ x. then_second id o r a x) (q rest))

pub decode-encode :
    (n : LayoutNode ℕ) (m : ℕ) (rest : Text)
    → size n ≤ m
    → decode m (encode n ++ rest) ≡ some (n, rest)
decode-encode (leaf s) zero rest h = ground arith
decode-encode (leaf s) (suc m) rest h = rw (take-length s rest, drop-length s rest)
decode-encode (node id o r a b) zero rest h = ground arith
decode-encode (node id horizontal r a b) (suc m) rest h = rw (node-encode id r a b rest) (
    node_with-encode (λ ys. decode m ys) id horizontal r a b rest
      (λ xs. decode-encode a m xs (omega arith)) (λ xs. decode-encode b m xs (omega arith)))
decode-encode (node id vertical r a b) (suc m) rest h = rw (node-encode id r a b rest) (
    node_with-encode (λ ys. decode m ys) id vertical r a b rest
      (λ xs. decode-encode a m xs (omega arith)) (λ xs. decode-encode b m xs (omega arith)))

pub size-encode : (n : LayoutNode ℕ) → size n ≤ length (encode n)
size-encode (leaf s) = omega arith
size-encode (node id o r a b) =
    rw (length-append id (r ∷ encode a ++ encode b), length-append (encode a) (encode b))
      (omega (arith, size-encode a, size-encode b))

abbrev tree : Decoded → Option (LayoutNode ℕ)
tree none = none
tree (some (n, rest)) = some n

abbrev pub coding : Json ℕ
coding = record {
  stringify = encode;
  parse = λ s. tree (decode (length s) s);
  parse-stringify = λ n.
      subst (λ s. tree (decode (length (encode n)) s) ≡ some n) (append-nil (encode n))
        (ap tree (decode-encode n (length (encode n)) [] (size-encode n)));
}
