-- ===== src/Trie/Split.antt =====
-- The split of a node whose prefix does not lead to the key.
use comment_subs.Prelude.{
  ℕ, ◌≡◌, refl, ap, some, List, [], ◌∷◌, ◌++◌, Bytes, arith, lt→ltb, ◌∙◌, append-nil,
}
use comment_subs.Trie.Defs.{
  Value, Node, node, Children, null, child, childmax, get_child, match_prefix, split_node,
  prefix_of,
}
use comment_subs.Trie.Denote.{values_below, values_at}
use comment_subs.Trie.Shape.{IsAscii, NodeFits, ChildrenFit}

-- The loop over the prefix takes both strings apart behind their common part.
pub match_prefix-append :
    (prefix key : Bytes)
    → (prefix ≡ (match_prefix prefix key).common ++ (match_prefix prefix key).left)
      × (key ≡ (match_prefix prefix key).common ++ (match_prefix prefix key).rest)
unfolding match_prefix
match_prefix-append [] key = (refl, refl)
match_prefix-append (p ∷ ps) [] = (refl, refl)
match_prefix-append (p ∷ ps) (k ∷ ks) = ground (arith, match_prefix-append ps ks)

-- A node below a new parent has its values at the same keys.
pub values_below-split :
    (common left : Bytes) (ch first last : ℕ) (vs : List Value) (cs : Children) (k : Bytes)
    → values_below common [] (child ch (node left vs first last cs) null) k
      ≡ values_below (common ++ ch ∷ left) vs cs k
unfolding values_below get_child
values_below-split [] left ch first last vs cs [] = refl
values_below-split [] left ch first last vs cs (c ∷ k) = ground arith
values_below-split (p ∷ common) left ch first last vs cs [] = refl
values_below-split (p ∷ common) left ch first last vs cs (c ∷ k) =
    ground (arith, values_below-split common left ch first last vs cs k)

pub IsAscii-append : (xs ys : Bytes) → IsAscii (xs ++ ys) → IsAscii xs × IsAscii ys
IsAscii-append [] ys h = (tt, h)
IsAscii-append (x ∷ xs) ys h = let (a, b) = IsAscii-append xs ys h.2 in ((h.0, h.1, a), b)

-- The parts of the node that insert_rest works on.
pub record Prepared (n : Node) (common : Bytes) (n' : Node) : Type 0 where
  pub values : List Value
  pub first : ℕ
  pub last : ℕ
  pub children : Children
  pub is : n' ≡ node common values first last children
  pub same : (k : Bytes) → values_at n' k ≡ values_at n k
  pub fits : NodeFits n'

pub split_node-Prepared :
    (n : Node) (common left : Bytes)
    → NodeFits n
    → (prefix_of n ≡ common ++ left)
    → (n' : Node) × (split_node n common left ≡ some n') × Prepared n common n'
unfolding split_node values_at NodeFits ChildrenFit
split_node-Prepared (node prefix vs first last cs) common [] fits e = (
  node prefix vs first last cs,
  refl,
  record {
    values = vs;
    first = first;
    last = last;
    children = cs;
    is = ap (λ p. node p vs first last cs) (e ∙ append-nil common);
    same = λ k. refl;
    fits = fits;
  },
)
split_node-Prepared (node prefix vs first last cs) common (ch ∷ left) fits e =
    let ascii = IsAscii-append common (ch ∷ left) (rw e at fits.0) in
    (
      node common [] ch ch (child ch (node left vs first last cs) null),
      rw (lt→ltb ch childmax ascii.1.1),
      record {
        values = [];
        first = ch;
        last = ch;
        children = child ch (node left vs first last cs) null;
        is = refl;
        same = λ k. rw e (values_below-split common left ch first last vs cs k);
        fits = (
          ascii.0,
          tt,
          ascii.1.1,
          (ascii.1.1, omega arith, omega arith, (ascii.1.2, fits.1, fits.2, fits.3), tt),
        );
      },
    )
