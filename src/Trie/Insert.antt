-- ===== src/Trie/Insert.antt =====
-- index_insert adds one value at one key, and keeps the tree well formed.
use comment_subs.Prelude.{
  ℕ, zero, suc, ◌+◌, ◌<◌, ◌≡◌, refl, ap, Bool, false, Option, none, some, List, [], ◌∷◌, ◌++◌,
  if◌then◌else◌, Bytes, arith, inl, inr, lt→ltb, ltb, length, sym, ◌∙◌, Option-cases, length-append,
}
use comment_subs.Trie.Defs.{
  Value, Node, node, Children, null, childmax, get_child, set_child, match_prefix, prefix_of,
  insert_rest, index_insert, is_duplicate, place_value, index_add_value,
}
use comment_subs.Trie.Denote.{
  values_below, values_at, values_below-child, Adds, Adds-prefix, Adds-child, Adds-here,
  values_below-append, values_below-leaf,
}
use comment_subs.Trie.Shape.{
  IsAscii, NodeFits, ChildrenFit, ChildrenFit-mono, get_child-fits, set_child-fits, ValueFits,
  place_value-fits,
}
use comment_subs.Trie.Split.{IsAscii-append, match_prefix-append, split_node-Prepared}

-- The result `r` of an insertion of `v` at `key` below `n`.
pub record Inserted (n : Node) (key : Bytes) (v : Value) (r : Node × Bool) : Type 0 where
  pub adds : Adds (values_at n) key v (values_at r.0)
  pub duplicate : r.1 ≡ is_duplicate (values_at n key) v.value
  pub fits : NodeFits r.0

module _ (v : Value) (v_fits : ValueFits v) (descend : Node → Bytes → Option (Node × Bool))
    (common : Bytes) (vs : List Value) (first last : ℕ) (cs : Children)
    (fits : NodeFits (node common vs first last cs)) where
  rest_nil :
      (r : Node × Bool) × (insert_rest descend (node common vs first last cs) [] v ≡ some r)
      × Inserted (node common vs first last cs) (common ++ []) v r
  unfolding insert_rest index_add_value values_at NodeFits
  rest_nil = (
    (node common (place_value vs v) first last cs, is_duplicate vs v.value),
    refl,
    record {
      adds = Adds-prefix common [] v vs (place_value vs v) cs cs (Adds-here vs cs v);
      duplicate = rw (values_below-append, values_below);
      fits = (fits.0, place_value-fits vs v v_fits fits.1, fits.2, fits.3);
    },
  )

  module _ (ch : ℕ) (key : Bytes) (ascii : IsAscii (ch ∷ key)) where
    rest_leaf :
        get_child cs ch ≡ none
        → (r : Node × Bool) × (insert_rest descend (node common vs first last cs) (ch ∷ key) v
            ≡ some r)
          × Inserted (node common vs first last cs) (common ++ ch ∷ key) v r
    unfolding insert_rest index_add_value values_at NodeFits ChildrenFit place_value is_duplicate
    rest_leaf e =
        let leaf = node key (v ∷ []) childmax 0 null in
        let first' = if ltb ch first then ch else first in
        let last' = if ltb last ch then ch else last in
        (
          (node common vs first' last' (set_child cs ch leaf), false),
          rw (lt→ltb ch childmax ascii.1, e),
          record {
            adds =
                Adds-prefix common (ch ∷ key) v vs vs cs (set_child cs ch leaf)
                  (Adds-child vs cs ch key v leaf (λ k. rw e (values_below-leaf key v k)));
            duplicate = rw (values_below-append, values_below-child vs cs ch key none e);
            fits = (
              fits.0,
              fits.1,
              ground (arith, fits.2),
              set_child-fits cs ch leaf ascii.1 (ground arith) (ground arith)
                  (ascii.2, (v_fits, tt), omega arith, tt)
                  (ChildrenFit-mono cs (ground arith) (ground arith) fits.3),
            );
          },
        )

    rest_child :
        (c : Node)
        → get_child cs ch ≡ some c
        → (NodeFits c → (r : Node × Bool) × (descend c key ≡ some r) × Inserted c key v r)
        → (r : Node × Bool) × (insert_rest descend (node common vs first last cs) (ch ∷ key) v
            ≡ some r)
          × Inserted (node common vs first last cs) (common ++ ch ∷ key) v r
    unfolding insert_rest values_at NodeFits
    rest_child c e step =
        let known = get_child-fits cs ch fits.3 e in
        let (r, run, done) = step known.3 in
        (
          (node common vs first last (set_child cs ch r.0), r.1),
          rw (lt→ltb ch childmax ascii.1, e, run),
          record {
            adds =
                Adds-prefix common (ch ∷ key) v vs vs cs (set_child cs ch r.0)
                  (Adds-child vs cs ch key v r.0 (rw e done.adds));
            duplicate =
                rw (values_below-append, values_below-child vs cs ch key (some c) e) done.duplicate;
            fits = (
              fits.0,
              fits.1,
              fits.2,
              set_child-fits cs ch r.0 known.0 known.1 known.2 done.fits fits.3,
            );
          },
        )

-- The three cases together.
rest_any :
    (v : Value) (v_fits : ValueFits v) (descend : Node → Bytes → Option (Node × Bool))
    (common : Bytes) (vs : List Value) (first last : ℕ) (cs : Children) (rest : Bytes)
    → NodeFits (node common vs first last cs)
    → IsAscii rest
    → ((c : Node) (key : Bytes)
        → length key < length rest
        → NodeFits c
        → IsAscii key
        → (r : Node × Bool) × (descend c key ≡ some r) × Inserted c key v r)
    → (r : Node × Bool) × (insert_rest descend (node common vs first last cs) rest v ≡ some r)
      × Inserted (node common vs first last cs) (common ++ rest) v r
rest_any v v_fits descend common vs first last cs [] fits ascii step =
    rest_nil v v_fits descend common vs first last cs fits
rest_any v v_fits descend common vs first last cs (ch ∷ key) fits ascii step =
    elim (Option-cases (get_child cs ch)) [
      | inl e ↦ rest_leaf v v_fits descend common vs first last cs fits ch key ascii e
      | inr (c, e) ↦
          rest_child v v_fits descend common vs first last cs fits ch key ascii c e
            (λ below. step c key (omega arith) below ascii.2)
    ]

-- An insertion into a node with the same values.
Inserted-same :
    (n n' : Node) (key key' : Bytes) (v : Value) (r : Node × Bool)
    → key ≡ key'
    → ((k : Bytes) → values_at n' k ≡ values_at n k)
    → Inserted n' key' v r
    → Inserted n key v r
Inserted-same n n' key key' v r e same done = record {
  adds = λ k. rw e (ground (arith, done.adds k, same k, same key'));
  duplicate = rw (e, ← same key') done.duplicate;
  fits = done.fits;
}

-- In a well-formed tree, with an ASCII key, a value that the file format can hold, and more fuel
-- than the key has characters, index_insert meets no fault and ends. It adds the value at the key,
-- leaves the values at all other keys as they were, says whether the key had this value before,
-- and keeps the tree well formed.
pub index_insert-Inserted :
    (fuel : ℕ) (n : Node) (key : Bytes) (v : Value)
    → length key < fuel
    → NodeFits n
    → IsAscii key
    → ValueFits v
    → (r : Node × Bool) × (index_insert fuel n key v ≡ some r) × Inserted n key v r
unfolding index_insert
index_insert-Inserted zero n key v h fits ascii v_fits = absurd (omega arith)
index_insert-Inserted (suc fuel) n key v h fits ascii v_fits =
    let m = match_prefix (prefix_of n) key in
    let parts = match_prefix-append (prefix_of n) key in
    let (n', split, p) = split_node-Prepared n m.common m.left fits parts.0 in
    let rest_ascii = (IsAscii-append m.common m.rest (rw parts.1 at ascii)).1 in
    let sizes : length key ≡ length m.common + length m.rest =
      ap length parts.1 ∙ length-append m.common m.rest in
    let (r, run, done) =
      rest_any v v_fits (λ c rest. index_insert fuel c rest v) m.common p.values p.first p.last
        p.children m.rest (rw p.is at p.fits) rest_ascii
        (λ c key' shorter below a.
          index_insert-Inserted fuel c key' v (omega arith) below a v_fits) in
    let same : (k : Bytes)
        → values_at (node m.common p.values p.first p.last p.children) k ≡ values_at n k =
      λ k. ap (λ x. values_at x k) (sym p.is) ∙ p.same k in
    (r, rw (split, p.is) run, Inserted-same n _ key _ v r parts.1 same done)
