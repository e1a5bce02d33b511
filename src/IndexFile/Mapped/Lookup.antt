-- ===== src/IndexFile/Mapped/Lookup.antt =====
-- index_mm_search in a file that holds a tree.
use comment_subs.Prelude.{
  ℕ, zero, suc, ◌+◌, ◌-◌, ◌≤◌, ◌<◌, ◌≡◌, refl, ap, ◌∙◌, ◌&&◌, none, some, List, [], ◌∷◌, length,
  Bytes, ◌>>=◌, arith, Option-cases, Bool-cases, inl, inr, length-append, get_or, get_elem?-get_or,
  ltb, leb, le→leb, lt→ltb,
}
use comment_subs.Trie.{Value, Node, Children, get_child, childmax}
use comment_subs.Trie.Denote.{values_below, values_at, values_below-append, values_below-child}
use comment_subs.Trie.Shape.{NodeFits, ChildrenFit, get_child-fits}
use comment_subs.IndexFile.Format.{masked}
use comment_subs.IndexFile.Write.{child_count}
use comment_subs.IndexFile.Read.{first_value}
use comment_subs.IndexFile.Stored.{Stored, stored, strip_prefix_cases}
use comment_subs.IndexFile.Mapped.{
  index_mm_read_node, index_mm_readchild, mm_search_round, index_mm_search_node, index_mm_search,
}
use comment_subs.IndexFile.Mapped.Codec.{mm_node}

module _ (file prefix : Bytes) (vs : List Value) (first last : ℕ) where
  pub mm_readchild-some :
      (offs : List ℕ) (ch : ℕ)
      → length offs ≡ child_count first last
      → ch < childmax
      → first ≤ ch
      → ch ≤ last
      → index_mm_readchild file (mm_node prefix vs first last offs) ch
        ≡ index_mm_read_node file (get_or offs (ch - first) 0)
  unfolding index_mm_readchild
  mm_readchild-some [] ch size a b c = absurd (ground arith)
  mm_readchild-some (o ∷ os) ch size a b c =
      let within : suc (ch - first) ≤ length (o ∷ os) = ground arith in
      rw (
        lt→ltb ch 128 a,
        le→leb first ch b,
        le→leb ch last c,
        get_elem?-get_or (o ∷ os) (ch - first) 0 within,
      )

  pub mm_readchild-none :
      (offs : List ℕ) (ch : ℕ)
      → length offs ≡ child_count first last
      → (first ≤ ch → ch ≤ last → masked (get_or offs (ch - first) 0) ≡ 0)
      → index_mm_readchild file (mm_node prefix vs first last offs) ch ≡ some none
  unfolding index_mm_readchild index_mm_read_node
  mm_readchild-none [] ch size null = ground arith
  mm_readchild-none (o ∷ os) ch size null =
      elim (Bool-cases (ltb ch 128 && (leb first ch && leb ch last))) [
        | inl inside ↦
            let within : suc (ch - first) ≤ length (o ∷ os) = ground arith in
            rw (inside, get_elem?-get_or (o ∷ os) (ch - first) 0 within) (ground (arith, null))
        | inr outside ↦ rw outside
      ]

mm_search_null :
    (file : Bytes) (fuel : ℕ) (key : Bytes)
    → 0 < fuel
    → index_mm_search_node fuel file none key ≡ some none
unfolding index_mm_search_node
mm_search_null file zero key h = elim h [ ]
mm_search_null file (suc fuel) key h = refl

-- What the search from a node is to return.
abbrev Finds : Bytes → ℕ → Type 0
Finds file fuel =
    (off : ℕ) (n : Node) (key : Bytes)
    → Stored file off n
    → NodeFits n
    → length key + 1 < fuel
    → (index_mm_read_node file off >>= λ r. index_mm_search_node fuel file r key)
      ≡ some (first_value (values_at n key))

module _ (file prefix : Bytes) (vs : List Value) (first last : ℕ) (cs : Children) (offs : List ℕ)
    (size : length offs ≡ child_count first last)
    (kids : (ch : ℕ) (c : Node)
      → get_child cs ch ≡ some c
      → Stored file (get_or offs (ch - first) 0) c)
    (nulls : (ch : ℕ)
      → get_child cs ch ≡ none
      → first ≤ ch
      → ch ≤ last
      → masked (get_or offs (ch - first) 0) ≡ 0)
    (fits : ChildrenFit first last cs) (fuel : ℕ) (further : Finds file fuel) where
  mm_round :
      (rest : Bytes)
      → length rest < fuel
      → mm_search_round
          (λ c key. index_mm_search_node fuel file c key)
          file
          (mm_node prefix vs first last offs)
          (some rest)
        ≡ some (first_value (values_below [] vs cs rest))
  unfolding mm_search_round values_below
  mm_round [] h = refl
  mm_round (ch ∷ key) h = elim (Option-cases (get_child cs ch)) [
    | inl e ↦ rw (
      mm_readchild-none file prefix vs first last offs ch size (nulls ch e),
      values_below-child vs cs ch key none e,
      mm_search_null file fuel key (omega arith),
    )
    | inr (c, e) ↦
        let known = get_child-fits cs ch fits e in
        rw
          (
            mm_readchild-some file prefix vs first last offs ch size known.0 known.1 known.2,
            values_below-child vs cs ch key (some c) e,
          )
          (further (get_or offs (ch - first) 0) c key (kids ch c e) known.3 (omega arith))
  ]

mm_search_node-Finds : (file : Bytes) (fuel : ℕ) → Finds file fuel
unfolding index_mm_search_node values_at NodeFits mm_search_round
mm_search_node-Finds file zero off n key st fits h = absurd (omega arith)
mm_search_node-Finds file (suc fuel) off n key
      (stored {prefix} {vs} {first} {last} {cs} offs found size kids nulls) fits h =
    rw found.1 (elim (strip_prefix_cases prefix key vs cs) [
      | inl (miss, nothing) ↦ rw (miss, nothing)
      | inr (rest, hit, is) ↦
          let shorter : length key ≡ length prefix + length rest =
            ap length is ∙ length-append prefix rest in
          rw (hit, is, values_below-append)
            (mm_round file prefix vs first last cs offs size kids nulls fits.3 fuel
              (mm_search_node-Finds file fuel) rest (omega arith))
    ])

-- In a file that holds a well-formed tree, index_mm_search meets no error and ends. It returns the
-- first of the values that the tree has at the key, in the order of the tree, and NULL where the
-- tree has none.
pub index_mm_search-first_value :
    (file : Bytes) (root : ℕ) (n : Node) (key : Bytes)
    → Stored file root n
    → NodeFits n
    → index_mm_search file root key ≡ some (first_value (values_at n key))
unfolding index_mm_search
index_mm_search-first_value file root n key st fits =
    mm_search_node-Finds file (length key + 2) root n key st fits (omega arith)
