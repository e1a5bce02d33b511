-- ===== src/IndexFile/Lookup.antt =====
-- index_search in a file that holds a tree.
use comment_subs.Prelude.{
  ℕ, zero, suc, ◌+◌, ◌-◌, ◌≤◌, ◌<◌, ◌≡◌, refl, ap, ◌∙◌, none, some, List, [], ◌∷◌, length, Bytes,
  ◌>>=◌, arith, Option-cases, inl, inr, length-append, get_or,
}
use comment_subs.Trie.{Value, Node, Children, get_child}
use comment_subs.Trie.Denote.{values_below, values_at, values_below-append, values_below-child}
use comment_subs.Trie.Shape.{NodeFits, ChildrenFit, get_child-fits}
use comment_subs.IndexFile.Read.{index_read, search_round, index_search_node, index_search}
use comment_subs.IndexFile.Codec.{file_node, add_values}
use comment_subs.IndexFile.Format.{masked}
use comment_subs.IndexFile.Write.{child_count}
use comment_subs.IndexFile.Stored.{
  Stored, stored, readchild-some, readchild-none, strip_prefix_cases, answer,
}

search_null :
    (file : Bytes) (fuel : ℕ) (key : Bytes)
    → 0 < fuel
    → index_search_node fuel file none key ≡ some none
unfolding index_search_node
search_null file zero key h = elim h [ ]
search_null file (suc fuel) key h = refl

-- What the search from a node is to return.
abbrev Answers : Bytes → ℕ → Type 0
Answers file fuel =
    (off : ℕ) (n : Node) (key : Bytes)
    → Stored file off n
    → NodeFits n
    → length key + 1 < fuel
    → (index_read file off >>= λ r. index_search_node fuel file r key) ≡ answer (values_at n key)

module _ (file prefix : Bytes) (vs : List Value) (first last : ℕ) (cs : Children) (offs : List ℕ)
    (size : length offs ≡ child_count first last)
    (kids : (ch : ℕ) (c : Node)
      → get_child cs ch ≡ some c
      → Stored file (get_or offs (ch - first) 0) c)
    (nulls : (ch : ℕ)
      → get_child cs ch ≡ none
      → first ≤ ch
      → ch ≤ last
      → masked (get_or offs (ch - first) 0) ≡ 0)
    (fits : ChildrenFit first last cs) (fuel : ℕ) (further : Answers file fuel) where
  round_answer :
      (rest : Bytes)
      → length rest < fuel
      → search_round
          (λ c key. index_search_node fuel file c key)
          file
          (file_node prefix vs first last offs)
          (some rest)
        ≡ answer (values_below [] vs cs rest)
  unfolding search_round values_below add_values
  round_answer [] h = refl
  round_answer (ch ∷ key) h = elim (Option-cases (get_child cs ch)) [
    | inl e ↦ rw (
      readchild-none file prefix vs first last offs ch size (nulls ch e),
      values_below-child vs cs ch key none e,
      search_null file fuel key (omega arith),
    )
    | inr (c, e) ↦
        let known = get_child-fits cs ch fits e in
        rw
          (
            readchild-some file prefix vs first last offs ch size known.0 known.1 known.2,
            values_below-child vs cs ch key (some c) e,
          )
          (further (get_or offs (ch - first) 0) c key (kids ch c e) known.3 (omega arith))
  ]

-- From any node of the tree, with more fuel than the key has characters and one round more.
search_node-answer : (file : Bytes) (fuel : ℕ) → Answers file fuel
unfolding index_search_node values_at NodeFits search_round add_values
search_node-answer file zero off n key st fits h = absurd (omega arith)
search_node-answer file (suc fuel) off n key
      (stored {prefix} {vs} {first} {last} {cs} offs found size kids nulls) fits h =
    rw found.0 (elim (strip_prefix_cases prefix key vs cs) [
      | inl (miss, nothing) ↦ rw (miss, nothing)
      | inr (rest, hit, is) ↦
          let shorter : length key ≡ length prefix + length rest =
            ap length is ∙ length-append prefix rest in
          rw (hit, is, values_below-append)
            (round_answer file prefix vs first last cs offs size kids nulls fits.3 fuel
              (search_node-answer file fuel) rest (omega arith))
    ])

-- In a file that holds a well-formed tree, index_search meets no error and ends: its fuel is
-- enough. It returns the first of the values that the tree has at the key, in the order of the
-- reader, and NULL where the tree has none.
pub index_search-answer :
    (file : Bytes) (root : ℕ) (n : Node) (key : Bytes)
    → Stored file root n
    → NodeFits n
    → index_search file root key ≡ answer (values_at n key)
unfolding index_search
index_search-answer file root n key st fits =
    search_node-answer file (length key + 2) root n key st fits (omega arith)
