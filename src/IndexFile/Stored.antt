-- ===== src/IndexFile/Stored.antt =====
-- A file that holds a tree, and the search in it.
use comment_subs.Prelude.{
  ℕ, suc, ◌-◌, ◌≤◌, ◌<◌, ◌≡◌, refl, ◌&&◌, Option, none, some, List, [], ◌∷◌, ◌++◌, ◌==◌, ltb, leb,
  length, get_or, get_elem?-get_or, Bytes, arith, Bool-cases, inl, inr, le→leb, lt→ltb, ◌⊎◌,
}
use comment_subs.Trie.{Value, Node, node, Children, get_child, childmax}
use comment_subs.Trie.Denote.{values_below}
use comment_subs.IndexFile.Format.{masked}
use comment_subs.IndexFile.Write.{child_count}
use comment_subs.IndexFile.Read.{index_read, index_readchild, strip_prefix, first_value}
use comment_subs.IndexFile.Mapped.{index_mm_read_node}
use comment_subs.IndexFile.Mapped.Codec.{mm_node}
use comment_subs.IndexFile.Codec.{file_node, add_values}

-- What the two readers find at an offset: the node, with its values in their order.
abbrev pub Reads :
    (file : Bytes) → (offset : ℕ) → Bytes → List Value → (first last : ℕ) → List ℕ → Type 0
Reads file offset prefix vs first last offs =
    (index_read file offset ≡ some (some (file_node prefix vs first last offs)))
    × (index_mm_read_node file offset ≡ some (some (mm_node prefix vs first last offs)))

-- At `offset` the file has the node, and its children at the offsets that it names; NULL is 0.
pub data Stored (file : Bytes) : ℕ → Node → Type 0 where
  stored :
      {offset : ℕ} {prefix : Bytes} {vs : List Value} {first last : ℕ} {cs : Children}
      (offs : List ℕ)
      → Reads file offset prefix vs first last offs
      → length offs ≡ child_count first last
      → ((ch : ℕ) (c : Node)
          → get_child cs ch ≡ some c
          → Stored file (get_or offs (ch - first) 0) c)
      → ((ch : ℕ)
          → get_child cs ch ≡ none
          → first ≤ ch
          → ch ≤ last
          → masked (get_or offs (ch - first) 0) ≡ 0)
      → Stored file offset (node prefix vs first last cs)

module _ (file prefix : Bytes) (vs : List Value) (first last : ℕ) where
  pub readchild-some :
      (offs : List ℕ) (ch : ℕ)
      → length offs ≡ child_count first last
      → ch < childmax
      → first ≤ ch
      → ch ≤ last
      → index_readchild file (file_node prefix vs first last offs) ch
        ≡ index_read file (get_or offs (ch - first) 0)
  unfolding index_readchild
  readchild-some [] ch size a b c = absurd (ground arith)
  readchild-some (o ∷ os) ch size a b c =
      let within : suc (ch - first) ≤ length (o ∷ os) = ground arith in
      rw (
        lt→ltb ch 128 a,
        le→leb first ch b,
        le→leb ch last c,
        get_elem?-get_or (o ∷ os) (ch - first) 0 within,
      )

  pub readchild-none :
      (offs : List ℕ) (ch : ℕ)
      → length offs ≡ child_count first last
      → (first ≤ ch → ch ≤ last → masked (get_or offs (ch - first) 0) ≡ 0)
      → index_readchild file (file_node prefix vs first last offs) ch ≡ some none
  unfolding index_readchild index_read
  readchild-none [] ch size null = ground arith
  readchild-none (o ∷ os) ch size null =
      elim (Bool-cases (ltb ch 128 && (leb first ch && leb ch last))) [
        | inl inside ↦
            let within : suc (ch - first) ≤ length (o ∷ os) = ground arith in
            rw (inside, get_elem?-get_or (o ∷ os) (ch - first) 0 within) (ground (arith, null))
        | inr outside ↦ rw outside
      ]

-- Where the loop over the prefix ends, and what is there.
pub strip_prefix_cases :
    (prefix key : Bytes) (vs : List Value) (cs : Children)
    → ((strip_prefix prefix key ≡ none) × (values_below prefix vs cs key ≡ []))
      ⊎ ((rest : Bytes) × (strip_prefix prefix key ≡ some rest) × (key ≡ prefix ++ rest))
unfolding strip_prefix values_below
strip_prefix_cases [] key vs cs = inr (key, refl, refl)
strip_prefix_cases (p ∷ ps) [] vs cs = inl (refl, refl)
strip_prefix_cases (p ∷ ps) (k ∷ ks) vs cs = elim (Bool-cases (p == k)) [
  | inr differ ↦ inl (rw differ, rw differ)
  | inl same ↦ elim (strip_prefix_cases ps ks vs cs) [
    | inl (a, b) ↦ inl (rw (same, a), rw (same, b))
    | inr (rest, a, b) ↦ inr (rest, rw (same, a), ground arith)
  ]
]

-- The value that the search in the file is to return.
abbrev pub answer : List Value → Option (Option Bytes)
answer vs = some (first_value (add_values vs []))
