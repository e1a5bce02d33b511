-- ===== src/IndexFile/Mapped.antt =====
-- The reader of a mapped index file, index_mm_* of libkmod-index.c. The mapping is the list of the
-- bytes of the file, and a pointer into it is the list of those that follow. `none` is an access
-- outside of the mapping or of an array. Allocations, mmap and fstat succeed.
pub mod Agree
pub mod Codec
pub mod Lookup
use comment_subs.Prelude.{
  ℕ, zero, suc, ◌+◌, ◌-◌, ◌*◌, ◌/◌, ◌^◌, ◌&&◌, Option, none, some, List, [], ◌∷◌, ◌==◌,
  if◌then◌else◌, ltb, leb, length, drop, get_elem?, Bytes, ◌>>=◌,
}
use comment_subs.Trie.{Value, childmax}
use comment_subs.IndexFile.Format.{
  node_flag_prefix, node_flag_values, node_flag_childs, has_flag, masked,
}
use comment_subs.IndexFile.Write.{index_magic, version_major}
use comment_subs.IndexFile.Read.{char_span, strip_prefix, first_value}

-- `struct index_mm_node`, with the array of its values as a list, in the order of the file
pub record MmNode : Type 0 where
  pub prefix : Bytes
  pub values : List Value
  pub first : ℕ
  pub last : ℕ
  pub children : List ℕ

unfoldable pub read_char_mm : Bytes → Option (ℕ × Bytes)
read_char_mm [] = none
read_char_mm (v ∷ p) = some (v, p)

-- `ntohl` of the four bytes
unfoldable pub read_long_mm : Bytes → Option (ℕ × Bytes)
read_long_mm (a ∷ b ∷ c ∷ d ∷ p) = some (a * 2 ^ 24 + b * 2 ^ 16 + c * 2 ^ 8 + d, p)
read_long_mm _ = none

-- `strlen`, and the pointer behind the NUL
unfoldable pub read_chars_mm : Bytes → Option (Bytes × Bytes)
read_chars_mm [] = none
read_chars_mm (c ∷ p) =
    let more = read_chars_mm p in
    if c == 0 then some ([], p) else (more >>= λ r. some (c ∷ r.0, r.1))

-- `for (i = 0; i < child_count; i++)`
unfoldable pub read_offsets_mm : ℕ → Bytes → Option (List ℕ × Bytes)
read_offsets_mm zero p = some ([], p)
read_offsets_mm (suc n) p = do
  (o, p1) ← read_long_mm p
  (os, p2) ← read_offsets_mm n p1
  some (o ∷ os, p2)

-- The array `children` on the stack has INDEX_CHILDMAX entries.
unfoldable pub read_childs_mm : Bytes → Option ((ℕ × ℕ × List ℕ) × Bytes)
read_childs_mm p = do
  (first, p1) ← read_char_mm p
  (last, p2) ← read_char_mm p1
  let count = char_span first last in
      if leb count childmax
      then (read_offsets_mm count p2 >>= λ r. some ((first, last, r.0), r.1))
      else none

-- `for (i = 0; i < value_count; i++)`
unfoldable pub read_values_mm : ℕ → Bytes → Option (List Value)
read_values_mm zero p = some []
read_values_mm (suc n) p = do
  (priority, p1) ← read_long_mm p
  (value, p2) ← read_chars_mm p1
  vs ← read_values_mm n p2
  some (record { priority = priority; value = value } ∷ vs)

-- The part behind the test for NULL.
unfoldable pub mm_node_at : ℕ → Bytes → Option MmNode
mm_node_at offset p = do
  (prefix, p1) ← if has_flag offset node_flag_prefix then read_chars_mm p else some ([], p)
  (range, p2) ←
      if has_flag offset node_flag_childs then read_childs_mm p1 else some ((childmax, 0, []), p1)
  values ←
      if has_flag offset node_flag_values
      then (read_long_mm p2 >>= λ r. read_values_mm r.0 r.1)
      else some []
  some (record {
    prefix = prefix;
    values = values;
    first = range.0;
    last = range.1;
    children = range.2;
  })

-- `some none` is NULL.
unfoldable pub index_mm_read_node : Bytes → ℕ → Option (Option MmNode)
index_mm_read_node mm offset =
    if masked offset == 0
    then some none
    else (mm_node_at offset (drop (masked offset) mm) >>= λ n. some (some n))

-- `some none` is NULL: a file shorter than its header, a wrong magic number or major version.
unfoldable pub index_mm_open : Bytes → Option (Option ℕ)
index_mm_open mm = if ltb (length mm) 12 then some none else (do
  (magic, p1) ← read_long_mm mm
  (version, p2) ← read_long_mm p1
  (root_offset, p3) ← read_long_mm p2
  if magic == index_magic
      then if version / 2 ^ 16 == version_major then some (some root_offset) else some none
      else some none)

-- A character of 128 or more is negative as a char, hence below `first`.
unfoldable pub index_mm_readchild : Bytes → MmNode → ℕ → Option (Option MmNode)
index_mm_readchild mm parent ch =
    if ltb ch 128 && (leb parent.first ch && leb ch parent.last)
    then (get_elem? parent.children (ch - parent.first) >>= λ o. index_mm_read_node mm o)
    else some none

-- A round of index_mm_search_node, with the further rounds as an argument.
unfoldable pub mm_search_round :
    (Option MmNode → Bytes → Option (Option Bytes))
    → Bytes
    → MmNode
    → Option Bytes
    → Option (Option Bytes)
mm_search_round next mm n none = some none
mm_search_round next mm n (some []) = some (first_value n.values)
mm_search_round next mm n (some (ch ∷ key)) = do c ← index_mm_readchild mm n ch; next c key

-- The loop over the prefix is that of index_search__node.
unfoldable pub index_mm_search_node : ℕ → Bytes → Option MmNode → Bytes → Option (Option Bytes)
index_mm_search_node zero mm n key = none
index_mm_search_node (suc fuel) mm none key = some none
index_mm_search_node (suc fuel) mm (some n) key =
    mm_search_round (λ c rest. index_mm_search_node fuel mm c rest) mm n (strip_prefix n.prefix key)

unfoldable pub index_mm_search : Bytes → (root : ℕ) → Bytes → Option (Option Bytes)
index_mm_search mm root key = do
  n ← index_mm_read_node mm root
  index_mm_search_node (length key + 2) mm n key
