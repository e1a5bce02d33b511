-- ===== src/IndexFile/Read.antt =====
-- libkmod: index_read, index_readchild, index_file_open and index_search. Allocations succeed.
use comment_subs.Prelude.{
  ℕ, zero, suc, ◌+◌, ◌-◌, ◌/◌, ◌%◌, ◌^◌, ◌&&◌, Option, none, some, List, [], ◌∷◌, ◌==◌,
  if◌then◌else◌, ltb, leb, length, drop, get_elem?, Bytes, ◌>>=◌,
}
use comment_subs.Trie.{Value, childmax}
use comment_subs.IndexFile.Format.{
  node_flag_prefix, node_flag_values, node_flag_childs, has_flag, masked, read_char, read_long,
  read_string,
}
use comment_subs.IndexFile.Write.{index_magic, version_major}

-- `struct index_node_f`
pub record FileNode : Type 0 where
  pub prefix : Bytes
  pub values : List Value
  pub first : ℕ
  pub last : ℕ
  pub children : List ℕ

-- `add_value`: as in depmod, the value goes before the first one whose priority is not lower.
unfoldable pub add_value : List Value → Value → List Value
add_value [] v = v ∷ []
add_value (w ∷ ws) v = if ltb w.priority v.priority then w ∷ add_value ws v else v ∷ w ∷ ws

-- `while (value_count--)`
unfoldable pub read_values : ℕ → Bytes → List Value → Option (List Value × Bytes)
read_values zero s values = some (values, s)
read_values (suc n) s values = do
  (priority, s1) ← read_long s
  (value, s2) ← read_string s1
  read_values n s2 (add_value values (record { priority = priority; value = value }))

-- `for (i = 0; i < child_count; i++)`
unfoldable pub read_offsets : ℕ → Bytes → Option (List ℕ × Bytes)
read_offsets zero s = some ([], s)
read_offsets (suc n) s = do (o, s1) ← read_long s; (os, s2) ← read_offsets n s1; some (o ∷ os, s2)

-- `last - first + 1` of two values of type char, which is signed
abbrev pub char_span : (first last : ℕ) → ℕ
char_span first last = (last + 128) % 256 + 1 - (first + 128) % 256

unfoldable pub read_childs : Bytes → Option ((ℕ × ℕ × List ℕ) × Bytes)
read_childs s = do
  (first, s1) ← read_char s
  (last, s2) ← read_char s1
  (os, s3) ← read_offsets (char_span first last) s2
  some ((first, last, os), s3)

-- The part of index_read behind fseek.
unfoldable pub read_node : ℕ → Bytes → Option FileNode
read_node offset s = do
  (prefix, s1) ← if has_flag offset node_flag_prefix then read_string s else some ([], s)
  (range, s2) ←
      if has_flag offset node_flag_childs then read_childs s1 else some ((childmax, 0, []), s1)
  (values, s3) ←
      if has_flag offset node_flag_values
      then (read_long s2 >>= λ r. read_values r.0 r.1 [])
      else some ([], s2)
  some (record {
    prefix = prefix;
    values = values;
    first = range.0;
    last = range.1;
    children = range.2;
  })

-- `some none` is NULL.
unfoldable pub index_read : Bytes → ℕ → Option (Option FileNode)
index_read file offset =
    if masked offset == 0
    then some none
    else (read_node offset (drop (masked offset) file) >>= λ n. some (some n))

-- A character of 128 or more is negative as a char, hence below `first`.
unfoldable pub index_readchild : Bytes → FileNode → ℕ → Option (Option FileNode)
index_readchild file parent ch =
    if ltb ch 128 && (leb parent.first ch && leb ch parent.last)
    then (get_elem? parent.children (ch - parent.first) >>= λ o. index_read file o)
    else some none

-- The loop over `node->prefix`: the rest of the key, or `none` at a mismatch.
unfoldable pub strip_prefix : Bytes → Bytes → Option Bytes
strip_prefix [] key = some key
strip_prefix (p ∷ ps) [] = none
strip_prefix (p ∷ ps) (k ∷ ks) = if p == k then strip_prefix ps ks else none

-- `node->values != NULL ? node->values[0].value : NULL`
abbrev pub first_value : List Value → Option Bytes
first_value [] = none
first_value (v ∷ vs) = some v.value

-- A round of index_search__node, with the further rounds as an argument.
unfoldable pub search_round :
    (Option FileNode → Bytes → Option (Option Bytes))
    → Bytes
    → FileNode
    → Option Bytes
    → Option (Option Bytes)
search_round next file n none = some none
search_round next file n (some []) = some (first_value n.values)
search_round next file n (some (ch ∷ key)) = do c ← index_readchild file n ch; next c key

-- `none` is a read at the end of the file, or that the fuel ran out; `some none` is NULL.
unfoldable pub index_search_node : ℕ → Bytes → Option FileNode → Bytes → Option (Option Bytes)
index_search_node zero file n key = none
index_search_node (suc fuel) file none key = some none
index_search_node (suc fuel) file (some n) key =
    search_round (λ c rest. index_search_node fuel file c rest) file n (strip_prefix n.prefix key)

-- `index_file_open`: `some none` is NULL, for a wrong magic number or major version; `none` is a file
-- that ends within its header, of which the source uses bytes that were never read.
unfoldable pub index_file_open : Bytes → Option (Option ℕ)
index_file_open file = do
  (magic, s1) ← read_long file
  if magic == index_magic
      then (do
        (version, s2) ← read_long s1
        if version / 2 ^ 16 == version_major
            then (read_long s2 >>= λ r. some (some r.0))
            else some none)
      else some none

unfoldable pub index_search : Bytes → (root : ℕ) → Bytes → Option (Option Bytes)
index_search file root key = do
  n ← index_read file root
  index_search_node (length key + 2) file n key
