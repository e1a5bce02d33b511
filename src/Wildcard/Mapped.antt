-- ===== src/Wildcard/Mapped.antt =====
-- index_mm_searchwild: the same walk with the reader of a mapped file. `mm` is the mapping.
pub mod Ordered
pub mod Same
pub mod Search
use comment_subs.Prelude.{
  ℕ, zero, suc, ◌+◌, ◌-◌, ◌&&◌, true, Option, none, some, List, [], ◌∷◌, if◌then◌else◌, leb, length,
  get_elem?, Bytes, ◌>>=◌,
}
use comment_subs.Trie.{Value}
use comment_subs.IndexFile.Mapped.{MmNode, index_mm_read_node, index_mm_readchild}
use comment_subs.Wildcard.KeyBuffer.{Buffer, buf_init, buf_pushchars, buf_popchars}
use comment_subs.Wildcard.Defs.{
  Walk, Scan, wildcard, mismatch, through, scan_prefix, in_child, all_values, matching_values,
}

-- `index_mm_readchild` for a character that is an int: in the loops from `first` to `last`.
unfoldable pub mm_readchild_int : Bytes → MmNode → ℕ → Option (Option MmNode)
mm_readchild_int mm parent ch =
    if leb parent.first ch && leb ch parent.last
    then (get_elem? parent.children (ch - parent.first) >>= λ o. index_mm_read_node mm o)
    else some none

-- `for (ch = node->first; ch <= node->last; ch++)`, with the number of characters to go.
unfoldable pub mm_for_children :
    (walk : MmNode → List Value → Buffer → Option Walk)
    → Bytes
    → MmNode
    → (count ch : ℕ) → List Value
    → Buffer
    → Option Walk
mm_for_children walk mm n zero ch out buf = some (out, buf)
mm_for_children walk mm n (suc count) ch out buf = do
  c ← mm_readchild_int mm n ch
  (out1, buf1) ← in_child walk ch c out buf
  mm_for_children walk mm n count (ch + 1) out1 buf1

module _ (fnmatch : (pattern string : Bytes) → ℕ) where
  -- `left` is the rest of the prefix, from `j` on. The fuel bounds the depth of the tree.
  unfoldable pub index_mm_searchwild_all :
      ℕ → Bytes → (left subkey : Bytes) → MmNode → List Value → Buffer → Option Walk
  index_mm_searchwild_all zero mm left subkey n out buf = none
  index_mm_searchwild_all (suc fuel) mm left subkey n out buf = do
    (buf1, pushed) ← buf_pushchars true buf left
    (out2, buf2) ←
        mm_for_children (λ c. index_mm_searchwild_all fuel mm c.prefix subkey c) mm n
          (n.last + 1 - n.first) n.first out buf1
    (out3, buf3) ← matching_values fnmatch n.values subkey out2 buf2
    buf4 ← buf_popchars buf3 pushed
    some (out3, buf4)

  -- A child at a wildcard is a sub-keyspace that starts with it.
  unfoldable pub mm_wild_child :
      ℕ → Bytes → MmNode → (ch : ℕ) → (subkey : Bytes) → List Value → Buffer → Option Walk
  mm_wild_child fuel mm n ch subkey out buf = do
    c ← index_mm_readchild mm n ch
    in_child (λ m. index_mm_searchwild_all fuel mm m.prefix subkey m) ch c out buf

  -- The children at `*`, `?` and `[`.
  unfoldable pub mm_wild_children :
      ℕ → Bytes → MmNode → (subkey : Bytes) → List Value → Buffer → Option Walk
  mm_wild_children fuel mm n subkey out buf = do
    (out1, buf1) ← mm_wild_child fuel mm n 42 subkey out buf
    (out2, buf2) ← mm_wild_child fuel mm n 63 subkey out1 buf1
    mm_wild_child fuel mm n 91 subkey out2 buf2

  -- A round of index_mm_searchwild_node, with the further rounds as an argument.
  unfoldable pub mm_wild_round :
      (next : Option MmNode → Bytes → List Value → Buffer → Option Walk)
      → (depth : ℕ) → Bytes
      → MmNode
      → Scan
      → List Value
      → Buffer
      → Option Walk
  mm_wild_round next depth mm n (wildcard left subkey) out buf =
      index_mm_searchwild_all depth mm left subkey n out buf
  mm_wild_round next depth mm n mismatch out buf = some (out, buf)
  mm_wild_round next depth mm n (through []) out buf = do
    (out1, buf1) ← mm_wild_children depth mm n [] out buf
    some (all_values n.values out1, buf1)
  mm_wild_round next depth mm n (through (ch ∷ key)) out buf = do
    (out1, buf1) ← mm_wild_children depth mm n (ch ∷ key) out buf
    c ← index_mm_readchild mm n ch
    next c key out1 buf1

  unfoldable pub index_mm_searchwild_node :
      (fuel depth : ℕ) → Bytes → Option MmNode → (key : Bytes) → List Value → Buffer → Option Walk
  index_mm_searchwild_node zero depth mm n key out buf = none
  index_mm_searchwild_node (suc fuel) depth mm none key out buf = some (out, buf)
  index_mm_searchwild_node (suc fuel) depth mm (some n) key out buf =
      mm_wild_round (λ c rest. index_mm_searchwild_node fuel depth mm c rest) depth mm n
        (scan_prefix n.prefix key) out buf

  -- The result is the list `out`.
  unfoldable pub index_mm_searchwild :
      (depth : ℕ) → Bytes → (root : ℕ) → (key : Bytes) → Option (List Value)
  index_mm_searchwild depth mm root key = do
    n ← index_mm_read_node mm root
    (out, buf) ← index_mm_searchwild_node (length key + 2) depth mm n key [] buf_init
    some out
