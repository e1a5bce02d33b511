-- ===== src/Wildcard/Defs.antt =====
-- index_searchwild: the walk of an index whose keys may have wildcards. fnmatch of the C library is
-- the parameter `fnmatch`: 0 where the string matches the pattern. realloc gets its memory.
use comment_subs.Prelude.{
  ℕ, zero, suc, ◌+◌, ◌-◌, ◌&&◌, ◌||◌, Bool, true, Option, none, some, List, [], ◌∷◌, ◌==◌,
  if◌then◌else◌, leb, length, get_elem?, Bytes, ◌>>=◌,
}
use comment_subs.Trie.{Value}
use comment_subs.IndexFile.{FileNode, index_read, index_readchild, add_value}
use comment_subs.Wildcard.KeyBuffer.{
  Buffer, buf_init, buf_pushchar, buf_pushchars, buf_popchar, buf_popchars, buf_str,
}

-- `*`, `?` and `[`
unfoldable pub is_wild : ℕ → Bool
is_wild ch = ch == 42 || (ch == 63 || ch == 91)

-- `index_readchild` for a character that is an int: in the loops from `first` to `last`.
unfoldable pub readchild_int : Bytes → FileNode → ℕ → Option (Option FileNode)
readchild_int file parent ch =
    if leb parent.first ch && leb ch parent.last
    then (get_elem? parent.children (ch - parent.first) >>= λ o. index_read file o)
    else some none

-- The state of a walk: the list `*out` and the buffer.
abbrev pub Walk : Type 0
Walk = List Value × Buffer

-- The loop of index_searchwild__allvalues.
unfoldable pub all_values : List Value → List Value → List Value
all_values [] out = out
all_values (v ∷ vs) out = all_values vs (add_value out v)

-- A child, with its character in the buffer for as long as `walk` is in it.
unfoldable pub in_child :
    {N : Type 0} (walk : N → List Value → Buffer → Option Walk)
    → ℕ
    → Option N
    → List Value
    → Buffer
    → Option Walk
in_child walk ch none out buf = some (out, buf)
in_child walk ch (some c) out buf = do
  (buf1, _) ← buf_pushchar true buf ch
  (out2, buf2) ← walk c out buf1
  buf3 ← buf_popchar buf2
  some (out2, buf3)

-- `for (ch = node->first; ch <= node->last; ch++)`, with the number of characters to go.
unfoldable pub for_children :
    (walk : FileNode → List Value → Buffer → Option Walk)
    → Bytes
    → FileNode
    → (count ch : ℕ) → List Value
    → Buffer
    → Option Walk
for_children walk file n zero ch out buf = some (out, buf)
for_children walk file n (suc count) ch out buf = do
  c ← readchild_int file n ch
  (out1, buf1) ← in_child walk ch c out buf
  for_children walk file n count (ch + 1) out1 buf1

module _ (fnmatch : (pattern string : Bytes) → ℕ) where
  -- `fnmatch(buf_str(buf), subkey, 0) == 0`, where NULL as the pattern is a fault
  unfoldable pub matched : Option Bytes → (subkey : Bytes) → Option Bool
  matched none subkey = none
  matched (some pattern) subkey = some (fnmatch pattern subkey == 0)

  -- The values of the node, where it has some and the key in the buffer matches.
  unfoldable pub matching_values : List Value → (subkey : Bytes) → List Value → Buffer → Option Walk
  matching_values [] subkey out buf = some (out, buf)
  matching_values (v ∷ vs) subkey out buf = do
    (pattern, buf1) ← buf_str true buf
    hit ← matched pattern subkey
    some ((if hit then all_values (v ∷ vs) out else out), buf1)

  -- `left` is the rest of the prefix, from `j` on. The fuel bounds the depth of the tree.
  unfoldable pub searchwild_all :
      ℕ → Bytes → (left subkey : Bytes) → FileNode → List Value → Buffer → Option Walk
  searchwild_all zero file left subkey n out buf = none
  searchwild_all (suc fuel) file left subkey n out buf = do
    (buf1, pushed) ← buf_pushchars true buf left
    (out2, buf2) ←
        for_children (λ c. searchwild_all fuel file c.prefix subkey c) file n (n.last + 1 - n.first)
          n.first out buf1
    (out3, buf3) ← matching_values n.values subkey out2 buf2
    buf4 ← buf_popchars buf3 pushed
    some (out3, buf4)

  -- A child at a wildcard is a sub-keyspace that starts with it.
  unfoldable pub wild_child :
      ℕ → Bytes → FileNode → (ch : ℕ) → (subkey : Bytes) → List Value → Buffer → Option Walk
  wild_child fuel file n ch subkey out buf = do
    c ← index_readchild file n ch
    in_child (λ m. searchwild_all fuel file m.prefix subkey m) ch c out buf

  -- The children at `*`, `?` and `[`.
  unfoldable pub wild_children :
      ℕ → Bytes → FileNode → (subkey : Bytes) → List Value → Buffer → Option Walk
  wild_children fuel file n subkey out buf = do
    (out1, buf1) ← wild_child fuel file n 42 subkey out buf
    (out2, buf2) ← wild_child fuel file n 63 subkey out1 buf1
    wild_child fuel file n 91 subkey out2 buf2

-- Where the loop over the prefix ends: at a wildcard, with the rest of the prefix and of the key,
-- at a mismatch, or behind the prefix, with the rest of the key.
pub data Scan : Type 0 where
  wildcard : (left subkey : Bytes) → Scan
  mismatch : Scan
  through : (key : Bytes) → Scan

unfoldable pub scan_prefix : (prefix key : Bytes) → Scan
scan_prefix [] key = through key
scan_prefix (p ∷ ps) [] = if is_wild p then wildcard (p ∷ ps) [] else mismatch
scan_prefix (p ∷ ps) (k ∷ ks) =
    let further = scan_prefix ps ks in
    if is_wild p then wildcard (p ∷ ps) (k ∷ ks) else if p == k then further else mismatch

module _ (fnmatch : (pattern string : Bytes) → ℕ) where
  -- A round of index_searchwild__node, with the further rounds as an argument.
  unfoldable pub wild_round :
      (next : Option FileNode → Bytes → List Value → Buffer → Option Walk)
      → (depth : ℕ) → Bytes
      → FileNode
      → Scan
      → List Value
      → Buffer
      → Option Walk
  wild_round next depth file n (wildcard left subkey) out buf =
      searchwild_all fnmatch depth file left subkey n out buf
  wild_round next depth file n mismatch out buf = some (out, buf)
  wild_round next depth file n (through []) out buf = do
    (out1, buf1) ← wild_children fnmatch depth file n [] out buf
    some (all_values n.values out1, buf1)
  wild_round next depth file n (through (ch ∷ key)) out buf = do
    (out1, buf1) ← wild_children fnmatch depth file n (ch ∷ key) out buf
    c ← index_readchild file n ch
    next c key out1 buf1

  unfoldable pub searchwild_node :
      (fuel depth : ℕ) → Bytes → Option FileNode → (key : Bytes) → List Value → Buffer → Option Walk
  searchwild_node zero depth file n key out buf = none
  searchwild_node (suc fuel) depth file none key out buf = some (out, buf)
  searchwild_node (suc fuel) depth file (some n) key out buf =
      wild_round (λ c rest. searchwild_node fuel depth file c rest) depth file n
        (scan_prefix n.prefix key) out buf

  -- The result is the list `out`.
  unfoldable pub index_searchwild :
      (depth : ℕ) → Bytes → (root : ℕ) → (key : Bytes) → Option (List Value)
  index_searchwild depth file root key = do
    n ← index_read file root
    (out, buf) ← searchwild_node (length key + 2) depth file n key [] buf_init
    some out
