-- ===== src/Wildcard/Mapped/Search.antt =====
-- index_mm_searchwild and index_searchwild agree.
use comment_subs.Prelude.{
  ℕ, zero, suc, ◌+◌, ◌-◌, ◌≤◌, ◌<◌, ◌≡◌, refl, ap, ◌∙◌, Option, none, some, List, [], ◌∷◌, ◌>>=◌,
  bind_same, bind_assoc, sym, Bytes, length, get_or,
}
use comment_subs.Trie.{Value, Node, Children, get_child, childmax}
use comment_subs.Trie.Shape.{NodeFits, ChildrenFit}
use comment_subs.IndexFile.{FileNode, index_read, masked, child_count}
use comment_subs.IndexFile.Codec.{file_node}
use comment_subs.IndexFile.Stored.{Stored, stored}
use comment_subs.IndexFile.Mapped.{MmNode, index_mm_read_node}
use comment_subs.IndexFile.Mapped.Agree.{Ascending, add_values-Ascending}
use comment_subs.IndexFile.Mapped.Codec.{mm_node}
use comment_subs.Wildcard.KeyBuffer.{Buffer, buf_init}
use comment_subs.Wildcard.Defs.{
  Walk, Scan, wildcard, mismatch, through, scan_prefix, wild_child, wild_children, wild_round,
  searchwild_node, index_searchwild, all_values,
}
use comment_subs.Wildcard.Mapped.{
  mm_wild_child, mm_wild_children, mm_wild_round, index_mm_searchwild_node, index_mm_searchwild,
}
use comment_subs.Wildcard.Mapped.Ordered.{IsOrdered, AllOrdered}
use comment_subs.Wildcard.Mapped.Same.{Alike, child_same, all_same, searchwild_all-AllSame}

-- The rounds from a node, with either reader.
abbrev NextSame : (Bytes → Bytes → ℕ) → Bytes → (fuel depth : ℕ) → Type 0
NextSame fnmatch file fuel depth =
    (key : Bytes) (out : List Value) (b : Buffer)
    → Alike Walk file (λ c. index_mm_searchwild_node fnmatch fuel depth file c key out b)
        (λ c. searchwild_node fnmatch fuel depth file c key out b)

module _ (fnmatch : Bytes → Bytes → ℕ) (file prefix : Bytes) (vs : List Value) (first last : ℕ)
    (cs : Children) (offs : List ℕ) (size : length offs ≡ child_count first last)
    (kids : (ch : ℕ) (c : Node)
      → get_child cs ch ≡ some c
      → Stored file (get_or offs (ch - first) 0) c)
    (nulls : (ch : ℕ)
      → get_child cs ch ≡ none
      → first ≤ ch
      → ch ≤ last
      → masked (get_or offs (ch - first) 0) ≡ 0)
    (small : last < childmax) (fits : ChildrenFit first last cs) (ordered : AllOrdered cs)
    (sorted : Ascending [] vs) (fuel depth : ℕ)
    (further : NextSame fnmatch file fuel (suc depth)) where
  abbrev fn : FileNode
  fn = file_node prefix vs first last offs

  abbrev mn : MmNode
  mn = mm_node prefix vs first last offs

  wild_child_same :
      (ch : ℕ) (subkey : Bytes) (out : List Value) (b : Buffer)
      → mm_wild_child fnmatch (suc depth) file mn ch subkey out b
        ≡ wild_child fnmatch (suc depth) file fn ch subkey out b
  unfolding mm_wild_child wild_child
  wild_child_same ch subkey out b =
      child_same file prefix vs first last cs offs size kids nulls small fits ordered sorted _ _ ch
        (searchwild_all-AllSame fnmatch file subkey (suc depth) ch out b)

  -- Two steps that are the same one after the other.
  both_same :
      (m n : Option Walk) (f g : Walk → Option Walk)
      → m ≡ n
      → ((r : Walk) → f r ≡ g r)
      → (m >>= f) ≡ (n >>= g)
  both_same m n f g e same = ap (λ x. x >>= f) e ∙ bind_same n same

  wild_children_same :
      (subkey : Bytes) (out : List Value) (b : Buffer)
      → mm_wild_children fnmatch (suc depth) file mn subkey out b
        ≡ wild_children fnmatch (suc depth) file fn subkey out b
  unfolding mm_wild_children wild_children
  wild_children_same subkey out b = both_same _ _ _ _ (wild_child_same 42 subkey out b) (λ r.
      both_same _ _ _ _ (wild_child_same 63 subkey r.0 r.1)
        (λ q. wild_child_same 91 subkey q.0 q.1))

  round_same :
      (r : Scan) (out : List Value) (b : Buffer)
      → mm_wild_round fnmatch
          (λ c rest. index_mm_searchwild_node fnmatch fuel (suc depth) file c rest)
          (suc depth)
          file
          mn
          r
          out
          b
        ≡ wild_round fnmatch
            (λ c rest. searchwild_node fnmatch fuel (suc depth) file c rest)
            (suc depth)
            file
            fn
            r
            out
            b
  unfolding mm_wild_round wild_round
  round_same (wildcard left subkey) out b =
      all_same file prefix vs first last cs offs size kids nulls small fits ordered sorted fnmatch
        subkey depth (searchwild_all-AllSame fnmatch file subkey depth) left out b
  round_same mismatch out b = refl
  round_same (through []) out b =
      both_same _ _ _ _ (wild_children_same [] out b)
        (λ r. ap (λ ws. some (all_values ws r.0, r.1)) (sym (add_values-Ascending vs [] sorted)))
  round_same (through (ch ∷ key)) out b =
      both_same _ _ _ _ (wild_children_same (ch ∷ key) out b) (λ r.
        child_same file prefix vs first last cs offs size kids nulls small fits ordered sorted _ _
          ch (further key r.0 r.1))

module _ (fnmatch : Bytes → Bytes → ℕ) (file : Bytes) (depth : ℕ) where
  -- What is to be shown of a node that is stored.
  abbrev NodeSame : ℕ → Type 0
  NodeSame fuel =
      (key : Bytes) (out : List Value) (b : Buffer) (off : ℕ) (n : Node)
      → Stored file off n
      → NodeFits n
      → IsOrdered n
      → (index_mm_read_node file off >>= λ c.
          index_mm_searchwild_node fnmatch fuel (suc depth) file c key out b)
        ≡ (index_read file off >>= λ c. searchwild_node fnmatch fuel (suc depth) file c key out b)

  node_zero : NodeSame zero
  unfolding index_mm_searchwild_node searchwild_node
  node_zero key out b off n (stored offs found size kids nulls) fits ordered =
      rw (found.0, found.1) refl

  node_suc : (fuel : ℕ) → NextSame fnmatch file fuel (suc depth) → NodeSame (suc fuel)
  unfolding index_mm_searchwild_node searchwild_node NodeFits IsOrdered
  node_suc fuel further key out b off n
        (stored {prefix} {vs} {first} {last} {cs} offs found size kids nulls) fits ordered =
      rw (found.0, found.1, ◌>>=◌)
        (round_same fnmatch file prefix vs first last cs offs size kids nulls fits.2 fits.3
          ordered.1 ordered.0 fuel depth further (scan_prefix prefix key) out b)

  searchwild_node-NextSame : (fuel : ℕ) → NextSame fnmatch file fuel (suc depth)
  unfolding Alike index_mm_searchwild_node searchwild_node
  searchwild_node-NextSame zero key out b = (refl, λ off n. node_zero key out b off n)
  searchwild_node-NextSame (suc fuel) key out b =
      (refl, λ off n. node_suc fuel (searchwild_node-NextSame fuel) key out b off n)

-- In a file that holds a well-formed tree whose values are in strictly ascending order of priority
-- at every node, for every key and every depth, where realloc gets its memory: index_mm_searchwild
-- does what index_searchwild does, with the same list of values as its result.
pub index_mm_searchwild-index_searchwild :
    (fnmatch : Bytes → Bytes → ℕ) (file : Bytes) (root : ℕ) (n : Node) (key : Bytes) (depth : ℕ)
    → Stored file root n
    → NodeFits n
    → IsOrdered n
    → index_mm_searchwild fnmatch (suc depth) file root key
      ≡ index_searchwild fnmatch (suc depth) file root key
unfolding index_mm_searchwild index_searchwild Alike
index_mm_searchwild-index_searchwild fnmatch file root n key depth st fits ordered =
    let k : Walk → Option (List Value) = λ q. some q.0 in
    sym (
      bind_assoc (index_mm_read_node file root)
        (λ c. index_mm_searchwild_node fnmatch (length key + 2) (suc depth) file c key [] buf_init)
        k)
    ∙ ap (λ m. m >>= k)
        ((searchwild_node-NextSame fnmatch file depth (length key + 2) key [] buf_init).1 root n st
          fits ordered)
    ∙ bind_assoc (index_read file root)
        (λ c. searchwild_node fnmatch (length key + 2) (suc depth) file c key [] buf_init) k
