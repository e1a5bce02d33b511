-- ===== src/Wildcard/Mapped/Same.antt =====
-- The walks with the two readers do the same, in a file that holds an ordered tree.
use comment_subs.Prelude.{
  ℕ, zero, suc, ◌+◌, ◌-◌, ◌≤◌, ◌<◌, ◌≡◌, refl, sym, ap, ◌∙◌, true, Option, none, some, List, [],
  ◌∷◌, ◌>>=◌, bind_assoc, bind_same, Bytes, length, get_or, arith, Option-cases, inl, inr, lt→ltb,
}
use comment_subs.Trie.{Value, Node, Children, get_child, childmax}
use comment_subs.Trie.Shape.{NodeFits, ChildrenFit, get_child-fits}
use comment_subs.IndexFile.{FileNode, index_read, index_readchild, masked, child_count}
use comment_subs.IndexFile.Codec.{file_node}
use comment_subs.IndexFile.Stored.{Stored, stored, readchild-some, readchild-none}
use comment_subs.IndexFile.Mapped.{MmNode, index_mm_read_node, index_mm_readchild}
use comment_subs.IndexFile.Mapped.Agree.{Ascending, add_values-Ascending}
use comment_subs.IndexFile.Mapped.Codec.{mm_node}
use comment_subs.IndexFile.Mapped.Lookup.{mm_readchild-some, mm_readchild-none}
use comment_subs.Wildcard.KeyBuffer.{Buffer, buf_pushchars, buf_popchars, buf_pushchar, buf_popchar}
use comment_subs.Wildcard.Defs.{Walk, in_child, for_children, searchwild_all, matching_values}
use comment_subs.Wildcard.Loop.{readchild_int-small}
use comment_subs.Wildcard.Mapped.{mm_for_children, mm_readchild_int, index_mm_searchwild_all}
use comment_subs.Wildcard.Mapped.Ordered.{IsOrdered, AllOrdered, get_child-IsOrdered}

mm_readchild_int-small :
    (file : Bytes) (n : MmNode) (ch : ℕ)
    → ch < childmax
    → mm_readchild_int file n ch ≡ index_mm_readchild file n ch
unfolding mm_readchild_int index_mm_readchild
mm_readchild_int-small file n ch h = rw (lt→ltb ch 128 h) refl

-- Both readers go on alike with what they find.
unfoldable pub Alike :
    (A : Type 0) (file : Bytes) (f : Option MmNode → Option A) (g : Option FileNode → Option A)
    → Type 0
Alike A file f g =
    (f none ≡ g none)
    × ((off : ℕ) (n : Node)
        → Stored file off n
        → NodeFits n
        → IsOrdered n
        → (index_mm_read_node file off >>= f) ≡ (index_read file off >>= g))

-- A walk from the place of a node, with either reader.
abbrev pub AllSame : (Bytes → Bytes → ℕ) → Bytes → Bytes → ℕ → Type 0
AllSame fnmatch file subkey fuel =
    (ch : ℕ) (out : List Value) (b : Buffer)
    → Alike Walk file
        (λ c.
          in_child (λ m. index_mm_searchwild_all fnmatch fuel file m.prefix subkey m) ch c out b)
        (λ c. in_child (λ m. searchwild_all fnmatch fuel file m.prefix subkey m) ch c out b)

module _ (file prefix : Bytes) (vs : List Value) (first last : ℕ) (cs : Children) (offs : List ℕ)
    (size : length offs ≡ child_count first last)
    (kids : (ch : ℕ) (c : Node)
      → get_child cs ch ≡ some c
      → Stored file (get_or offs (ch - first) 0) c)
    (nulls : (ch : ℕ)
      → get_child cs ch ≡ none
      → first ≤ ch
      → ch ≤ last
      → masked (get_or offs (ch - first) 0) ≡ 0)
    (small : last < childmax) (fits : ChildrenFit first last cs) (ordered : AllOrdered cs)
    (sorted : Ascending [] vs) where
  abbrev fn : FileNode
  fn = file_node prefix vs first last offs

  abbrev mn : MmNode
  mn = mm_node prefix vs first last offs

  pub child_same :
      {A : Type 0} (f : Option MmNode → Option A) (g : Option FileNode → Option A) (ch : ℕ)
      → Alike A file f g
      → (index_mm_readchild file mn ch >>= f) ≡ (index_readchild file fn ch >>= g)
  unfolding Alike
  child_same f g ch alike = elim (Option-cases (get_child cs ch)) [
    | inl e ↦
        rw
          (
            mm_readchild-none file prefix vs first last offs ch size (nulls ch e),
            readchild-none file prefix vs first last offs ch size (nulls ch e),
          )
          alike.0
    | inr (c, e) ↦
        let known = get_child-fits cs ch fits e in
        rw
          (
            mm_readchild-some file prefix vs first last offs ch size known.0 known.1 known.2,
            readchild-some file prefix vs first last offs ch size known.0 known.1 known.2,
          )
          (alike.1 (get_or offs (ch - first) 0) c (kids ch c e) known.3
            (get_child-IsOrdered cs ch c ordered e))
  ]

  module _ (fnmatch : Bytes → Bytes → ℕ) (subkey : Bytes) (fuel : ℕ)
      (further : AllSame fnmatch file subkey fuel) where
    abbrev mm_walk : MmNode → List Value → Buffer → Option Walk
    mm_walk m = index_mm_searchwild_all fnmatch fuel file m.prefix subkey m

    abbrev file_walk : FileNode → List Value → Buffer → Option Walk
    file_walk m = searchwild_all fnmatch fuel file m.prefix subkey m

    for_children_same :
        (count ch : ℕ) (out : List Value) (b : Buffer)
        → ch + count ≤ childmax
        → mm_for_children mm_walk file mn count ch out b
          ≡ for_children file_walk file fn count ch out b
    unfolding mm_for_children for_children
    for_children_same zero ch out b h = refl
    for_children_same (suc count) ch out b h =
        rw
          (
            mm_readchild_int-small file mn ch (omega arith),
            readchild_int-small file fn ch (omega arith),
          )
          (sym (
              bind_assoc (index_mm_readchild file mn ch) (λ c. in_child mm_walk ch c out b)
                (λ r. mm_for_children mm_walk file mn count (ch + 1) r.0 r.1))
            ∙ ap (λ m. m >>= λ r. mm_for_children mm_walk file mn count (ch + 1) r.0 r.1)
                (child_same _ _ ch (further ch out b))
            ∙ bind_same (index_readchild file fn ch >>= λ c. in_child file_walk ch c out b)
                (λ r. for_children_same count (ch + 1) r.0 r.1 (omega arith))
            ∙ bind_assoc (index_readchild file fn ch) (λ c. in_child file_walk ch c out b)
                (λ r. for_children file_walk file fn count (ch + 1) r.0 r.1))

    inside :
        (offs' : List ℕ)
        → length offs' ≡ child_count first last
        → (let m = mm_node prefix vs first last offs' in
            m.first + (m.last + 1 - m.first) ≤ childmax)
    inside [] e = omega arith
    inside (o ∷ os) e = ground (arith, e)

    pub all_same :
        (left : Bytes) (out : List Value) (b : Buffer)
        → index_mm_searchwild_all fnmatch (suc fuel) file left subkey mn out b
          ≡ searchwild_all fnmatch (suc fuel) file left subkey fn out b
    unfolding index_mm_searchwild_all searchwild_all
    all_same left out b = bind_same (buf_pushchars true b left) (λ r.
        let finish : Walk → Option Walk = λ q. buf_popchars q.1 r.1 >>= λ b4. some (q.0, b4) in
        ap (λ m. m >>= λ q. matching_values fnmatch vs subkey q.0 q.1 >>= finish)
          (for_children_same (mn.last + 1 - mn.first) mn.first out r.0 (inside offs size))
        ∙ ap
            (λ ws. for_children file_walk file fn (fn.last + 1 - fn.first) fn.first out r.0 >>= λ q.
              matching_values fnmatch ws subkey q.0 q.1 >>= finish)
            (sym (add_values-Ascending vs [] sorted)))

in_child_same :
    (walk : MmNode → List Value → Buffer → Option Walk)
    (walk' : FileNode → List Value → Buffer → Option Walk) (m : MmNode) (n : FileNode) (ch : ℕ)
    (out : List Value) (b : Buffer)
    → ((b1 : Buffer) → walk m out b1 ≡ walk' n out b1)
    → in_child walk ch (some m) out b ≡ in_child walk' ch (some n) out b
unfolding in_child
in_child_same walk walk' m n ch out b same =
    bind_same (buf_pushchar true b ch)
      (λ r. ap (λ w. w >>= λ q. buf_popchar q.1 >>= λ b3. some (q.0, b3)) (same r.0))

module _ (fnmatch : Bytes → Bytes → ℕ) (file subkey : Bytes) where
  -- What is to be shown of a node that is stored.
  abbrev NodeSame : ℕ → Type 0
  NodeSame fuel =
      (ch : ℕ) (out : List Value) (b : Buffer) (off : ℕ) (n : Node)
      → Stored file off n
      → NodeFits n
      → IsOrdered n
      → (index_mm_read_node file off >>= λ c.
          in_child (λ m. index_mm_searchwild_all fnmatch fuel file m.prefix subkey m) ch c out b)
        ≡ (index_read file off >>= λ c.
            in_child (λ m. searchwild_all fnmatch fuel file m.prefix subkey m) ch c out b)

  node_zero : NodeSame zero
  unfolding index_mm_searchwild_all searchwild_all
  node_zero ch out b off n (stored {prefix} {vs} {first} {last} {cs} offs found size kids nulls)
        fits ordered =
      rw (found.0, found.1, ◌>>=◌)
        (in_child_same (λ m. index_mm_searchwild_all fnmatch zero file m.prefix subkey m)
          (λ m. searchwild_all fnmatch zero file m.prefix subkey m)
          (mm_node prefix vs first last offs) (file_node prefix vs first last offs) ch out b
          (λ b1. refl))

  node_suc : (fuel : ℕ) → AllSame fnmatch file subkey fuel → NodeSame (suc fuel)
  unfolding NodeFits IsOrdered
  node_suc fuel lower ch out b off n
        (stored {prefix} {vs} {first} {last} {cs} offs found size kids nulls) fits ordered =
      rw (found.0, found.1, ◌>>=◌)
        (in_child_same (λ m. index_mm_searchwild_all fnmatch (suc fuel) file m.prefix subkey m)
          (λ m. searchwild_all fnmatch (suc fuel) file m.prefix subkey m)
          (mm_node prefix vs first last offs) (file_node prefix vs first last offs) ch out b
          (λ b1.
            all_same file prefix vs first last cs offs size kids nulls fits.2 fits.3 ordered.1
              ordered.0 fnmatch subkey fuel lower prefix out b1))

  -- In a file that holds an ordered tree, the walk of a sub-keyspace does the same with both
  -- readers.
  pub searchwild_all-AllSame : (fuel : ℕ) → AllSame fnmatch file subkey fuel
  unfolding in_child Alike
  searchwild_all-AllSame zero ch out b = (refl, λ off n. node_zero ch out b off n)
  searchwild_all-AllSame (suc fuel) ch out b =
      (refl, λ off n. node_suc fuel (searchwild_all-AllSame fuel) ch out b off n)
