-- ===== src/Wildcard/Loop.antt =====
-- The loop over the children, in a file that holds a tree.
use mathlib.Core.List.{Memᴰ}
use mathlib.Core.Path.{subst}
use comment_subs.Prelude.{
  ℕ, zero, suc, ◌+◌, ◌-◌, ◌≤◌, ◌<◌, ◌≡◌, refl, inl, inr, none, some, List, [], ◌∷◌, ◌++◌, ◌>>=◌,
  Bytes, length, length-append, get_or, arith, ◌==◌, lt→ltb, Option-cases, Bool-cases,
}
use comment_subs.Trie.{Value, Node, Children, get_child, childmax}
use comment_subs.Trie.Denote.{values_at}
use comment_subs.Trie.Shape.{NodeFits, ChildrenFit, get_child-fits, IsText}
use comment_subs.IndexFile.{FileNode, index_read, index_readchild, masked, child_count}
use comment_subs.IndexFile.Codec.{file_node}
use comment_subs.IndexFile.Stored.{Stored, stored, readchild-some, readchild-none}
use comment_subs.Wildcard.KeyBuffer.{Buffer}
use comment_subs.Wildcard.Buffered.{IsBuffer, Short}
use comment_subs.Wildcard.Defs.{readchild_int, in_child, for_children, searchwild_all}
use comment_subs.Wildcard.Reach.{
  reach, reach_below, get_child-reach, NoNul, NoNulBelow, get_child-NoNul,
}
use comment_subs.Wildcard.Steps.{Did, Did-chain, Did-map, Did-nothing, Did-child}

pub readchild_int-small :
    (file : Bytes) (n : FileNode) (ch : ℕ)
    → ch < childmax
    → readchild_int file n ch ≡ index_readchild file n ch
unfolding readchild_int index_readchild
readchild_int-small file n ch h = rw (lt→ltb ch 128 h) refl

pub stored-read :
    (file : Bytes) (off : ℕ) (n : Node)
    → Stored file off n
    → (c : FileNode) × (index_read file off ≡ some (some c))
stored-read file off n (stored offs found size kids nulls) = (_, found.0)

pub IsText-snoc : (s : Bytes) (ch : ℕ) → IsText s → 0 < ch → IsText (s ++ ch ∷ [])
IsText-snoc [] ch text h = (h, tt)
IsText-snoc (c ∷ s) ch text h = (text.0, IsText-snoc s ch text.1 h)

module _ (fnmatch : Bytes → Bytes → ℕ) (file subkey : Bytes) where
  -- The value stands below the node at a key that matches, behind the characters `s`.
  abbrev pub Below : Bytes → Node → Value → Type 0
  Below s n v = (k : Bytes) × (fnmatch (s ++ k) subkey ≡ 0) × Memᴰ v (values_at n k)

  -- What the walk of a sub-keyspace is to do.
  abbrev pub Walked : ℕ → Type 0
  Walked fuel =
      (off : ℕ) (n : Node) (c : FileNode) (s : Bytes) (out : List Value) (b : Buffer)
      → Stored file off n
      → index_read file off ≡ some (some c)
      → NodeFits n
      → NoNul n
      → reach n < fuel
      → IsBuffer b s
      → IsText s
      → Short (length s + reach n)
      → Did (searchwild_all fnmatch fuel file c.prefix subkey c out b) out s (Below s n)

  module _ (prefix : Bytes) (vs : List Value) (first last : ℕ) (cs : Children) (offs : List ℕ)
      (size : length offs ≡ child_count first last)
      (kids : (ch : ℕ) (c : Node)
        → get_child cs ch ≡ some c
        → Stored file (get_or offs (ch - first) 0) c)
      (nulls : (ch : ℕ)
        → get_child cs ch ≡ none
        → first ≤ ch
        → ch ≤ last
        → masked (get_or offs (ch - first) 0) ≡ 0)
      (fits : ChildrenFit first last cs) (texts : NoNulBelow cs) (fuel : ℕ) (further : Walked fuel)
      (s : Bytes) (deep : reach_below cs ≤ fuel) where
    abbrev pub AtChild : ℕ → Value → Type 0
    AtChild ch v = (c : Node) × (get_child cs ch ≡ some c) × Below (s ++ ch ∷ []) c v

    -- A child that is there.
    found_child :
        (ch : ℕ) (c : Node) (m : FileNode) (out : List Value) (b : Buffer)
        → get_child cs ch ≡ some c
        → index_read file (get_or offs (ch - first) 0) ≡ some (some m)
        → IsBuffer b s
        → IsText s
        → Short (length s + reach_below cs)
        → Did
            (in_child (λ d. searchwild_all fnmatch fuel file d.prefix subkey d) ch (some m) out b)
            out
            s
            (AtChild ch)
    found_child ch c m out b e read is text short =
        let clean = get_child-NoNul cs ch c texts e in
        let near = get_child-reach cs ch c e in
        let longer = length-append s (ch ∷ []) in
        let known = get_child-fits cs ch fits e in
        Did-map _ out s
          (Did-child _ ch m out b s is (omega (arith, near)) (λ b1 has.
            further _ c m (s ++ ch ∷ []) out b1 (kids ch c e) read known.3 clean.1
              (omega (arith, near, deep)) has (IsText-snoc s ch text clean.0)
              (omega (arith, near, longer))))
          (λ v. (
            λ below. (c, e, below),
            λ (d, e1, below).
                let same : d ≡ c = cc in subst (λ x. Below (s ++ ch ∷ []) x v) same below,
          ))

    pub at_child :
        (ch : ℕ) (out : List Value) (b : Buffer)
        → ch < childmax
        → IsBuffer b s
        → IsText s
        → Short (length s + reach_below cs)
        → Did
            (index_readchild file (file_node prefix vs first last offs) ch >>= λ c.
              in_child (λ d. searchwild_all fnmatch fuel file d.prefix subkey d) ch c out b)
            out
            s
            (AtChild ch)
    unfolding in_child
    at_child ch out b small is text short = elim (Option-cases (get_child cs ch)) [
      | inl e ↦
          rw (readchild-none file prefix vs first last offs ch size (nulls ch e))
            (Did-nothing out b s is (λ v (c, e1, below). cc))
      | inr (c, e) ↦
          let known = get_child-fits cs ch fits e in
          let (m, read) = stored-read file _ c (kids ch c e) in
          rw
            (
              readchild-some file prefix vs first last offs ch size known.0 known.1 known.2,
              read,
              ◌>>=◌,
            )
            (found_child ch c m out b e read is text short)
    ]

    abbrev pub InSpan : (count ch : ℕ) → Value → Type 0
    InSpan count ch v = (i : ℕ) × (ch ≤ i) × (i < ch + count) × AtChild i v

    pub for_children-Did :
        (count ch : ℕ) (out : List Value) (b : Buffer)
        → ch + count ≤ childmax
        → IsBuffer b s
        → IsText s
        → Short (length s + reach_below cs)
        → Did
            (for_children
              (λ d. searchwild_all fnmatch fuel file d.prefix subkey d)
              file
              (file_node prefix vs first last offs)
              count
              ch
              out
              b)
            out
            s
            (InSpan count ch)
    unfolding for_children
    for_children-Did zero ch out b small is text short =
        Did-nothing out b s is (λ v (i, low, high, at). omega arith)
    for_children-Did (suc count) ch out b small is text short =
        rw (readchild_int-small file (file_node prefix vs first last offs) ch (omega arith)) (
          Did-map _ out s
            (Did-chain (index_readchild file (file_node prefix vs first last offs) ch)
              (λ c. in_child (λ d. searchwild_all fnmatch fuel file d.prefix subkey d) ch c out b) _
              out s s (at_child ch out b (omega arith) is text short)
              (λ r has. for_children-Did count (ch + 1) r.0 r.1 (omega arith) has text short))
            (λ v. (
              λ m. elim m [
                | inl at ↦ (ch, omega arith, omega arith, at)
                | inr (i, low, high, at) ↦ (i, omega arith, omega arith, at)
              ],
              λ (i, low, high, at). elim (Bool-cases (ch == i)) [
                | inl same ↦
                    let is_first : i ≡ ch = ground arith in
                    inl (subst (λ j. AtChild j v) is_first at)
                | inr later ↦
                    let behind : ch + 1 ≤ i = ground arith in inr (i, behind, omega arith, at)
              ],
            )))
