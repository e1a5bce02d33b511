-- ===== src/Wildcard/All.antt =====
-- index_searchwild__all, in a file that holds a tree.
use mathlib.Core.Path.{subst}
use comment_subs.Prelude.{
  ℕ, zero, suc, ◌+◌, ◌-◌, ◌≤◌, ◌<◌, ◌≡◌, refl, sym, ap, ◌∙◌, ◌↔◌, ◌⊎◌, inl, inr, Option, none, some,
  List, [], ◌∷◌, ◌++◌, ◌>>=◌, bind_assoc, Bytes, length, length-append, get_or, arith,
}
use comment_subs.Trie.{Value, Node, Children, get_child, childmax}
use comment_subs.Trie.Denote.{values_at}
use comment_subs.Trie.Shape.{NodeFits, ChildrenFit, get_child-fits, IsText, IsAscii}
use comment_subs.IndexFile.{FileNode, masked, child_count}
use comment_subs.IndexFile.Codec.{file_node}
use comment_subs.IndexFile.Stored.{Stored, stored}
use comment_subs.Wildcard.KeyBuffer.{Buffer, buf_popchars}
use comment_subs.Wildcard.Buffered.{IsBuffer, Short, buf_pushchars-IsBuffer, buf_popchars-IsBuffer}
use comment_subs.Wildcard.Defs.{for_children, searchwild_all, matching_values}
use comment_subs.Wildcard.Keys.{
  Here, AnyChild, BelowLeft, matching_values-Did, split_below, below_prefix, sorted_mem,
  IsText-append,
}
use comment_subs.Wildcard.Gains.{Gains-map}
use comment_subs.Wildcard.Loop.{Walked, InSpan, AtChild, for_children-Did}
use comment_subs.Wildcard.Reach.{reach, reach_below, NoNul, NoNulBelow}
use comment_subs.Wildcard.Steps.{Did, Did-then}

module _ (fnmatch : Bytes → Bytes → ℕ) (file subkey prefix : Bytes) (vs : List Value)
    (first last : ℕ) (cs : Children) (offs : List ℕ) (size : length offs ≡ child_count first last)
    (kids : (ch : ℕ) (c : Node)
      → get_child cs ch ≡ some c
      → Stored file (get_or offs (ch - first) 0) c)
    (nulls : (ch : ℕ)
      → get_child cs ch ≡ none
      → first ≤ ch
      → ch ≤ last
      → masked (get_or offs (ch - first) 0) ≡ 0)
    (small : last < childmax) (fits : ChildrenFit first last cs) (texts : NoNulBelow cs) (fuel : ℕ)
    (further : Walked fnmatch file subkey fuel) (deep : reach_below cs ≤ fuel) where
  abbrev fn : FileNode
  fn = file_node prefix vs first last offs

  -- The loop from `first` to `last` sees every child.
  every_child :
      (offs' : List ℕ) (s : Bytes) (v : Value)
      → length offs' ≡ child_count first last
      → (let m = file_node prefix vs first last offs' in
          (i : ℕ) × (m.first ≤ i)
          × (i < m.first + (m.last + 1 - m.first))
          × AtChild fnmatch file subkey prefix vs first last cs offs size kids nulls fits texts fuel
              further s deep i v)
        ↔ AnyChild fnmatch file subkey vs cs s v
  every_child [] s v none_left = (
    λ (i, low, high, at). (i, at.0, at.1, at.2),
    λ (i, c, e, below).
        absurd (let known = get_child-fits cs i fits e in ground (arith, none_left, known)),
  )
  every_child (o ∷ os) s v some_left = (
    λ (i, low, high, at). (i, at.0, at.1, at.2),
    λ (i, c, e, below).
        let known = get_child-fits cs i fits e in
        (i, known.1, omega (arith, known.2), (c, e, below)),
  )

  inside :
      (offs' : List ℕ)
      → length offs' ≡ child_count first last
      → (let m = file_node prefix vs first last offs' in
          m.first + (m.last + 1 - m.first) ≤ childmax)
  inside [] e = omega arith
  inside (o ∷ os) e = ground (arith, e)

  -- What the loop and the node itself give is what is below the rest of the prefix.
  collected :
      (s left : Bytes) (v : Value)
      → (InSpan fnmatch file subkey prefix vs first last cs offs size kids nulls fits texts fuel
            further
            (s ++ left)
            deep
            (fn.last + 1 - fn.first)
            fn.first
            v
          ⊎ Here fnmatch file subkey (s ++ left) fn.values v)
        ↔ BelowLeft fnmatch file subkey s left vs cs v
  collected s left v =
      let each = every_child offs (s ++ left) v size in
      let split = split_below fnmatch file subkey vs cs (s ++ left) v in
      let behind = below_prefix fnmatch file subkey vs cs s left v in
      (
        λ m. elim m [
          | inl below ↦ behind.0 (split.0 (inl (each.0 below)))
          | inr here ↦ behind.0 (split.0 (inr (here.0, (sorted_mem vs v).0 here.1)))
        ],
        λ below. elim (split.1 (behind.1 below)) [
          | inl child_has ↦ inl (each.1 child_has)
          | inr here ↦ inr (here.0, (sorted_mem vs v).1 here.1)
        ],
      )

  -- The walk from a place in the prefix, with the characters `s` in the buffer.
  pub all_left :
      (s left : Bytes) (out : List Value) (b : Buffer)
      → IsBuffer b s
      → IsText s
      → IsAscii left
      → Short (length s + (length left + reach_below cs))
      → Did
          (searchwild_all fnmatch (suc fuel) file left subkey fn out b)
          out
          s
          (BelowLeft fnmatch file subkey s left vs cs)
  unfolding searchwild_all
  all_left s left out b is text ascii short =
      let t = s ++ left in
      let long : length t ≡ length s + length left = length-append s left in
      let whole : IsText t = IsText-append s left text ascii in
      let (b1, pushed, has) = buf_pushchars-IsBuffer left b s is (omega arith) in
      let (r, e, gains, back) =
        Did-then
          (for_children (λ d. searchwild_all fnmatch fuel file d.prefix subkey d) file fn
            (fn.last + 1 - fn.first) fn.first out b1)
          (λ q. matching_values fnmatch fn.values subkey q.0 q.1) out t t
          (for_children-Did fnmatch file subkey prefix vs first last cs offs size kids nulls fits
            texts fuel further t deep (fn.last + 1 - fn.first) fn.first out b1 (inside offs size)
            has whole (omega (arith, long)))
          (λ q is1.
            matching_values-Did fnmatch file subkey fn.values q.0 q.1 t is1 whole
              (omega (arith, long))) in
      let (b4, popped, is4) = buf_popchars-IsBuffer r.1 s left (length left) back refl in
      (
        (r.0, b4),
        rw (pushed, ◌>>=◌)
            (sym (
                bind_assoc
                  (for_children (λ d. searchwild_all fnmatch fuel file d.prefix subkey d) file fn
                    (fn.last + 1 - fn.first) fn.first out b1)
                  (λ q. matching_values fnmatch fn.values subkey q.0 q.1)
                  (λ q. buf_popchars q.1 (length left) >>= λ b5. some (q.0, b5)))
              ∙ ap (λ m. m >>= λ q. buf_popchars q.1 (length left) >>= λ b5. some (q.0, b5)) e
              ∙ rw popped refl),
        Gains-map out r.0 gains (collected s left),
        is4,
      )

pub node_lem : {a b : FileNode} → some (some a) ≡ some (some b) → a ≡ b
node_lem {a} e = ap (λ o. content_or a o) e
  where
    content_or : FileNode → Option (Option FileNode) → FileNode
    content_or d none = d
    content_or d (some none) = d
    content_or d (some (some m)) = m

-- With more fuel than the keys are long, the walk of a sub-keyspace ends. It adds the values at all
-- keys below the node that match behind the characters of the buffer.
pub searchwild_all-Walked :
    (fnmatch : Bytes → Bytes → ℕ) (file subkey : Bytes) (fuel : ℕ) → Walked fnmatch file subkey fuel
unfolding NodeFits NoNul reach values_at
searchwild_all-Walked fnmatch file subkey zero off n c s out b st read fits texts far is text
      short =
    absurd (omega arith)
searchwild_all-Walked fnmatch file subkey (suc fuel) off n c s out b
      (stored {prefix} {vs} {first} {last} {cs} offs found size kids nulls) read fits texts far is
      text short =
    let same : file_node prefix vs first last offs ≡ c = node_lem (sym found.0 ∙ read) in
    subst
      (λ m.
        Did (searchwild_all fnmatch (suc fuel) file m.prefix subkey m out b) out s
          (BelowLeft fnmatch file subkey s prefix vs cs))
      same
      (all_left fnmatch file subkey prefix vs first last cs offs size kids nulls fits.2 fits.3 texts
        fuel (searchwild_all-Walked fnmatch file subkey fuel) (omega arith) s prefix out b is text
        fits.0 short)
