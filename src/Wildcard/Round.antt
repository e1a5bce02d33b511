-- ===== src/Wildcard/Round.antt =====
-- A round of index_searchwild__node, in a file that holds a tree.
use mathlib.Core.List.{Memᴰ}
use mathlib.Core.Path.{subst}
use comment_subs.Prelude.{
  ℕ, zero, suc, ◌+◌, ◌-◌, ◌≤◌, ◌<◌, ◌≡◌, refl, inl, inr, none, some, List, [], ◌∷◌, ◌>>=◌, true,
  false, Bytes, length, get_or, arith, Option-cases,
}
use comment_subs.Trie.{Value, Node, Children, get_child, childmax}
use comment_subs.Trie.Denote.{values_at}
use comment_subs.Trie.Shape.{NodeFits, ChildrenFit, get_child-fits}
use comment_subs.IndexFile.{FileNode, index_read, index_readchild, masked, child_count}
use comment_subs.IndexFile.Codec.{file_node}
use comment_subs.IndexFile.Stored.{Stored, readchild-some, readchild-none}
use comment_subs.Wildcard.KeyBuffer.{Buffer}
use comment_subs.Wildcard.Buffered.{IsBuffer, Short}
use comment_subs.Wildcard.Defs.{
  wild_children, wild_child, is_wild, searchwild_node, all_values, wild_round, through,
}
use comment_subs.Wildcard.Keys.{all_values-Gains, sorted_mem}
use comment_subs.Wildcard.All.{searchwild_all-Walked}
use comment_subs.Wildcard.Matches.{key_matches}
use comment_subs.Wildcard.Cases.{WildAt, WildAny, NextAt, MatchingBelow, at_end, at_char}
use comment_subs.Wildcard.Loop.{at_child}
use comment_subs.Wildcard.Reach.{
  reach, reach_below, NoNul, NoNulBelow, get_child-reach, get_child-NoNul,
}
use comment_subs.Wildcard.Steps.{Did, Did-then, Did-map, Did-nothing}

-- No wildcard in the key that is looked up.
abbrev pub IsPlain : Bytes → Type 0
IsPlain [] = Unit
IsPlain (c ∷ key) = (is_wild c ≡ false) × IsPlain key

-- The value stands at a key of the index that matches.
abbrev pub Matching : (Bytes → Bytes → ℕ) → Node → (key : Bytes) → Value → Type 0
Matching fnmatch n key v = (k : Bytes) × (key_matches fnmatch k key ≡ true) × Memᴰ v (values_at n k)

abbrev pub Searched : (Bytes → Bytes → ℕ) → Bytes → (fuel depth : ℕ) → Type 0
Searched fnmatch file fuel depth =
    (off : ℕ) (n : Node) (key : Bytes) (out : List Value) (b : Buffer)
    → Stored file off n
    → NodeFits n
    → NoNul n
    → reach n < depth
    → Short (reach n)
    → IsBuffer b []
    → IsPlain key
    → length key + 1 < fuel
    → Did (index_read file off >>= λ r. searchwild_node fnmatch fuel depth file r key out b) out []
        (Matching fnmatch n key)

null_lem :
    (fnmatch : Bytes → Bytes → ℕ) (file : Bytes) (fuel depth : ℕ) (key : Bytes) (out : List Value)
    (b : Buffer)
    → 0 < fuel
    → searchwild_node fnmatch fuel depth file none key out b ≡ some (out, b)
unfolding searchwild_node
null_lem fnmatch file zero depth key out b h = absurd (omega arith)
null_lem fnmatch file (suc fuel) depth key out b h = refl

module _ (fnmatch : Bytes → Bytes → ℕ) (file prefix : Bytes) (vs : List Value) (first last : ℕ)
    (cs : Children) (offs : List ℕ) (size : length offs ≡ child_count first last)
    (kids : (ch : ℕ) (c : Node)
      → get_child cs ch ≡ some c
      → Stored file (get_or offs (ch - first) 0) c)
    (nulls : (ch : ℕ)
      → get_child cs ch ≡ none
      → first ≤ ch
      → ch ≤ last
      → masked (get_or offs (ch - first) 0) ≡ 0)
    (fits : ChildrenFit first last cs) (texts : NoNulBelow cs) (fuel depth : ℕ)
    (deep : reach_below cs ≤ depth) (short : Short (reach_below cs))
    (further : Searched fnmatch file fuel (suc depth)) where
  abbrev fn : FileNode
  fn = file_node prefix vs first last offs

  wild_child-Did :
      (subkey : Bytes) (ch : ℕ) (out : List Value) (b : Buffer)
      → ch < childmax
      → IsBuffer b []
      → Did
          (wild_child fnmatch (suc depth) file fn ch subkey out b)
          out
          []
          (WildAt fnmatch vs cs subkey ch)
  unfolding wild_child
  wild_child-Did subkey ch out b small is =
      at_child fnmatch file subkey prefix vs first last cs offs size kids nulls fits texts
        (suc depth) (searchwild_all-Walked fnmatch file subkey (suc depth)) [] (omega arith) ch out
        b small is tt (omega arith)

  wild_children-Did :
      (subkey : Bytes) (out : List Value) (b : Buffer)
      → IsBuffer b []
      → Did
          (wild_children fnmatch (suc depth) file fn subkey out b)
          out
          []
          (WildAny fnmatch vs cs subkey)
  unfolding wild_children
  wild_children-Did subkey out b is =
      Did-then (wild_child fnmatch (suc depth) file fn 42 subkey out b) _ out [] []
        (wild_child-Did subkey 42 out b (omega arith) is)
        (λ r has.
          Did-then (wild_child fnmatch (suc depth) file fn 63 subkey r.0 r.1) _ r.0 [] []
            (wild_child-Did subkey 63 r.0 r.1 (omega arith) has)
            (λ q have. wild_child-Did subkey 91 q.0 q.1 (omega arith) have))

  -- The rounds from the child at the next character of the key.
  next-Did :
      (c : ℕ) (key : Bytes) (out : List Value) (b : Buffer)
      → IsBuffer b []
      → IsPlain key
      → length key + 1 < fuel
      → Did
          (index_readchild file fn c >>= λ r.
            searchwild_node fnmatch fuel (suc depth) file r key out b)
          out
          []
          (NextAt fnmatch vs cs c key)
  next-Did c key out b is plain enough = elim (Option-cases (get_child cs c)) [
    | inl e ↦
        rw
          (
            readchild-none file prefix vs first last offs c size (nulls c e),
            null_lem fnmatch file fuel (suc depth) key out b (omega arith),
          )
          (Did-nothing out b [] is (λ v (m, e1, below). cc))
    | inr (m, e) ↦
        let known = get_child-fits cs c fits e in
        let near = get_child-reach cs c m e in
        let clean = get_child-NoNul cs c m texts e in
        rw (readchild-some file prefix vs first last offs c size known.0 known.1 known.2) (
          Did-map _ out []
            (further (get_or offs (c - first) 0) m key out b (kids c m e) known.3 clean.1
              (omega (arith, near)) (omega (arith, near)) is plain enough)
            (λ v. (
              λ at. (m, e, at),
              λ (d, e1, at). let same : d ≡ m = cc in subst (λ x. Matching fnmatch x key v) same at,
            )))
  ]

  -- Behind the prefix, with what is left of the key.
  pub through-Did :
      (rest : Bytes) (out : List Value) (b : Buffer)
      → IsBuffer b []
      → IsPlain rest
      → length rest < fuel
      → Did
          (wild_round fnmatch
            (λ r key. searchwild_node fnmatch fuel (suc depth) file r key)
            (suc depth)
            file
            fn
            (through rest)
            out
            b)
          out
          []
          (MatchingBelow fnmatch vs cs rest)
  unfolding wild_round
  through-Did [] out b is plain enough =
      Did-map _ out []
        (Did-then (wild_children fnmatch (suc depth) file fn [] out b)
          (λ r. some (all_values fn.values r.0, r.1)) out [] [] (wild_children-Did [] out b is)
          (λ r has. ((all_values fn.values r.0, r.1), refl, all_values-Gains fn.values r.0, has)))
        (λ v. (
          λ m. elim m [
            | inl a ↦ (at_end fnmatch vs cs v).0 (inl a)
            | inr here ↦ (at_end fnmatch vs cs v).0 (inr ((sorted_mem vs v).0 here))
          ],
          λ m. elim ((at_end fnmatch vs cs v).1 m) [
            | inl a ↦ inl a
            | inr here ↦ inr ((sorted_mem vs v).1 here)
          ],
        ))
  through-Did (c ∷ key) out b is plain enough =
      Did-map _ out []
        (Did-then (wild_children fnmatch (suc depth) file fn (c ∷ key) out b)
          (λ r. index_readchild file fn c >>= λ n.
            searchwild_node fnmatch fuel (suc depth) file n key r.0 r.1)
          out [] [] (wild_children-Did (c ∷ key) out b is)
          (λ r has. next-Did c key r.0 r.1 has plain.1 (omega arith)))
        (λ v. at_char fnmatch vs cs c key v plain.0)
