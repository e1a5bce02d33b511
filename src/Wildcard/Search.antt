-- ===== src/Wildcard/Search.antt =====
-- index_searchwild, in a file that holds a tree.
use mathlib.Core.List.{Memᴰ}
use mathlib.Core.List.Memᴰ
use comment_subs.Prelude.{
  ℕ, zero, suc, ◌+◌, ◌-◌, ◌≤◌, ◌<◌, ◌≡◌, sym, ap, ◌∙◌, ◌↔◌, inl, inr, true, some, none, List, [],
  ◌∷◌, ◌++◌, append_assoc, ◌>>=◌, bind_assoc, Bytes, length, get_or, arith, Bool-cases, ◌==◌,
  ==_iff,
}
use comment_subs.Trie.{Value, Node, Children, get_child, childmax}
use comment_subs.Trie.Denote.{values_at, values_below}
use comment_subs.Trie.Shape.{NodeFits, ChildrenFit, IsAscii}
use comment_subs.IndexFile.{index_read, masked, child_count}
use comment_subs.IndexFile.Codec.{file_node}
use comment_subs.IndexFile.Stored.{Stored, stored}
use comment_subs.Wildcard.KeyBuffer.{Buffer, buf_init}
use comment_subs.Wildcard.Buffered.{IsBuffer, Short, buf_init-IsBuffer}
use comment_subs.Wildcard.Defs.{
  Scan, wildcard, mismatch, through, scan_prefix, is_wild, searchwild_node, wild_round,
  index_searchwild,
}
use comment_subs.Wildcard.Keys.{behind_prefix}
use comment_subs.Wildcard.All.{searchwild_all-Walked, all_left}
use comment_subs.Wildcard.Matches.{key_matches, ScanSays, scan_prefix-ScanSays}
use comment_subs.Wildcard.Round.{IsPlain, Matching, Searched, through-Did}
use comment_subs.Wildcard.Reach.{reach, reach_below, NoNul, NoNulBelow}
use comment_subs.Wildcard.Steps.{Did, Did-map, Did-nothing}

-- What the loop over the prefix leaves is a part of what it had.
unfoldable ScanFits : Scan → (prefix key : Bytes) → Type 0
ScanFits (wildcard left subkey) prefix key =
    (IsAscii prefix → IsAscii left) × (length left ≤ length prefix)
ScanFits mismatch prefix key = Unit
ScanFits (through rest) prefix key = (IsPlain key → IsPlain rest) × (length rest ≤ length key)

scan_prefix-ScanFits : (prefix key : Bytes) → ScanFits (scan_prefix prefix key) prefix key
unfolding scan_prefix ScanFits
scan_prefix-ScanFits [] key = (λ plain. plain, omega arith)
scan_prefix-ScanFits (p ∷ ps) [] = elim (Bool-cases (is_wild p)) [
  | inl wild ↦ rw wild (λ ascii. ascii, omega arith)
  | inr plain ↦ rw plain tt
]
scan_prefix-ScanFits (p ∷ ps) (c ∷ key) = elim (Bool-cases (is_wild p)) [
  | inl wild ↦ rw wild (λ ascii. ascii, omega arith)
  | inr plain ↦ elim (Bool-cases (p == c)) [
    | inr differ ↦ rw (plain, differ) tt
    | inl same ↦ rw (plain, same) (more (scan_prefix ps key) (scan_prefix-ScanFits ps key))
  ]
]
  where
    more : (r : Scan) → ScanFits r ps key → ScanFits r (p ∷ ps) (c ∷ key)
    more (wildcard left subkey) fits = (λ ascii. fits.0 ascii.2, omega (arith, fits.1))
    more mismatch fits = tt
    more (through rest) fits = (λ plain_key. fits.0 plain_key.1, omega (arith, fits.1))

module _ (fnmatch : Bytes → Bytes → ℕ) (file prefix : Bytes) (vs : List Value) (first last : ℕ)
    (cs : Children) (offs : List ℕ) (size : length offs ≡ child_count first last)
    (kids : (ch : ℕ) (c : Node)
      → get_child cs ch ≡ some c
      → Stored file (get_or offs (ch - first) 0) c)
    (nulls : (ch : ℕ)
      → get_child cs ch ≡ none
      → first ≤ ch
      → ch ≤ last
      → masked (get_or offs (ch - first) 0) ≡ 0)
    (small : last < childmax) (fits : ChildrenFit first last cs) (texts : NoNulBelow cs)
    (fuel depth : ℕ) (deep : reach_below cs ≤ depth)
    (further : Searched fnmatch file fuel (suc depth)) where
  round-Did :
      (r : Scan) (key : Bytes) (out : List Value) (b : Buffer)
      → ScanSays fnmatch r prefix key
      → ScanFits r prefix key
      → IsAscii prefix
      → Short (length prefix + reach_below cs)
      → IsBuffer b []
      → IsPlain key
      → length key < fuel
      → Did
          (wild_round fnmatch
            (λ c rest. searchwild_node fnmatch fuel (suc depth) file c rest)
            (suc depth)
            file
            (file_node prefix vs first last offs)
            r
            out
            b)
          out
          []
          (λ v.
            (k : Bytes) × (key_matches fnmatch k key ≡ true) × Memᴰ v (values_below prefix vs cs k))
  unfolding wild_round ScanSays ScanFits
  round-Did mismatch key out b says fit ascii short is plain enough =
      Did-nothing out b [] is (λ v found.
        let (k, hit, at) =
          (behind_prefix (λ k. key_matches fnmatch k key ≡ true) vs cs prefix v).0 found in
        ground (arith, hit, says k))
  round-Did (through rest) key out b says fit ascii short is plain enough =
      Did-map _ out []
        (through-Did fnmatch file prefix vs first last cs offs size kids nulls fits texts fuel depth
          deep (omega arith) further rest out b is (fit.0 plain) (omega (arith, fit.1)))
        (λ v.
          let behind = behind_prefix (λ k. key_matches fnmatch k key ≡ true) vs cs prefix v in
          (
            λ (k, hit, at). behind.1 (k, says k ∙ hit, at),
            λ found. let (k, hit, at) = behind.0 found in (k, sym (says k) ∙ hit, at),
          ))
  round-Did (wildcard left subkey) key out b (lit, whole, says) fit ascii short is plain enough =
      Did-map _ out []
        (all_left fnmatch file subkey prefix vs first last cs offs size kids nulls small fits texts
          depth (searchwild_all-Walked fnmatch file subkey depth) deep [] left out b is tt
          (fit.0 ascii) (omega (arith, fit.1)))
        (λ v.
          let inner = behind_prefix (λ k. fnmatch k subkey ≡ 0) vs cs left v in
          let outer = behind_prefix (λ k. key_matches fnmatch k key ≡ true) vs cs prefix v in
          (
            λ below.
                let (k, hit, at) = inner.0 below in
                outer.1 (k, whole_key k ∙ (==_iff (fnmatch (left ++ k) subkey) 0).1 hit, at),
            λ found.
                let (k, hit, at) = outer.0 found in
                inner.1
                  (k, (==_iff (fnmatch (left ++ k) subkey) 0).0 (sym (whole_key k) ∙ hit), at),
          ))
    where
      whole_key :
          (k : Bytes) → key_matches fnmatch (prefix ++ k) key ≡ (fnmatch (left ++ k) subkey == 0)
      whole_key k =
          ap (λ l. key_matches fnmatch (l ++ k) key) whole
          ∙ ap (λ l. key_matches fnmatch l key) (append_assoc lit left k)
          ∙ says k

searchwild_node-Searched :
    (fnmatch : Bytes → Bytes → ℕ) (file : Bytes) (depth fuel : ℕ)
    → Searched fnmatch file fuel (suc depth)
unfolding searchwild_node NodeFits NoNul reach values_at
searchwild_node-Searched fnmatch file depth zero off n key out b st fits texts far short is plain
      enough =
    absurd (omega arith)
searchwild_node-Searched fnmatch file depth (suc fuel) off n key out b
      (stored {prefix} {vs} {first} {last} {cs} offs found size kids nulls) fits texts far short is
      plain enough =
    rw found.0 (
      round-Did fnmatch file prefix vs first last cs offs size kids nulls fits.2 fits.3 texts fuel
        depth (omega arith) (searchwild_node-Searched fnmatch file depth fuel)
        (scan_prefix prefix key) key out b (scan_prefix-ScanSays fnmatch prefix key)
        (scan_prefix-ScanFits prefix key) fits.0 short is plain (omega arith))

-- In a file that holds a well-formed tree, none of whose children is at NUL, with more depth than
-- its keys are long and keys far shorter than 2 ^ 32, for a key without wildcards, where realloc
-- gets its memory: index_searchwild meets no error and ends. A value is in its result exactly when
-- the index has it at a key that matches: the same up to the first wildcard of the index key, and
-- from there on by fnmatch.
pub index_searchwild-Matching :
    (fnmatch : Bytes → Bytes → ℕ) (file : Bytes) (root : ℕ) (n : Node) (key : Bytes) (depth : ℕ)
    → Stored file root n
    → NodeFits n
    → NoNul n
    → reach n < depth
    → Short (reach n)
    → IsPlain key
    → (out : List Value) × (index_searchwild fnmatch depth file root key ≡ some out)
      × ((v : Value) → Memᴰ v out ↔ Matching fnmatch n key v)
unfolding index_searchwild
index_searchwild-Matching fnmatch file root n key zero st fits texts far short plain =
    absurd (omega arith)
index_searchwild-Matching fnmatch file root n key (suc depth) st fits texts far short plain =
    let (r, e, gains, is) =
      searchwild_node-Searched fnmatch file depth (length key + 2) root n key [] buf_init st fits
        texts far short buf_init-IsBuffer plain (omega arith) in
    (
      r.0,
      sym (
            bind_assoc (index_read file root)
              (λ m. searchwild_node fnmatch (length key + 2) (suc depth) file m key [] buf_init)
              (λ q. some q.0))
          ∙ ap (λ m. m >>= λ q. some q.0) e,
      λ v. (
        λ m. elim ((gains v).0 m) [ inl i ↦ absurd (Memᴰ.not-nil i) | inr found ↦ found ],
        λ found. (gains v).1 (inr found),
      ),
    )
