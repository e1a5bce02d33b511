-- ===== src/Wildcard/Keys.antt =====
-- Which values the walk of a sub-keyspace is to collect, and those of a single node.
use mathlib.Core.List.{Memᴰ}
use mathlib.Core.List.Memᴰ
use mathlib.Core.Path.{subst}
use comment_subs.Prelude.{
  ℕ, ◌≡◌, refl, sym, ap, ◌∙◌, ◌↔◌, ◌⊎◌, inl, inr, none, some, List, [], ◌∷◌, ◌++◌, ◌>>=◌, Bytes,
  length, arith, ◌==◌, Option-cases, Bool-cases, append_assoc, append-nil,
}
use comment_subs.Trie.{Value, Node, Children, get_child}
use comment_subs.Trie.Denote.{values_below, values_below-append, values_below-child}
use comment_subs.Trie.Shape.{IsText, IsAscii}
use comment_subs.IndexFile.{add_value}
use comment_subs.IndexFile.Codec.{add_values}
use comment_subs.IndexFile.Stored.{strip_prefix_cases}
use comment_subs.Wildcard.KeyBuffer.{Buffer}
use comment_subs.Wildcard.Buffered.{IsBuffer, Short, buf_str-IsBuffer}
use comment_subs.Wildcard.Defs.{matching_values, matched, all_values}
use comment_subs.Wildcard.Gains.{Gains, Gains-none, Gains-map, mem-add_values}
use comment_subs.Wildcard.Loop.{Below}
use comment_subs.Wildcard.Steps.{Did, Did-nothing}

all_values-add_values : (vs out : List Value) → all_values vs out ≡ add_values vs out
unfolding all_values add_values
all_values-add_values [] out = refl
all_values-add_values (v ∷ vs) out = all_values-add_values vs (add_value out v)

pub all_values-Gains : (vs out : List Value) → Gains out (all_values vs out) (λ v. Memᴰ v vs)
all_values-Gains vs out = rw (all_values-add_values vs out) (mem-add_values vs out)

-- The values of the node as the reader has them, in its order.
pub sorted_mem : (vs : List Value) (v : Value) → Memᴰ v (add_values vs []) ↔ Memᴰ v vs
sorted_mem vs v = (
  λ m. elim ((mem-add_values vs [] v).0 m) [ inl i ↦ absurd (Memᴰ.not-nil i) | inr i ↦ i ],
  λ m. (mem-add_values vs [] v).1 (inr m),
)

pub IsText-append : (s t : Bytes) → IsText s → IsAscii t → IsText (s ++ t)
IsText-append s [] text ascii = rw (append-nil s) text
IsText-append [] (c ∷ t) text ascii = (ascii.0, IsText-append [] t tt ascii.2)
IsText-append (d ∷ s) (c ∷ t) text ascii = (text.0, IsText-append s (c ∷ t) text.1 ascii)

-- The values below a prefix are at the keys that begin with it.
pub behind_prefix :
    (P : Bytes → Type 0) (vs : List Value) (cs : Children) (prefix : Bytes) (v : Value)
    → ((k : Bytes) × P k × Memᴰ v (values_below prefix vs cs k))
      ↔ ((k : Bytes) × P (prefix ++ k) × Memᴰ v (values_below [] vs cs k))
behind_prefix P vs cs prefix v = (
  λ (k, hit, at). elim (strip_prefix_cases prefix k vs cs) [
    | inl (miss, nothing) ↦ absurd (Memᴰ.not-nil (subst (λ l. Memᴰ v l) nothing at))
    | inr (rest, found, is) ↦ (
      rest,
      subst P is hit,
      subst (λ l. Memᴰ v l)
          (ap (values_below prefix vs cs) is ∙ values_below-append prefix rest vs cs) at,
    )
  ],
  λ (k, hit, at). (prefix ++ k, hit, rw (values_below-append prefix k vs cs) at),
)

module _ (fnmatch : Bytes → Bytes → ℕ) (file subkey : Bytes) where
  abbrev pub Here : Bytes → List Value → Value → Type 0
  Here s vs v = (fnmatch s subkey ≡ 0) × Memᴰ v vs

  pub matching_values-Did :
      (vs out : List Value) (b : Buffer) (s : Bytes)
      → IsBuffer b s
      → IsText s
      → Short (length s)
      → Did (matching_values fnmatch vs subkey out b) out s (Here s vs)
  unfolding matching_values matched
  matching_values-Did [] out b s is text short =
      Did-nothing out b s is (λ v here. Memᴰ.not-nil here.1)
  matching_values-Did (v ∷ vs) out b s is text short =
      let (b1, e, has) = buf_str-IsBuffer b s is short text in
      elim (Bool-cases (fnmatch s subkey == 0)) [
        | inl hit ↦ (
          (all_values (v ∷ vs) out, b1),
          rw (e, ◌>>=◌, hit),
          Gains-map out _ (all_values-Gains (v ∷ vs) out)
              (λ w. (λ m. (ground (arith, hit), m), λ here. here.1)),
          has,
        )
        | inr miss ↦ (
          (out, b1),
          rw (e, ◌>>=◌, miss),
          Gains-none out (λ w here. ground (arith, miss, here.0)),
          has,
        )
      ]

  -- The same with a prefix that has `left` to go.
  abbrev pub BelowLeft : (s left : Bytes) → List Value → Children → Value → Type 0
  BelowLeft s left vs cs v =
      (k : Bytes) × (fnmatch (s ++ k) subkey ≡ 0) × Memᴰ v (values_below left vs cs k)

  module _ (vs : List Value) (cs : Children) where
    abbrev pub AnyChild : Bytes → Value → Type 0
    AnyChild s v =
        (i : ℕ) × (c : Node) × (get_child cs i ≡ some c)
        × Below fnmatch file subkey (s ++ i ∷ []) c v

    -- What is below a node is in it or below a child.
    pub split_below :
        (s : Bytes) (v : Value) → (AnyChild s v ⊎ Here s vs v) ↔ BelowLeft s [] vs cs v
    unfolding values_below
    split_below s v = (
      λ m. elim m [
        | inl (i, c, e, (k, hit, at)) ↦ (
          i ∷ k,
          rw (← append_assoc s (i ∷ []) k) hit,
          rw (values_below-child vs cs i k (some c) e) at,
        )
        | inr here ↦ ([], rw (append-nil s) here.0, here.1)
      ],
      λ (k, hit, at). from_key k hit at,
    )
      where
        from_key :
            (k : Bytes)
            → fnmatch (s ++ k) subkey ≡ 0
            → Memᴰ v (values_below [] vs cs k)
            → AnyChild s v ⊎ Here s vs v
        from_key [] hit at = inr (subst (λ l. fnmatch l subkey ≡ 0) (append-nil s) hit, at)
        from_key (i ∷ k) hit at = elim (Option-cases (get_child cs i)) [
          | inl e ↦
              absurd (Memᴰ.not-nil (subst (λ l. Memᴰ v l) (values_below-child vs cs i k none e) at))
          | inr (c, e) ↦ inl (
            i,
            c,
            e,
            (
              k,
              subst (λ l. fnmatch l subkey ≡ 0) (sym (append_assoc s (i ∷ []) k)) hit,
              subst (λ l. Memᴰ v l) (values_below-child vs cs i k (some c) e) at,
            ),
          )
        ]

    -- Behind the prefix, the keys go on without it.
    pub below_prefix :
        (s left : Bytes) (v : Value) → BelowLeft (s ++ left) [] vs cs v ↔ BelowLeft s left vs cs v
    below_prefix s left v =
        let behind = behind_prefix (λ k. fnmatch (s ++ k) subkey ≡ 0) vs cs left v in
        (
          λ (k, hit, at).
              behind.1 (k, subst (λ l. fnmatch l subkey ≡ 0) (append_assoc s left k) hit, at),
          λ below.
              let (k, hit, at) = behind.0 below in
              (k, subst (λ l. fnmatch l subkey ≡ 0) (sym (append_assoc s left k)) hit, at),
        )
