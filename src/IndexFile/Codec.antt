-- ===== src/IndexFile/Codec.antt =====
-- The readers give back what the writers wrote.
use comment_subs.Prelude.{
  ℕ, ◌+◌, ◌-◌, ◌*◌, ◌/◌, ◌%◌, ◌^◌, ◌<◌, ◌≡◌, refl, Bool, true, not, some, List, [], ◌∷◌, ◌++◌,
  if◌then◌else◌, length, Bytes, ◌>>=◌, arith, append_assoc, u32_mod, ap,
}
use comment_subs.Trie.{Value, childmax}
use comment_subs.Trie.Shape.{IsText, ValuesFit}
use comment_subs.IndexFile.Format.{
  set_flag, has_flag, masked, be32, read_long, read_char, read_string, node_flag_prefix,
  node_flag_values, node_flag_childs,
}
use comment_subs.IndexFile.Write.{
  prefix_bytes, offset_bytes, child_bytes, value_bytes, values_bytes, flagged, is_empty,
}
use comment_subs.IndexFile.Read.{
  FileNode, add_value, read_values, read_offsets, char_span, read_childs, read_node,
}

pub read_long-be32 : (u : ℕ) (s : Bytes) → u < u32_mod → read_long (be32 u ++ s) ≡ some (u, s)
unfolding read_long be32
read_long-be32 u s h =
    let same : u / 2 ^ 24 % 256 * 2 ^ 24
          + u / 2 ^ 16 % 256 * 2 ^ 16
          + u / 2 ^ 8 % 256 * 2 ^ 8
          + u % 256
        ≡ u =
      omega arith in
    ap (λ n. some (n, s)) same

pub read_string-text : (t s : Bytes) → IsText t → read_string (t ++ 0 ∷ s) ≡ some (t, s)
unfolding read_string
read_string-text [] s h = refl
read_string-text (c ∷ t) s h = ground (arith, read_string-text t s h.1)

abbrev pub AllWords : List ℕ → Type 0
AllWords [] = Unit
AllWords (o ∷ os) = (o < u32_mod) × AllWords os

pub read_offsets-bytes :
    (os : List ℕ) (s : Bytes)
    → AllWords os
    → read_offsets (length os) (offset_bytes os ++ s) ≡ some (os, s)
unfolding read_offsets offset_bytes
read_offsets-bytes [] s h = refl
read_offsets-bytes (o ∷ os) s h =
    rw (append_assoc, read_long-be32 o (offset_bytes os ++ s) h.0, read_offsets-bytes os s h.1)

-- The values in the order that the reader gives them.
unfoldable pub add_values : List Value → List Value → List Value
add_values [] acc = acc
add_values (v ∷ vs) acc = add_values vs (add_value acc v)

pub read_values-bytes :
    (vs acc : List Value) (s : Bytes)
    → ValuesFit vs
    → read_values (length vs) (value_bytes vs ++ s) acc ≡ some (add_values vs acc, s)
unfolding read_values value_bytes add_values
read_values-bytes [] acc s h = refl
read_values-bytes (v ∷ vs) acc s h =
    let tail = value_bytes vs ++ s in
    rw (
      append_assoc,
      read_long-be32 v.priority (v.value ++ 0 ∷ value_bytes vs ++ s) h.0.0,
      append_assoc,
      read_string-text v.value tail h.0.1,
      read_values-bytes vs (add_value acc v) s h.1,
    )

abbrev pub Parts : ℕ → ℕ → (prefix childs values : Bool) → Type 0
Parts o f prefix childs values =
    (masked f ≡ o)
    × (has_flag f node_flag_prefix ≡ prefix)
    × (has_flag f node_flag_childs ≡ childs)
    × (has_flag f node_flag_values ≡ values)

sum-Parts :
    (o : ℕ) (p c v : Bool)
    → o < 0x10000000
    → Parts o
        (o
          + (if p then 0 else node_flag_prefix)
          + (if c then 0 else node_flag_childs)
          + (if v then 0 else node_flag_values))
        (not p)
        (not c)
        (not v)
unfolding has_flag
sum-Parts o true true true h = ground arith
sum-Parts o p c v h = ground arith

set_flag_new : (x f : ℕ) → x / f % 2 ≡ 0 → set_flag x f ≡ x + f
unfolding set_flag
set_flag_new x f h = ground arith

flagged_sum :
    (o : ℕ) (prefix : Bytes) (offs : List ℕ) (vs : List Value)
    → o < 0x10000000
    → flagged o prefix offs vs
      ≡ o
        + (if is_empty prefix then 0 else node_flag_prefix)
        + (if is_empty offs then 0 else node_flag_childs)
        + (if is_empty vs then 0 else node_flag_values)
unfolding flagged set_flag
flagged_sum o [] [] [] h = ground arith
flagged_sum o prefix offs vs h = ground arith

-- The offset and the flags can be told apart.
pub flagged-Parts :
    (o : ℕ) (prefix : Bytes) (offs : List ℕ) (vs : List Value)
    → o < 0x10000000
    → Parts o
        (flagged o prefix offs vs)
        (not (is_empty prefix))
        (not (is_empty offs))
        (not (is_empty vs))
flagged-Parts o prefix offs vs h =
    rw (flagged_sum o prefix offs vs h)
      (sum-Parts o (is_empty prefix) (is_empty offs) (is_empty vs) h)

pub prefix_part :
    (prefix s : Bytes)
    → IsText prefix
    → (if not (is_empty prefix)
        then read_string (prefix_bytes prefix ++ s)
        else some ([], prefix_bytes prefix ++ s))
      ≡ some (prefix, s)
unfolding prefix_bytes
prefix_part [] s h = refl
prefix_part (c ∷ cs) s h = rw append_assoc (read_string-text (c ∷ cs) s h)

-- The range and the offsets that the reader finds.
abbrev pub range_of : (first last : ℕ) → List ℕ → ℕ × ℕ × List ℕ
range_of first last [] = (childmax, 0, [])
range_of first last (o ∷ os) = (first, last, o ∷ os)

-- The offsets are those of the children from `first` to `last`, or there are none.
abbrev pub OffsetsFit : (first last : ℕ) → List ℕ → Type 0
OffsetsFit first last [] = Unit
OffsetsFit first last (o ∷ os) =
    (first < childmax)
    × (last < childmax)
    × (length (o ∷ os) ≡ last + 1 - first)
    × AllWords (o ∷ os)

pub child_part :
    (first last : ℕ) (offs : List ℕ) (s : Bytes)
    → OffsetsFit first last offs
    → (if not (is_empty offs)
        then read_childs (child_bytes first last offs ++ s)
        else some ((childmax, 0, []), child_bytes first last offs ++ s))
      ≡ some (range_of first last offs, s)
unfolding child_bytes read_childs read_char
child_part first last [] s h = refl
child_part first last (o ∷ os) s h =
    let span : char_span first last ≡ length (o ∷ os) = omega arith in
    rw (span, read_offsets-bytes (o ∷ os) s h.3)

values_part :
    (vs : List Value) (s : Bytes)
    → ValuesFit vs
    → length vs < u32_mod
    → (if not (is_empty vs)
        then (read_long (values_bytes vs ++ s) >>= λ r. read_values r.0 r.1 [])
        else some ([], values_bytes vs ++ s))
      ≡ some (add_values vs [], s)
unfolding values_bytes add_values
values_part [] s h k = refl
values_part (v ∷ vs) s h k =
    rw (append_assoc, read_long-be32 (length (v ∷ vs)) (value_bytes (v ∷ vs) ++ s) k)
      (read_values-bytes (v ∷ vs) [] s h)

-- What index_read finds where a node was written.
abbrev pub file_node : Bytes → List Value → (first last : ℕ) → List ℕ → FileNode
file_node prefix vs first last offs = record {
  prefix = prefix;
  values = add_values vs [];
  first = (range_of first last offs).0;
  last = (range_of first last offs).1;
  children = (range_of first last offs).2;
}

pub read_node-record :
    (o : ℕ) (prefix : Bytes) (vs : List Value) (first last : ℕ) (offs : List ℕ) (s : Bytes)
    → o < 0x10000000
    → IsText prefix
    → ValuesFit vs
    → length vs < u32_mod
    → OffsetsFit first last offs
    → read_node
        (flagged o prefix offs vs)
        (prefix_bytes prefix ++ (child_bytes first last offs ++ (values_bytes vs ++ s)))
      ≡ some (file_node prefix vs first last offs)
unfolding read_node
read_node-record o prefix vs first last offs s h a b c d =
    let flags = flagged-Parts o prefix offs vs h in
    rw (
      flags.1,
      flags.2,
      flags.3,
      prefix_part prefix (child_bytes first last offs ++ (values_bytes vs ++ s)) a,
      child_part first last offs (values_bytes vs ++ s) d,
      values_part vs s b c,
    )
