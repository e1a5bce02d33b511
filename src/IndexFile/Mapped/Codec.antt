-- ===== src/IndexFile/Mapped/Codec.antt =====
-- The mapped reader reads words and strings as the other reader does, and gives back what the
-- writers wrote.
use comment_subs.Prelude.{
  ℕ, zero, suc, ◌≤◌, ◌<◌, ◌≡◌, refl, not, some, List, [], ◌∷◌, ◌++◌, if◌then◌else◌, length, Bytes,
  ◌>>=◌, bind_same, arith, append_assoc, u32_mod, le→leb,
}
use comment_subs.Trie.{Value, childmax}
use comment_subs.Trie.Shape.{IsText, ValuesFit}
use comment_subs.IndexFile.Format.{read_long, read_char, read_string}
use comment_subs.IndexFile.Write.{
  prefix_bytes, child_bytes, value_bytes, values_bytes, flagged, is_empty,
}
use comment_subs.IndexFile.Read.{read_offsets, char_span}
use comment_subs.IndexFile.Codec.{
  range_of, OffsetsFit, prefix_part, flagged-Parts, read_offsets-bytes, read_long-be32,
  read_string-text,
}
use comment_subs.IndexFile.Mapped.{
  MmNode, read_char_mm, read_long_mm, read_chars_mm, read_offsets_mm, read_childs_mm,
  read_values_mm, mm_node_at,
}

pub read_long_mm-read_long : (p : Bytes) → read_long_mm p ≡ read_long p
unfolding read_long_mm read_long
read_long_mm-read_long [] = refl
read_long_mm-read_long (a ∷ []) = refl
read_long_mm-read_long (a ∷ b ∷ []) = refl
read_long_mm-read_long (a ∷ b ∷ c ∷ []) = refl
read_long_mm-read_long (a ∷ b ∷ c ∷ d ∷ p) = refl

read_char_mm-read_char : (p : Bytes) → read_char_mm p ≡ read_char p
unfolding read_char_mm read_char
read_char_mm-read_char [] = refl
read_char_mm-read_char (c ∷ p) = refl

pub read_chars_mm-read_string : (p : Bytes) → read_chars_mm p ≡ read_string p
unfolding read_chars_mm read_string
read_chars_mm-read_string [] = refl
read_chars_mm-read_string (c ∷ p) = rw (read_chars_mm-read_string p) refl

read_offsets_mm-read_offsets : (n : ℕ) (p : Bytes) → read_offsets_mm n p ≡ read_offsets n p
unfolding read_offsets_mm read_offsets
read_offsets_mm-read_offsets zero p = refl
read_offsets_mm-read_offsets (suc n) p =
    rw (read_long_mm-read_long p)
      (bind_same (read_long p) (λ r. rw (read_offsets_mm-read_offsets n r.1) refl))

-- A table of offsets that fits the array on the stack is read as by the other reader.
child_part_mm :
    (first last : ℕ) (offs : List ℕ) (s : Bytes)
    → OffsetsFit first last offs
    → (if not (is_empty offs)
        then read_childs_mm (child_bytes first last offs ++ s)
        else some ((childmax, 0, []), child_bytes first last offs ++ s))
      ≡ some (range_of first last offs, s)
unfolding child_bytes read_childs_mm read_char_mm
child_part_mm first last [] s h = refl
child_part_mm first last (o ∷ os) s h =
    let span : char_span first last ≡ length (o ∷ os) = omega arith in
    let few : char_span first last ≤ childmax = omega arith in
    rw (
      le→leb (char_span first last) childmax few,
      span,
      read_offsets_mm-read_offsets,
      read_offsets-bytes (o ∷ os) s h.3,
    )

read_values_mm-bytes :
    (vs : List Value) (s : Bytes)
    → ValuesFit vs
    → read_values_mm (length vs) (value_bytes vs ++ s) ≡ some vs
unfolding read_values_mm value_bytes
read_values_mm-bytes [] s h = refl
read_values_mm-bytes (v ∷ vs) s h = rw (
  append_assoc,
  read_long_mm-read_long,
  read_long-be32 v.priority (v.value ++ 0 ∷ value_bytes vs ++ s) h.0.0,
  append_assoc,
  ◌>>=◌,
  read_chars_mm-read_string,
  read_string-text v.value (value_bytes vs ++ s) h.0.1,
  ◌>>=◌,
  read_values_mm-bytes vs s h.1,
)

values_part_mm :
    (vs : List Value) (s : Bytes)
    → ValuesFit vs
    → length vs < u32_mod
    → (if not (is_empty vs)
        then (read_long_mm (values_bytes vs ++ s) >>= λ r. read_values_mm r.0 r.1)
        else some [])
      ≡ some vs
unfolding values_bytes
values_part_mm [] s h k = refl
values_part_mm (v ∷ vs) s h k =
    rw
      (
        append_assoc,
        read_long_mm-read_long,
        read_long-be32 (length (v ∷ vs)) (value_bytes (v ∷ vs) ++ s) k,
      )
      (read_values_mm-bytes (v ∷ vs) s h)

prefix_part_mm :
    (prefix s : Bytes)
    → IsText prefix
    → (if not (is_empty prefix)
        then read_chars_mm (prefix_bytes prefix ++ s)
        else some ([], prefix_bytes prefix ++ s))
      ≡ some (prefix, s)
prefix_part_mm prefix s h = rw read_chars_mm-read_string (prefix_part prefix s h)

-- What index_mm_read_node finds where a node was written.
abbrev pub mm_node : Bytes → List Value → (first last : ℕ) → List ℕ → MmNode
mm_node prefix vs first last offs = record {
  prefix = prefix;
  values = vs;
  first = (range_of first last offs).0;
  last = (range_of first last offs).1;
  children = (range_of first last offs).2;
}

pub mm_node_at-record :
    (o : ℕ) (prefix : Bytes) (vs : List Value) (first last : ℕ) (offs : List ℕ) (s : Bytes)
    → o < 0x10000000
    → IsText prefix
    → ValuesFit vs
    → length vs < u32_mod
    → OffsetsFit first last offs
    → mm_node_at
        (flagged o prefix offs vs)
        (prefix_bytes prefix ++ (child_bytes first last offs ++ (values_bytes vs ++ s)))
      ≡ some (mm_node prefix vs first last offs)
unfolding mm_node_at
mm_node_at-record o prefix vs first last offs s h a b c d =
    let flags = flagged-Parts o prefix offs vs h in
    rw (
      flags.1,
      flags.2,
      flags.3,
      prefix_part_mm prefix (child_bytes first last offs ++ (values_bytes vs ++ s)) a,
      child_part_mm first last offs (values_bytes vs ++ s) d,
      values_part_mm vs s b c,
    )
