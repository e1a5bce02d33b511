-- ===== src/IndexFile/Writer/Record.antt =====
-- What index_write__node writes for one node, behind its children.
use comment_subs.Prelude.{
  ℕ, ◌+◌, ◌≤◌, ◌<◌, ◌≡◌, refl, false, List, [], ◌∷◌, ◌++◌, ◌==◌, length, drop, Bytes, arith,
  append_assoc, length-append, u32_mod,
}
use comment_subs.Trie.{Value}
use comment_subs.Trie.Shape.{IsText, ValuesFit}
use comment_subs.IndexFile.Format.{be32}
use comment_subs.IndexFile.Write.{
  prefix_bytes, child_bytes, values_bytes, value_bytes, write_record,
}
use comment_subs.IndexFile.Read.{index_read}
use comment_subs.IndexFile.Codec.{OffsetsFit, read_node-record, flagged-Parts}
use comment_subs.IndexFile.Mapped.{index_mm_read_node}
use comment_subs.IndexFile.Mapped.Codec.{mm_node_at-record}
use comment_subs.IndexFile.Stored.{Reads}
use comment_subs.IndexFile.Writer.Growth.{Extends}

length-value_bytes : (vs : List Value) → length vs ≤ length (value_bytes vs)
unfolding value_bytes be32
length-value_bytes [] = omega arith
length-value_bytes (v ∷ vs) =
    omega (arith, length-append v.value (0 ∷ value_bytes vs), length-value_bytes vs)

length-values_bytes : (vs : List Value) → length vs ≤ length (values_bytes vs)
unfolding values_bytes be32
length-values_bytes [] = omega arith
length-values_bytes (v ∷ vs) = omega (arith, length-value_bytes (v ∷ vs))

module _ (prefix : Bytes) (vs : List Value) (first last : ℕ) (offs : List ℕ) (out : Bytes) where
  abbrev pub record_bytes : Bytes
  record_bytes = prefix_bytes prefix ++ (child_bytes first last offs ++ values_bytes vs)

  -- The node that write_record writes is read back.
  pub write_record-Extends :
      IsText prefix
      → ValuesFit vs
      → 0 < length out
      → Extends
          (λ file.
            OffsetsFit first last offs
            → Reads file
                (write_record prefix vs first last (out, offs)).1
                prefix
                vs
                first
                last
                offs)
          out
          (write_record prefix vs first last (out, offs)).0
  unfolding write_record index_read index_mm_read_node
  write_record-Extends text fits start = record {
    ext = record_bytes;
    grows = refl;
    holds = λ file more e h fit.
        let size : length (out ++ record_bytes) ≡ length out + length record_bytes =
          length-append out record_bytes in
        let few : length vs < u32_mod = omega (
          arith,
          length-append (prefix_bytes prefix) (child_bytes first last offs ++ values_bytes vs),
          length-append (child_bytes first last offs) (values_bytes vs),
          length-values_bytes vs,
        ) in
        let flags = flagged-Parts (length out) prefix offs vs (omega arith) in
        let bytes : drop (length out) file
            ≡ prefix_bytes prefix ++ (child_bytes first last offs ++ (values_bytes vs ++ more)) =
          rw (e, append_assoc, append_assoc) in
        let there : (length out == 0) ≡ false = ground arith in
        (
          rw (
            flags.0,
            there,
            bytes,
            read_node-record (length out) prefix vs first last offs more (omega arith) text fits few
                fit,
          ),
          rw (
            flags.0,
            there,
            bytes,
            mm_node_at-record (length out) prefix vs first last offs more (omega arith) text fits
                few fit,
          ),
        );
  }
