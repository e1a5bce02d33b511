-- ===== src/IndexFile/Writer.antt =====
-- index_write writes a file that holds the tree.
pub mod Growth
pub mod Nodes
pub mod Record
use comment_subs.Prelude.{
  ℕ, zero, suc, ◌+◌, ◌-◌, ◌%◌, ◌≤◌, ◌<◌, ◌≡◌, refl, ap, sym, ◌∙◌, Bool, true, false, Option, none,
  some, List, [], ◌∷◌, ◌++◌, ◌==◌, if◌then◌else◌, ltb, length, get_or, drop, take, Bytes, arith,
  append_assoc, append-nil, length-append, u32_mod, Bool-cases, inl, inr, ==_iff, lt→ltb,
  le→ltb_false,
}
use comment_subs.Trie.{Value, Node, node, Children, null, child, get_child, childmax}
use comment_subs.Trie.Shape.{IsText, IsAscii, ValuesFit, NodeFits, ChildrenFit, get_child-fits}
use comment_subs.IndexFile.Format.{masked, be32}
use comment_subs.IndexFile.Write.{
  prefix_bytes, child_bytes, values_bytes, value_bytes, flagged, child_count, write_record,
  write_loop, index_write_node, write_child, index_write, index_magic, index_version, index_header,
}
use comment_subs.IndexFile.Read.{index_read, index_file_open}
use comment_subs.IndexFile.Codec.{
  file_node, OffsetsFit, AllWords, read_node-record, read_long-be32, flagged-Parts,
}
use comment_subs.IndexFile.Stored.{Stored, stored}
use Growth.{Extends, limit, both, mono_ext, none_ext, length_pos}
use Nodes.{node-Extends, word_node}

length-header : length index_header ≡ 12
unfolding index_header be32
length-header = refl

-- The file with the offset of the root in its place.
patched : Bytes → ℕ → Bytes
patched ext root = be32 index_magic ++ (be32 index_version ++ (be32 root ++ ext))

patched_lem :
    (ext : Bytes) (root : ℕ)
    → take 8 (index_header ++ ext) ++ (be32 root ++ drop 12 (index_header ++ ext))
      ≡ patched ext root
unfolding patched index_header be32
patched_lem ext root = refl

length-patched : (ext : Bytes) (root : ℕ) → length (patched ext root) ≡ 12 + length ext
unfolding patched be32
length-patched ext root = omega arith

drop-patched : (ext : Bytes) (root n : ℕ) → n ≡ 12 → drop n (patched ext root) ≡ ext
unfolding patched be32
drop-patched ext root n e = rw e

open_patched :
    (ext : Bytes) (root : ℕ)
    → root < u32_mod
    → index_file_open (patched ext root) ≡ some (some root)
unfolding index_file_open patched
open_patched ext root h = rw (
  read_long-be32 index_magic (be32 index_version ++ (be32 root ++ ext)) (omega arith),
  read_long-be32 index_version (be32 root ++ ext) (omega arith),
  read_long-be32 root ext h,
)

-- Of a well-formed tree, index_write writes a file that index_file_open accepts, and that holds
-- the tree at the offset of the root that index_file_open returns, if the file is shorter than
-- 2^28 bytes.
pub index_write-Stored :
    (n : Node)
    → NodeFits n
    → length (index_write n) < limit
    → (root : ℕ) × (index_file_open (index_write n) ≡ some (some root))
      × Stored (index_write n) root n
unfolding index_write
index_write-Stored n fits small =
    let run = index_write_node n index_header in
    let grown = node-Extends n index_header fits (omega (arith, length-header)) in
    let is : index_write n ≡ patched grown.ext run.1 =
      ap (λ out. take 8 out ++ (be32 run.1 ++ drop 12 out)) grown.grows
      ∙ patched_lem grown.ext run.1 in
    let size : length run.0 ≡ 12 + length grown.ext =
      ap length grown.grows
      ∙ length-append index_header grown.ext
      ∙ ap (λ k. k + length grown.ext) length-header in
    let same : length (index_write n) ≡ 12 + length grown.ext =
      ap length is ∙ length-patched grown.ext run.1 in
    let tail : drop (length index_header) (index_write n) ≡ grown.ext ++ [] =
      ap (drop (length index_header)) is
      ∙ drop-patched grown.ext run.1 (length index_header) length-header
      ∙ sym (append-nil grown.ext) in
    (
      run.1,
      ap index_file_open is ∙ open_patched grown.ext run.1 (word_node n index_header),
      grown.holds (index_write n) [] tail (omega arith),
    )
