-- ===== src/IndexFile/Write.antt =====
-- depmod: index_write__node and index_write. A FILE that is written is the list of its bytes.
use comment_subs.Prelude.{
  ℕ, zero, suc, ◌+◌, ◌-◌, ◌*◌, ◌%◌, Bool, true, false, List, [], ◌∷◌, ◌++◌, ◌==◌, if◌then◌else◌,
  ltb, length, take, drop, Bytes, u32_mod,
}
use comment_subs.Trie.{Value, Node, node, Children, null, child, childmax}
use comment_subs.IndexFile.Format.{
  node_flag_prefix, node_flag_values, node_flag_childs, set_flag, be32,
}

abbrev pub index_magic : ℕ
index_magic = 0xB007F457

abbrev pub version_major : ℕ
version_major = 2

abbrev pub index_version : ℕ
index_version = version_major * 0x10000 + 1

-- `node->prefix` with its NUL, if it is not empty
unfoldable pub prefix_bytes : Bytes → Bytes
prefix_bytes [] = []
prefix_bytes (c ∷ cs) = (c ∷ cs) ++ 0 ∷ []

-- The offsets of the children, as fwrite writes them.
unfoldable pub offset_bytes : List ℕ → Bytes
offset_bytes [] = []
offset_bytes (o ∷ os) = be32 o ++ offset_bytes os

unfoldable pub child_bytes : (first last : ℕ) → List ℕ → Bytes
child_bytes first last [] = []
child_bytes first last (o ∷ os) = first ∷ last ∷ offset_bytes (o ∷ os)

unfoldable pub value_bytes : List Value → Bytes
value_bytes [] = []
value_bytes (v ∷ vs) = be32 v.priority ++ (v.value ++ 0 ∷ value_bytes vs)

unfoldable pub values_bytes : List Value → Bytes
values_bytes [] = []
values_bytes (v ∷ vs) = be32 (length (v ∷ vs)) ++ value_bytes (v ∷ vs)

abbrev pub is_empty {ℓ} : {A : Type ℓ} → List A → Bool
is_empty [] = true
is_empty (x ∷ xs) = false

-- The flags of what the node has, at the offset that ftell gave.
unfoldable pub flagged : ℕ → Bytes → List ℕ → List Value → ℕ
flagged offset prefix offs values =
    let o1 = if is_empty prefix then offset else set_flag offset node_flag_prefix in
    let o2 = if is_empty offs then o1 else set_flag o1 node_flag_childs in
    let o3 = if is_empty values then o2 else set_flag o2 node_flag_values in o3 % u32_mod

-- `child_count`, which is 0 without children
abbrev pub child_count : (first last : ℕ) → ℕ
child_count first last = if ltb first childmax then last + 1 - first else 0

-- The second part of index_write__node: the node itself, behind its children.
unfoldable pub write_record : Bytes → List Value → (first last : ℕ) → Bytes × List ℕ → Bytes × ℕ
write_record prefix values first last (out, offs) = (
  out ++ (prefix_bytes prefix ++ (child_bytes first last offs ++ values_bytes values)),
  flagged (length out) prefix offs values,
)

-- `for (i = 0; i < child_count; i++)`, with `n` rounds to go and the child at `ch` next
unfoldable pub write_loop : (ℕ → Bytes → Bytes × ℕ) → ℕ → ℕ → Bytes → Bytes × List ℕ
write_loop write zero ch out = (out, [])
write_loop write (suc n) ch out =
    let (out', o) = write ch out in
    let (out'', os) = write_loop write n (ch + 1) out' in (out'', o ∷ os)

-- `write_child` finds `node->children[ch]` and writes it; for NULL the result is 0.
unfoldable mutual
  unfolding write_loop

  pub index_write_node : Node → Bytes → Bytes × ℕ
  index_write_node (node prefix values first last children) out =
      write_record prefix values first last
        (write_loop (write_child children) (child_count first last) first out)

  pub write_child : Children → ℕ → Bytes → Bytes × ℕ
  write_child null ch out = (out, 0)
  write_child (child k n others) ch out =
      let here = index_write_node n out in
      let further = write_child others ch out in if k == ch then here else further

-- The magic number, the version, and the place of the offset of the root.
unfoldable pub index_header : Bytes
index_header = be32 index_magic ++ (be32 index_version ++ be32 0)

unfoldable pub index_write : Node → Bytes
index_write n =
    let (out, root) = index_write_node n index_header in take 8 out ++ (be32 root ++ drop 12 out)
