-- ===== src/Tests/Indexes.antt =====
-- The index of tools/depmod.c, and libkmod/libkmod-index.c, on a small tree and a few modules.
use comment_subs.Prelude.{
  ℕ, ◌≡◌, ◌<◌, refl, true, false, streq, strcmp, Bool, some, List, [], ◌∷◌, arith, Bytes, length,
}
use comment_subs.Trie.{
  Value, Node, node, null, child, index_create, index_insert, match_prefix, split_node, insert_rest,
  index_add_value, place_value, is_duplicate, get_child, set_child,
}
use comment_subs.Trie.Insert.{index_insert-Inserted, Inserted}
use comment_subs.Trie.Shape.{NodeFits, ChildrenFit}
use comment_subs.Trie.Denote.{values_at}
use comment_subs.IndexFile.{
  index_write, index_write_node, write_child, write_record, write_loop, index_search,
  index_file_open, index_header, flagged, offset_bytes, child_bytes, values_bytes, value_bytes,
  prefix_bytes, be32, set_flag, add_value,
}
use comment_subs.IndexFile.Lookup.{index_search-answer}
use comment_subs.IndexFile.Stored.{Stored, answer}
use comment_subs.IndexFile.Writer.{index_write-Stored}
use comment_subs.IndexFile.Writer.Growth.{limit}
use comment_subs.AliasesBin.{
  Mod, alias_key, output_aliases_bin, insert_modules, insert_infos, insert_alias,
}
use comment_subs.AliasesBin.Contents.{ModulesFit, with_modules, with_infos}
use comment_subs.Names.Alias.{translate}
use comment_subs.IndexFile.Codec.{add_values}
use comment_subs.AliasesBin.Lookup.{output_aliases_bin-index_search, output_aliases_bin-index_write}
use comment_subs.Names.{underscores2, underscores2_loop}

-- The value "m" with the priority 3.
abbrev module_m : Value
module_m = record { priority = 3; value = b'm' ∷ [] }

-- "ab"
abbrev key_ab : Bytes
key_ab = b'a' ∷ b'b' ∷ []

-- The tree that maps "ab" to the value.
abbrev ab_tree : Node
ab_tree = node [] [] b'a' b'a' (child b'a' (node (b'b' ∷ []) (module_m ∷ []) 128 0 null) null)

created_fits : NodeFits index_create
unfolding index_create NodeFits ChildrenFit
created_fits = (tt, tt, omega arith, tt)

ab_tree_fits : NodeFits ab_tree
unfolding NodeFits ChildrenFit
ab_tree_fits = (
  tt,
  tt,
  omega arith,
  (
    omega arith,
    omega arith,
    omega arith,
    ((omega arith, omega arith, tt), ((omega arith, (omega arith, tt)), tt), omega arith, tt),
    tt,
  ),
)

ab_tree_small : length (index_write ab_tree) < limit
unfolding index_write index_write_node write_child write_record write_loop index_header flagged
    offset_bytes child_bytes values_bytes value_bytes prefix_bytes be32 set_flag
ab_tree_small = omega arith

index_insert_example :
    (r : Node × Bool) × (index_insert 3 index_create key_ab module_m ≡ some r)
    × Inserted index_create key_ab module_m r
index_insert_example =
    index_insert-Inserted 3 index_create key_ab module_m (omega arith) created_fits
      (omega arith, omega arith, (omega arith, omega arith, tt)) (omega arith, (omega arith, tt))

index_write_example :
    (root : ℕ) × (index_file_open (index_write ab_tree) ≡ some (some root))
    × Stored (index_write ab_tree) root ab_tree
index_write_example = index_write-Stored ab_tree ab_tree_fits ab_tree_small

ab_written :
    (root : ℕ) × (index_file_open (index_write ab_tree) ≡ some (some root))
    × Stored (index_write ab_tree) root ab_tree
ab_written = index_write-Stored ab_tree ab_tree_fits ab_tree_small

index_search_example :
    index_search (index_write ab_tree) ab_written.0 key_ab ≡ answer (values_at ab_tree key_ab)
index_search_example =
    index_search-answer (index_write ab_tree) ab_written.0 ab_tree key_ab ab_written.2 ab_tree_fits

-- The module "m" at position 3, with the alias "ab".
abbrev modules_m : List Mod
modules_m = record { modname = b'm' ∷ []; idx = 3; info_list = (alias_key, key_ab) ∷ [] } ∷ []

modules_m_fit : ModulesFit modules_m
modules_m_fit = (
  (omega arith, (omega arith, tt)),
  ((omega arith, omega arith, (omega arith, omega arith, tt)), omega arith, tt),
  tt,
)

output_aliases_bin_example :
    (output_aliases_bin true modules_m ≡ some [])
    × (idx : Node) × (output_aliases_bin false modules_m ≡ some (index_write idx))
    × NodeFits idx
    × ((key : Bytes) → values_at idx key ≡ with_modules key modules_m [])
output_aliases_bin_example = output_aliases_bin-index_write modules_m modules_m_fit

modules_m_run : output_aliases_bin false modules_m ≡ some (index_write ab_tree)
unfolding output_aliases_bin insert_modules insert_infos insert_alias underscores2 underscores2_loop
    index_create index_insert match_prefix split_node insert_rest index_add_value place_value
    is_duplicate get_child set_child streq strcmp
modules_m_run = refl

aliases_search_example :
    (root : ℕ) × (index_file_open (index_write ab_tree) ≡ some (some root))
    × (index_search (index_write ab_tree) root key_ab ≡ answer (with_modules key_ab modules_m []))
aliases_search_example =
    output_aliases_bin-index_search modules_m (index_write ab_tree) key_ab modules_m_fit
      modules_m_run ab_tree_small

-- The answer is the name of the module.
modules_m-answer : answer (with_modules key_ab modules_m []) ≡ some (some (b'm' ∷ []))
unfolding with_modules with_infos place_value streq strcmp translate add_values add_value
modules_m-answer = refl
