-- ===== src/Tests/Wildcards.antt =====
-- The wildcard search of libkmod/libkmod-index.c on a small file.
use mathlib.Core.List.{Memᴰ}
use comment_subs.Prelude.{
  ltb, none, ℕ, ◌≡◌, ◌<◌, ◌↔◌, refl, streq, some, true, List, [], ◌∷◌, arith, Bytes, length,
  if◌then◌else◌,
}
use comment_subs.Trie.{Value, Node, node, null, child, get_child}
use comment_subs.Trie.Denote.{values_at, values_below}
use comment_subs.Trie.Shape.{NodeFits, ChildrenFit}
use comment_subs.IndexFile.{
  index_write, index_write_node, write_child, write_record, write_loop, index_file_open,
  index_header, flagged, offset_bytes, child_bytes, values_bytes, value_bytes, prefix_bytes, be32,
  set_flag, index_search, read_long,
}
use comment_subs.IndexFile.Mapped.{index_mm_open, index_mm_search}
use comment_subs.IndexFile.Mapped.Agree.{
  Ascending, index_mm_search-index_search, index_mm_open-index_file_open,
}
use comment_subs.IndexFile.Stored.{Stored}
use comment_subs.IndexFile.Writer.{index_write-Stored}
use comment_subs.IndexFile.Writer.Growth.{limit}
use comment_subs.Wildcard.{Buffer, buf_init, buf_pushchars}
use comment_subs.Wildcard.Buffered.{IsBuffer, buf_pushchars-IsBuffer, buf_init-IsBuffer}
use comment_subs.Wildcard.Defs.{index_searchwild, is_wild}
use comment_subs.Wildcard.Mapped.{index_mm_searchwild}
use comment_subs.Wildcard.Mapped.Ordered.{IsOrdered, AllOrdered}
use comment_subs.Wildcard.Mapped.Search.{index_mm_searchwild-index_searchwild}
use comment_subs.Wildcard.Reach.{NoNul, NoNulBelow, reach, reach_below}
use comment_subs.Wildcard.Round.{Matching, IsPlain}
use comment_subs.Wildcard.Search.{index_searchwild-Matching}

-- The pattern "*" matches all strings, any other only itself.
abbrev star_fnmatch : Bytes → Bytes → ℕ
star_fnmatch pattern string =
    if streq pattern (b'*' ∷ []) then 0 else if streq pattern string then 0 else 1

abbrev module_m : Value
module_m = record { priority = 3; value = b'm' ∷ [] }

-- The tree that maps "a*" to the value.
abbrev star_tree : Node
star_tree = node [] [] b'a' b'a' (child b'a' (node (b'*' ∷ []) (module_m ∷ []) 128 0 null) null)

star_tree_fits : NodeFits star_tree
unfolding NodeFits ChildrenFit
star_tree_fits = (
  tt,
  tt,
  omega arith,
  (
    omega arith,
    omega arith,
    omega arith,
    ((omega arith, omega arith, tt), ((omega arith, (omega arith, tt)), tt), omega arith, tt),
    tt,
  ),
)

star_tree_small : length (index_write star_tree) < limit
unfolding index_write index_write_node write_child write_record write_loop index_header flagged
    offset_bytes child_bytes values_bytes value_bytes prefix_bytes be32 set_flag
star_tree_small = omega arith

star_written :
    (root : ℕ) × (index_file_open (index_write star_tree) ≡ some (some root))
    × Stored (index_write star_tree) root star_tree
star_written = index_write-Stored star_tree star_tree_fits star_tree_small

star_clean : NoNul star_tree
unfolding NoNul NoNulBelow
star_clean = (omega arith, tt, tt)

star_near : reach star_tree < 3
unfolding reach reach_below
star_near = omega arith

-- "abc"
abbrev key_abc : Bytes
key_abc = b'a' ∷ b'b' ∷ b'c' ∷ []

key_abc-IsPlain : IsPlain key_abc
unfolding is_wild
key_abc-IsPlain = (refl, (refl, (refl, tt)))

index_searchwild_example :
    (out : List Value) × (index_searchwild star_fnmatch 3
        (index_write star_tree)
        star_written.0
        key_abc
      ≡ some out)
    × ((v : Value) → Memᴰ v out ↔ Matching star_fnmatch star_tree key_abc v)
index_searchwild_example =
    index_searchwild-Matching star_fnmatch (index_write star_tree) star_written.0 star_tree key_abc
      3 star_written.2 star_tree_fits star_clean star_near (omega (arith, star_near))
      key_abc-IsPlain

buf_pushchars_example :
    (b : Buffer) × (buf_pushchars true buf_init key_abc ≡ some (b, 3)) × IsBuffer b key_abc
buf_pushchars_example = buf_pushchars-IsBuffer key_abc buf_init [] buf_init-IsBuffer (omega arith)

star_tree-IsOrdered : IsOrdered star_tree
unfolding IsOrdered AllOrdered
star_tree-IsOrdered = (tt, (((tt, tt), tt), tt))

index_mm_searchwild_example :
    index_mm_searchwild star_fnmatch 3 (index_write star_tree) star_written.0 key_abc
    ≡ index_searchwild star_fnmatch 3 (index_write star_tree) star_written.0 key_abc
index_mm_searchwild_example =
    index_mm_searchwild-index_searchwild star_fnmatch (index_write star_tree) star_written.0
      star_tree key_abc 2 star_written.2 star_tree_fits star_tree-IsOrdered

-- "a*" as a key of index_search, which has no wildcards
abbrev key_star : Bytes
key_star = b'a' ∷ b'*' ∷ []

star_value_lem : Ascending [] (values_at star_tree key_star)
unfolding values_at values_below get_child
star_value_lem = (tt, tt)

index_mm_search_example :
    index_mm_search (index_write star_tree) star_written.0 key_star
    ≡ index_search (index_write star_tree) star_written.0 key_star
index_mm_search_example =
    index_mm_search-index_search (index_write star_tree) star_written.0 star_tree key_star
      star_written.2 star_tree_fits star_value_lem

-- A file that ends within its header.
abbrev short_file : Bytes
short_file = 1 ∷ 2 ∷ 3 ∷ []

index_mm_open_example :
    index_mm_open short_file
    ≡ (if ltb (length short_file) 12 then some none else index_file_open short_file)
index_mm_open_example = index_mm_open-index_file_open short_file

-- There the mapped reader returns NULL, and the other one reads beyond the end of the file.
short_run : (index_mm_open short_file ≡ some none) × (index_file_open short_file ≡ none)
unfolding index_mm_open index_file_open read_long
short_run = (refl, refl)
