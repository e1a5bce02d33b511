-- ===== src/AliasesBin/Lookup.antt =====
-- What libkmod finds in the file that depmod writes.
use comment_subs.Prelude.{
  ◌<◌, ◌≡◌, refl, sym, ap, ◌∙◌, true, false, some, List, [], ◌∷◌, Bytes, length, arith, ◌>>=◌, ℕ,
}
use comment_subs.Trie.{Node, index_create, get_child}
use comment_subs.Trie.Denote.{values_at, values_below}
use comment_subs.Trie.Shape.{NodeFits, ChildrenFit}
use comment_subs.IndexFile.{index_write, index_file_open, index_search}
use comment_subs.IndexFile.Stored.{answer}
use comment_subs.IndexFile.Writer.{index_write-Stored}
use comment_subs.IndexFile.Writer.Growth.{limit}
use comment_subs.IndexFile.Lookup.{index_search-answer}
use comment_subs.AliasesBin.Defs.{Mod, output_aliases_bin}
use comment_subs.AliasesBin.Contents.{ModulesFit, with_modules, insert_modules-values}

created-fits : NodeFits index_create
unfolding index_create NodeFits ChildrenFit
created-fits = (tt, tt, omega arith, tt)

values_at-created : (key : Bytes) → values_at index_create key ≡ []
unfolding index_create values_at values_below get_child
values_at-created [] = refl
values_at-created (c ∷ key) = refl

-- For modules whose names have no NUL and whose infos are ASCII and fit the buffer,
-- output_aliases_bin meets no fault. It writes nothing to stdout. To another file it writes the
-- index of a well-formed tree that has at each key the values of the modules that declare the key
-- as an alias, and no others.
pub output_aliases_bin-index_write :
    (modules : List Mod)
    → ModulesFit modules
    → (output_aliases_bin true modules ≡ some [])
      × (idx : Node) × (output_aliases_bin false modules ≡ some (index_write idx))
      × NodeFits idx
      × ((key : Bytes) → values_at idx key ≡ with_modules key modules [])
unfolding output_aliases_bin
output_aliases_bin-index_write modules fits =
    let (idx, run, kept, at) = insert_modules-values modules index_create created-fits fits in
    (refl, idx, rw run, kept, λ key. at key ∙ ap (with_modules key modules) (values_at-created key))

-- Of modules whose names have no NUL and whose infos are ASCII and fit the buffer, a file that
-- output_aliases_bin writes, other than stdout, and that is shorter than 2^28 bytes is accepted by
-- index_file_open, and index_search finds for every key the answer of the modules that declare the
-- key as an alias, and NULL if none does. It meets no error on the way.
pub output_aliases_bin-index_search :
    (modules : List Mod) (file key : Bytes)
    → ModulesFit modules
    → output_aliases_bin false modules ≡ some file
    → length file < limit
    → (root : ℕ) × (index_file_open file ≡ some (some root))
      × (index_search file root key ≡ answer (with_modules key modules []))
unfolding output_aliases_bin
output_aliases_bin-index_search modules file key fits written small =
    let (idx, run, kept, at) = insert_modules-values modules index_create created-fits fits in
    let whole : some (index_write idx) ≡ some file =
      sym (ap (λ r. r >>= λ n. some (index_write n)) run) ∙ written in
    let is : index_write idx ≡ file = cc in
    let (root, opened, st) = index_write-Stored idx kept (rw is small) in
    (
      root,
      rw (← is) opened,
      rw (← is) (
          index_search-answer (index_write idx) root idx key st kept
          ∙ ap answer (at key ∙ ap (with_modules key modules) (values_at-created key))),
    )
