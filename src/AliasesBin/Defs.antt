-- ===== src/AliasesBin/Defs.antt =====
-- The loops of output_aliases_bin over the modules and over the infos of each. The warning about
-- duplicates goes to the log and is left out.
use comment_subs.Prelude.{
  ℕ, ◌+◌, Bool, true, false, Option, none, some, List, [], ◌∷◌, if◌then◌else◌, ◌>>=◌, Bytes, streq,
  length,
}
use comment_subs.Names.{Copy, done, invalid, overflow, underscores2}
use comment_subs.Trie.{Node, index_create, index_insert}
use comment_subs.IndexFile.{index_write}

-- The fields of `struct mod` that the function reads; an info is a key with its value.
pub record Mod : Type 0 where
  pub modname : Bytes
  pub idx : ℕ
  pub info_list : List (Bytes × Bytes)

-- "alias"
abbrev pub alias_key : Bytes
alias_key = b'a' ∷ b'l' ∷ b'i' ∷ b'a' ∷ b's' ∷ []

-- `sizeof(buf)`
abbrev pub buf_size : ℕ
buf_size = 1024

-- What is done with the result of underscores2: NULL skips the info.
unfoldable pub insert_alias : Node → Mod → Copy → Option Node
insert_alias idx m (done alias) =
    index_insert (length alias + 1) idx alias (record { priority = m.idx; value = m.modname })
    >>= λ r. some r.0
insert_alias idx m invalid = some idx
insert_alias idx m overflow = none

unfoldable pub insert_infos : Node → Mod → List (Bytes × Bytes) → Option Node
insert_infos idx m [] = some idx
insert_infos idx m ((key, value) ∷ infos) =
    (if streq key alias_key then insert_alias idx m (underscores2 value buf_size) else some idx)
    >>= λ idx'. insert_infos idx' m infos

unfoldable pub insert_modules : Node → List Mod → Option Node
insert_modules idx [] = some idx
insert_modules idx (m ∷ modules) =
    insert_infos idx m m.info_list >>= λ idx'. insert_modules idx' modules

-- What is written to `out`; `to_stdout` says whether that is stdout.
unfoldable pub output_aliases_bin : (to_stdout : Bool) → List Mod → Option Bytes
output_aliases_bin true modules = some []
output_aliases_bin false modules =
    insert_modules index_create modules >>= λ idx. some (index_write idx)
