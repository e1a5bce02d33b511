-- ===== src/Hash/Iter/Defs.antt =====
-- hash_iter_init and hash_iter_next.
use comment_subs.Prelude.{
  ℕ, zero, suc, ◌+◌, ◌-◌, Option, none, some, List, [], ◌∷◌, ◌++◌, u32_mod, add32, if◌then◌else◌,
  get_elem?, ltb, leb, ◌>>=◌,
}
use comment_subs.Memory.{load}
use comment_subs.Hash.Defs.{Entry, Hash}
use comment_subs.Hash.Table.{Entries}

-- `struct hash_iter`, whose table is an argument of the functions.
pub record Iter : Type 0 where
  pub bucket : ℕ
  pub entry : ℕ

-- The entry -1, as an unsigned int.
unfoldable pub hash_iter_init : Iter
hash_iter_init = record { bucket = 0; entry = u32_mod - 1 }

-- The loop over the buckets that are empty, from `bucket` on, with `n` buckets to go.
unfoldable pub iter_seek : Hash → (bucket n : ℕ) → Option ℕ
iter_seek h bucket zero = some bucket
iter_seek h bucket (suc n) =
    let further = iter_seek h (bucket + 1) n in
    get_elem? h.buckets bucket >>= λ b. if ltb 0 b.used then some bucket else further

-- The part behind the search for the entry: `e = b->entries + iter->entry`
abbrev pub iter_entry : Hash → Iter → Option (Iter × Option Entry)
iter_entry h it =
    get_elem? h.buckets it.bucket >>= λ b. load b.entries it.entry >>= λ e. some (it, some e)

-- The result false is `none`.
unfoldable pub hash_iter_next : Hash → Iter → Option (Iter × Option Entry)
hash_iter_next h it = do
  b ← get_elem? h.buckets it.bucket
  let entry = add32 it.entry 1
  if leb b.used entry
      then (iter_seek h (it.bucket + 1) (h.n_buckets - (it.bucket + 1)) >>= λ at.
          if leb h.n_buckets at
          then some (record { bucket = at; entry = 0 }, none)
          else iter_entry h (record { bucket = at; entry = 0 }))
      else iter_entry h (record { bucket = it.bucket; entry = entry })

-- `while (hash_iter_next(&iter, &key, &value))`, and the entries that it gives
unfoldable pub iterate : ℕ → Hash → Iter → Option (List Entry)
iterate zero h it = none
iterate (suc fuel) h it = hash_iter_next h it >>= λ (it', found). elim found [
  | none ↦ some []
  | some e ↦ iterate fuel h it' >>= λ es. some (e ∷ es)
]

-- All entries of a table.
unfoldable pub all_entries : Entries → List Entry
all_entries [] = []
all_entries (es ∷ ess) = es ++ all_entries ess
