-- ===== src/Tests/Hashes.antt =====
-- libkmod/libkmod-hash.c on small tables.
use comment_subs.Prelude.{
  ℕ, ◌≡◌, ◌+◌, ◌<◌, refl, suc, ap, strcmp, ◌∙◌, streq, true, false, some, none, List, [], ◌∷◌,
  arith, ℤ, pos, inl, Bytes, replicate, u32_mod, ◌>>=◌,
}
use comment_subs.Hash.{
  Hash, hash_new, hash_add, hash_add_unique, hash_del, hash_find, hash_superfast, freed_value,
  hash_pos, bucket_reserve, locate, bucket_insert, add_finish, bsearch, del_finish, bucket_remove,
}
use comment_subs.Memory.{realloc, load, store, memmove}
use comment_subs.Hash.Add.{hash_add-Updated, hash_add_unique-Unique, Updated, Unique, bucket_total}
use comment_subs.Hash.Delete.{hash_del-Deleted, Deleted}
use comment_subs.Hash.Free.{hash_free, hash_free-values, values_of}
use comment_subs.Hash.Iter.{iterate, all_entries, hash_iter_init}
use comment_subs.Hash.Iter.All.{hash_iter_next-all_entries}
use comment_subs.Prelude.{length}
use comment_subs.Hash.Make.{hash_new-IsHash}
use comment_subs.Hash.Table.{Entries, IsHash, hash_lookup, hash_find-lookup, place_of}

-- "usb"
abbrev usb : Bytes
usb = b'u' ∷ b's' ∷ b'b' ∷ []

abbrev no_entries : Entries
no_entries = replicate 4 []

new-IsHash : IsHash (hash_new 4) no_entries
new-IsHash = (hash_new-IsHash 4 (omega arith) (inl (omega arith))).0

new_total : bucket_total (hash_new 4) no_entries usb ≡ 0
unfolding bucket_total hash_new place_of hash_superfast
new_total = refl

new_room : bucket_total (hash_new 4) no_entries usb + (hash_new 4).step < u32_mod
unfolding hash_new
new_room = rw new_total (omega arith)

new_few : suc (hash_new 4).count < u32_mod
unfolding hash_new
new_few = omega arith

hash_find_example : hash_find (hash_new 4) usb ≡ some (hash_lookup no_entries usb)
hash_find_example = hash_find-lookup new-IsHash usb

hash_add_example :
    (h : Hash) × (ess : Entries) × (hash_add false true (hash_new 4) usb 9
      ≡ some (h, pos 0, freed_value false (hash_lookup no_entries usb)))
    × Updated (hash_new 4) no_entries usb 9 h ess
hash_add_example = hash_add-Updated new-IsHash usb 9 new_few false new_room

hash_add_unique_example :
    (h : Hash) × (ess : Entries) × (r : ℤ) × (hash_add_unique true (hash_new 4) usb 9 ≡ some (h, r))
    × Unique (hash_new 4) no_entries usb 9 h ess r
hash_add_unique_example = hash_add_unique-Unique new-IsHash usb 9 new_few new_room

-- The table that hash_add made of the empty one.
added_table : (h : Hash) × (ess : Entries) × IsHash h ess × (hash_find h usb ≡ some (some 9))
unfolding streq strcmp
added_table =
    let (h, ess, run, new) = hash_add-Updated new-IsHash usb 9 new_few false new_room in
    (h, ess, new.held, hash_find-lookup new.held usb ∙ ap some (new.maps usb))

hash_del_example :
    (r : Hash × ℤ × List ℕ) × (hash_del false true added_table.0 usb ≡ some r)
    × Deleted false added_table.0 added_table.1 usb r
hash_del_example = hash_del-Deleted added_table.2 usb false true

-- With a step of 1, the bucket of a new key is full, and hash_del then reads behind its end.
full_bucket_run :
    (hash_add false true (hash_new 32) usb 9 >>= λ r. hash_del false true r.0 usb) ≡ none
unfolding hash_new hash_add hash_del hash_pos hash_superfast bucket_reserve locate bucket_insert
    add_finish bsearch del_finish bucket_remove realloc load store memmove strcmp
full_bucket_run = refl

hash_iter_next_example :
    iterate (length (all_entries added_table.1) + 1) added_table.0 hash_iter_init
    ≡ some (all_entries added_table.1)
hash_iter_next_example = hash_iter_next-all_entries added_table.0 added_table.1 added_table.2

hash_free_example : hash_free true added_table.0 ≡ some (values_of (all_entries added_table.1))
hash_free_example = hash_free-values added_table.0 added_table.1 added_table.2
