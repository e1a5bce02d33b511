-- ===== src/Hash/Delete.antt =====
-- hash_del on a whole table.
use comment_subs.Prelude.{
  ℕ, suc, ◌≡◌, refl, Bool, Option, none, some, List, [], arith, sub32, if◌then◌else◌, Bytes, streq,
  get_or, set, ◌>>=◌, ℤ, pos, enoent,
}
use comment_subs.Hash.Defs.{Entry, Bucket, Hash, hash_del, del_finish, bucket_shrink, freed_value}
use comment_subs.Hash.Bsearch.{Search, hit, miss, bsearch-Search}
use comment_subs.Hash.Remove.{Removed, bucket_remove-Found, bucket_shrink-IsBucket}
use comment_subs.Hash.Reps.{IsBucket}
use comment_subs.Hash.Table.{
  Entries, IsHash, Holds-get, place_of, place_of-lt, hash_lookup, entry_count-set, hash_lookup-set,
  hash_pos-place,
}
use comment_subs.Hash.Add.{set-IsHash}

-- What hash_del does: -ENOENT and no change for a key that is not there; else it returns 0, the
-- table has no entry of the key and every other key as before, the count is one less, and the
-- value is freed if the table has a function free_value.
pub data Deleted (frees : Bool) (h : Hash) (ess : Entries) (key : Bytes)
    : Hash × ℤ × List ℕ → Type 0 where
  absent : hash_lookup ess key ≡ none → Deleted frees h ess key (h, enoent, [])
  removed :
      {h' : Hash} (ess' : Entries) (value : ℕ)
      → hash_lookup ess key ≡ some value
      → IsHash h' ess'
      → ((k : Bytes) → hash_lookup ess' k ≡ (if streq key k then none else hash_lookup ess k))
      → suc h'.count ≡ h.count
      → Deleted frees h ess key (h', pos 0, freed_value frees (some value))

module _ {h : Hash} {ess : Entries} (v : IsHash h ess) (key : Bytes) (frees granted : Bool) where
  Removed-Deleted :
      {b : Bucket} {i : ℕ} {e : Entry} (r : Removed b (get_or ess (place_of ess key) []) key i e)
      → Deleted frees h ess key (
        record h {
          buckets = set h.buckets (place_of ess key) (bucket_shrink granted h.step r.after);
          count = sub32 h.count 1;
        },
        pos 0,
        freed_value frees (some e.value),
      )
  unfolding hash_lookup
  Removed-Deleted {b} {i} {e} r =
      let counts =
        entry_count-set ess (place_of ess key) r.result (place_of-lt ess key v.some_bucket) in
      removed (set ess (place_of ess key) r.result) e.value r.present
        (set-IsHash v key (bucket_shrink granted h.step r.after) r.result (sub32 h.count 1)
          (bucket_shrink-IsBucket granted h.step r.held (omega (arith, v.step)))
          (omega (arith, counts, r.shorter, v.small, v.count))
          (omega (arith, counts, r.shorter, v.small, v.count)))
        (λ k. hash_lookup-set key k ess r.result none v.some_bucket (r.unmaps k))
        (omega (arith, counts, r.shorter, v.small, v.count))

  Search-Deleted :
      {b : Bucket} (w : IsBucket b (get_or ess (place_of ess key) [])) {s : Option (ℕ × Entry)}
      → Search key (get_or ess (place_of ess key) []) s
      → (r : Hash × ℤ × List ℕ) × (del_finish frees granted h (place_of ess key) b s ≡ some r)
        × Deleted frees h ess key r
  unfolding del_finish hash_lookup
  Search-Deleted w (hit {i} {e} f) =
      let r = bucket_remove-Found w key i e f in
      (
        (
          record h {
            buckets = set h.buckets (place_of ess key) (bucket_shrink granted h.step r.after);
            count = sub32 h.count 1;
          },
          pos 0,
          freed_value frees (some e.value),
        ),
        rw (r.run, ◌>>=◌),
        Removed-Deleted r,
      )
  Search-Deleted w (miss gone) = ((h, enoent, []), refl, absent gone)

  -- In a table that holds its entries in order, that grows its buckets by a step of two or more, and
  -- whose buckets have a free slot behind their entries where they have any (IsHash), and whether or
  -- not realloc succeeds, hash_del meets no fault. For a key that is not there it returns -ENOENT and changes nothing.
  -- For a key that is there it returns 0; the table then maps the key to nothing and every other
  -- key as before, the count is one less, and the value is freed if the table has a function
  -- free_value.
  pub hash_del-Deleted :
      (r : Hash × ℤ × List ℕ) × (hash_del frees granted h key ≡ some r) × Deleted frees h ess key r
  unfolding hash_del
  hash_del-Deleted =
      let (b, here, w) =
        Holds-get h.buckets ess (place_of ess key) v.holds (place_of-lt ess key v.some_bucket) in
      let (r, run, out) = bsearch-Search key (get_or ess (place_of ess key) []) w.rest w.sorted in
      rw (hash_pos-place v key, here, w.split, w.used, run, ◌>>=◌) (Search-Deleted w out)
