-- ===== src/Hash/Add.antt =====
-- hash_add and hash_add_unique on a whole table.
use comment_subs.Prelude.{
  ℕ, suc, ◌+◌, ◌<◌, ◌≡◌, refl, ◌∙◌, sym, Bool, true, Option, none, some, List, [], length,
  length-set, arith, u32_mod, add32, if◌then◌else◌, Bytes, streq, get_elem?, get_or, set,
  set-get_or, ◌>>=◌, ℤ, pos, eexist,
}
use comment_subs.Hash.Defs.{
  Entry, Bucket, Hash, Place, hash_add, hash_add_unique, add_finish, add_unique_finish,
  bucket_insert, freed_value,
}
use comment_subs.Hash.Insert.{Added, new, old, locate-Added}
use comment_subs.Hash.Outcome.{Inserted, Assigned, pair}
use comment_subs.Hash.Reps.{IsBucket, bucket_reserve-IsBucket}
use comment_subs.Hash.Table.{
  Entries, IsHash, Holds-get, Holds-set, entry_count-set, place_of, place_of-lt, hash_lookup,
  hash_lookup-set, hash_pos-place,
}

abbrev bucket_slots : Option Bucket → ℕ
bucket_slots none = 0
bucket_slots (some b) = b.total

-- The number of slots of the bucket of a key.
unfoldable pub bucket_total : Hash → Entries → Bytes → ℕ
bucket_total h ess key = bucket_slots (get_elem? h.buckets (place_of ess key))

-- The count of keys after an insertion.
unfoldable pub count_with : Option ℕ → ℕ → ℕ
count_with none n = suc n
count_with (some v) n = n

module _ {h : Hash} {ess : Entries} (v : IsHash h ess) (key : Bytes) where
  -- A bucket is replaced.
  pub set-IsHash :
      (b : Bucket) (es : List Entry) (n : ℕ)
      → IsBucket b es
      → n + length (get_or ess (place_of ess key) []) ≡ h.count + length es
      → n < u32_mod
      → IsHash
          (record h { buckets = set h.buckets (place_of ess key) b; count = n })
          (set ess (place_of ess key) es)
  set-IsHash b es n held sizes few =
      let counts = entry_count-set ess (place_of ess key) es (place_of-lt ess key v.some_bucket) in
      record {
        holds = Holds-set h.buckets ess (place_of ess key) b es v.holds held;
        n_buckets = v.n_buckets ∙ sym (length-set ess (place_of ess key) es);
        some_bucket = rw (length-set ess (place_of ess key) es) v.some_bucket;
        step = v.step;
        count = omega (arith, counts, sizes, v.count);
        small = omega (arith, counts, sizes, v.count, few);
      }

-- The table after the key was mapped to the value.
pub record Updated (h : Hash) (ess : Entries) (key : Bytes) (value : ℕ) (h' : Hash) (ess' : Entries)
    : Type 0 where
  pub held : IsHash h' ess'
  pub maps :
      (k : Bytes) → hash_lookup ess' k ≡ (if streq key k then some value else hash_lookup ess k)
  pub count : h'.count ≡ count_with (hash_lookup ess key) h.count

abbrev Adds : Bool → Hash → Entries → Bytes → ℕ → Option (Hash × ℤ × List ℕ) → Type 0
Adds frees h ess key value run =
    (h' : Hash) × (ess' : Entries) × (run
      ≡ some (h', pos 0, freed_value frees (hash_lookup ess key)))
    × Updated h ess key value h' ess'

-- What hash_add_unique does: it returns 0 for a new key, and -EEXIST for a key that is there, whose
-- value stays.
pub data Unique (h : Hash) (ess : Entries) (key : Bytes) (value : ℕ) (h' : Hash)
    : Entries → ℤ → Type 0 where
  fresh :
      {ess' : Entries}
      → hash_lookup ess key ≡ none
      → Updated h ess key value h' ess'
      → Unique h ess key value h' ess' (pos 0)
  exists :
      (old : ℕ)
      → hash_lookup ess key ≡ some old
      → IsHash h' ess
      → h'.count ≡ h.count
      → Unique h ess key value h' ess eexist

module _ {h : Hash} {ess : Entries} (v : IsHash h ess) (key : Bytes) (value : ℕ)
    (few : suc h.count < u32_mod) where
  Inserted-Updated :
      {b : Bucket} {p : Place} (i : Inserted b (get_or ess (place_of ess key) []) key value p)
      → Updated h ess key value
          (record h { buckets = set h.buckets (place_of ess key) i.after; count = add32 h.count 1 })
          (set ess (place_of ess key) i.result)
  unfolding hash_lookup count_with
  Inserted-Updated i = record {
    held =
        set-IsHash v key i.after i.result (add32 h.count 1) i.held (omega (arith, i.longer))
          (omega arith);
    maps = λ k. hash_lookup-set key k ess i.result (some value) v.some_bucket (i.maps k);
    count = rw i.absent (omega arith);
  }

  Assigned-Updated :
      {b : Bucket} {p : Place} (a : Assigned b (get_or ess (place_of ess key) []) key value p)
      → Updated h ess key value
          (record h { buckets = set h.buckets (place_of ess key) a.after })
          (set ess (place_of ess key) a.result)
  unfolding hash_lookup count_with
  Assigned-Updated a = record {
    held = set-IsHash v key a.after a.result h.count a.held (omega (arith, a.same)) (omega arith);
    maps = λ k. hash_lookup-set key k ess a.result (some value) v.some_bucket (a.maps k);
    count = rw a.present;
  }

  Added-Adds :
      (frees : Bool) {b : Bucket} {p : Place}
      → Added b (get_or ess (place_of ess key) []) key value p
      → Adds frees h ess key value (
          bucket_insert b (pair key value) p >>= λ inserted.
          add_finish frees h (place_of ess key) b value p inserted)
  unfolding add_finish hash_lookup
  Added-Adds frees (new i) = (
    record h { buckets = set h.buckets (place_of ess key) i.after; count = add32 h.count 1 },
    set ess (place_of ess key) i.result,
    rw (i.run, i.absent, ◌>>=◌),
    Inserted-Updated i,
  )
  Added-Adds frees (old a) = (
    record h { buckets = set h.buckets (place_of ess key) a.after },
    set ess (place_of ess key) a.result,
    rw (a.refused, a.run, a.present, ◌>>=◌),
    Assigned-Updated a,
  )

  Added-AddsUnique :
      {b : Bucket} (w : IsBucket b (get_or ess (place_of ess key) [])) {p : Place}
      → Added b (get_or ess (place_of ess key) []) key value p
      → (h' : Hash) × (ess' : Entries) × (r : ℤ) × ((bucket_insert b (pair key value) p
            >>= λ inserted. some (add_unique_finish h (place_of ess key) b inserted))
          ≡ some (h', r))
        × Unique h ess key value h' ess' r
  unfolding add_unique_finish hash_lookup
  Added-AddsUnique w (new i) = (
    record h { buckets = set h.buckets (place_of ess key) i.after; count = add32 h.count 1 },
    set ess (place_of ess key) i.result,
    pos 0,
    rw (i.run, ◌>>=◌),
    fresh i.absent (Inserted-Updated i),
  )
  Added-AddsUnique {b = b} w (old a) = (
    record h { buckets = set h.buckets (place_of ess key) b },
    ess,
    eexist,
    rw (a.refused, ◌>>=◌),
    exists a.old a.present
        (rw (set-get_or ess (place_of ess key) []) at
          (set-IsHash v key b (get_or ess (place_of ess key) []) h.count w refl (omega arith)))
        refl,
  )

  -- In a table that holds its entries in order (IsHash), where realloc grants a step and neither
  -- the count nor the size of the bucket wraps around, hash_add returns 0; the table then maps the
  -- key to the value and every other key as before, an old value of the key is freed if the table
  -- has a function free_value, and the count grows by one if the key is new.
  pub hash_add-Updated :
      (frees : Bool)
      → bucket_total h ess key + h.step < u32_mod
      → (h' : Hash) × (ess' : Entries) × (hash_add frees true h key value
          ≡ some (h', pos 0, freed_value frees (hash_lookup ess key)))
        × Updated h ess key value h' ess'
  unfolding hash_add bucket_total
  hash_add-Updated frees room =
      let (b0, here, w) =
        Holds-get h.buckets ess (place_of ess key) v.holds (place_of-lt ess key v.some_bucket) in
      let (b, reserved, x, two) = bucket_reserve-IsBucket h.step w v.step (rw here at room) in
      let (p, located, a) = locate-Added x key value two in
      rw (hash_pos-place v key, here, reserved, located, ◌>>=◌) (Added-Adds frees a)

  -- In a table that holds its entries in order (IsHash), where realloc grants a step and neither
  -- the count nor the size of the bucket wraps around, hash_add_unique returns 0 for a new key,
  -- which the table then maps to the value, and -EEXIST for a key that is there; then the table
  -- maps every key as before.
  pub hash_add_unique-Unique :
      bucket_total h ess key + h.step < u32_mod
      → (h' : Hash) × (ess' : Entries) × (r : ℤ) × (hash_add_unique true h key value ≡ some (h', r))
        × Unique h ess key value h' ess' r
  unfolding hash_add_unique bucket_total
  hash_add_unique-Unique room =
      let (b0, here, w) =
        Holds-get h.buckets ess (place_of ess key) v.holds (place_of-lt ess key v.some_bucket) in
      let (b, reserved, x, two) = bucket_reserve-IsBucket h.step w v.step (rw here at room) in
      let (p, located, a) = locate-Added x key value two in
      rw (hash_pos-place v key, here, reserved, located, ◌>>=◌) (Added-AddsUnique x a)
