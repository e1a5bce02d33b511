-- ===== src/Hash/Defs.antt =====
-- The structs and the functions of libkmod-hash.c. `granted` says whether a call of realloc in the
-- function gets its memory. `frees` says whether the table has a function free_value; a
-- function that calls it returns the values that it was called with.
use Prim.Native.Nat.{Ordering}
use comment_subs.Prelude.{
  ℕ, zero, suc, ◌+◌, ◌*◌, ◌/◌, ◌%◌, Bool, Option, none, some, List, [], ◌∷◌, if◌then◌else◌, leb,
  ltb, ◌==◌, ◌>>=◌, Bytes, strcmp, ℤ, pos, enoent, enomem, eexist, add32, sub32, get_elem?, set,
  replicate,
}
use comment_subs.Memory.{Block, load, store, memmove, realloc}
use comment_subs.Hash.Superfast.{hash_superfast}

pub record Entry : Type 0 where
  pub key : Bytes
  pub value : ℕ

pub record Bucket : Type 0 where
  pub entries : Block Entry
  pub used : ℕ
  pub total : ℕ

pub record Hash : Type 0 where
  pub count : ℕ
  pub step : ℕ
  pub n_buckets : ℕ
  pub buckets : List Bucket

abbrev pub empty_bucket : Bucket
empty_bucket = record { entries = []; used = 0; total = 0 }

-- calloc succeeds.
unfoldable pub hash_new : ℕ → Hash
hash_new n_buckets =
    let step = n_buckets / 32 in
    record {
      count = 0;
      step = if step == 0 then 4 else if ltb 64 step then 64 else step;
      n_buckets = n_buckets;
      buckets = replicate n_buckets empty_bucket;
    }

-- `hashval % hash->n_buckets`, where a division by 0 is a fault
unfoldable pub hash_pos : Hash → Bytes → Option ℕ
hash_pos h key = if h.n_buckets == 0 then none else some (hash_superfast key % h.n_buckets)

-- The first part of hash_add and hash_add_unique; `some none` is a failure of realloc.
unfoldable pub bucket_reserve : Bool → (step : ℕ) → Bucket → Option Bucket
bucket_reserve granted step b =
    if leb b.total (add32 b.used 1)
    then (let new_total = add32 b.total step in
        if granted
        then some (record b { entries = realloc b.entries new_total; total = new_total })
        else none)
    else some b

-- Where the loop over the entries ends: at the entry of the key, at the first entry with a greater
-- key, or behind the last entry.
pub data Place : Type 0 where
  found : ℕ → Entry → Place
  gap : ℕ → Place
  behind : ℕ → Place

-- The loop at entry `i`, with `n` entries to go.
unfoldable pub locate : Block Entry → Bytes → (i n : ℕ) → Option Place
locate b key i zero = some (behind i)
locate b key i (suc n) =
    let further = locate b key (i + 1) n in
    load b i >>= λ e. elim (strcmp key e.key) [
      | Ordering.eq ↦ some (found i e)
      | Ordering.lt ↦ some (gap i)
      | Ordering.gt ↦ further
    ]

-- `bucket->used++`, for the entry written to slot `i`
abbrev pub entry_put : Bucket → ℕ → Entry → Block Entry → Option Bucket
entry_put b i e block =
    store block i e >>= λ block'. some (record b { entries = block'; used = add32 b.used 1 })

-- A new entry at the place where the loop ended, or `none` at an entry of the key.
unfoldable pub bucket_insert : Bucket → Entry → Place → Option (Option Bucket)
bucket_insert b e (found i old) = some none
bucket_insert b e (gap i) = memmove b.entries (i + 1) i (sub32 b.used i) >>= λ block.
    entry_put b i e block >>= λ b'. some (some b')
bucket_insert b e (behind i) = entry_put b i e b.entries >>= λ b'. some (some b')

-- `entry->value = value`
unfoldable pub bucket_assign : Bucket → ℕ → Place → Option (Bucket × Option ℕ)
bucket_assign b value (found i old) = store b.entries i (record old { value = value }) >>= λ block.
    some (record b { entries = block }, some old.value)
bucket_assign b value (gap i) = some (b, none)
bucket_assign b value (behind i) = some (b, none)

abbrev pub freed_value : Bool → Option ℕ → List ℕ
freed_value frees none = []
freed_value frees (some value) = if frees then value ∷ [] else []

-- The end of hash_add: the table with the new bucket, and what was freed.
unfoldable pub add_finish :
    Bool → Hash → ℕ → Bucket → ℕ → Place → Option Bucket → Option (Hash × ℤ × List ℕ)
add_finish frees h at b value place (some b') =
    some (record h { buckets = set h.buckets at b'; count = add32 h.count 1 }, pos 0, [])
add_finish frees h at b value place none = bucket_assign b value place >>= λ r.
    some (record h { buckets = set h.buckets at r.0 }, pos 0, freed_value frees r.1)

unfoldable pub hash_add : (frees granted : Bool) → Hash → Bytes → ℕ → Option (Hash × ℤ × List ℕ)
hash_add frees granted h key value = do
  at ← hash_pos h key
  b0 ← get_elem? h.buckets at
  elim (bucket_reserve granted h.step b0) [
    | none ↦ some (h, enomem, [])
    | some b ↦ locate b.entries key 0 b.used >>= λ place.
        bucket_insert b (record { key = key; value = value }) place >>= λ inserted.
        add_finish frees h at b value place inserted
  ]

-- The end of hash_add_unique.
unfoldable pub add_unique_finish : Hash → ℕ → Bucket → Option Bucket → Hash × ℤ
add_unique_finish h at b (some b') =
    (record h { buckets = set h.buckets at b'; count = add32 h.count 1 }, pos 0)
add_unique_finish h at b none = (record h { buckets = set h.buckets at b }, eexist)

unfoldable pub hash_add_unique : Bool → Hash → Bytes → ℕ → Option (Hash × ℤ)
hash_add_unique granted h key value = do
  at ← hash_pos h key
  b0 ← get_elem? h.buckets at
  elim (bucket_reserve granted h.step b0) [
    | none ↦ some (h, enomem)
    | some b ↦ locate b.entries key 0 b.used >>= λ place.
        bucket_insert b (record { key = key; value = value }) place >>= λ inserted.
        some (add_unique_finish h at b inserted)
  ]

-- `bsearch` of the C library with hash_entry_cmp, on the entries from `lo` up to `hi`: the index of
-- an entry of the key. `none` is a fault, or that the fuel ran out.
unfoldable pub bsearch : ℕ → Block Entry → Bytes → (lo hi : ℕ) → Option (Option (ℕ × Entry))
bsearch zero b key lo hi = none
bsearch (suc fuel) b key lo hi =
    let mid = (lo + hi) / 2 in
    let left = bsearch fuel b key lo mid in
    let right = bsearch fuel b key (mid + 1) hi in
    if ltb lo hi
    then (load b mid >>= λ e. elim (strcmp key e.key) [
      | Ordering.eq ↦ some (some (mid, e))
      | Ordering.lt ↦ left
      | Ordering.gt ↦ right
    ])
    else some none

-- What hash_find makes of the result of bsearch; `none` is NULL.
abbrev pub found_value : Option (ℕ × Entry) → Option ℕ
found_value none = none
found_value (some (i, e)) = some e.value

-- `some none` is NULL.
unfoldable pub hash_find : Hash → Bytes → Option (Option ℕ)
hash_find h key = do
  at ← hash_pos h key
  b ← get_elem? h.buckets at
  r ← bsearch (b.used + 1) b.entries key 0 b.used
  some (found_value r)

-- The end of hash_del: whole steps that are not needed go.
unfoldable pub bucket_shrink : Bool → (step : ℕ) → Bucket → Bucket
bucket_shrink granted step b =
    let steps_used = b.used / step in
    let steps_total = b.total / step in
    if ltb (steps_used + 1) steps_total
    then (let new_total = (steps_used + 1) * step in
        if granted
        then record b { entries = realloc b.entries new_total; total = new_total }
        else b)
    else b

-- `memmove(entry, entry + 1, (entry_end - entry) * sizeof(struct hash_entry))`
unfoldable pub bucket_remove : Bucket → ℕ → Option Bucket
bucket_remove b i = memmove b.entries i (i + 1) (sub32 b.used i) >>= λ block.
    some (record b { entries = block; used = sub32 b.used 1 })

-- The part of hash_del after bsearch.
unfoldable pub del_finish :
    (frees granted : Bool) → Hash → ℕ → Bucket → Option (ℕ × Entry) → Option (Hash × ℤ × List ℕ)
del_finish frees granted h at b none = some (h, enoent, [])
del_finish frees granted h at b (some (i, e)) = bucket_remove b i >>= λ b'. some (
  record h {
    buckets = set h.buckets at (bucket_shrink granted h.step b');
    count = sub32 h.count 1;
  },
  pos 0,
  freed_value frees (some e.value),
)

unfoldable pub hash_del : (frees granted : Bool) → Hash → Bytes → Option (Hash × ℤ × List ℕ)
hash_del frees granted h key = do
  at ← hash_pos h key
  b ← get_elem? h.buckets at
  r ← bsearch (b.used + 1) b.entries key 0 b.used
  del_finish frees granted h at b r

unfoldable pub hash_get_count : Hash → ℕ
hash_get_count h = h.count
