-- ===== src/Hash/Make.antt =====
-- hash_new makes an empty table.
use comment_subs.Prelude.{
  ℕ, zero, suc, ◌≤◌, ◌<◌, ◌≡◌, refl, ap, sym, none, List, [], length-replicate, replicate, arith,
  ◌⊎◌, Bytes, get_or,
}
use comment_subs.Memory.{filled}
use comment_subs.Hash.Defs.{Entry, hash_new, empty_bucket}
use comment_subs.Hash.Entries.{lookup}
use comment_subs.Hash.Table.{IsHash, Holds, entry_count, place_of, hash_lookup}
use comment_subs.Hash.Reps.{IsBucket}

empty-IsBucket : IsBucket empty_bucket []
unfolding filled
empty-IsBucket = record {
  rest = [];
  split = refl;
  used = refl;
  total = refl;
  fits = omega arith;
  spare = λ h. h;
  sorted = tt;
}

empty-Holds : (n : ℕ) → Holds (replicate n empty_bucket) (replicate n [])
empty-Holds zero = tt
empty-Holds (suc n) = (empty-IsBucket, empty-Holds n)

empty-count : (n : ℕ) → entry_count (replicate n []) ≡ 0
unfolding entry_count
empty-count zero = refl
empty-count (suc n) = omega (arith, empty-count n)

get_or-empty : (n i : ℕ) → get_or {A = List Entry} (replicate n []) i [] ≡ []
get_or-empty zero i = refl
get_or-empty (suc n) zero = refl
get_or-empty (suc n) (suc i) = get_or-empty n i

new_step : (n : ℕ) → n < 32 ⊎ 64 ≤ n → 2 ≤ (hash_new n).step
unfolding hash_new
new_step n h = ground arith

-- For at least one and fewer than 32 buckets, or 64 and more, hash_new makes a table that holds
-- its entries in order (IsHash) and maps no key.
pub hash_new-IsHash :
    (n : ℕ)
    → 0 < n
    → n < 32 ⊎ 64 ≤ n
    → IsHash (hash_new n) (replicate n []) × ((k : Bytes) → hash_lookup (replicate n []) k ≡ none)
unfolding hash_new hash_lookup lookup
hash_new-IsHash n some_bucket wide = (
  record {
    holds = empty-Holds n;
    n_buckets = sym (length-replicate {A = List Entry} n []);
    some_bucket = rw (length-replicate {A = List Entry} n []) some_bucket;
    step = new_step n wide;
    count = sym (empty-count n);
    small = omega (arith, empty-count n);
  },
  λ k. ap (lookup k) (get_or-empty n (place_of (replicate n []) k)),
)
