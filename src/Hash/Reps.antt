-- ===== src/Hash/Reps.antt =====
-- What a bucket stands for, and the growth of a bucket.
use comment_subs.Prelude.{
  ℕ, ◌+◌, ◌≤◌, ◌<◌, ◌≡◌, true, some, List, ◌++◌, length, leb, arith, u32_mod, add32, add32_small,
  Bool-cases, inl, inr,
}
use comment_subs.Memory.{Block, filled, realloc, realloc-append, length-filled}
use comment_subs.Hash.Defs.{Entry, Bucket, bucket_reserve}
use comment_subs.Hash.Entries.{IsSorted}

-- The bucket holds the entries `es`: they fill its first slots in the order of their keys, and if
-- there is an entry then there is a free slot too.
pub record IsBucket (b : Bucket) (es : List Entry) : Type 0 where
  pub rest : Block Entry
  pub split : b.entries ≡ filled es ++ rest
  pub used : b.used ≡ length es
  pub total : b.total ≡ length es + length rest
  pub fits : b.total < u32_mod
  pub spare : 0 < length es → 0 < length rest
  pub sorted : IsSorted es

-- Before an entry is added, there are two free slots.
pub bucket_reserve-IsBucket :
    {b : Bucket} {es : List Entry} (step : ℕ) (v : IsBucket b es)
    → 2 ≤ step
    → b.total + step < u32_mod
    → (b' : Bucket) × (bucket_reserve true step b ≡ some b')
      × (w : IsBucket b' es) × (2 ≤ length w.rest)
unfolding bucket_reserve
bucket_reserve-IsBucket {b} {es} step v two room =
    elim (Bool-cases (leb b.total (add32 b.used 1))) [
      | inl full ↦
          let (tail, is, size) =
            realloc-append (filled es) v.rest (b.total + step)
              (omega (arith, v.total, length-filled es)) in
          (
            record b {
              entries = realloc b.entries (add32 b.total step);
              total = add32 b.total step;
            },
            rw full,
            record {
              rest = tail;
              split = rw (v.split, add32_small b.total step room) is;
              used = v.used;
              total = rw (add32_small b.total step room) (omega (arith, size, length-filled es));
              fits = rw (add32_small b.total step room) room;
              spare = λ h. omega (arith, size, v.total, length-filled es);
              sorted = v.sorted;
            },
            omega (arith, size, v.total, length-filled es),
          )
      | inr free ↦ (b, rw free, v, ground (arith, v.used, v.total, v.fits))
    ]
