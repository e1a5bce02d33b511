-- ===== src/Hash/Remove.antt =====
-- hash_del removes an entry from a bucket.
use comment_subs.Prelude.{
  ℕ, suc, ◌+◌, ◌*◌, ◌/◌, ◌≤◌, ◌<◌, ◌≡◌, ap, ◌∙◌, sym, Bool, true, false, none, some, List, ◌∷◌,
  ◌++◌, length, length-append, arith, u32_mod, sub32, if◌then◌else◌, Bytes, streq, eq_of_streq,
  Bool-cases, inl, inr, ltb, ◌>>=◌,
}
use native.Mathlib.Nat.{lt-div-mul-add, div-mul-le_self, mul-le-mul_right}
use comment_subs.Memory.{
  filled, realloc, realloc-append, memmove-close, filled-insert, length-filled, filled_regroup,
}
use comment_subs.Hash.Defs.{Entry, Bucket, bucket_remove, bucket_shrink}
use comment_subs.Hash.Entries.{
  lookup, IsSorted-split, lookup-insert, lookup-absent, AllBelow, AllAbove,
}
use comment_subs.Hash.Bsearch.{Found, Found-lookup}
use comment_subs.Hash.Reps.{IsBucket}

-- `new` has no entry of the key, and maps every other key as `old` does.
abbrev pub Unmaps : Bytes → (old new : List Entry) → Type 0
Unmaps key old new = (k : Bytes) → lookup k new ≡ (if streq key k then none else lookup k old)

remove-Unmaps :
    (key : Bytes) (xs ys : List Entry) (e : Entry)
    → AllBelow e.key xs
    → AllAbove e.key ys
    → e.key ≡ key
    → Unmaps key (xs ++ e ∷ ys) (xs ++ ys)
remove-Unmaps key xs ys e below above same k = elim (Bool-cases (streq key k)) [
  | inl hit ↦
      let is : e.key ≡ k = same ∙ eq_of_streq key k hit in
      rw hit (lookup-absent k xs ys (rw is at below) (rw is at above))
  | inr miss ↦ rw (lookup-insert k xs ys e below, same, miss)
]

-- A bucket after the removal of the entry in slot `i`.
pub record Removed (b : Bucket) (es : List Entry) (key : Bytes) (i : ℕ) (e : Entry) : Type 0 where
  pub after : Bucket
  pub result : List Entry
  pub run : bucket_remove b i ≡ some after
  pub held : IsBucket after result
  pub present : lookup key es ≡ some e.value
  pub unmaps : Unmaps key es result
  pub shorter : length es ≡ suc (length result)

pub bucket_remove-Found :
    {b : Bucket} {es : List Entry} (v : IsBucket b es) (key : Bytes) (i : ℕ) (e : Entry)
    → Found key es i e
    → Removed b es key i e
unfolding bucket_remove
bucket_remove-Found {b} {es} v key i e f =
    let around = IsSorted-split f.before f.after e (rw f.split at v.sorted) in
    let sizes = ap length f.split ∙ length-append f.before (e ∷ f.after) in
    let whole : b.entries ≡ filled f.before ++ some e ∷ (filled f.after ++ v.rest) =
      rw (v.split, f.split, filled-insert) in
    let (tail, moved, size) =
      memmove-close (filled f.before) (filled f.after) v.rest (some e) i 1 (sub32 b.used i) whole
        (f.place ∙ sym (length-filled f.before))
        (omega (arith, v.used, v.total, v.fits, sizes, f.place, length-filled f.after))
        (v.spare (omega (arith, sizes))) in
    record {
      after = record b {
        entries = filled f.before ++ (filled f.after ++ tail);
        used = sub32 b.used 1;
      };
      result = f.before ++ f.after;
      run = rw (moved, ◌>>=◌);
      held = record {
        rest = tail;
        split = filled_regroup f.before f.after tail;
        used = omega (arith, v.used, v.total, v.fits, sizes, length-append f.before f.after);
        total = omega (arith, v.total, sizes, size, length-append f.before f.after);
        fits = v.fits;
        spare = λ _. omega (arith, size);
        sorted = around.2;
      };
      present = Found-lookup key es i e v.sorted f;
      unmaps = rw f.split (remove-Unmaps key f.before f.after e around.0 around.1 f.same);
      shorter = omega (arith, sizes, length-append f.before f.after);
    }

if-IsBucket :
    (granted : Bool) {b c : Bucket} {es : List Entry}
    → IsBucket b es
    → IsBucket c es
    → IsBucket (if granted then b else c) es
if-IsBucket true v w = v
if-IsBucket false v w = w

-- realloc to `n` slots, which are more than the entries.
narrow-IsBucket :
    {b : Bucket} {es : List Entry} (n : ℕ) (v : IsBucket b es)
    → length es < n
    → n < u32_mod
    → IsBucket (record b { entries = realloc b.entries n; total = n }) es
narrow-IsBucket {b} {es} n v wide small =
    let (tail, is, size) = realloc-append (filled es) v.rest n (omega (arith, length-filled es)) in
    record {
      rest = tail;
      split = rw v.split is;
      used = v.used;
      total = omega (arith, size, length-filled es);
      fits = small;
      spare = λ _. omega (arith, size, length-filled es);
      sorted = v.sorted;
    }

-- Whether or not realloc succeeds, the bucket holds the same entries.
pub bucket_shrink-IsBucket :
    (granted : Bool) {b : Bucket} {es : List Entry} (step : ℕ) (v : IsBucket b es)
    → 0 < step
    → IsBucket (bucket_shrink granted step b) es
unfolding bucket_shrink
bucket_shrink-IsBucket granted {b} {es} step v some_step =
    let n = (b.used / step + 1) * step in
    let over : b.used < n = omega (arith, lt-div-mul-add {a = b.used} {b = step} some_step) in
    elim (Bool-cases (ltb (b.used / step + 1) (b.total / step))) [
      | inl wide ↦
          let less : n ≤ b.total / step * step = mul-le-mul_right step (ground arith) in
          let fewer : n < u32_mod = omega (arith, div-mul-le_self b.total step, v.fits) in
          rw wide (if-IsBucket granted (narrow-IsBucket n v (omega (arith, v.used)) fewer) v)
      | inr tight ↦ rw tight v
    ]
