-- ===== src/Hash/Insert.antt =====
-- The writes of hash_add and hash_add_unique into a bucket, at the place that the loop found.
use comment_subs.Prelude.{
  ℕ, suc, ◌+◌, ◌≤◌, ◌<◌, ◌≡◌, refl, ap, ◌∙◌, sym, Option, none, some, List, [], ◌∷◌, ◌++◌, length,
  length-append, arith, add32, sub32, Bytes, streq, append_assoc, append-nil, Bool-cases, inl, inr,
  ◌>>=◌,
}
use comment_subs.Memory.{
  Block, filled, store, memmove, store-append, memmove-open, filled-insert, length-filled,
  filled-append, filled-nil,
}
use comment_subs.Hash.Defs.{
  Entry, Bucket, Place, found, gap, behind, locate, bucket_insert, bucket_assign,
}
use comment_subs.Hash.Entries.{
  AllBelow, IsSorted-split, IsSorted-insert, lookup-insert, lookup-absent,
}
use comment_subs.Hash.Bsearch.{Found, Found-lookup}
use comment_subs.Hash.Locate.{Between, Located, at_entry, at_gap, at_end, locate-Located}
use comment_subs.Hash.Reps.{IsBucket}
use comment_subs.Hash.Outcome.{Maps, pair, Inserted, Assigned}

length-replace :
    (xs ys : List Entry) (e e' : Entry) → length (xs ++ e ∷ ys) ≡ length (xs ++ e' ∷ ys)
length-replace xs ys e e' = length-append xs (e ∷ ys) ∙ sym (length-append xs (e' ∷ ys))

replace-Maps :
    (key : Bytes) (value : ℕ) (xs ys : List Entry) (e : Entry)
    → AllBelow e.key xs
    → e.key ≡ key
    → Maps key value (xs ++ e ∷ ys) (xs ++ record e { value = value } ∷ ys)
replace-Maps key value xs ys e below same k =
    let new = lookup-insert k xs ys (record e { value = value }) below in
    let old = lookup-insert k xs ys e below in
    elim (Bool-cases (streq key k)) [
      | inl hit ↦ rw (new, old, same, hit)
      | inr miss ↦ rw (new, old, same, miss)
    ]

module _ {b : Bucket} {es : List Entry} (v : IsBucket b es) (key : Bytes) (value : ℕ) where
  bucket_assign-Found : {i : ℕ} {e : Entry} → Found key es i e → Assigned b es key value (found i e)
  unfolding bucket_insert bucket_assign
  bucket_assign-Found {i} {e} f =
      let around = IsSorted-split f.before f.after e (rw f.split at v.sorted) in
      let e' = record e { value = value } in
      record {
        after = record b { entries = filled (f.before ++ e' ∷ f.after) ++ v.rest };
        result = f.before ++ e' ∷ f.after;
        old = e.value;
        refused = refl;
        run =
            rw
              (
                v.split,
                f.split,
                filled-insert,
                store-append (filled f.before) (filled f.after ++ v.rest) (some e) e' i
                    (f.place ∙ sym (length-filled f.before)),
                ◌>>=◌,
              )
              (ap (λ l. some (record b { entries = l }, some e.value))
                (sym (filled-insert f.before f.after e' v.rest)));
        held = record {
          rest = v.rest;
          split = refl;
          used = v.used ∙ ap length f.split ∙ length-replace f.before f.after e e';
          total =
              v.total
              ∙ ap (λ n. n + length v.rest)
                  (ap length f.split ∙ length-replace f.before f.after e e');
          fits = v.fits;
          spare =
              λ h. v.spare (omega (arith, ap length f.split, length-replace f.before f.after e e'));
          sorted = IsSorted-insert f.before f.after e' around.2 around.0 around.1;
        };
        present = Found-lookup key es i e v.sorted f;
        maps = rw f.split (replace-Maps key value f.before f.after e around.0 f.same);
        same = sym (ap length f.split ∙ length-replace f.before f.after e e');
      }

module _ {ℓ} {A B C D : Type ℓ} where
  put_regroup :
      (m : Option A) (f : A → Option B) (g : B → Option C) (h : C → Option D)
      → (m >>= λ a. (f a >>= g) >>= h) ≡ ((m >>= f) >>= g) >>= h
  put_regroup none f g h = refl
  put_regroup (some a) f g h = refl

module _ {b : Bucket} {es : List Entry} (v : IsBucket b es) (key : Bytes) (value : ℕ)
    (slot : Option Entry) (rest : Block Entry) (is : b.entries ≡ filled es ++ slot ∷ rest)
    (few : 0 < length rest) (size : length v.rest ≡ suc (length rest)) where
  put-IsBucket :
      {i : ℕ} (f : Between key es i)
      → IsBucket
          (record b {
            entries = filled f.before ++ some (pair key value) ∷ (filled f.after ++ rest);
            used = add32 b.used 1;
          })
          (f.before ++ pair key value ∷ f.after)
  put-IsBucket f =
      let sizes = length-append f.before (pair key value ∷ f.after) in
      let old = ap length f.split ∙ length-append f.before f.after in
      record {
        rest = rest;
        split = sym (filled-insert f.before f.after (pair key value) rest);
        used = omega (arith, v.used, sizes, old, v.total, v.fits);
        total = omega (arith, sizes, old, v.total, size);
        fits = v.fits;
        spare = λ _. few;
        sorted =
            IsSorted-insert f.before f.after (pair key value) (rw f.split at v.sorted) f.below
              f.above;
      }

  Inserted-at :
      {i : ℕ} {place : Place} (f : Between key es i)
      → bucket_insert b (pair key value) place
        ≡ some (
            some (record b {
              entries = filled f.before ++ some (pair key value) ∷ (filled f.after ++ rest);
              used = add32 b.used 1;
            }))
      → Inserted b es key value place
  Inserted-at f run = record {
    after = _;
    result = f.before ++ pair key value ∷ f.after;
    run = run;
    held = put-IsBucket f;
    absent = rw f.split (lookup-absent key f.before f.after f.below f.above);
    maps = rw f.split (λ k. lookup-insert k f.before f.after (pair key value) f.below);
    longer = rw f.split (
        omega (
          arith,
          length-append f.before (pair key value ∷ f.after),
          length-append f.before f.after,
        ));
  }

module _ {b : Bucket} {es : List Entry} (v : IsBucket b es) (key : Bytes) (value : ℕ)
    (slot : Option Entry) (rest : Block Entry) (is : b.entries ≡ filled es ++ slot ∷ rest)
    (few : 0 < length rest) (size : length v.rest ≡ suc (length rest)) where
  bucket_insert-gap : {i : ℕ} → Between key es i → Inserted b es key value (gap i)
  unfolding bucket_insert
  bucket_insert-gap {i} f =
      let e = pair key value in
      let count = sub32 b.used i in
      let moved : count ≡ length (filled f.after) = omega (
        arith,
        v.used,
        v.total,
        v.fits,
        ap length f.split,
        length-append f.before f.after,
        f.place,
        length-filled f.after,
      ) in
      let write : Block Entry → Option Bucket =
        λ block. some (record b { entries = block; used = add32 b.used 1 }) in
      let give : Bucket → Option (Option Bucket) = λ b'. some (some b') in
      let opened : (memmove b.entries (i + 1) i count >>= λ block. store block i e)
          ≡ some (filled f.before ++ some e ∷ (filled f.after ++ rest)) =
        rw (is, f.split, filled-append, append_assoc)
          (memmove-open (filled f.before) (filled f.after) rest slot e i count
            (f.place ∙ sym (length-filled f.before)) moved) in
      Inserted-at v key value slot rest is few size f (
        put_regroup (memmove b.entries (i + 1) i count) (λ block. store block i e) write give
        ∙ ap (λ m. (m >>= write) >>= give) opened)

  bucket_insert-behind :
      {i : ℕ} → i ≡ length es → AllBelow key es → Inserted b es key value (behind i)
  unfolding bucket_insert
  bucket_insert-behind {i} at below =
      Inserted-at v key value slot rest is few size
        (record {
          before = es;
          after = [];
          split = sym (append-nil es);
          place = at;
          below = below;
          above = tt;
        })
        (rw (
          is,
          store-append (filled es) rest slot (pair key value) i (at ∙ sym (length-filled es)),
          ◌>>=◌,
          filled-nil,
        ))

-- What hash_add and hash_add_unique find and write in a bucket with two free slots.
pub data Added (b : Bucket) (es : List Entry) (key : Bytes) (value : ℕ) : Place → Type 0 where
  new : {p : Place} → Inserted b es key value p → Added b es key value p
  old : {p : Place} → Assigned b es key value p → Added b es key value p

module _ {b : Bucket} {es : List Entry} (v : IsBucket b es) (key : Bytes) (value : ℕ) where
  Located-Added :
      (rest : Block Entry)
      → b.entries ≡ filled es ++ rest
      → length v.rest ≡ length rest
      → 2 ≤ length rest
      → (p : Place) → Located key es p
      → Added b es key value p
  Located-Added [] is size few p l = absurd (omega arith)
  Located-Added (slot ∷ rest) is size few p (at_entry f) = old (bucket_assign-Found v key value f)
  Located-Added (slot ∷ rest) is size few p (at_gap f) =
      new (bucket_insert-gap v key value slot rest is (omega arith) size f)
  Located-Added (slot ∷ rest) is size few p (at_end at below) =
      new (bucket_insert-behind v key value slot rest is (omega arith) size at below)

  pub locate-Added :
      2 ≤ length v.rest
      → (p : Place) × (locate b.entries key 0 b.used ≡ some p) × Added b es key value p
  locate-Added few =
      let (p, run, l) = locate-Located key es v.rest v.sorted in
      (p, rw (v.split, v.used) run, Located-Added v.rest v.split refl few p l)
