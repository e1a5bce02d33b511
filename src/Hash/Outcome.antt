-- ===== src/Hash/Outcome.antt =====
-- What hash_add and hash_add_unique make of a bucket.
use comment_subs.Prelude.{ℕ, suc, ◌≡◌, none, some, List, length, if◌then◌else◌, Bytes, streq}
use comment_subs.Hash.Defs.{Entry, Bucket, Place, bucket_insert, bucket_assign}
use comment_subs.Hash.Entries.{lookup}
use comment_subs.Hash.Reps.{IsBucket}

-- `new` maps the key to the value, and every other key as `old` does.
abbrev pub Maps : Bytes → ℕ → (old new : List Entry) → Type 0
Maps key value old new =
    (k : Bytes) → lookup k new ≡ (if streq key k then some value else lookup k old)

abbrev pub pair : Bytes → ℕ → Entry
pair key value = record { key = key; value = value }

-- A bucket after the insertion of a new key.
pub record Inserted (b : Bucket) (es : List Entry) (key : Bytes) (value : ℕ) (place : Place)
    : Type 0 where
  pub after : Bucket
  pub result : List Entry
  pub run : bucket_insert b (pair key value) place ≡ some (some after)
  pub held : IsBucket after result
  pub absent : lookup key es ≡ none
  pub maps : Maps key value es result
  pub longer : length result ≡ suc (length es)

-- A bucket after the assignment of a value to a key that is there.
pub record Assigned (b : Bucket) (es : List Entry) (key : Bytes) (value : ℕ) (place : Place)
    : Type 0 where
  pub after : Bucket
  pub result : List Entry
  pub old : ℕ
  pub refused : bucket_insert b (pair key value) place ≡ some none
  pub run : bucket_assign b value place ≡ some (after, some old)
  pub held : IsBucket after result
  pub present : lookup key es ≡ some old
  pub maps : Maps key value es result
  pub same : length result ≡ length es
