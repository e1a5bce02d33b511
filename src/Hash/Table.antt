-- ===== src/Hash/Table.antt =====
-- What a table stands for.
use comment_subs.Prelude.{
  ℕ, zero, suc, ◌+◌, ◌%◌, ◌≤◌, ◌<◌, ◌≡◌, refl, ap, ◌∙◌, sym, Option, some, List, [], ◌∷◌, length,
  length-set, arith, u32_mod, if◌then◌else◌, Bytes, streq, eq_of_streq, Bool-cases, inl, inr,
  get_elem?, get_or, set, ◌>>=◌,
}
use native.Mathlib.Nat.{mod-lt}
use comment_subs.Hash.Superfast.{hash_superfast}
use comment_subs.Hash.Defs.{Entry, Bucket, Hash, hash_pos, hash_find, found_value}
use comment_subs.Hash.Entries.{lookup, IsSorted}
use comment_subs.Hash.Bsearch.{Found-lookup, bsearch-Search, Search, hit, miss}
use comment_subs.Hash.Reps.{IsBucket}

abbrev pub Entries : Type 0
Entries = List (List Entry)

-- The buckets hold the lists of entries, one by one.
abbrev pub Holds : List Bucket → Entries → Type 0
Holds [] [] = Unit
Holds [] (es ∷ ess) = zero < zero
Holds (b ∷ bs) [] = zero < zero
Holds (b ∷ bs) (es ∷ ess) = IsBucket b es × Holds bs ess

unfoldable pub entry_count : Entries → ℕ
entry_count [] = 0
entry_count (es ∷ ess) = length es + entry_count ess

unfoldable pub place_of : Entries → Bytes → ℕ
place_of ess k = hash_superfast k % length ess

-- The value of a key.
unfoldable pub hash_lookup : Entries → Bytes → Option ℕ
hash_lookup ess k = lookup k (get_or ess (place_of ess k) [])

-- The table has buckets that hold `ess`, each with a free slot if it has an entry; its step is two
-- at least, and it counts its entries.
pub record IsHash (h : Hash) (ess : Entries) : Type 0 where
  pub holds : Holds h.buckets ess
  pub n_buckets : h.n_buckets ≡ length ess
  pub some_bucket : 0 < length ess
  pub step : 2 ≤ h.step
  pub count : h.count ≡ entry_count ess
  pub small : entry_count ess < u32_mod

pub Holds-get :
    (bs : List Bucket) (ess : Entries) (i : ℕ)
    → Holds bs ess
    → i < length ess
    → (b : Bucket) × (get_elem? bs i ≡ some b) × IsBucket b (get_or ess i [])
Holds-get bs [] i h few = absurd (omega arith)
Holds-get [] (es ∷ ess) i h few = absurd (omega (arith, h))
Holds-get (b ∷ bs) (es ∷ ess) zero h few = (b, refl, h.0)
Holds-get (b ∷ bs) (es ∷ ess) (suc i) h few = Holds-get bs ess i h.1 (omega arith)

pub Holds-set :
    (bs : List Bucket) (ess : Entries) (i : ℕ) (b : Bucket) (es : List Entry)
    → Holds bs ess
    → IsBucket b es
    → Holds (set bs i b) (set ess i es)
Holds-set [] [] i b es h v = h
Holds-set [] (y ∷ ess) zero b es h v = h
Holds-set [] (y ∷ ess) (suc i) b es h v = h
Holds-set (x ∷ bs) [] zero b es h v = h
Holds-set (x ∷ bs) [] (suc i) b es h v = h
Holds-set (x ∷ bs) (y ∷ ess) zero b es h v = (v, h.1)
Holds-set (x ∷ bs) (y ∷ ess) (suc i) b es h v = (h.0, Holds-set bs ess i b es h.1 v)

pub entry_count-set :
    (ess : Entries) (i : ℕ) (es : List Entry)
    → i < length ess
    → entry_count (set ess i es) + length (get_or ess i []) ≡ entry_count ess + length es
unfolding entry_count
entry_count-set [] i es few = absurd (omega arith)
entry_count-set (y ∷ ess) zero es few = omega arith
entry_count-set (y ∷ ess) (suc i) es few = omega (arith, entry_count-set ess i es (omega arith))

get_or-set :
    (ess : Entries) (i : ℕ) (es : List Entry) → i < length ess → get_or (set ess i es) i [] ≡ es
get_or-set [] i es few = absurd (omega arith)
get_or-set (y ∷ ess) zero es few = refl
get_or-set (y ∷ ess) (suc i) es few = get_or-set ess i es (omega arith)

-- A bucket whose new entries map the key `k` as the old ones did.
lookup-set :
    (k : Bytes) (ess : Entries) (i j : ℕ) (es : List Entry)
    → lookup k es ≡ lookup k (get_or ess i [])
    → lookup k (get_or (set ess i es) j []) ≡ lookup k (get_or ess j [])
lookup-set k [] i j es h = refl
lookup-set k (y ∷ ess) zero zero es h = h
lookup-set k (y ∷ ess) zero (suc j) es h = refl
lookup-set k (y ∷ ess) (suc i) zero es h = refl
lookup-set k (y ∷ ess) (suc i) (suc j) es h = lookup-set k ess i j es h

pub place_of-lt : (ess : Entries) (k : Bytes) → 0 < length ess → place_of ess k < length ess
unfolding place_of
place_of-lt ess k h = mod-lt (hash_superfast k) h

-- A change of the bucket of a key changes no other key.
pub hash_lookup-set :
    (key k : Bytes) (ess : Entries) (es : List Entry) (v : Option ℕ)
    → 0 < length ess
    → lookup k es ≡ (if streq key k then v else lookup k (get_or ess (place_of ess key) []))
    → hash_lookup (set ess (place_of ess key) es) k ≡ (if streq key k then v else hash_lookup ess k)
unfolding hash_lookup place_of
hash_lookup-set key k ess es v some_bucket h = elim (Bool-cases (streq key k)) [
  | inl same ↦
      rw (same, length-set ess (place_of ess key) es)
        (ap (λ q. lookup k (get_or (set ess (place_of ess key) es) (place_of ess q) []))
            (sym (eq_of_streq key k same))
          ∙ ap (lookup k) (get_or-set ess (place_of ess key) es (place_of-lt ess key some_bucket))
          ∙ h
          ∙ rw same)
  | inr other ↦
      rw (other, length-set ess (place_of ess key) es)
        (lookup-set k ess (place_of ess key) (place_of ess k) es (h ∙ rw other))
]

Search-value :
    (key : Bytes) (es : List Entry) (r : Option (ℕ × Entry))
    → IsSorted es
    → Search key es r
    → found_value r ≡ lookup key es
Search-value key es r sorted (hit {i} {e} f) = sym (Found-lookup key es i e sorted f)
Search-value key es r sorted (miss absent) = sym absent

module _ {h : Hash} {ess : Entries} (v : IsHash h ess) where
  pub hash_pos-place : (key : Bytes) → hash_pos h key ≡ some (place_of ess key)
  unfolding hash_pos place_of
  hash_pos-place key = ground (arith, v.n_buckets, v.some_bucket)

  -- In a table that holds its entries in order (IsHash), hash_find meets no fault and returns the
  -- value of the key, and NULL for a key that is not there.
  pub hash_find-lookup : (key : Bytes) → hash_find h key ≡ some (hash_lookup ess key)
  unfolding hash_find hash_lookup
  hash_find-lookup key =
      let (b, here, w) =
        Holds-get h.buckets ess (place_of ess key) v.holds (place_of-lt ess key v.some_bucket) in
      let (r, run, out) = bsearch-Search key (get_or ess (place_of ess key) []) w.rest w.sorted in
      rw (hash_pos-place key, here, w.split, w.used, run, ◌>>=◌)
        (ap some (Search-value key (get_or ess (place_of ess key) []) r w.sorted out))
