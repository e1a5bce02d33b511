-- ===== src/Hash/Free.antt =====
-- hash_free.
use comment_subs.Prelude.{
  ℕ, zero, suc, ◌+◌, ◌≡◌, refl, ap, ◌∙◌, sym, Bool, true, Option, none, some, List, [], ◌∷◌, ◌++◌,
  length, length-append, append_assoc, arith, if◌then◌else◌, ◌>>=◌,
}
use comment_subs.Memory.{Block, filled, load, load-append, filled-insert, length-filled}
use comment_subs.Hash.Defs.{Entry, Bucket, Hash}
use comment_subs.Hash.Table.{Entries, IsHash, Holds}
use comment_subs.Hash.Iter.{all_entries}

-- The loop over the entries from `i` on, with `n` to go: the values that free_value is called with.
unfoldable pub free_entries : Block Entry → (i n : ℕ) → Option (List ℕ)
free_entries b i zero = some []
free_entries b i (suc n) = do
  e ← load b i
  values ← free_entries b (i + 1) n
  some (e.value ∷ values)

-- The loop over the buckets, with `n` to go.
unfoldable pub free_buckets : (frees : Bool) → ℕ → List Bucket → Option (List ℕ)
free_buckets frees zero bs = some []
free_buckets frees (suc n) [] = none
free_buckets frees (suc n) (b ∷ bs) = do
  values ← if frees then free_entries b.entries 0 b.used else some []
  others ← free_buckets frees n bs
  some (values ++ others)

unfoldable pub hash_free : (frees : Bool) → Hash → Option (List ℕ)
hash_free frees h = free_buckets frees h.n_buckets h.buckets

abbrev pub values_of : List Entry → List ℕ
values_of [] = []
values_of (e ∷ es) = e.value ∷ values_of es

values_of-append : (xs ys : List Entry) → values_of (xs ++ ys) ≡ values_of xs ++ values_of ys
values_of-append [] ys = refl
values_of-append (x ∷ xs) ys = ap (λ l. x.value ∷ l) (values_of-append xs ys)

free_entries-values :
    (xs ys : List Entry) (rest : Block Entry) (i : ℕ)
    → i ≡ length xs
    → free_entries (filled (xs ++ ys) ++ rest) i (length ys) ≡ some (values_of ys)
unfolding free_entries
free_entries-values xs [] rest i at = refl
free_entries-values xs (y ∷ ys) rest i at =
    let loaded : load (filled (xs ++ y ∷ ys) ++ rest) i ≡ some y =
      rw filled-insert
        (load-append (filled xs) (filled ys ++ rest) y i (at ∙ sym (length-filled xs))) in
    let further : free_entries (filled (xs ++ y ∷ ys) ++ rest) (i + 1) (length ys)
        ≡ some (values_of ys) =
      ap (λ l. free_entries (filled l ++ rest) (i + 1) (length ys))
        (sym (append_assoc xs (y ∷ []) ys))
      ∙ free_entries-values (xs ++ y ∷ []) ys rest (i + 1)
          (omega (arith, length-append xs (y ∷ []))) in
    rw (loaded, ◌>>=◌, further)

free_buckets-values :
    (bs : List Bucket) (ess : Entries)
    → Holds bs ess
    → free_buckets true (length ess) bs ≡ some (values_of (all_entries ess))
unfolding free_buckets all_entries
free_buckets-values bs [] held = refl
free_buckets-values [] (es ∷ ess) held = absurd (omega (arith, held))
free_buckets-values (b ∷ bs) (es ∷ ess) held =
    let v = held.0 in
    let own : free_entries b.entries 0 b.used ≡ some (values_of es) =
      rw (v.split, v.used) (free_entries-values [] es v.rest 0 refl) in
    rw (own, ◌>>=◌, free_buckets-values bs ess held.1, values_of-append es (all_entries ess))

-- On a table that holds its entries in order (IsHash) and has a function free_value, hash_free
-- meets no fault and calls this function with the value of every entry, once.
pub hash_free-values :
    (h : Hash) (ess : Entries)
    → IsHash h ess
    → hash_free true h ≡ some (values_of (all_entries ess))
unfolding hash_free
hash_free-values h ess v = rw v.n_buckets (free_buckets-values h.buckets ess v.holds)
