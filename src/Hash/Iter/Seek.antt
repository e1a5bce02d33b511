-- ===== src/Hash/Iter/Seek.antt =====
-- The loop of hash_iter_next over empty buckets.
use comment_subs.Prelude.{
  ℕ, ◌+◌, ◌≡◌, refl, ap, ◌∙◌, sym, true, false, Option, some, List, [], ◌∷◌, ◌++◌, length,
  length-append, append_assoc, arith, get_elem?, get_or, ltb, ◌>>=◌,
}
use comment_subs.Hash.Defs.{Entry, Bucket, Hash}
use comment_subs.Hash.Reps.{IsBucket}
use comment_subs.Hash.Table.{Entries, Holds, Holds-get}
use comment_subs.Hash.Iter.Defs.{iter_seek, all_entries}

get_or-append :
    (pre post : Entries) (es : List Entry) → get_or (pre ++ es ∷ post) (length pre) [] ≡ es
get_or-append [] post es = refl
get_or-append (x ∷ pre) post es = get_or-append pre post es

-- The bucket behind the buckets of `pre`.
pub bucket-at :
    (h : Hash) (ess pre post : Entries) (es : List Entry)
    → Holds h.buckets ess
    → ess ≡ pre ++ es ∷ post
    → (b : Bucket) × (get_elem? h.buckets (length pre) ≡ some b) × IsBucket b es
bucket-at h ess pre post es held is =
    let size = ap length is ∙ length-append pre (es ∷ post) in
    let (b, there, v) = Holds-get h.buckets ess (length pre) held (omega (arith, size)) in
    let same : get_or ess (length pre) [] ≡ es =
      ap (λ l. get_or l (length pre) []) is ∙ get_or-append pre post es in
    (b, there, rw same at v)

-- Where the loop over the buckets ends.
pub data Sought (h : Hash) (ess pre post : Entries) (run : Option ℕ) : Type 0 where
  all_empty :
      all_entries post ≡ [] → run ≡ some (length pre + length post) → Sought h ess pre post run
  at_bucket :
      (pre' post' : Entries) (e : Entry) (es : List Entry)
      → ess ≡ pre' ++ (e ∷ es) ∷ post'
      → all_entries post ≡ e ∷ (es ++ all_entries post')
      → run ≡ some (length pre')
      → Sought h ess pre post run

pub iter_seek-Sought :
    (h : Hash) (ess pre post : Entries) (bucket : ℕ)
    → Holds h.buckets ess
    → ess ≡ pre ++ post
    → bucket ≡ length pre
    → Sought h ess pre post (iter_seek h bucket (length post))
unfolding iter_seek all_entries
iter_seek-Sought h ess pre [] bucket held is at = all_empty refl (ap some (omega arith))
iter_seek-Sought h ess pre ((e ∷ es) ∷ post) bucket held is at =
    let (b, there, v) = bucket-at h ess pre post (e ∷ es) held is in
    let more : ltb 0 b.used ≡ true = ground (arith, v.used) in
    at_bucket pre post e es is refl (rw (at, there, ◌>>=◌, more))
iter_seek-Sought h ess pre ([] ∷ post) bucket held is at =
    let (b, there, v) = bucket-at h ess pre post [] held is in
    let none_used : ltb 0 b.used ≡ false = ground (arith, v.used) in
    let size = length-append pre ([] ∷ []) in
    let skip : iter_seek h bucket (length ([] ∷ post)) ≡ iter_seek h (bucket + 1) (length post) =
      rw (at, there, ◌>>=◌, none_used) in
    elim (iter_seek-Sought h ess (pre ++ [] ∷ []) post (bucket + 1) held
      (is ∙ sym (append_assoc pre ([] ∷ []) post)) (omega (arith, size))) [
        | all_empty empty run ↦ all_empty empty (skip ∙ run ∙ ap some (omega (arith, size)))
        | at_bucket pre' post' e es where_ whole run ↦
            at_bucket pre' post' e es where_ whole (skip ∙ run)
      ]
