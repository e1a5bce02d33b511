-- ===== src/Hash/Iter/All.antt =====
-- An iteration over a whole table.
use comment_subs.Prelude.{
  ℕ, zero, suc, ◌+◌, ◌-◌, ◌<◌, ◌≡◌, refl, ap, ◌∙◌, sym, true, false, Option, none, some, List, [],
  ◌∷◌, ◌++◌, length, length-append, append_assoc, append-nil, arith, add32, get_elem?, leb, le→leb,
  lt→leb_false, ◌>>=◌,
}
use comment_subs.Memory.{filled, load, load-append, filled-insert, length-filled}
use comment_subs.Hash.Defs.{Entry, Bucket, Hash}
use comment_subs.Hash.Reps.{IsBucket}
use comment_subs.Hash.Table.{Entries, IsHash}
use comment_subs.Hash.Iter.Defs.{Iter, all_entries, hash_iter_init, hash_iter_next, iterate}
use comment_subs.Hash.Iter.Seek.{bucket-at, all_empty, at_bucket, iter_seek-Sought}

load-entry :
    {b : Bucket} (xs ys : List Entry) (y : Entry) (n : ℕ)
    → IsBucket b (xs ++ y ∷ ys)
    → n ≡ length xs
    → load b.entries n ≡ some y
load-entry xs ys y n v at =
    rw (v.split, filled-insert)
      (load-append (filled xs) (filled ys ++ v.rest) y n (at ∙ sym (length-filled xs)))

-- An iterator at a place of the table, with the entries that follow.
record IsAt (ess : Entries) (it : Iter) (ys : List Entry) : Type 0 where
  pre : Entries
  xs : List Entry
  own : List Entry
  post : Entries
  split : ess ≡ pre ++ (xs ++ own) ∷ post
  bucket : it.bucket ≡ length pre
  entry : add32 it.entry 1 ≡ length xs
  follow : ys ≡ own ++ all_entries post

-- A call of hash_iter_next with the entries `ys` to come.
data Next (ess : Entries) (run : Option (Iter × Option Entry)) : List Entry → Type 0 where
  ended : (it : Iter) → run ≡ some (it, none) → Next ess run []
  gives :
      (it : Iter) (y : Entry) (ys : List Entry)
      → run ≡ some (it, some y)
      → IsAt ess it ys
      → Next ess run (y ∷ ys)

module _ (h : Hash) (ess : Entries) (v : IsHash h ess) where
  -- The next entry of the same bucket.
  Next-within :
      (pre post : Entries) (xs ys : List Entry) (y : Entry) (it : Iter)
      → ess ≡ pre ++ (xs ++ y ∷ ys) ∷ post
      → it.bucket ≡ length pre
      → add32 it.entry 1 ≡ length xs
      → Next ess (hash_iter_next h it) (y ∷ (ys ++ all_entries post))
  unfolding hash_iter_next
  Next-within pre post xs ys y it is at_b at_e =
      let (b, there, w) = bucket-at h ess pre post (xs ++ y ∷ ys) v.holds is in
      let more : leb b.used (add32 it.entry 1) ≡ false =
        lt→leb_false _ _ (omega (arith, at_e, w.used, length-append xs (y ∷ ys))) in
      let it' : Iter = record { bucket = it.bucket; entry = add32 it.entry 1 } in
      let found : get_elem? h.buckets it.bucket ≡ some b = rw at_b there in
      gives it' y (ys ++ all_entries post)
        (rw (found, ◌>>=◌, more, load-entry xs ys y (add32 it.entry 1) w at_e))
        (record {
          pre = pre;
          xs = xs ++ y ∷ [];
          own = ys;
          post = post;
          split = is ∙ ap (λ l. pre ++ l ∷ post) (sym (append_assoc xs (y ∷ []) ys));
          bucket = at_b;
          entry =
              omega (
                arith,
                at_e,
                w.total,
                w.fits,
                length-append xs (y ∷ ys),
                length-append xs (y ∷ []),
              );
          follow = refl;
        })

  -- What follows the last entry of a bucket.
  Next-over :
      (pre post : Entries) (xs : List Entry) (it : Iter)
      → ess ≡ pre ++ xs ∷ post
      → it.bucket ≡ length pre
      → add32 it.entry 1 ≡ length xs
      → Next ess (hash_iter_next h it) (all_entries post)
  unfolding hash_iter_next
  Next-over pre post xs it is at_b at_e =
      let (b, there, w) = bucket-at h ess pre post xs v.holds is in
      let over : leb b.used (add32 it.entry 1) ≡ true = le→leb _ _ (omega (arith, at_e, w.used)) in
      let found : get_elem? h.buckets it.bucket ≡ some b = rw at_b there in
      let size = length-append pre (xs ∷ []) in
      let whole = ap length is ∙ length-append pre (xs ∷ post) in
      let left : h.n_buckets - (it.bucket + 1) ≡ length post =
        omega (arith, v.n_buckets, whole, at_b) in
      elim (iter_seek-Sought h ess (pre ++ xs ∷ []) post (it.bucket + 1) v.holds
        (is ∙ sym (append_assoc pre (xs ∷ []) post)) (omega (arith, size, at_b))) [
          | all_empty empty run ↦
              let behind : leb h.n_buckets (length (pre ++ xs ∷ []) + length post) ≡ true =
                le→leb _ _ (omega (arith, v.n_buckets, whole, size)) in
              rw empty (
                ended (record { bucket = length (pre ++ xs ∷ []) + length post; entry = 0 })
                  (rw (found, ◌>>=◌, over, left, run, behind)))
          | at_bucket pre' post' e es is' rest run ↦
              let (b', there', w') = bucket-at h ess pre' post' (e ∷ es) v.holds is' in
              let before : leb h.n_buckets (length pre') ≡ false = lt→leb_false _ _ (
                omega (arith, v.n_buckets, ap length is', length-append pre' ((e ∷ es) ∷ post'))) in
              rw rest (
                gives (record { bucket = length pre'; entry = 0 }) e (es ++ all_entries post')
                  (rw (found, ◌>>=◌, over, left, run, before, there', load-entry [] es e 0 w' refl))
                  (record {
                    pre = pre';
                    xs = e ∷ [];
                    own = es;
                    post = post';
                    split = is';
                    bucket = refl;
                    entry = omega arith;
                    follow = refl;
                  }))
        ]

module _ (h : Hash) (ess : Entries) (v : IsHash h ess) where
  Next-own :
      (it : Iter) (ys own : List Entry) (at : IsAt ess it ys)
      → at.own ≡ own
      → Next ess (hash_iter_next h it) ys
  Next-own it ys [] at is =
      let e : ys ≡ all_entries at.post = at.follow ∙ ap (λ l. l ++ all_entries at.post) is in
      rw e (
        Next-over h ess v at.pre at.post at.xs it
          (at.split ∙ ap (λ l. at.pre ++ l ∷ at.post) (ap (λ l. at.xs ++ l) is ∙ append-nil at.xs))
          at.bucket at.entry)
  Next-own it ys (y ∷ own) at is =
      let e : ys ≡ y ∷ (own ++ all_entries at.post) =
        at.follow ∙ ap (λ l. l ++ all_entries at.post) is in
      rw e (
        Next-within h ess v at.pre at.post at.xs own y it
          (at.split ∙ ap (λ l. at.pre ++ (at.xs ++ l) ∷ at.post) is) at.bucket at.entry)

  iterate-from :
      (fuel : ℕ) (it : Iter) (ys : List Entry)
      → length ys < fuel
      → Next ess (hash_iter_next h it) ys
      → iterate fuel h it ≡ some ys
  unfolding iterate
  iterate-from zero it ys few n = absurd (omega arith)
  iterate-from (suc fuel) it ys few (ended it' run) = rw (run, ◌>>=◌)
  iterate-from (suc fuel) it ys few (gives it' y ys' run at) =
      rw (run, ◌>>=◌, iterate-from fuel it' ys' (omega arith) (Next-own it' ys' at.own at refl))

all_entries-cons :
    (es : List Entry) (ess : Entries) → all_entries (es ∷ ess) ≡ es ++ all_entries ess
unfolding all_entries
all_entries-cons es ess = refl

-- On a table that holds its entries in order (IsHash), the calls of hash_iter_next, from
-- hash_iter_init until one returns false, give every entry of the table once, bucket by bucket and
-- in the order of the keys in each bucket. One call more than there are entries is enough.
pub hash_iter_next-all_entries :
    (h : Hash) (ess : Entries)
    → IsHash h ess
    → iterate (length (all_entries ess) + 1) h hash_iter_init ≡ some (all_entries ess)
unfolding hash_iter_init
hash_iter_next-all_entries h [] v = absurd (omega (arith, v.some_bucket))
hash_iter_next-all_entries h (es ∷ ess) v =
    iterate-from h (es ∷ ess) v (length (all_entries (es ∷ ess)) + 1) hash_iter_init
      (all_entries (es ∷ ess)) (omega arith)
      (Next-own h (es ∷ ess) v hash_iter_init (all_entries (es ∷ ess)) es
        (record {
          pre = [];
          xs = [];
          own = es;
          post = ess;
          split = refl;
          bucket = refl;
          entry = omega arith;
          follow = all_entries-cons es ess;
        })
        refl)
