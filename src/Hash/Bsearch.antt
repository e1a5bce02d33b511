-- ===== src/Hash/Bsearch.antt =====
-- bsearch finds the entry of a key in a sorted block.
use comment_subs.Prelude.{
  ℕ, zero, suc, ◌+◌, ◌-◌, ◌/◌, ◌<◌, ◌≡◌, refl, ap, ◌∙◌, sym, true, false, Option, none, some, List,
  [], ◌∷◌, ◌++◌, Bytes, strcmp, strcmp_flip, eq_of_strcmp, arith, length, append_assoc,
  length-append, inl, inr, ltb, Ordering-cases, lt→ltb, le→ltb_false, ◌>>=◌, append-nil, streq_refl,
}
use comment_subs.Memory.{Block, load, load-append, filled, filled-insert, length-filled}
use comment_subs.Hash.Defs.{Entry, bsearch}
use comment_subs.Hash.Entries.{
  lookup, AllBelow, AllAbove, IsSorted, AllBelow-append, AllBelow-trans, AllAbove-trans,
  IsSorted-split, lookup-absent, lookup-insert,
}

-- An entry of the key, at its place.
pub record Found (key : Bytes) (es : List Entry) (i : ℕ) (e : Entry) : Type 0 where
  pub before : List Entry
  pub after : List Entry
  pub split : es ≡ before ++ e ∷ after
  pub place : i ≡ length before
  pub same : e.key ≡ key

pub Found-lookup :
    (key : Bytes) (es : List Entry) (i : ℕ) (e : Entry)
    → IsSorted es
    → Found key es i e
    → lookup key es ≡ some e.value
Found-lookup key es i e sorted f =
    let around = IsSorted-split f.before f.after e (rw f.split at sorted) in
    rw (f.split, lookup-insert key f.before f.after e around.0, f.same, streq_refl key)

-- What bsearch returns.
pub data Search (key : Bytes) (es : List Entry) : Option (ℕ × Entry) → Type 0 where
  hit : {i : ℕ} {e : Entry} → Found key es i e → Search key es (some (i, e))
  miss : lookup key es ≡ none → Search key es none

split_at :
    (ms : List Entry) (i : ℕ)
    → i < length ms
    → (ls : List Entry) × (m : Entry) × (bs : List Entry) × (ms ≡ ls ++ m ∷ bs) × (length ls ≡ i)
split_at [] i h = absurd (omega arith)
split_at (m ∷ ms) zero h = ([], m, ms, refl, refl)
split_at (m ∷ ms) (suc i) h =
    let (ls, e, bs, is, size) = split_at ms i (omega arith) in
    (m ∷ ls, e, bs, ap (λ l. m ∷ l) is, ap suc size)

abbrev Finds : Bytes → List Entry → Option (Option (ℕ × Entry)) → Type 0
Finds key es run = (r : Option (ℕ × Entry)) × (run ≡ some r) × Search key es r

-- The search between `xs`, which is below the key, and `zs`, which is above it.
abbrev Between : ℕ → Bytes → List Entry → Block Entry → Type 0
Between fuel key es rest =
    (xs ms zs : List Entry) (lo hi : ℕ)
    → es ≡ xs ++ (ms ++ zs)
    → lo ≡ length xs
    → hi ≡ length xs + length ms
    → AllBelow key xs
    → AllAbove key zs
    → length ms < fuel
    → Finds key es (bsearch fuel (filled es ++ rest) key lo hi)

module _ (fuel : ℕ) (key : Bytes) (xs ls bs zs es : List Entry) (m : Entry) (rest : Block Entry)
    (lo hi : ℕ) (a : lo ≡ length xs) (b : hi ≡ length xs + (length ls + suc (length bs)))
    (whole : es ≡ (xs ++ ls) ++ m ∷ (bs ++ zs)) (at : (lo + hi) / 2 ≡ length (xs ++ ls))
    (below : AllBelow key xs) (above : AllAbove key zs) (sorted : IsSorted es)
    (room : length ls + suc (length bs) < suc fuel) (further : Between fuel key es rest) where
  bsearch_step : Finds key es (bsearch (suc fuel) (filled es ++ rest) key lo hi)
  unfolding bsearch
  bsearch_step =
      let more : ltb lo hi ≡ true = lt→ltb lo hi (omega arith) in
      let here : load (filled es ++ rest) ((lo + hi) / 2) ≡ some m =
        rw (whole, filled-insert)
          (load-append (filled (xs ++ ls)) (filled (bs ++ zs) ++ rest) m ((lo + hi) / 2)
            (at ∙ sym (length-filled (xs ++ ls)))) in
      let around = IsSorted-split (xs ++ ls) (bs ++ zs) m (rw whole at sorted) in
      elim (Ordering-cases (strcmp key m.key)) [
        | inl below_m ↦
            let (r, run, out) =
              further xs ls (m ∷ (bs ++ zs)) lo ((lo + hi) / 2)
                (whole ∙ append_assoc xs ls (m ∷ (bs ++ zs))) a (omega (arith, length-append xs ls))
                below (below_m, AllAbove-trans key m.key (bs ++ zs) around.1 below_m)
                (omega arith) in
            (r, rw (more, here, ◌>>=◌, below_m) run, out)
        | inr (inl eq) ↦ (
          some ((lo + hi) / 2, m),
          rw (more, here, ◌>>=◌, eq),
          hit (record {
            before = xs ++ ls;
            after = bs ++ zs;
            split = whole;
            place = at;
            same = sym (eq_of_strcmp key m.key eq);
          }),
        )
        | inr (inr over) ↦
            let under = strcmp_flip key m.key over in
            let longer = length-append (xs ++ ls) (m ∷ []) in
            let (r, run, out) =
              further ((xs ++ ls) ++ m ∷ []) bs zs ((lo + hi) / 2 + 1) hi
                (whole ∙ sym (append_assoc (xs ++ ls) (m ∷ []) (bs ++ zs))) (omega (arith, longer))
                (omega (arith, longer, length-append xs ls))
                (AllBelow-append key (xs ++ ls) (m ∷ [])
                  (AllBelow-trans m.key key (xs ++ ls) around.0 under) (under, tt))
                above (omega arith) in
            (r, rw (more, here, ◌>>=◌, over) run, out)
      ]

bsearch-Between :
    (fuel : ℕ) (key : Bytes) (es : List Entry) (rest : Block Entry)
    → IsSorted es
    → Between fuel key es rest
unfolding bsearch
bsearch-Between zero key es rest sorted xs ms zs lo hi is a b below above h = absurd (omega arith)
bsearch-Between (suc fuel) key es rest sorted xs [] zs lo hi is a b below above h =
    let done : ltb lo hi ≡ false = le→ltb_false lo hi (omega arith) in
    (none, rw done, miss (rw is (lookup-absent key xs zs below above)))
bsearch-Between (suc fuel) key es rest sorted xs (x ∷ ms) zs lo hi is a b below above h =
    let (ls, m, bs, cut, size) = split_at (x ∷ ms) ((lo + hi) / 2 - lo) (omega arith) in
    let sizes : length (x ∷ ms) ≡ length ls + suc (length bs) =
      ap length cut ∙ length-append ls (m ∷ bs) in
    let whole : es ≡ (xs ++ ls) ++ m ∷ (bs ++ zs) =
      is
      ∙ ap (λ l. xs ++ (l ++ zs)) cut
      ∙ ap (λ l. xs ++ l) (append_assoc ls (m ∷ bs) zs)
      ∙ sym (append_assoc xs ls (m ∷ (bs ++ zs))) in
    bsearch_step fuel key xs ls bs zs es m rest lo hi a (omega arith) whole
      (omega (arith, length-append xs ls)) below above sorted (omega arith)
      (bsearch-Between fuel key es rest sorted)

-- In a sorted block of `n` entries, bsearch meets no fault and ends, with `n + 1` rounds at most.
pub bsearch-Search :
    (key : Bytes) (es : List Entry) (rest : Block Entry)
    → IsSorted es
    → (r : Option (ℕ × Entry)) × (bsearch (length es + 1) (filled es ++ rest) key 0 (length es)
        ≡ some r)
      × Search key es r
bsearch-Search key es rest sorted =
    bsearch-Between (length es + 1) key es rest sorted [] es [] 0 (length es) (sym (append-nil es))
      refl (omega arith) tt tt (omega arith)
