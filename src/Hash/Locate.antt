-- ===== src/Hash/Locate.antt =====
-- The loop of hash_add and hash_add_unique finds the place of a key in a sorted block.
use comment_subs.Prelude.{
  ℕ, ◌+◌, ◌≡◌, refl, ◌∙◌, sym, Option, some, List, [], ◌∷◌, ◌++◌, Bytes, strcmp, strcmp_flip,
  eq_of_strcmp, arith, length, append_assoc, length-append, inl, inr, Ordering-cases, ◌>>=◌,
  append-nil,
}
use comment_subs.Memory.{Block, load, load-append, filled, filled-insert, length-filled}
use comment_subs.Hash.Defs.{Entry, Place, found, gap, behind, locate}
use comment_subs.Hash.Entries.{
  AllBelow, AllAbove, IsSorted, AllBelow-append, AllAbove-trans, IsSorted-split,
}
use comment_subs.Hash.Bsearch.{Found}

-- A place between two entries, or before the first.
pub record Between (key : Bytes) (es : List Entry) (i : ℕ) : Type 0 where
  pub before : List Entry
  pub after : List Entry
  pub split : es ≡ before ++ after
  pub place : i ≡ length before
  pub below : AllBelow key before
  pub above : AllAbove key after

-- What the loop returns.
pub data Located (key : Bytes) (es : List Entry) : Place → Type 0 where
  at_entry : {i : ℕ} {e : Entry} → Found key es i e → Located key es (found i e)
  at_gap : {i : ℕ} → Between key es i → Located key es (gap i)
  at_end : {i : ℕ} → i ≡ length es → AllBelow key es → Located key es (behind i)

abbrev Locates : Bytes → List Entry → Option Place → Type 0
Locates key es run = (p : Place) × (run ≡ some p) × Located key es p

locate_from :
    (key : Bytes) (es : List Entry) (rest : Block Entry)
    → IsSorted es
    → (xs ys : List Entry) (i : ℕ) → es ≡ xs ++ ys
    → i ≡ length xs
    → AllBelow key xs
    → Locates key es (locate (filled es ++ rest) key i (length ys))
unfolding locate
locate_from key es rest sorted xs [] i is at below =
    let whole : es ≡ xs = is ∙ append-nil xs in
    (behind i, refl, at_end (rw whole at) (rw whole below))
locate_from key es rest sorted xs (y ∷ ys) i is at below =
    let here : load (filled es ++ rest) i ≡ some y =
      rw (is, filled-insert)
        (load-append (filled xs) (filled ys ++ rest) y i (at ∙ sym (length-filled xs))) in
    let around = IsSorted-split xs ys y (rw is at sorted) in
    elim (Ordering-cases (strcmp key y.key)) [
      | inl under ↦ (
        gap i,
        rw (here, ◌>>=◌, under),
        at_gap (record {
          before = xs;
          after = y ∷ ys;
          split = is;
          place = at;
          below = below;
          above = (under, AllAbove-trans key y.key ys around.1 under);
        }),
      )
      | inr (inl eq) ↦ (
        found i y,
        rw (here, ◌>>=◌, eq),
        at_entry (record {
          before = xs;
          after = ys;
          split = is;
          place = at;
          same = sym (eq_of_strcmp key y.key eq);
        }),
      )
      | inr (inr over) ↦
          let (p, run, out) =
            locate_from key es rest sorted (xs ++ y ∷ []) ys (i + 1)
              (is ∙ sym (append_assoc xs (y ∷ []) ys)) (omega (arith, length-append xs (y ∷ [])))
              (AllBelow-append key xs (y ∷ []) below (strcmp_flip key y.key over, tt)) in
          (p, rw (here, ◌>>=◌, over) run, out)
    ]

-- In a sorted block the loop meets no fault.
pub locate-Located :
    (key : Bytes) (es : List Entry) (rest : Block Entry)
    → IsSorted es
    → (p : Place) × (locate (filled es ++ rest) key 0 (length es) ≡ some p) × Located key es p
locate-Located key es rest sorted = locate_from key es rest sorted [] es 0 refl refl tt
