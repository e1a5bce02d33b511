-- ===== src/Array/Edit.antt =====
-- array_pop, array_remove_at and the shrinking that they share.
use comment_subs.Prelude.{
  ℕ, suc, ◌+◌, ◌≤◌, ◌≡◌, ap, ◌∙◌, sym, Bool, true, false, some, List, [], ◌∷◌, ◌++◌, arith, length,
  length-append, pos, enoent, Bool-cases, inl, inr, leb, ltb, add_size, sub_size, le→leb, lt→ltb,
  if◌then◌else◌, append-nil, le→ltb_false, lt→leb_false,
}
use comment_subs.Memory.{
  Block, filled, length-filled, filled-insert, filled-nil, filled_regroup, memmove-close,
}
use comment_subs.Array.Defs.{Ptr, Array, array_pop, array_remove_at, array_shrink, array_close}
use comment_subs.Array.Reps.{IsArray}
use comment_subs.Array.Grow.{count-le, array_resize-IsArray}

either-IsArray :
    (granted : Bool) {b a : Array} {xs : List Ptr}
    → IsArray b xs
    → IsArray a xs
    → IsArray (if granted then b else a) xs
either-IsArray true held v = held
either-IsArray false held v = v

-- Whether or not realloc succeeds, the array holds the same pointers.
array_shrink-IsArray :
    (granted : Bool) {a : Array} {xs : List Ptr} (v : IsArray a xs)
    → (a' : Array) × (array_shrink granted a ≡ some a') × IsArray a' xs
unfolding array_shrink
array_shrink-IsArray granted {a} v = elim (Bool-cases (ltb (add_size a.count a.step) a.total)) [
  | inl wide ↦
      let (b, shrunk, held, _, _) =
        array_resize-IsArray v (sub_size a.total a.step)
          (ground (arith, count-le v, v.count, v.fits, v.small))
          (ground (arith, count-le v, v.count, v.fits, v.small)) in
      (
        if granted then b else a,
        rw (wide, shrunk, lt→ltb 0 a.step v.step),
        either-IsArray granted held v,
      )
  | inr tight ↦ (a, rw tight, v)
]

-- array_pop of an array that holds a pointer meets no fault and drops the last one, whether or not
-- realloc succeeds.
pub array_pop-IsArray :
    (granted : Bool) {a : Array} (xs : List Ptr) (x : Ptr) (v : IsArray a (xs ++ x ∷ []))
    → (a' : Array) × (array_pop granted a ≡ some a') × IsArray a' xs
unfolding array_pop
array_pop-IsArray granted xs x v = array_shrink-IsArray granted (record {
  rest = some x ∷ v.rest;
  split = rw (v.split, filled-insert, filled-nil);
  count = omega (arith, v.count, count-le v, v.fits, length-append xs (x ∷ []));
  total = v.total;
  step = v.step;
  fits = v.fits;
  small = v.small;
  live = v.live;
})

module _ {a : Array} where
  -- The slots behind the removed pointer move down by one.
  array_close-IsArray :
      (xs ys : List Ptr) (x : Ptr) (v : IsArray a (xs ++ x ∷ ys))
      → (b : Block Ptr) × (array_close a.block (sub_size a.count 1) (length xs) ≡ some b)
        × IsArray (record a { block = b; count = sub_size a.count 1 }) (xs ++ ys)
  unfolding array_close
  array_close-IsArray xs [] x v =
      let size : a.count ≡ length xs + 1 = v.count ∙ length-append xs (x ∷ []) in
      let last : ltb (length xs) (sub_size a.count 1) ≡ false =
        le→ltb_false _ _ (omega (arith, v.fits, count-le v, v.count)) in
      (
        a.block,
        rw last,
        record {
          rest = some x ∷ v.rest;
          split = rw (append-nil, v.split, filled-insert, filled-nil);
          count = rw append-nil (omega (arith, v.fits, count-le v, v.count));
          total = v.total;
          step = v.step;
          fits = v.fits;
          small = v.small;
          live = v.live;
        },
      )
  array_close-IsArray xs (y ∷ ys) x v =
      let size : a.count ≡ length xs + suc (suc (length ys)) =
        v.count ∙ length-append xs (x ∷ y ∷ ys) in
      let low : sub_size a.count 1 ≡ length xs + suc (length ys) =
        omega (arith, v.fits, count-le v, v.count) in
      let inner : ltb (length xs) (sub_size a.count 1) ≡ true = lt→ltb _ _ (omega arith) in
      let m = sub_size (sub_size a.count 1) (length xs) in
      let moving : m ≡ length (filled (y ∷ ys)) + 0 =
        omega (arith, v.fits, count-le v, v.count, length-filled (y ∷ ys)) in
      let split' : a.block ≡ filled xs ++ some x ∷ (filled (y ∷ ys) ++ v.rest) =
        v.split ∙ filled-insert xs (y ∷ ys) x v.rest in
      let (tail, moved, longer) =
        memmove-close (filled xs) (filled (y ∷ ys)) v.rest (some x) (length xs) 0 m split'
          (sym (length-filled xs)) moving (omega arith) in
      (
        filled xs ++ (filled (y ∷ ys) ++ tail),
        rw (inner, moved),
        record {
          rest = tail;
          split = filled_regroup xs (y ∷ ys) tail;
          count = omega (arith, length-append xs (y ∷ ys));
          total = omega (
            arith,
            v.total,
            ap length v.split,
            length-append (filled (xs ++ x ∷ y ∷ ys)) v.rest,
            length-filled (xs ++ x ∷ y ∷ ys),
            length-append xs (x ∷ y ∷ ys),
            length-append (filled xs) (filled (y ∷ ys) ++ tail),
            length-append (filled (y ∷ ys)) tail,
            length-filled xs,
            length-filled (y ∷ ys),
          );
          step = v.step;
          fits = v.fits;
          small = v.small;
          live = v.live;
        },
      )

  module _ (granted : Bool) where
    -- array_remove_at at the position of a pointer removes this pointer, and keeps the others in
    -- their order; it returns 0 whether or not realloc then succeeds.
    pub array_remove_at-IsArray :
        (xs ys : List Ptr) (x : Ptr) (v : IsArray a (xs ++ x ∷ ys))
        → (a' : Array) × (array_remove_at granted a (length xs) ≡ some (a', pos 0))
          × IsArray a' (xs ++ ys)
    unfolding array_remove_at
    array_remove_at-IsArray xs ys x v =
        let inside : leb a.count (length xs) ≡ false =
          lt→leb_false _ _ (omega (arith, v.count, length-append xs (x ∷ ys))) in
        let (b, closed, held) = array_close-IsArray xs ys x v in
        let (a', shrunk, done) = array_shrink-IsArray granted held in
        (a', rw (inside, closed, shrunk), done)

    -- Behind the last pointer, array_remove_at returns -ENOENT and changes nothing.
    pub array_remove_at-enoent :
        (at : ℕ) → a.count ≤ at → array_remove_at granted a at ≡ some (a, enoent)
    unfolding array_remove_at
    array_remove_at-enoent at h = rw (le→leb _ _ h)
