-- ===== src/Array/Grow.antt =====
-- array_init and array_append.
use comment_subs.Prelude.{
  ℕ, ◌+◌, ◌*◌, ◌^◌, ◌≤◌, ◌<◌, ◌≡◌, refl, ap, true, false, some, List, [], ◌∷◌, ◌++◌, arith, length,
  length-append, pos, size_mod, enomem, to_int, to_int_small, Bool-cases, inl, inr, leb, add_size,
  le→leb, lt→ltb,
}
use comment_subs.Memory.{
  Block, filled, length-filled, filled-insert, filled-nil, store-append, realloc-append,
}
use comment_subs.Array.Defs.{Ptr, Array, array_put, array_append, array_resize, slots}
use comment_subs.Array.Reps.{IsArray}

module _ {a : Array} {xs : List Ptr} (v : IsArray a xs) where
  pub count-le : length xs ≤ a.total
  count-le =
      omega (arith, v.total, ap length v.split, length-append (filled xs) v.rest, length-filled xs)

  -- A new block of `n` slots holds the same pointers, as long as they fit.
  pub array_resize-IsArray :
      (n : ℕ)
      → length xs ≤ n
      → 8 * n < size_mod
      → (a' : Array) × (array_resize a n ≡ some a')
        × IsArray a' xs
        × (a'.total ≡ n)
        × (a'.step ≡ a.step)
  unfolding array_resize
  array_resize-IsArray n h fits =
      let few : length (filled xs) ≤ slots n = omega (arith, length-filled xs) in
      let (tail, moved, size) = realloc-append (filled xs) v.rest (slots n) few in
      (
        record a { block = filled xs ++ tail; total = n },
        rw (v.live, v.split, moved),
        record {
          rest = tail;
          split = refl;
          count = v.count;
          total = omega (arith, length-append (filled xs) tail);
          step = v.step;
          fits = fits;
          small = v.small;
          live = v.live;
        },
        refl,
        refl,
      )

  put_rest :
      (x : Ptr) (rest : Block Ptr)
      → a.block ≡ filled xs ++ rest
      → length xs < a.total
      → (a' : Array) × (array_put a x ≡ some (a', to_int (length xs))) × IsArray a' (xs ++ x ∷ [])
  unfolding array_put
  put_rest x [] e h =
      absurd (omega (arith, v.total, ap length e, length-append (filled xs) [], length-filled xs))
  put_rest x (slot ∷ rest) e h =
      let at : a.count ≡ length (filled xs) = omega (arith, v.count, length-filled xs) in
      (
        record a { block = filled xs ++ some x ∷ rest; count = add_size a.count 1 },
        rw (e, store-append (filled xs) rest slot x a.count at, v.count),
        record {
          rest = rest;
          split = rw (filled-insert, filled-nil);
          count = omega (arith, v.count, v.fits, length-append xs (x ∷ []));
          total = omega (
            arith,
            v.total,
            ap length e,
            length-append (filled xs) (slot ∷ rest),
            length-append (filled xs) (some x ∷ rest),
          );
          step = v.step;
          fits = v.fits;
          small = v.small;
          live = v.live;
        },
      )

  -- The write behind the last pointer, where there is a slot left.
  array_put-IsArray :
      (x : Ptr)
      → length xs < a.total
      → (a' : Array) × (array_put a x ≡ some (a', to_int (length xs))) × IsArray a' (xs ++ x ∷ [])
  array_put-IsArray x h = put_rest x v.rest v.split h

module _ {a : Array} {xs : List Ptr} (v : IsArray a xs) where
  -- Where realloc grants a step, the new block is addressable and the array holds fewer than 2^31
  -- pointers, array_append returns the index of the new pointer, and the array holds the old
  -- pointers and then the new one.
  pub array_append-IsArray :
      (x : Ptr)
      → 8 * (a.total + a.step) < size_mod
      → length xs < 2 ^ 31
      → (a' : Array) × (array_append true a x ≡ some (a', pos (length xs)))
        × IsArray a' (xs ++ x ∷ [])
  unfolding array_append
  array_append-IsArray x room few = elim (Bool-cases (leb a.total (add_size a.count 1))) [
    | inl full ↦
        let (b, grown, held, total, step) =
          array_resize-IsArray v (add_size a.total a.step) (omega (arith, count-le v))
            (omega arith) in
        let (c, put, done) = array_put-IsArray held x (omega (arith, count-le v, v.step)) in
        (c, rw (full, grown, lt→ltb 0 a.step v.step, put, to_int_small _ few), done)
    | inr free ↦
        let (c, put, done) = array_put-IsArray v x (ground (arith, count-le v, v.count, v.fits)) in
        (c, rw (free, put, to_int_small _ few), done)
  ]

  -- Where realloc is needed and fails, array_append returns -ENOMEM and changes nothing.
  pub array_append-enomem :
      (x : Ptr) → a.total ≤ length xs + 1 → array_append false a x ≡ some (a, enomem)
  unfolding array_append array_resize
  array_append-enomem x full =
      let grow : leb a.total (add_size a.count 1) ≡ true =
        le→leb _ _ (omega (arith, v.count, v.fits, count-le v)) in
      rw (grow, v.live, lt→ltb 0 a.step v.step)
