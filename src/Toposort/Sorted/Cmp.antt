-- ===== src/Toposort/Sorted/Cmp.antt =====
-- dep_cmp is a consistent comparison.
use comment_subs.Prelude.{ℕ, zero, suc, ◌<◌, ◌≡◌, refl, true, false, List, ltb, get_or, arith}
use comment_subs.Toposort.Sorted.Defs.{
  difference, SortKey, dep_cmp, dep_cmp_at, above, opposite, IsComparison,
}

difference-flipped : (a b : ℕ) → difference b a ≡ opposite (difference a b)
unfolding difference opposite
difference-flipped zero zero = refl
difference-flipped zero (suc b) = refl
difference-flipped (suc a) zero = refl
difference-flipped (suc a) (suc b) = difference-flipped a b

above-difference : (a b : ℕ) → above (difference a b) ≡ ltb b a
unfolding difference above
above-difference zero zero = ground arith
above-difference zero (suc b) = ground arith
above-difference (suc a) zero = ground arith
above-difference (suc a) (suc b) = ground (arith, above-difference a b)

dep_cmp-flipped : (x y : SortKey) → dep_cmp y x ≡ opposite (dep_cmp x y)
unfolding dep_cmp opposite
dep_cmp-flipped (true, a) (true, b) = difference-flipped a b
dep_cmp-flipped (false, a) (false, b) = difference-flipped a b
dep_cmp-flipped (true, a) (false, b) = refl
dep_cmp-flipped (false, a) (true, b) = refl

difference-onward :
    (a b c : ℕ)
    → above (difference a b) ≡ false
    → above (difference b c) ≡ false
    → above (difference a c) ≡ false
difference-onward a b c h k =
    ground (arith, h, k, above-difference a b, above-difference b c, above-difference a c)

dep_cmp-onward :
    (x y z : SortKey)
    → above (dep_cmp x y) ≡ false
    → above (dep_cmp y z) ≡ false
    → above (dep_cmp x z) ≡ false
unfolding dep_cmp above
dep_cmp-onward (true, a) (true, b) (true, c) h k = difference-onward a b c h k
dep_cmp-onward (false, a) (false, b) (false, c) h k = difference-onward a b c h k
dep_cmp-onward (false, a) y (true, c) h k = refl
dep_cmp-onward (true, a) (false, b) z h k = absurd cc
dep_cmp-onward (true, a) (true, b) (false, c) h k = absurd cc
dep_cmp-onward (false, a) (true, b) (false, c) h k = absurd cc

pub dep_cmp_at-IsComparison : (out : List SortKey) → IsComparison (dep_cmp_at out)
dep_cmp_at-IsComparison out = record {
  flipped = λ a b. dep_cmp-flipped (get_or out a (false, 0)) (get_or out b (false, 0));
  onward = λ a b c.
      dep_cmp-onward (get_or out a (false, 0)) (get_or out b (false, 0)) (get_or out c (false, 0));
}

-- A module in no loop is not before a module with a smaller dep_sort_idx that is in no loop.
pub dep_cmp-above : (x y : ℕ) → x < y → above (dep_cmp (false, y) (false, x)) ≡ true
unfolding dep_cmp
dep_cmp-above x y h = ground (arith, h, above-difference y x)

pub dep_cmp-loop : (x y : ℕ) → above (dep_cmp (true, y) (false, x)) ≡ true
unfolding dep_cmp above
dep_cmp-loop x y = refl
