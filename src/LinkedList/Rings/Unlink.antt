-- ===== src/LinkedList/Rings/Unlink.antt =====
-- What list_node_remove and free make of a ring whose head goes.
use comment_subs.Prelude.{
  ℕ, true, false, List, ◌∷◌, map, some, ◌==◌, ◌≡◌, refl, sym, ap, ◌∙◌, arith, ◌||◌, ◌>>=◌,
  Bool-cases, inl, inr,
}
use comment_subs.LinkedList.Defs.{
  NodePtr, Heap, update, load_next, load_prev, set_next, set_prev, free, list_node_remove,
  list_node_unlink, kmod_list_remove,
}
use comment_subs.LinkedList.Links.{Links, has, last_of, has-last_of, Links-last, Links-retarget}
use comment_subs.LinkedList.Rings.{IsRing, Holds, SameAt}
use comment_subs.LinkedList.Rings.Fresh.{Yields}

unfoldable pub unlinked : Heap → (before p after : NodePtr) → Heap
unlinked h before p after = record h {
  next = update h.next before after;
  prev = update h.prev after before;
  live = update h.live p false;
}

module _ (h : Heap) (before p after : NodePtr) (live_before : h.live before ≡ true)
    (live_p : h.live p ≡ true) (live_after : h.live after ≡ true) (prev_p : h.prev p ≡ before)
    (next_p : h.next p ≡ after) (before_p : (before == p) ≡ false)
    (p_before : (p == before) ≡ false) (after_p : (after == p) ≡ false) where
  pub remove-unlinked : kmod_list_remove h (some p) ≡ some (some after, unlinked h before p after)
  unfolding kmod_list_remove list_node_remove list_node_unlink load_prev load_next set_next set_prev
      free unlinked
  remove-unlinked = rw (
    live_p, prev_p, ◌>>=◌, next_p, ◌>>=◌, before_p, after_p, ◌||◌, live_before, ◌>>=◌, p_before,
    live_p, next_p, ◌>>=◌, live_after, ◌>>=◌, live_p, p_before, next_p, ◌>>=◌, live_p, prev_p,
  )

-- The head goes from a list of two nodes or more.
module _ (h : Heap) (p y : NodePtr) (ys : List NodePtr) (ds : List ℕ)
    (holds : Holds h (p ∷ y ∷ ys) ds) where
  last_in : has (last_of y ys) (y ∷ ys) ≡ true
  last_in = has-last_of y ys

  other : (a : NodePtr) → has a (y ∷ ys) ≡ true → (a == p) ≡ false
  unfolding Holds IsRing
  other a i = elim (Bool-cases (a == p)) [
    | inl same ↦
        let is : a ≡ p = ground arith in
        absurd (ground (arith, sym i ∙ ap (λ b. has b (y ∷ ys)) is ∙ holds.0.1.0))
    | inr apart ↦ apart
  ]

  live_old : (a : NodePtr) → has a (p ∷ y ∷ ys) ≡ true → h.live a ≡ true
  unfolding Holds IsRing
  live_old a i = holds.0.2 a i

  before_p : (last_of y ys == p) ≡ false
  before_p = other _ last_in

  after_p : (y == p) ≡ false
  after_p = other y (ground arith)

  pub rest : Heap
  rest = unlinked h (last_of y ys) p y

  pub removed : kmod_list_remove h (some p) ≡ some (some y, rest)
  unfolding Holds IsRing Links rest
  removed =
      remove-unlinked h (last_of y ys) p y (live_old _ (ground (arith, last_in)))
        (live_old p (ground arith)) (live_old y (ground arith))
        (Links-last h.next h.prev y ys p holds.0.0.2).1 holds.0.0.0 before_p
        (ground (arith, before_p)) after_p

  pub rest-Yields : Yields h (some (some y, rest)) (y ∷ ys) (map h.data_of (y ∷ ys)) (p ∷ y ∷ ys)
  unfolding Yields Holds IsRing Links SameAt rest unlinked
  rest-Yields = (
    rest,
    refl,
    (
      (
        Links-retarget y ys p y holds.0.0.2 holds.0.1.1 (ground arith) (ground arith)
            (λ a i away. ground arith) (λ a i. ground (arith, holds.0.1.1.0)),
        holds.0.1.1,
        λ a i. ground (arith, other a i, live_old a),
      ),
      refl,
    ),
    λ a out. (ground (arith, out), ground (arith, out, last_in), ground (arith, out), refl),
  )
