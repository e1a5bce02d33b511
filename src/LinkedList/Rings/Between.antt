-- ===== src/LinkedList/Rings/Between.antt =====
-- A ring with one node more, behind the last one, before the head or behind the head.
use comment_subs.Prelude.{true, false, List, [], ◌∷◌, ◌++◌, ◌≡◌, refl, ap, sym, arith, ◌∙◌}
use comment_subs.LinkedList.Defs.{NodePtr, Heap}
use comment_subs.LinkedList.Links.{
  Links, Distinct, has, has-append, has_rotate, last_of, Links-append, Links-frame, Links-retarget,
}
use comment_subs.LinkedList.Rings.{IsRing}
use comment_subs.LinkedList.Rings.Splice.{Spliced}

pub Distinct-snoc :
    (xs : List NodePtr) (new : NodePtr)
    → Distinct xs
    → has new xs ≡ false
    → Distinct (xs ++ new ∷ [])
Distinct-snoc [] new apart out = (refl, tt)
Distinct-snoc (x ∷ xs) new apart out =
    (ground (arith, has-append x xs (new ∷ [])), Distinct-snoc xs new apart.1 (ground arith))

module _ (h g : Heap) (p : NodePtr) (xs : List NodePtr) (new : NodePtr) (ring : IsRing h (p ∷ xs))
    (fresh : has new (p ∷ xs) ≡ false) (live_new : h.live new ≡ true) where
  -- The old nodes, now with the way from the last one to the new one.
  opened : Spliced h g (last_of p xs) new p → Links g.next g.prev p xs new
  unfolding IsRing
  opened s =
      Links-retarget p xs p new ring.0 ring.1 s.before_next s.new_prev
        (λ a i away. s.next_same a away (ground arith))
        (λ a i. s.prev_same a (ground arith) (ground arith))

  pub append-IsRing : Spliced h g (last_of p xs) new p → IsRing g (p ∷ (xs ++ new ∷ []))
  unfolding IsRing Links
  append-IsRing s = (
    Links-append g.next g.prev p xs new [] p (opened s) (s.new_next, s.after_prev),
    Distinct-snoc (p ∷ xs) new ring.1 fresh,
    λ a i. s.live_same a ∙ ground (arith, has-append a xs (new ∷ []), ring.2 a),
  )

  pub prepend-IsRing : Spliced h g (last_of p xs) new p → IsRing g (new ∷ p ∷ xs)
  unfolding IsRing Links
  prepend-IsRing s = (
    (s.new_next, s.after_prev, opened s),
    (fresh, ring.1),
    λ a i. s.live_same a ∙ ground (arith, ring.2 a),
  )

-- Behind the head.
pub insert-IsRing :
    (h g : Heap) (p : NodePtr) (xs : List NodePtr) (new : NodePtr)
    → IsRing h (p ∷ xs)
    → has new (p ∷ xs) ≡ false
    → h.live new ≡ true
    → Spliced h g p new (h.next p)
    → IsRing g (p ∷ new ∷ xs)
unfolding IsRing Links
insert-IsRing h g p [] new ring fresh live_new s = (
  (s.before_next, s.new_prev, (s.new_next ∙ ring.0.0, ground (arith, s.after_prev, ring.0.0))),
  (ground arith, (refl, tt)),
  λ a i. s.live_same a ∙ ground (arith, ring.2 a),
)
insert-IsRing h g p (y ∷ ys) new ring fresh live_new s = (
  (
    s.before_next,
    s.new_prev,
    (
      s.new_next ∙ ring.0.0,
      ap g.prev (sym ring.0.0) ∙ s.after_prev,
      Links-frame y ys p ring.0.2 (λ a i. s.next_same a (ground arith) (ground arith))
          (λ a i.
            s.prev_same a (ground (arith, ring.0.0, has_rotate a p ys))
              (ground (arith, has_rotate a p ys))),
    ),
  ),
  (ground arith, (ground arith, ring.1.1)),
  λ a i. s.live_same a ∙ ground (arith, ring.2 a),
)
