-- ===== src/LinkedList/Join.antt =====
-- kmod_list_append_list.
use comment_subs.Prelude.{
  ℕ, List, [], ◌∷◌, ◌++◌, map, map-append, append-nil, some, ◌==◌, ◌≡◌, refl, sym, ap, ◌∙◌, arith,
  ◌>>=◌, true, false, length, Bool-cases, inl, inr,
}
use comment_subs.LinkedList.Defs.{
  NodePtr, Heap, update, load_prev, set_next, set_prev, list_node_append_list,
  kmod_list_append_list,
}
use comment_subs.LinkedList.Links.{
  Distinct, has, has-append, last_of, has-last_of, Links-last, Links-append, Links-retarget,
}
use comment_subs.LinkedList.Rings.{IsRing, Holds, SameAt, head}
use comment_subs.LinkedList.Rings.Fresh.{Yields}

Distinct-append :
    (xs ys : List NodePtr)
    → Distinct xs
    → Distinct ys
    → ((a : NodePtr) → has a xs ≡ true → has a ys ≡ false)
    → Distinct (xs ++ ys)
Distinct-append [] ys d e apart = e
Distinct-append (x ∷ xs) ys d e apart = (
  ground (arith, has-append x xs ys, apart x),
  Distinct-append xs ys d.1 e (λ a i. apart a (ground arith)),
)

module _ (h : Heap) (p : NodePtr) (xs : List NodePtr) (q : NodePtr) (ys : List NodePtr)
    (ring1 : IsRing h (p ∷ xs)) (ring2 : IsRing h (q ∷ ys))
    (apart : (a : NodePtr) → has a (p ∷ xs) ≡ true → has a (q ∷ ys) ≡ false) where
  joined : Heap
  joined = record h {
    next = update (update h.next (last_of p xs) q) (last_of q ys) p;
    prev = update (update h.prev p (last_of q ys)) q (last_of p xs);
  }

  last1 : has (last_of p xs) (p ∷ xs) ≡ true
  last1 = has-last_of p xs

  last2 : has (last_of q ys) (q ∷ ys) ≡ true
  last2 = has-last_of q ys

  lives :
      (h.live p ≡ true)
      × (h.live q ≡ true)
      × (h.live (last_of p xs) ≡ true)
      × (h.live (last_of q ys) ≡ true)
  unfolding IsRing
  lives = (ring1.2 p (ground arith), ring2.2 q (ground arith), ring1.2 _ last1, ring2.2 _ last2)

  ends : (h.prev p ≡ last_of p xs) × (h.prev q ≡ last_of q ys)
  unfolding IsRing
  ends = ((Links-last h.next h.prev p xs p ring1.0).1, (Links-last h.next h.prev q ys q ring2.0).1)

  in_p : has p (p ∷ xs) ≡ true
  in_p = ground arith

  in_q : has q (q ∷ ys) ≡ true
  in_q = ground arith

  other : (a b : NodePtr) → has a (p ∷ xs) ≡ true → has b (q ∷ ys) ≡ true → (a == b) ≡ false
  other a b i j = elim (Bool-cases (a == b)) [
    | inl same ↦
        let is : a ≡ b = ground arith in
        absurd (ground (arith, sym (apart a i) ∙ ap (λ c. has c (q ∷ ys)) is ∙ j))
    | inr differ ↦ differ
  ]

  heads_apart : (q == p) ≡ false
  heads_apart = ground (arith, apart p)

  append_list-joined : list_node_append_list h (some p) q ≡ some joined
  unfolding list_node_append_list load_prev set_next set_prev joined
  append_list-joined = rw (
    lives.0, ◌>>=◌, ends.0, lives.2, ◌>>=◌, lives.1, ◌>>=◌, ends.1, lives.3, ◌>>=◌, lives.0, ◌>>=◌,
    ends.0, lives.1, ◌>>=◌, ends.1,
  )

  joined-IsRing : IsRing joined (p ∷ (xs ++ q ∷ ys))
  unfolding IsRing joined
  joined-IsRing = (
    Links-append joined.next joined.prev p xs q ys p
        (Links-retarget p xs p q ring1.0 ring1.1 (ground (arith, other _ _ last1 last2))
          (ground arith) (λ a i away. ground (arith, other a _ i last2))
          (λ a i. ground (arith, other a q (ground arith) in_q, ring1.1.0)))
        (Links-retarget q ys q p ring2.0 ring2.1 (ground arith) (ground (arith, heads_apart))
          (λ a i away. ground (arith, other _ a last1 i))
          (λ a i. ground (arith, other p a in_p (ground arith), ring2.1.0))),
    Distinct-append (p ∷ xs) (q ∷ ys) ring1.1 ring2.1 apart,
    λ a i. ground (arith, has-append a (p ∷ xs) (q ∷ ys), ring1.2 a, ring2.2 a),
  )

-- kmod_list_append_list of two lists that share no node, each of which holds some values: there is
-- no invalid access, and the result is one circular list, linked in both directions, that holds
-- the values of the first list and then those of the second. With NULL as one of the lists the
-- result is the other. Nodes outside of the two lists stay as they were.
pub kmod_list_append_list-Yields :
    (h : Heap) (xs ys : List NodePtr) (ds es : List ℕ)
    → Holds h xs ds
    → Holds h ys es
    → ((a : NodePtr) → has a xs ≡ true → has a ys ≡ false)
    → Yields h (kmod_list_append_list h (head xs) (head ys)) (xs ++ ys) (ds ++ es) (xs ++ ys)
unfolding kmod_list_append_list Yields Holds SameAt joined
kmod_list_append_list-Yields h [] ys [] es one two apart =
    (h, refl, two, λ a out. (refl, refl, refl, refl))
kmod_list_append_list-Yields h [] ys (d ∷ ds) es one two apart =
    absurd (omega (arith, ap length one.1))
kmod_list_append_list-Yields h (p ∷ xs) [] ds [] one two apart =
    rw (append-nil xs, append-nil ds) (h, refl, one, λ a out. (refl, refl, refl, refl))
kmod_list_append_list-Yields h (p ∷ xs) [] ds (e ∷ es) one two apart =
    absurd (omega (arith, ap length two.1))
kmod_list_append_list-Yields h (p ∷ xs) (q ∷ ys) ds es one two apart = (
  joined h p xs q ys one.0 two.0 apart,
  rw (append_list-joined h p xs q ys one.0 two.0 apart) refl,
  (
    joined-IsRing h p xs q ys one.0 two.0 apart,
    map-append h.data_of (p ∷ xs) (q ∷ ys)
        ∙ ap (λ l. l ++ map h.data_of (q ∷ ys)) one.1
        ∙ ap (λ l. ds ++ l) two.1,
  ),
  λ a out. (
    refl,
    ground (arith, out, has-append a (p ∷ xs) (q ∷ ys), has-last_of p xs, has-last_of q ys),
    ground (arith, out, has-append a (p ∷ xs) (q ∷ ys)),
    refl,
  ),
)
