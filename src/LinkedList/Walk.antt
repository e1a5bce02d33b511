-- ===== src/LinkedList/Walk.antt =====
-- kmod_list_next, kmod_list_prev and kmod_list_last.
use mathlib.Core.Path.{subst}
use comment_subs.Prelude.{
  true, false, List, [], ◌∷◌, ◌++◌, append_assoc, Option, none, some, ◌≡◌, refl, sym, arith, ◌>>=◌,
  ◌⊎◌, inl, inr, ◌==◌, ap, ◌∙◌,
}
use comment_subs.LinkedList.Defs.{
  NodePtr, Heap, load_next, load_prev, kmod_list_last, kmod_list_next, kmod_list_prev,
}
use comment_subs.LinkedList.Links.{has, has-append}
use comment_subs.LinkedList.Rings.{IsRing, head}
use comment_subs.LinkedList.Rings.Rotate.{
  head-append, first_of, has-first_of, ends_meet, next_inside,
}

-- A list is empty or has a last element.
pub last_cases :
    {A : Type 0} (xs : List A) → (xs ≡ []) ⊎ ((ys : List A) × (y : A) × (xs ≡ ys ++ y ∷ []))
last_cases [] = inl refl
last_cases (x ∷ xs) = elim (last_cases xs) [
  | inl none_left ↦ inr ([], x, rw none_left refl)
  | inr (ys, y, is) ↦ inr (x ∷ ys, y, rw is refl)
]

pub live_lem :
    (h : Heap) (xs : List NodePtr) (a : NodePtr) → IsRing h xs → has a xs ≡ true → h.live a ≡ true
unfolding IsRing
live_lem h [] a ring i = absurd (ground (arith, i))
live_lem h (x ∷ xs) a ring i = ring.2 a i

-- The last element.
abbrev pub last? : List NodePtr → Option NodePtr
last? [] = none
last? (x ∷ []) = some x
last? (x ∷ y ∷ ys) = last? (y ∷ ys)

first_of-snoc : (xs : List NodePtr) (b q : NodePtr) → first_of (xs ++ b ∷ []) q ≡ first_of xs b
first_of-snoc [] b q = refl
first_of-snoc (x ∷ xs) b q = refl

last?-snoc : (xs : List NodePtr) (q : NodePtr) → last? (xs ++ q ∷ []) ≡ some q
last?-snoc [] q = refl
last?-snoc (x ∷ []) q = refl
last?-snoc (x ∷ y ∷ ys) q = last?-snoc (y ∷ ys) q

pub next_lem :
    (h : Heap) (bs : List NodePtr) (q : NodePtr) (ys : List NodePtr)
    → h.live q ≡ true
    → IsRing h (bs ++ q ∷ ys)
    → kmod_list_next h (some (first_of bs q)) (some q) ≡ some (head ys)
unfolding kmod_list_next load_next
next_lem h bs q [] live ring =
    let self : (first_of bs q == first_of bs q) ≡ true = ground arith in
    rw (live, ◌>>=◌, (ends_meet h bs q ring).0, self)
next_lem h bs q (r ∷ rs) live ring =
    let there = next_inside h bs q r rs ring in rw (live, ◌>>=◌, there.0, there.1)

prev_first : (h : Heap) (q : NodePtr) → kmod_list_prev h (some q) (some q) ≡ some none
unfolding kmod_list_prev
prev_first h q = let self : (q == q) ≡ true = ground arith in rw self

prev_inside :
    (h : Heap) (bs : List NodePtr) (b q : NodePtr) (ys : List NodePtr)
    → h.live q ≡ true
    → IsRing h (bs ++ b ∷ q ∷ ys)
    → kmod_list_prev h (some (first_of bs b)) (some q) ≡ some (some b)
unfolding kmod_list_prev load_prev
prev_inside h bs b q ys live ring =
    let there = next_inside h bs b q ys ring in
    let differ : (first_of bs b == q) ≡ false = ground (arith, there.1) in
    rw (differ, live, there.2)

pub last_lem :
    (h : Heap) (xs : List NodePtr) (q : NodePtr)
    → IsRing h (xs ++ q ∷ [])
    → kmod_list_last h (head (xs ++ q ∷ [])) ≡ some (some q)
unfolding kmod_list_last load_prev
last_lem h xs q ring =
    let first_live = live_lem h (xs ++ q ∷ []) (first_of xs q) ring (has-first_of xs q) in
    rw (head-append xs q [], first_live, ◌>>=◌, (ends_meet h xs q ring).1)

prev_lem :
    (h : Heap) (bs : List NodePtr) (q : NodePtr) (ys : List NodePtr)
    → h.live q ≡ true
    → IsRing h (bs ++ q ∷ ys)
    → kmod_list_prev h (some (first_of bs q)) (some q) ≡ some (last? bs)
prev_lem h bs q ys live ring = elim (last_cases bs) [
  | inl nothing ↦ rw nothing (prev_first h q)
  | inr (az, b, is) ↦
      let same : az ++ b ∷ q ∷ ys ≡ bs ++ q ∷ ys =
        sym (append_assoc az (b ∷ []) (q ∷ ys)) ∙ ap (λ l. l ++ q ∷ ys) (sym is) in
      rw (is, last?-snoc az b, first_of-snoc az b q)
        (prev_inside h az b q ys live (subst (IsRing h) (sym same) ring))
]

pub last_of_list :
    (h : Heap) (xs : List NodePtr) → IsRing h xs → kmod_list_last h (head xs) ≡ some (last? xs)
unfolding kmod_list_last
last_of_list h xs ring = elim (last_cases xs) [
  | inl nothing ↦ rw nothing refl
  | inr (ys, q, is) ↦ rw (is, last?-snoc ys q) (last_lem h ys q (subst (IsRing h) is ring))
]

-- In a circular list, from its head, at any of its nodes: there is no invalid access, and
-- kmod_list_next gives the node behind, NULL at the last one, kmod_list_prev the node before, NULL
-- at the head, and kmod_list_last the last node.
pub neighbours_lem :
    (h : Heap) (bs : List NodePtr) (q : NodePtr) (ys : List NodePtr)
    → IsRing h (bs ++ q ∷ ys)
    → (kmod_list_next h (head (bs ++ q ∷ ys)) (some q) ≡ some (head ys))
      × (kmod_list_prev h (head (bs ++ q ∷ ys)) (some q) ≡ some (last? bs))
      × (kmod_list_last h (head (bs ++ q ∷ ys)) ≡ some (last? (bs ++ q ∷ ys)))
neighbours_lem h bs q ys ring =
    let live = live_lem h (bs ++ q ∷ ys) q ring (ground (arith, has-append q bs (q ∷ ys))) in
    (
      rw (head-append bs q ys) (next_lem h bs q ys live ring),
      rw (head-append bs q ys) (prev_lem h bs q ys live ring),
      last_of_list h (bs ++ q ∷ ys) ring,
    )
