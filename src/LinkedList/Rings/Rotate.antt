-- ===== src/LinkedList/Rings/Rotate.antt =====
-- The same ring from another head.
use mathlib.Core.Path.{subst}
use comment_subs.Prelude.{
  ℕ, List, [], ◌∷◌, ◌++◌, map, map-append, append_assoc, append-nil, ◌≡◌, refl, some, true, false,
  ◌==◌, sym, ap, ◌∙◌, arith, length, length-map, take, drop, take-append, drop-append,
}
use comment_subs.LinkedList.Defs.{NodePtr, Heap}
use comment_subs.LinkedList.Links.{Links, has, has-append, has_rotate, Links-append}
use comment_subs.LinkedList.Rings.{IsRing, Holds, head}
use comment_subs.LinkedList.Rings.Between.{Distinct-snoc}

pub has_swap : (a : NodePtr) (xs ys : List NodePtr) → has a (xs ++ ys) ≡ has a (ys ++ xs)
has_swap a xs ys = ground (arith, has-append a xs ys, has-append a ys xs)

turn : (h : Heap) (p : NodePtr) (xs : List NodePtr) → IsRing h (p ∷ xs) → IsRing h (xs ++ p ∷ [])
unfolding IsRing Links
turn h p [] ring = ring
turn h p (y ∷ ys) ring = (
  Links-append h.next h.prev y ys p [] y ring.0.2 (ring.0.0, ring.0.1),
  Distinct-snoc (y ∷ ys) p ring.1.1 ring.1.0,
  λ a i. ring.2 a (ground (arith, has_rotate a p ys)),
)

pub rotate-IsRing : (h : Heap) (xs ys : List NodePtr) → IsRing h (xs ++ ys) → IsRing h (ys ++ xs)
rotate-IsRing h [] ys ring = subst (IsRing h) (sym (append-nil ys)) ring
rotate-IsRing h (x ∷ xs) ys ring =
    let turned = turn h x (xs ++ ys) ring in
    subst (IsRing h) (append_assoc ys (x ∷ []) xs)
      (rotate-IsRing h xs (ys ++ x ∷ []) (subst (IsRing h) (append_assoc xs ys (x ∷ [])) turned))

-- A list of values that is split where the list of nodes is.
values_split :
    (h : Heap) (xs ys : List NodePtr) (ds es : List ℕ)
    → map h.data_of (xs ++ ys) ≡ ds ++ es
    → length xs ≡ length ds
    → (map h.data_of xs ≡ ds) × (map h.data_of ys ≡ es)
values_split h xs ys ds es e size =
    let n = length ds in
    let cut : map h.data_of xs ++ map h.data_of ys ≡ ds ++ es =
      sym (map-append h.data_of xs ys) ∙ e in
    let here : n ≡ length (map h.data_of xs) = omega (arith, length-map xs h.data_of) in
    (
      sym (take-append (map h.data_of xs) (map h.data_of ys) n here)
          ∙ ap (take n) cut
          ∙ take-append ds es n refl,
      sym (drop-append (map h.data_of xs) (map h.data_of ys) n here)
          ∙ ap (drop n) cut
          ∙ drop-append ds es n refl,
    )

pub rotate-Holds :
    (h : Heap) (xs ys : List NodePtr) (ds es : List ℕ)
    → Holds h (xs ++ ys) (ds ++ es)
    → length xs ≡ length ds
    → Holds h (ys ++ xs) (es ++ ds)
unfolding Holds
rotate-Holds h xs ys ds es holds size =
    let parts = values_split h xs ys ds es holds.1 size in
    (rotate-IsRing h xs ys holds.0, map-append h.data_of ys xs ∙ rw (parts.0, parts.1) refl)

-- The head of a list that goes on with `q` behind the nodes `xs`.
abbrev pub first_of : List NodePtr → NodePtr → NodePtr
first_of [] q = q
first_of (x ∷ xs) q = x

pub head-append :
    (xs : List NodePtr) (q : NodePtr) (ys : List NodePtr)
    → head (xs ++ q ∷ ys) ≡ some (first_of xs q)
head-append [] q ys = refl
head-append (x ∷ xs) q ys = refl

pub has-first_of : (xs : List NodePtr) (q : NodePtr) → has (first_of xs q) (xs ++ q ∷ []) ≡ true
has-first_of [] q = ground arith
has-first_of (x ∷ xs) q = ground arith

-- Around the circle, from the last node to the first.
around :
    (h : Heap) (xs : List NodePtr) (q : NodePtr)
    → IsRing h (q ∷ xs)
    → (h.next q ≡ first_of xs q) × (h.prev (first_of xs q) ≡ q)
unfolding IsRing Links
around h [] q ring = ring.0
around h (x ∷ xs) q ring = (ring.0.0, ring.0.1)

pub ends_meet :
    (h : Heap) (xs : List NodePtr) (q : NodePtr)
    → IsRing h (xs ++ q ∷ [])
    → (h.next q ≡ first_of xs q) × (h.prev (first_of xs q) ≡ q)
ends_meet h xs q ring = around h xs q (rotate-IsRing h xs (q ∷ []) ring)

-- Inside of the list.
pub next_inside :
    (h : Heap) (xs : List NodePtr) (q r : NodePtr) (ys : List NodePtr)
    → IsRing h (xs ++ q ∷ r ∷ ys)
    → (h.next q ≡ r) × ((r == first_of xs q) ≡ false) × (h.prev r ≡ q)
unfolding IsRing Links
next_inside h xs q r ys ring =
    let here = rotate-IsRing h xs (q ∷ r ∷ ys) ring in
    let there = turn h q (r ∷ (ys ++ xs)) here in
    (
      here.0.0,
      ground (
        arith,
        there.1.0,
        has-append r (ys ++ xs) (q ∷ []),
        has-append r ys xs,
        has-append r xs (q ∷ []),
        has-first_of xs q,
      ),
      here.0.1,
    )
