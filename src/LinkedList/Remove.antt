-- ===== src/LinkedList/Remove.antt =====
-- kmod_list_remove.
use mathlib.Core.Path.{subst}
use comment_subs.Prelude.{
  ℕ, true, false, Option, none, Bool-cases, inl, inr, sym, List, [], ◌∷◌, ◌++◌, some, ◌==◌, ◌≡◌,
  refl, ap, ◌∙◌, arith, ◌>>=◌, length, ◌||◌, drop,
}
use comment_subs.LinkedList.Defs.{
  NodePtr, Heap, load_next, load_prev, free, list_node_remove, kmod_list_remove, update,
}
use comment_subs.LinkedList.Links.{Links}
use comment_subs.LinkedList.Rings.{IsRing, Holds, SameAt, SameOutside, head}
use comment_subs.LinkedList.Rings.Fresh.{Yields}
use comment_subs.LinkedList.Rings.Rotate.{rotate-Holds, has_swap}
use comment_subs.LinkedList.Rings.Unlink.{removed, rest, rest-Yields}

tail_lem : {x y : ℕ} {xs ys : List ℕ} → x ∷ xs ≡ y ∷ ys → xs ≡ ys
tail_lem e = ap (drop 1) e

remove_single :
    (h : Heap) (p : NodePtr)
    → IsRing h (p ∷ [])
    → Yields h (kmod_list_remove h (some p)) [] [] (p ∷ [])
unfolding Yields Holds IsRing Links SameAt kmod_list_remove list_node_remove load_prev load_next
    free
remove_single h p ring =
    let alive : h.live p ≡ true = ring.2 p (ground arith) in
    let self : (p == p) ≡ true = ground arith in
    (
      record h { live = update h.live p false },
      rw (alive, ring.0.1, ◌>>=◌, self, ◌||◌, ◌>>=◌, alive),
      (tt, refl),
      λ a out. (ground (arith, out), refl, refl, refl),
    )

remove_head :
    (h : Heap) (p : NodePtr) (xs : List NodePtr) (d : ℕ) (ds : List ℕ)
    → Holds h (p ∷ xs) (d ∷ ds)
    → Yields h (kmod_list_remove h (some p)) xs ds (p ∷ xs)
unfolding Holds
remove_head h p [] d ds holds =
    subst (λ v. Yields h (kmod_list_remove h (some p)) [] v (p ∷ [])) (tail_lem holds.1)
      (remove_single h p holds.0)
remove_head h p (y ∷ ys) d ds holds = rw (removed h p y ys (d ∷ ds) holds) (
    subst (λ v. Yields h (some (some y, rest h p y ys (d ∷ ds) holds)) (y ∷ ys) v (p ∷ y ∷ ys))
      (tail_lem holds.1) (rest-Yields h p y ys (d ∷ ds) holds))

-- What Yields says of the removal of any node.
pub kmod_list_remove-Yields :
    (h : Heap) (xs : List NodePtr) (p : NodePtr) (ys : List NodePtr) (ds : List ℕ) (d : ℕ)
    (es : List ℕ)
    → Holds h (xs ++ p ∷ ys) (ds ++ d ∷ es)
    → length xs ≡ length ds
    → Yields h (kmod_list_remove h (some p)) (ys ++ xs) (es ++ ds) (xs ++ p ∷ ys)
unfolding Yields
kmod_list_remove-Yields h xs p ys ds d es holds size =
    let (g, e, after, same) =
      remove_head h p (ys ++ xs) d (es ++ ds) (rotate-Holds h xs (p ∷ ys) ds (d ∷ es) holds size) in
    (g, e, after, λ a out. same a (has_swap a (p ∷ ys) xs ∙ out))

-- The node of a removal is not allocated behind it.
abbrev heap_or : Heap → Option Heap → Heap
heap_or g none = g
heap_or g (some h) = h

abbrev with_node_result : Option NodePtr → Heap → Option (Option NodePtr × Heap)
with_node_result r h = some (r, h)

abbrev second_or : Heap → Option (Option NodePtr × Heap) → Heap
second_or g none = g
second_or g (some (r, h)) = h

free-dead : (h g : Heap) (p : NodePtr) → free h p ≡ some g → g.live p ≡ false
unfolding free
free-dead h g p e = elim (Bool-cases (h.live p)) [
  | inl alive ↦
      let same : record h { live = update h.live p false } ≡ g = ap (heap_or g) (rw alive at e) in
      ap (λ k. k.live p) (sym same) ∙ ground arith
  | inr dead ↦ absurd (cc (rw dead at e))
]

-- `list_node_remove(node)` and `free(node)`, for what the first gives.
freed_after :
    (second : Option Heap) (h1 : Heap) (p : NodePtr) (r1 r : Option NodePtr) (g : Heap)
    → free h1 p ≡ second
    → (second >>= with_node_result r1) ≡ some (r, g)
    → g.live p ≡ false
freed_after none h1 p r1 r g run e = absurd cc
freed_after (some h2) h1 p r1 r g run e =
    let same : h2 ≡ g = ap (λ o. second_or g o) e in
    ap (λ k. k.live p) (sym same) ∙ free-dead h1 h2 p run

freed-dead :
    (first : Option (Option NodePtr × Heap)) (p : NodePtr) (r : Option NodePtr) (g : Heap)
    → (first >>= λ s. free s.1 p >>= with_node_result s.0) ≡ some (r, g)
    → g.live p ≡ false
freed-dead none p r g e = absurd cc
freed-dead (some (r1, h1)) p r g e = freed_after (free h1 p) h1 p r1 r g refl e

-- In a list that holds some values, `p` any of its nodes: kmod_list_remove meets no invalid access,
-- frees the node, and returns the node behind it, around the circle, or NULL where it was the only
-- one. From there the list holds the values behind the removed one and then those before it, and
-- is linked in both directions. Nodes outside of the list stay as they were.
pub kmod_list_remove_lem :
    (h : Heap) (xs : List NodePtr) (p : NodePtr) (ys : List NodePtr) (ds : List ℕ) (d : ℕ)
    (es : List ℕ)
    → Holds h (xs ++ p ∷ ys) (ds ++ d ∷ es)
    → length xs ≡ length ds
    → (g : Heap) × (kmod_list_remove h (some p) ≡ some (head (ys ++ xs), g))
      × Holds g (ys ++ xs) (es ++ ds)
      × SameOutside (xs ++ p ∷ ys) h g
      × (g.live p ≡ false)
unfolding Yields kmod_list_remove
kmod_list_remove_lem h xs p ys ds d es holds size =
    let (g, e, after, same) = kmod_list_remove-Yields h xs p ys ds d es holds size in
    (g, e, after, same, freed-dead (list_node_remove h p) p (head (ys ++ xs)) g e)
