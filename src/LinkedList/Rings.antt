-- ===== src/LinkedList/Rings.antt =====
-- Circular lists in the heap, and what they hold.
pub mod Added
pub mod Between
pub mod Fresh
pub mod Rotate
pub mod Splice
pub mod Unlink
use comment_subs.Prelude.{
  ℕ, Bool, true, false, List, [], ◌∷◌, ◌++◌, map, Option, none, some, ◌≡◌, refl, sym, ◌∙◌, arith,
  ◌||◌,
}
use comment_subs.LinkedList.Defs.{NodePtr, Heap}
use comment_subs.LinkedList.Links.{Links, Distinct, has, has_rotate, Links-frame}

abbrev pub Live : Heap → List NodePtr → Type 0
Live h xs = (a : NodePtr) → has a xs ≡ true → h.live a ≡ true

-- The nodes in order, from the head on, around to the head; no nodes for NULL.
unfoldable pub IsRing : Heap → List NodePtr → Type 0
IsRing h [] = Unit
IsRing h (p ∷ xs) = Links h.next h.prev p xs p × Distinct (p ∷ xs) × Live h (p ∷ xs)

-- A circular list that holds the values.
unfoldable pub Holds : Heap → List NodePtr → List ℕ → Type 0
Holds h xs ds = IsRing h xs × (map h.data_of xs ≡ ds)

abbrev pub head : List NodePtr → Option NodePtr
head [] = none
head (p ∷ xs) = some p

-- The node at `a` is as it was.
unfoldable pub SameAt : Heap → Heap → NodePtr → Type 0
SameAt h g a =
    (g.live a ≡ h.live a)
    × (g.next a ≡ h.next a)
    × (g.prev a ≡ h.prev a)
    × (g.data_of a ≡ h.data_of a)

-- Only the nodes of the list may have changed.
abbrev pub SameOutside : List NodePtr → Heap → Heap → Type 0
SameOutside xs h g = (a : NodePtr) → has a xs ≡ false → SameAt h g a

pub map_same :
    (f g : NodePtr → ℕ) (xs : List NodePtr)
    → ((a : NodePtr) → has a xs ≡ true → g a ≡ f a)
    → map g xs ≡ map f xs
map_same f g [] same = refl
map_same f g (x ∷ xs) same =
    let first : g x ≡ f x = ground (arith, same x) in
    rw (first, map_same f g xs (λ a i. same a (ground arith)))

-- A list keeps its nodes and its values under an operation that changes only nodes of other lists.
pub Holds-frame :
    (h g : Heap) (xs : List NodePtr) (ds : List ℕ) (changed : List NodePtr)
    → Holds h xs ds
    → SameOutside changed h g
    → ((a : NodePtr) → has a xs ≡ true → has a changed ≡ false)
    → Holds g xs ds
unfolding Holds IsRing SameAt
Holds-frame h g [] ds changed holds same apart = holds
Holds-frame h g (p ∷ xs) ds changed holds same apart = (
  (
    Links-frame p xs p holds.0.0 (λ a i. (same a (apart a i)).1)
        (λ a i. (same a (apart a (sym (has_rotate a p xs) ∙ i))).2),
    holds.0.1,
    λ a i. ground (arith, (same a (apart a i)).0, holds.0.2 a i),
  ),
  map_same h.data_of g.data_of (p ∷ xs) (λ a i. (same a (apart a i)).3) ∙ holds.1,
)
