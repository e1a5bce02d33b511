-- ===== src/LinkedList/Rings/Fresh.antt =====
-- A node that was just allocated, beside a ring.
use comment_subs.Prelude.{
  ℕ, true, false, List, [], ◌∷◌, Option, some, ◌≡◌, refl, ◌∙◌, arith, Bool-cases, inl, inr,
}
use comment_subs.LinkedList.Defs.{NodePtr, Heap, update, set_data, allocate}
use comment_subs.LinkedList.Links.{has}
use comment_subs.LinkedList.Rings.{IsRing, Holds, Holds-frame, SameAt, SameOutside, head}
use comment_subs.LinkedList.Rings.Splice.{Spliced}

-- The operation returns the head of the list, which holds the values; other nodes stay.
unfoldable pub Yields :
    Heap
    → Option (Option NodePtr × Heap)
    → (nodes : List NodePtr) (values : List ℕ) (changed : List NodePtr) → Type 0
Yields h result nodes values changed =
    (g : Heap) × (result ≡ some (head nodes, g)) × Holds g nodes values × SameOutside changed h g

-- The heap behind `new->data = data`.
abbrev pub with_node : Heap → NodePtr → ℕ → Heap
with_node h new d = record h { live = update h.live new true; data_of = update h.data_of new d }

pub set_data-allocate :
    (h : Heap) (new : NodePtr) (d : ℕ) → set_data (allocate h new) new d ≡ some (with_node h new d)
unfolding set_data allocate
set_data-allocate h new d = ground arith

pub with_node-SameOutside :
    (h : Heap) (new : NodePtr) (d : ℕ) → SameOutside (new ∷ []) h (with_node h new d)
unfolding SameAt
with_node-SameOutside h new d a out = (ground arith, refl, refl, ground arith)

pub fresh_lem :
    (h : Heap) (xs : List NodePtr) (new : NodePtr)
    → IsRing h xs
    → h.live new ≡ false
    → has new xs ≡ false
unfolding IsRing
fresh_lem h [] new ring unused = refl
fresh_lem h (p ∷ xs) new ring unused = elim (Bool-cases (has new (p ∷ xs))) [
  | inl inside ↦ ground (arith, ring.2 new inside)
  | inr outside ↦ outside
]

pub with_node-Holds :
    (h : Heap) (xs : List NodePtr) (ds : List ℕ) (new : NodePtr) (d : ℕ)
    → Holds h xs ds
    → has new xs ≡ false
    → Holds (with_node h new d) xs ds
with_node-Holds h xs ds new d holds out =
    Holds-frame h (with_node h new d) xs ds (new ∷ []) holds (with_node-SameOutside h new d)
      (λ a i. ground (arith, out))

-- Behind the allocation and the splice only the new node and its neighbours are different.
pub Spliced-SameOutside :
    (h g : Heap) (before new after : NodePtr) (d : ℕ) (nodes : List NodePtr)
    → Spliced (with_node h new d) g before new after
    → has before nodes ≡ true
    → has after nodes ≡ true
    → SameOutside (new ∷ nodes) h g
unfolding SameAt
Spliced-SameOutside h g before new after d nodes s b c a out = (
  s.live_same a ∙ ground (arith, out),
  s.next_same a (ground (arith, out, b)) (ground (arith, out)),
  s.prev_same a (ground (arith, out, c)) (ground (arith, out)),
  s.data_same a ∙ ground (arith, out),
)
