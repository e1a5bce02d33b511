-- ===== src/LinkedList/Search.antt =====
-- kmod_list_remove_data.
use mathlib.Core.Path.{subst}
use comment_subs.Prelude.{
  ℕ, zero, suc, ◌+◌, ◌<◌, true, List, [], ◌∷◌, ◌++◌, append_assoc, some, ◌==◌, if◌then◌else◌, ◌≡◌,
  refl, ap, arith, ◌>>=◌, length, get_or, length-append, length-map, Bool-cases, inl, inr,
}
use comment_subs.LinkedList.Defs.{
  NodePtr, Heap, load_data, find_data, remove_found, kmod_list_remove, kmod_list_remove_data,
}
use comment_subs.LinkedList.Rings.{IsRing, Holds, SameAt, head}
use comment_subs.LinkedList.Rings.Fresh.{Yields}
use comment_subs.LinkedList.Rings.Rotate.{head-append, first_of, rotate-Holds}
use comment_subs.LinkedList.Walk.{next_lem}
use comment_subs.LinkedList.Remove.{kmod_list_remove-Yields}

-- The values from behind the first occurrence of `d` on, and then those before it.
abbrev pub turned_without : (d : ℕ) (before values : List ℕ) → List ℕ
turned_without d before [] = before
turned_without d before (x ∷ xs) =
    if x == d then xs ++ before else turned_without d (before ++ x ∷ []) xs

-- What the loop and what follows it make of a list, from the node `q` on.
module _ (h : Heap) (d : ℕ) where
  abbrev Removes :
      ℕ → (nodes : List NodePtr) (bs : List NodePtr) (q : NodePtr) (values : List ℕ) → Type 0
  Removes fuel nodes bs q values =
      (left : List NodePtr) × Yields h
        (find_data fuel h (some (first_of bs q)) (some q) d >>= λ itr.
          remove_found h (some (first_of bs q)) itr)
        left values nodes

  -- The node has an allocated address and the value that the list has there.
  known :
      (bs : List NodePtr) (q : NodePtr) (ys : List NodePtr) (vs : List ℕ) (e : ℕ) (es : List ℕ)
      → Holds h (bs ++ q ∷ ys) (vs ++ e ∷ es)
      → length bs ≡ length vs
      → (h.live q ≡ true) × (h.data_of q ≡ e) × (length ys ≡ length es)
  unfolding Holds IsRing
  known bs q ys vs e es holds size =
      let turned = rotate-Holds h bs (q ∷ ys) vs (e ∷ es) holds size in
      (
        turned.0.2 q (ground arith),
        ap (λ l. get_or l 0 0) turned.1,
        omega (
          arith,
          ap length turned.1,
          length-map (ys ++ bs) h.data_of,
          length-append ys bs,
          length-append es vs,
        ),
      )

  unchanged :
      (bs : List NodePtr) (q : NodePtr) (ys : List NodePtr) (vs : List ℕ)
      → Holds h (bs ++ q ∷ ys) vs
      → Yields h (some (some (first_of bs q), h)) (bs ++ q ∷ ys) vs (bs ++ q ∷ ys)
  unfolding Yields SameAt
  unchanged bs q ys vs holds =
      (h, rw (head-append bs q ys) refl, holds, λ a out. (refl, refl, refl, refl))

  -- What is found from the node behind `q` on, with `q` among the nodes before.
  from_next :
      (fuel : ℕ) (bs : List NodePtr) (q r : NodePtr) (rs : List NodePtr) (values : List ℕ)
      → Removes fuel ((bs ++ q ∷ []) ++ r ∷ rs) (bs ++ q ∷ []) r values
      → (left : List NodePtr) × Yields h
          (find_data fuel h (some (first_of bs q)) (some r) d >>= λ itr.
            remove_found h (some (first_of bs q)) itr)
          left
          values
          (bs ++ q ∷ r ∷ rs)
  from_next fuel [] q r rs values found = found
  from_next fuel (b ∷ bs) q r rs values (left, found) = (
    left,
    subst
        (λ l.
          Yields h (find_data fuel h (some b) (some r) d >>= λ itr. remove_found h (some b) itr)
            left values (b ∷ l))
        (append_assoc bs (q ∷ []) (r ∷ rs)) found,
  )

  -- From the node behind `q` on, given what is found from there.
  go_on :
      (fuel : ℕ) (bs : List NodePtr) (q : NodePtr) (ys : List NodePtr) (vs : List ℕ) (e : ℕ)
      (es : List ℕ)
      → Holds h (bs ++ q ∷ ys) (vs ++ e ∷ es)
      → length ys ≡ length es
      → ((r : NodePtr) (rs : List NodePtr) (f : ℕ) (fs : List ℕ)
          → Holds h ((bs ++ q ∷ []) ++ r ∷ rs) ((vs ++ e ∷ []) ++ f ∷ fs)
          → length ys ≡ suc (length rs)
          → Removes
              (suc fuel)
              ((bs ++ q ∷ []) ++ r ∷ rs)
              (bs ++ q ∷ [])
              r
              (turned_without d (vs ++ e ∷ []) (f ∷ fs)))
      → (left : List NodePtr) × Yields h
          (find_data (suc fuel) h (some (first_of bs q)) (head ys) d >>= λ itr.
            remove_found h (some (first_of bs q)) itr)
          left
          (turned_without d (vs ++ e ∷ []) es)
          (bs ++ q ∷ ys)
  unfolding find_data remove_found
  go_on fuel bs q [] vs e [] holds same further =
      (bs ++ q ∷ [], unchanged bs q [] (vs ++ e ∷ []) holds)
  go_on fuel bs q [] vs e (f ∷ fs) holds same further = absurd (omega arith)
  go_on fuel bs q (r ∷ rs) vs e [] holds same further = absurd (omega arith)
  go_on fuel bs q (r ∷ rs) vs e (f ∷ fs) holds same further = from_next (suc fuel) bs q r rs _ (
      further r rs f fs
        (rw (append_assoc bs (q ∷ []) (r ∷ rs), append_assoc vs (e ∷ []) (f ∷ fs)) holds) refl)

  remove-Removes :
      (fuel : ℕ) (bs : List NodePtr) (q : NodePtr) (ys : List NodePtr) (vs : List ℕ) (e : ℕ)
      (es : List ℕ)
      → Holds h (bs ++ q ∷ ys) (vs ++ e ∷ es)
      → length bs ≡ length vs
      → length ys + 1 < fuel
      → Removes fuel (bs ++ q ∷ ys) bs q (turned_without d vs (e ∷ es))
  unfolding find_data load_data remove_found kmod_list_remove Holds
  remove-Removes zero bs q ys vs e es holds size enough = absurd (omega arith)
  remove-Removes (suc zero) bs q ys vs e es holds size enough = absurd (omega arith)
  remove-Removes (suc (suc fuel)) bs q ys vs e es holds size enough =
      let at = known bs q ys vs e es holds size in
      elim (Bool-cases (e == d)) [
        | inl same ↦
            (ys ++ bs, rw (at.0, at.1, same) (kmod_list_remove-Yields h bs q ys vs e es holds size))
        | inr differ ↦
            rw (at.0, at.1, differ, ◌>>=◌, next_lem h bs q ys at.0 holds.0)
              (go_on fuel bs q ys vs e es holds at.2 λ r rs f fs more shorter.
                remove-Removes (suc fuel) (bs ++ q ∷ []) r rs (vs ++ e ∷ []) f fs more
                  (omega (arith, length-append bs (q ∷ []), length-append vs (e ∷ [])))
                  (omega arith))
      ]

-- In a list that holds some values, with more rounds than it has nodes: kmod_list_remove_data ends,
-- meets no invalid access and leaves a circular list. Where the data does not occur, that is the
-- list as it was. Where it does, its first occurrence is gone, and the list that is returned starts
-- behind it: the values before it come last. Nodes outside of the list stay as they were.
pub kmod_list_remove_data-Yields :
    (fuel : ℕ) (h : Heap) (xs : List NodePtr) (ds : List ℕ) (d : ℕ)
    → Holds h xs ds
    → length xs < fuel
    → (left : List NodePtr) × Yields h
        (kmod_list_remove_data fuel h (head xs) d)
        left
        (turned_without d [] ds)
        xs
unfolding kmod_list_remove_data find_data remove_found Yields SameAt Holds
kmod_list_remove_data-Yields zero h [] ds d holds enough = absurd (omega arith)
kmod_list_remove_data-Yields (suc fuel) h [] [] d holds enough =
    ([], (h, refl, holds, λ a out. (refl, refl, refl, refl)))
kmod_list_remove_data-Yields (suc fuel) h [] (e ∷ es) d holds enough =
    absurd (omega (arith, ap length holds.1))
kmod_list_remove_data-Yields fuel h (q ∷ ys) [] d holds enough =
    absurd (omega (arith, ap length holds.1))
kmod_list_remove_data-Yields fuel h (q ∷ ys) (e ∷ es) d holds enough =
    remove-Removes h d fuel [] q ys [] e es holds refl (omega arith)
