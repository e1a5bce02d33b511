-- ===== src/LinkedList/Latest.antt =====
-- kmod_list_last and kmod_list_remove_n_latest.
use mathlib.Core.Path.{subst}
use comment_subs.Prelude.{
  take_none, bind_assoc, ℕ, zero, suc, ◌-◌, List, [], ◌∷◌, ◌++◌, append-nil, none, ◌≡◌, refl, sym,
  ap, ◌∙◌, arith, ◌>>=◌, length, length-append, length-map, take, take-append, take-append_short,
  inl, inr, false,
}
use comment_subs.LinkedList.Defs.{
  NodePtr, Heap, kmod_list_last, kmod_list_remove, kmod_list_remove_n_latest,
}
use comment_subs.LinkedList.Links.{has, has-append}
use comment_subs.LinkedList.Rings.{IsRing, Holds, SameAt, SameOutside, head}
use comment_subs.LinkedList.Rings.Fresh.{Yields}
use comment_subs.LinkedList.Walk.{last_cases, last_lem}
use comment_subs.LinkedList.Remove.{kmod_list_remove-Yields}

same_trans :
    (h g f : Heap) (xs ys : List NodePtr)
    → SameOutside xs h g
    → SameOutside ys g f
    → ((a : NodePtr) → has a xs ≡ false → has a ys ≡ false)
    → SameOutside xs h f
unfolding SameAt
same_trans h g f xs ys s t within a out =
    let u = s a out in let v = t a (within a out) in (v.0 ∙ u.0, v.1 ∙ u.1, v.2 ∙ u.2, v.3 ∙ u.3)

Holds-length : (h : Heap) (xs : List NodePtr) (ds : List ℕ) → Holds h xs ds → length xs ≡ length ds
unfolding Holds
Holds-length h xs ds holds = omega (arith, ap length holds.1, length-map xs h.data_of)

take_all : (A : Type 0) (xs : List A) → take (length xs - 0) xs ≡ xs
take_all A xs =
    let n = length xs - 0 in sym (ap (take n) (append-nil xs)) ∙ take-append xs [] n (omega arith)

-- A round of the loop takes the last node.
round_lem :
    (h : Heap) (xs : List NodePtr) (q : NodePtr) (ds : List ℕ) (e : ℕ)
    → Holds h (xs ++ q ∷ []) (ds ++ e ∷ [])
    → length xs ≡ length ds
    → Yields h
        (kmod_list_last h (head (xs ++ q ∷ [])) >>= λ l. kmod_list_remove h l)
        xs
        ds
        (xs ++ q ∷ [])
unfolding Holds
round_lem h xs q ds e holds size =
    rw (last_lem h xs q holds.0, ◌>>=◌) (kmod_list_remove-Yields h xs q [] ds e [] holds size)

take_snoc :
    (A : Type 0) (xs : List A) (x : A) (n : ℕ)
    → take (length (xs ++ x ∷ []) - suc n) (xs ++ x ∷ []) ≡ take (length xs - n) xs
take_snoc A xs x n =
    let size : length (xs ++ x ∷ []) - suc n ≡ length xs - n =
      omega (arith, length-append xs (x ∷ [])) in
    rw size (take-append_short (length xs - n) xs (x ∷ []) (omega arith))

-- Of an empty list there is nothing to take.
from_null : (n : ℕ) (h : Heap) → Yields h (kmod_list_remove_n_latest h none n) [] [] []
unfolding kmod_list_remove_n_latest Yields SameAt Holds kmod_list_last kmod_list_remove IsRing
from_null zero h = (h, refl, (tt, refl), λ a out. (refl, refl, refl, refl))
from_null (suc n) h = from_null n h

-- The first round, and the further ones given what they do.
module _ (n : ℕ)
    (further : (h : Heap) (xs : List NodePtr) (ds : List ℕ)
      → Holds h xs ds
      → Yields h
          (kmod_list_remove_n_latest h (head xs) n)
          (take (length xs - n) xs)
          (take (length ds - n) ds)
          xs) where
  one_more :
      (h : Heap) (xs : List NodePtr) (q : NodePtr) (ds : List ℕ) (e : ℕ)
      → Holds h (xs ++ q ∷ []) (ds ++ e ∷ [])
      → length xs ≡ length ds
      → Yields h
          (kmod_list_remove_n_latest h (head (xs ++ q ∷ [])) (suc n))
          (take (length xs - n) xs)
          (take (length ds - n) ds)
          (xs ++ q ∷ [])
  unfolding kmod_list_remove_n_latest Yields
  one_more h xs q ds e holds size =
      let (g, e1, here, same) = round_lem h xs q ds e holds size in
      let (f, e2, there, same1) = further g xs ds here in
      (
        f,
        sym (
              bind_assoc (kmod_list_last h (head (xs ++ q ∷ []))) (kmod_list_remove h)
                λ r. kmod_list_remove_n_latest r.1 r.0 n)
            ∙ ap (λ m. m >>= λ r. kmod_list_remove_n_latest r.1 r.0 n) e1
            ∙ e2,
        there,
        same_trans h g f (xs ++ q ∷ []) xs same same1
            (λ a out. ground (arith, out, has-append a xs (q ∷ []))),
      )

  either :
      (h : Heap) (xs : List NodePtr) (ds : List ℕ)
      → Holds h xs ds
      → Yields h
          (kmod_list_remove_n_latest h (head xs) (suc n))
          (take (length xs - suc n) xs)
          (take (length ds - suc n) ds)
          xs
  either h xs ds holds =
      let same : length xs ≡ length ds = Holds-length h xs ds holds in
      elim (last_cases xs) [
        | inl a ↦ elim (last_cases ds) [
          | inl b ↦ rw (a, b, take_none NodePtr (0 - suc n)) (from_null (suc n) h)
          | inr (es, e, b) ↦
              absurd (omega (arith, same, ap length a, ap length b, length-append es (e ∷ [])))
        ]
        | inr (ys, y, a) ↦ elim (last_cases ds) [
          | inl b ↦
              absurd (omega (arith, same, ap length a, ap length b, length-append ys (y ∷ [])))
          | inr (es, e, b) ↦
              rw (a, b, take_snoc NodePtr ys y n, take_snoc ℕ es e n)
                (one_more h ys y es e
                  (subst (λ l. Holds h l (es ++ e ∷ [])) a (subst (Holds h xs) b holds))
                  (omega (
                    arith,
                    same,
                    ap length a,
                    ap length b,
                    length-append ys (y ∷ []),
                    length-append es (e ∷ []),
                  )))
        ]
      ]

-- In a list that holds some values, or from NULL: kmod_list_remove_n_latest meets no invalid access
-- for any `n`. It leaves the list without its last `n` values, with the same head, and NULL where
-- it has no more than `n`. Nodes outside of the list stay as they were.
pub kmod_list_remove_n_latest-Yields :
    (n : ℕ) (h : Heap) (xs : List NodePtr) (ds : List ℕ)
    → Holds h xs ds
    → Yields h
        (kmod_list_remove_n_latest h (head xs) n)
        (take (length xs - n) xs)
        (take (length ds - n) ds)
        xs
unfolding kmod_list_remove_n_latest Yields SameAt
kmod_list_remove_n_latest-Yields zero h xs ds holds = (
  h,
  rw (take_all NodePtr xs) refl,
  rw (take_all NodePtr xs, take_all ℕ ds) holds,
  λ a out. (refl, refl, refl, refl),
)
kmod_list_remove_n_latest-Yields (suc n) h xs ds holds =
    either n (kmod_list_remove_n_latest-Yields n) h xs ds holds
