-- ===== src/Tests/Sorts.antt =====
-- depmod_calculate_dependencies of tools/depmod.c with an insertion sort for qsort.
use comment_subs.Prelude.{
  ℕ, zero, suc, ◌<◌, ◌≡◌, refl, ap, sym, ◌∙◌, true, false, some, none, Option, List, [], ◌∷◌,
  if◌then◌else◌, ◌==◌, length, get_elem?, arith, Bool-cases, inl, inr, ℤ, pos, negsuc, ◌⊎◌,
}
use comment_subs.Toposort.{
  Module, calculate_dependencies, populate, push, sort_loop, visit, release, no_loops,
}
use comment_subs.Toposort.Count.{pending, occ}
use comment_subs.Toposort.Result.{UsersCounted}
use comment_subs.Toposort.Mark.{IsCalculated}
use comment_subs.Toposort.Sorted.{
  SortKey, difference, dep_cmp, above, opposite, array_sort, sort_dependencies, calculate_and_sort,
  IsComparison, IsQsort, Pairwise,
}
use comment_subs.Toposort.Sorted.First.{calculate_and_sort-IsDepsSorted, IsDepsSorted}

unfoldable insert : (ℕ → ℕ → ℤ) → ℕ → List ℕ → List ℕ
insert cmp x [] = x ∷ []
insert cmp x (y ∷ ys) =
    let rest = insert cmp x ys in if above (cmp x y) then y ∷ rest else x ∷ y ∷ ys

pub insertion_sort : (ℕ → ℕ → ℤ) → List ℕ → List ℕ
insertion_sort cmp [] = []
insertion_sort cmp (x ∷ xs) = insert cmp x (insertion_sort cmp xs)

occ-insert :
    (cmp : ℕ → ℕ → ℤ) (x : ℕ) (ys : List ℕ) (j : ℕ) → occ j (insert cmp x ys) ≡ occ j (x ∷ ys)
unfolding insert occ
occ-insert cmp x [] j = refl
occ-insert cmp x (y ∷ ys) j = elim (Bool-cases (above (cmp x y))) [
  | inl e ↦ rw (e, if◌then◌else◌) (omega (arith, occ-insert cmp x ys j))
  | inr e ↦ rw (e, if◌then◌else◌) refl
]

occ-insertion_sort :
    (cmp : ℕ → ℕ → ℤ) (xs : List ℕ) (j : ℕ) → occ j (insertion_sort cmp xs) ≡ occ j xs
unfolding insertion_sort occ
occ-insertion_sort cmp [] j = refl
occ-insertion_sort cmp (x ∷ xs) j =
    omega (arith, occ-insert cmp x (insertion_sort cmp xs) j, occ-insertion_sort cmp xs j)

occ-cases : (z x : ℕ) (xs : List ℕ) → 0 < occ z (x ∷ xs) → (x ≡ z) ⊎ (0 < occ z xs)
unfolding occ
occ-cases z x xs h = elim (Bool-cases (x == z)) [
  | inl e ↦ inl (ground (arith, e))
  | inr e ↦ inr (ground (arith, e, h))
]

above-opposite : (n : ℤ) → above n ≡ true → above (opposite n) ≡ false
unfolding above opposite
above-opposite (pos zero) h = refl
above-opposite (pos (suc n)) h = refl
above-opposite (negsuc n) h = absurd cc

module _ (cmp : ℕ → ℕ → ℤ) (v : IsComparison cmp) where
  above-flipped : (a b : ℕ) → above (cmp a b) ≡ true → above (cmp b a) ≡ false
  above-flipped a b h = ap above (v.flipped a b) ∙ above-opposite (cmp a b) h

  insert-Pairwise :
      (x : ℕ) (ys : List ℕ)
      → Pairwise (λ a b. above (cmp a b) ≡ false) ys
      → Pairwise (λ a b. above (cmp a b) ≡ false) (insert cmp x ys)
  unfolding insert occ
  insert-Pairwise x [] p = (λ z k. absurd (omega (arith, k)), tt)
  insert-Pairwise x (y ∷ ys) p = elim (Bool-cases (above (cmp x y))) [
    | inl e ↦
        rw (e, if◌then◌else◌)
          (
            (λ z k. elim (occ-cases z x ys (omega (arith, k, occ-insert cmp x ys z))) [
              | inl same ↦ ap (λ w. above (cmp y w)) (sym same) ∙ above-flipped x y e
              | inr there ↦ p.0 z there
            ]),
            insert-Pairwise x ys p.1,
          )
    | inr e ↦
        rw (e, if◌then◌else◌)
          (
            (λ z k. elim (occ-cases z y ys k) [
              | inl same ↦ ap (λ w. above (cmp x w)) (sym same) ∙ e
              | inr there ↦ v.onward x y z e (p.0 z there)
            ]),
            p,
          )
  ]

  insertion_sort-Pairwise :
      (xs : List ℕ) → Pairwise (λ a b. above (cmp a b) ≡ false) (insertion_sort cmp xs)
  unfolding insertion_sort
  insertion_sort-Pairwise [] = tt
  insertion_sort-Pairwise (x ∷ xs) =
      insert-Pairwise x (insertion_sort cmp xs) (insertion_sort-Pairwise xs)

pub insertion_sort-IsQsort : IsQsort insertion_sort
insertion_sort-IsQsort = record {
  same = occ-insertion_sort;
  ascending = λ cmp v xs. insertion_sort-Pairwise cmp v xs;
}

-- Module 0 uses the modules 2 and 1, and module 1 uses module 2.
abbrev three_modules : List Module
three_modules =
    record { users = 0; deps = 2 ∷ 1 ∷ [] }
    ∷ record { users = 1; deps = 2 ∷ [] }
    ∷ record { users = 2; deps = [] }
    ∷ []

abbrev users_or : Option Module → ℕ
users_or none = 0
users_or (some m) = m.users

three_modules-UsersCounted : UsersCounted three_modules
unfolding pending occ
three_modules-UsersCounted zero m at = sym (ap users_or at)
three_modules-UsersCounted (suc zero) m at = sym (ap users_or at)
three_modules-UsersCounted (suc (suc zero)) m at = sym (ap users_or at)
three_modules-UsersCounted (suc (suc (suc k))) m at = cc

calculate_and_sort_example :
    (out : List SortKey) × (ms' : List Module) × (calculate_and_sort insertion_sort three_modules
      ≡ some (out, ms'))
    × IsCalculated three_modules out
    × (length ms' ≡ 3)
    × ((k : ℕ) (m : Module)
        → get_elem? three_modules k ≡ some m
        → (m' : Module) × (get_elem? ms' k ≡ some m') × IsDepsSorted three_modules out m m')
calculate_and_sort_example =
    calculate_and_sort-IsDepsSorted insertion_sort insertion_sort-IsQsort three_modules
      (omega arith) ((omega arith, (omega arith, tt)), ((omega arith, tt), (tt, tt)))
      three_modules-UsersCounted

-- Module 1 comes before module 2 then.
three_modules_run :
    calculate_and_sort insertion_sort three_modules
    ≡ some (
      (false, 0) ∷ (false, 1) ∷ (false, 2) ∷ [],
      record { users = 0; deps = 1 ∷ 2 ∷ [] }
          ∷ record { users = 1; deps = 2 ∷ [] }
          ∷ record { users = 2; deps = [] }
          ∷ [],
    )
unfolding calculate_and_sort calculate_dependencies populate push sort_loop visit release no_loops
    sort_dependencies array_sort dep_cmp difference above insert insertion_sort
three_modules_run = refl
