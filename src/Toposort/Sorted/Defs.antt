-- ===== src/Toposort/Sorted/Defs.antt =====
-- dep_cmp, depmod_sort_dependencies with array_sort, and depmod_calculate_dependencies as a whole.
-- The function qsort of the C library is an argument.
use comment_subs.Prelude.{
  ℕ, zero, suc, ◌<◌, ◌≡◌, Bool, true, false, Option, some, List, [], ◌∷◌, if◌then◌else◌, ltb,
  length, get_or, ◌>>=◌, ℤ, pos, negsuc,
}
use comment_subs.Toposort.Defs.{Module, calculate_dependencies}
use comment_subs.Toposort.Count.{occ}

-- The difference of two `int` that are not negative, which is an `int`.
unfoldable pub difference : ℕ → ℕ → ℤ
difference a zero = pos a
difference zero (suc b) = negsuc b
difference (suc a) (suc b) = difference a b

-- dep_loop and dep_sort_idx of a module; the latter is never negative.
abbrev pub SortKey : Type 0
SortKey = Bool × ℕ

unfoldable pub dep_cmp : SortKey → SortKey → ℤ
dep_cmp (true, a) (true, b) = difference a b
dep_cmp (false, a) (false, b) = difference a b
dep_cmp (true, a) (false, b) = pos 1
dep_cmp (false, a) (true, b) = negsuc 0

-- The comparison of the modules at two indices.
abbrev pub dep_cmp_at : List SortKey → ℕ → ℕ → ℤ
dep_cmp_at out a b = dep_cmp (get_or out a (false, 0)) (get_or out b (false, 0))

module _ (qsort : (ℕ → ℕ → ℤ) → List ℕ → List ℕ) where
  unfoldable pub array_sort : List ℕ → (ℕ → ℕ → ℤ) → List ℕ
  array_sort array cmp = qsort cmp array

  -- A round of the loop; `out` are dep_loop and dep_sort_idx of all modules.
  abbrev pub deps_sorted : (out : List SortKey) → Module → Module
  deps_sorted out m =
      if ltb 1 (length m.deps) then record m { deps = array_sort m.deps (dep_cmp_at out) } else m

  unfoldable pub sort_dependencies : (out : List SortKey) → List Module → List Module
  sort_dependencies out [] = []
  sort_dependencies out (m ∷ ms) = deps_sorted out m ∷ sort_dependencies out ms

  -- depmod_calculate_dependencies: the modules afterwards, with their dep_loop and dep_sort_idx.
  unfoldable pub calculate_and_sort : List Module → Option (List SortKey × List Module)
  calculate_and_sort ms = do out ← calculate_dependencies ms; some (out, sort_dependencies out ms)

unfoldable pub above : ℤ → Bool
above (pos zero) = false
above (pos (suc n)) = true
above (negsuc n) = false

unfoldable pub opposite : ℤ → ℤ
opposite (pos zero) = pos zero
opposite (pos (suc n)) = negsuc n
opposite (negsuc n) = pos (suc n)

-- A comparison function that is consistent, which qsort asks for.
pub record IsComparison (cmp : ℕ → ℕ → ℤ) : Type 0 where
  pub flipped : (a b : ℕ) → cmp b a ≡ opposite (cmp a b)
  pub onward :
      (a b c : ℕ) → above (cmp a b) ≡ false → above (cmp b c) ≡ false → above (cmp a c) ≡ false

-- Each element of the list and each that stands behind it are related.
abbrev pub Pairwise : (R : ℕ → ℕ → Type 0) → List ℕ → Type 0
Pairwise R [] = Unit
Pairwise R (x ∷ xs) = ((y : ℕ) → 0 < occ y xs → R x y) × Pairwise R xs

-- What qsort promises.
pub record IsQsort (qsort : (ℕ → ℕ → ℤ) → List ℕ → List ℕ) : Type 0 where
  pub same : (cmp : ℕ → ℕ → ℤ) (xs : List ℕ) → (j : ℕ) → occ j (qsort cmp xs) ≡ occ j xs
  pub ascending :
      (cmp : ℕ → ℕ → ℤ)
      → IsComparison cmp
      → (xs : List ℕ) → Pairwise (λ a b. above (cmp a b) ≡ false) (qsort cmp xs)
