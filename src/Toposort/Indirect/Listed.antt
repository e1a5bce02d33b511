-- ===== src/Toposort/Indirect/Listed.antt =====
-- mod_get_all_sorted_dependencies on a module whose dependencies lead into no loop.
use comment_subs.Prelude.{
  ℕ, zero, suc, ◌%◌, ◌^◌, ◌≤◌, ◌<◌, ◌≡◌, refl, true, false, Option, none, some, List, [], ◌∷◌,
  if◌then◌else◌, ◌==◌, length, get_elem?, arith, Bool-cases, inl, inr, ◌>>=◌, ◌↔◌, ℤ, pos, size_mod,
}
use comment_subs.Toposort.Defs.{Module}
use comment_subs.Toposort.Count.{occ}
use comment_subs.Toposort.Order.{DepsFit}
use comment_subs.Toposort.Mark.{IsCalculated}
use comment_subs.Toposort.Sorted.{SortKey, dep_cmp_at, above, IsQsort, Pairwise}
use comment_subs.Toposort.Sorted.Cmp.{dep_cmp_at-IsComparison}
use comment_subs.Toposort.Sorted.First.{NotUser, Pairwise-mono, behind-Looped}
use comment_subs.Toposort.Indirect.Defs.{
  count_all_dependencies, fill_all_unique_dependencies, room_for, sort_filled,
  get_all_sorted_dependencies,
}
use comment_subs.Toposort.Indirect.Fills.{Leads, here, next, Fills}
use comment_subs.Toposort.Indirect.FillLoop.{total}
use comment_subs.Toposort.Indirect.Paths.{
  paths, idx_bound, IsUnlooped, count_all_dependencies-paths, fill_all_unique_dependencies-Fills,
}

-- A dependency of the module, or one that these lead to.
abbrev pub Below : List Module → Module → ℕ → Type 0
Below ms m x = (d : ℕ) × (0 < occ d m.deps) × Leads ms d x

-- The result for the module `m`: NULL where it has no dependencies, else the array, which is a
-- permutation of `n` modules. Each is there once, they are those below the module, and none has a
-- user of it behind it but for loops.
pub data Listed (ms : List Module) (out : List SortKey) (m : Module)
    : Option (List ℕ) × ℕ → Type 0 where
  nothing : m.deps ≡ [] → Listed ms out m (none, 0)
  listed :
      (found sorted : List ℕ)
      → ((x : ℕ) → occ x sorted ≡ occ x found)
      → ((x : ℕ) → occ x sorted ≤ 1)
      → ((x : ℕ) → (0 < occ x sorted) ↔ Below ms m x)
      → Pairwise (NotUser ms out) sorted
      → Listed ms out m (some sorted, length found)

module _ (ms : List Module) (m : Module) (found : List ℕ) (n : ℕ)
    (r : Fills ms m.deps [] found n) where
  reached : {d x : ℕ} → 0 < occ d found → Leads ms d x → 0 < occ x found
  unfolding occ
  reached h here = h
  reached h (next {d} {e} {x} o at uses path) = reached (r.closed d refl h o at e uses) path

  found-Below : (x : ℕ) → (0 < occ x found) ↔ Below ms m x
  unfolding occ
  found-Below x = (λ h. r.sound x refl h, λ b. reached (r.all b.0 b.1) b.2)

  found_once : (x : ℕ) → occ x found ≤ 1
  unfolding occ
  found_once x = r.once x refl

total-nil : (weight : ℕ → ℕ) (deps : List ℕ) → total weight deps ≡ 0 → deps ≡ []
unfolding total
total-nil weight [] e = refl
total-nil weight (d ∷ deps) e = absurd (omega (arith, e))

paths-nil :
    (fuel : ℕ) (ms : List Module) (k : ℕ) (m : Module)
    → 0 < fuel
    → get_elem? ms k ≡ some m
    → paths fuel ms k ≡ 0
    → m.deps ≡ []
unfolding paths
paths-nil zero ms k m h at e = absurd (omega arith)
paths-nil (suc fuel) ms k m h at e = total-nil (λ d. paths fuel ms d) m.deps (rw at at e)

sorted-Listed :
    (qsort : (ℕ → ℕ → ℤ) → List ℕ → List ℕ) (w : IsQsort qsort) (ms : List Module)
    (out : List SortKey) (m : Module) (found : List ℕ) (n : ℕ)
    → IsCalculated ms out
    → DepsFit (length ms) ms
    → Fills ms m.deps [] found n
    → Listed ms out m (some (qsort (dep_cmp_at out) found), length found)
sorted-Listed qsort w ms out m found n v fits r =
    let same = w.same (dep_cmp_at out) found in
    listed found (qsort (dep_cmp_at out) found) same
      (λ x. omega (arith, same x, found_once ms m found n r x))
      (λ x. (
        λ h. (found-Below ms m found n r x).0 (omega (arith, same x, h)),
        λ b. omega (arith, same x, (found-Below ms m found n r x).1 b),
      ))
      (Pairwise-mono (λ a b. above (dep_cmp_at out a b) ≡ false) (NotUser ms out)
        (qsort (dep_cmp_at out) found)
        (λ a b low o at uses. behind-Looped ms out v a b o at uses fits low)
        (w.ascending (dep_cmp_at out) (dep_cmp_at-IsComparison out) found))

module _ (qsort : (ℕ → ℕ → ℤ) → List ℕ → List ℕ) (fuel : ℕ) (out : List SortKey) (ms : List Module)
    (k n : ℕ) (few : n < 2 ^ 61)
    (counted : count_all_dependencies fuel ms k ≡ some (n % size_mod)) where
  whole : n % size_mod ≡ n
  whole = omega (arith, few)

  run-none : (n == 0) ≡ true → get_all_sorted_dependencies qsort true fuel out ms k ≡ some (none, 0)
  unfolding get_all_sorted_dependencies
  run-none zero_ = rw (counted, ◌>>=◌, whole, zero_, if◌then◌else◌) refl

  run-some :
      (found : List ℕ)
      → (n == 0) ≡ false
      → fill_all_unique_dependencies fuel ms n n k [] ≡ some (found, pos 0)
      → get_all_sorted_dependencies qsort true fuel out ms k
        ≡ some (some (qsort (dep_cmp_at out) found), length found)
  unfolding get_all_sorted_dependencies sort_filled
  run-some found more run =
      let room : room_for n ≡ n = omega (arith, few) in
      rw (counted, ◌>>=◌, whole, more, if◌then◌else◌, room, run, ◌>>=◌) refl

-- For a module of a set that depmod_calculate_dependencies does not mark as in a loop, and that has
-- all dependencies of its modules, where qsort keeps its promises, malloc gets its memory and fewer
-- than 2 ^ 61 paths of dependencies start at the module: mod_get_all_sorted_dependencies ends, with
-- recursions no deeper than one more than the sum of the dep_sort_idx of all modules, and writes
-- within its array. It returns NULL for a module without dependencies. Else it returns each
-- of its direct and indirect dependencies once, and no others, with their number; and none has a
-- user of it behind it, unless both are marked as in a loop.
pub get_all_sorted_dependencies-Listed :
    (qsort : (ℕ → ℕ → ℤ) → List ℕ → List ℕ) (w : IsQsort qsort) (fuel : ℕ) (out : List SortKey)
    (ms : List Module) (P : ℕ → Type 0)
    → IsCalculated ms out
    → DepsFit (length ms) ms
    → IsUnlooped ms out P
    → (k : ℕ) → P k
    → idx_bound out < fuel
    → paths fuel ms k < 2 ^ 61
    → (m : Module) × (r : Option (List ℕ) × ℕ) × (get_elem? ms k ≡ some m)
      × (get_all_sorted_dependencies qsort true fuel out ms k ≡ some r)
      × Listed ms out m r
get_all_sorted_dependencies-Listed qsort w fuel out ms P v fits u k p deep few =
    let (m, idx, at, out_k, _) = u k p in
    let counted =
      count_all_dependencies-paths ms out P v u fuel k idx p out_k (omega (arith, deep)) in
    elim (Bool-cases (paths fuel ms k == 0)) [
      | inl none_there ↦ (
        m,
        (none, 0),
        at,
        run-none qsort fuel out ms k (paths fuel ms k) few counted none_there,
        nothing (paths-nil fuel ms k m (omega (arith, deep)) at (ground (arith, none_there))),
      )
      | inr more ↦
          let (o, at_o, found, run, r) =
            fill_all_unique_dependencies-Fills ms out P v u fuel (paths fuel ms k) k idx p out_k
              (omega (arith, deep)) [] (omega arith) in
          (
            o,
            (some (qsort (dep_cmp_at out) found), length found),
            at_o,
            run-some qsort fuel out ms k (paths fuel ms k) few counted found more run,
            sorted-Listed qsort w ms out o found (paths fuel ms k) v fits r,
          )
    ]
