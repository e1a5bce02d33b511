-- ===== src/Toposort/Sorted/First.antt =====
-- In the lists of dependencies that depmod_calculate_dependencies leaves, users come first.
use comment_subs.Prelude.{
  ℕ, zero, suc, ◌^◌, ◌-◌, ◌≤◌, ◌<◌, ◌≡◌, refl, ap, sym, ◌∙◌, Bool, true, false, Option, none, some,
  List, [], ◌∷◌, if◌then◌else◌, ltb, length, get_elem?, get_or, get_elem?-get_or, arith, Bool-cases,
  inl, inr, ◌>>=◌, ◌==◌, ℤ,
}
use comment_subs.Toposort.Defs.{Module}
use comment_subs.Toposort.Count.{occ}
use comment_subs.Toposort.Loop.{Inside}
use comment_subs.Toposort.Order.{DepsFit}
use comment_subs.Toposort.Deps.{Inside-at}
use comment_subs.Toposort.Mark.{IsCalculated, get_elem?-lt}
use comment_subs.Toposort.Result.{UsersCounted, calculate_dependencies-IsCalculated}
use comment_subs.Toposort.Sorted.Defs.{
  SortKey, dep_cmp, dep_cmp_at, above, array_sort, deps_sorted, sort_dependencies,
  calculate_and_sort, Pairwise, IsQsort,
}
use comment_subs.Toposort.Sorted.Cmp.{dep_cmp_at-IsComparison, dep_cmp-above, dep_cmp-loop}

-- The module is marked as in a loop.
abbrev pub Looped : List SortKey → ℕ → Type 0
Looped out i = (x : ℕ) × (get_elem? out i ≡ some (true, x))

-- Where the module at `b` uses the module at `a`, both are in loops.
abbrev pub NotUser : List Module → List SortKey → ℕ → ℕ → Type 0
NotUser ms out a b =
    (m : Module) → get_elem? ms b ≡ some m → 0 < occ a m.deps → Looped out a × Looped out b

-- A module before and after the sort of its dependencies: they are the same, and none has a user
-- behind it but for loops.
pub record IsDepsSorted (ms : List Module) (out : List SortKey) (m m' : Module) : Type 0 where
  pub users : m'.users ≡ m.users
  pub same : (j : ℕ) → occ j m'.deps ≡ occ j m.deps
  pub first : Pairwise (NotUser ms out) m'.deps

pub Pairwise-mono :
    (R S : ℕ → ℕ → Type 0) (xs : List ℕ)
    → ((a b : ℕ) → R a b → S a b)
    → Pairwise R xs
    → Pairwise S xs
Pairwise-mono R S [] h p = tt
Pairwise-mono R S (x ∷ xs) h p = (λ y k. h x y (p.0 y k), Pairwise-mono R S xs h p.1)

Pairwise-short : (R : ℕ → ℕ → Type 0) (xs : List ℕ) → length xs ≤ 1 → Pairwise R xs
unfolding occ
Pairwise-short R [] h = tt
Pairwise-short R (x ∷ []) h = (λ y k. absurd (omega (arith, k)), tt)
Pairwise-short R (x ∷ y ∷ xs) h = absurd (omega arith)

pub Inside-occ : (n j : ℕ) (xs : List ℕ) → Inside n xs → 0 < occ j xs → j < n
unfolding occ
Inside-occ n j [] h k = absurd (omega arith)
Inside-occ n j (x ∷ xs) h k = elim (Bool-cases (x == j)) [
  | inl e ↦ ground (arith, e, h.0)
  | inr e ↦ Inside-occ n j xs h.1 (ground (arith, e, k))
]

abbrev key_or : Option SortKey → SortKey
key_or none = (false, 0)
key_or (some k) = k

abbrev module_or : Option Module → Module
module_or none = record { users = 0; deps = [] }
module_or (some m) = m

abbrev flag : Bool → ℕ
flag true = 1
flag false = 0

module _ (ms : List Module) (out : List SortKey) (v : IsCalculated ms out) (a b : ℕ) (m : Module)
    (at_m : get_elem? ms b ≡ some m) (uses : 0 < occ a m.deps) where
  keys-Looped :
      (x y : SortKey)
      → get_elem? out a ≡ some x
      → get_elem? out b ≡ some y
      → above (dep_cmp x y) ≡ false
      → Looped out a × Looped out b
  keys-Looped (true, x) (true, y) at_a at_b low = ((x, at_a), (y, at_b))
  keys-Looped (true, x) (false, y) at_a at_b low = absurd (cc (low, dep_cmp-loop y x))
  keys-Looped (false, x) (true, y) at_a at_b low =
      let (z, there, less) = v.order a x at_a b m at_m uses in
      absurd (omega (arith, ap (λ k. flag (key_or k).0) (sym at_b ∙ there)))
  keys-Looped (false, x) (false, y) at_a at_b low =
      let (z, there, less) = v.order a x at_a b m at_m uses in
      let same : y ≡ z = ap (λ k. (key_or k).1) (sym at_b ∙ there) in
      absurd (cc (low, dep_cmp-above y x (omega (arith, same, less))))

  pub behind-Looped :
      DepsFit (length ms) ms → above (dep_cmp_at out a b) ≡ false → Looped out a × Looped out b
  behind-Looped fits low =
      let in_a : a < length ms =
        Inside-occ (length ms) a m.deps (Inside-at (length ms) ms b m fits at_m) uses in
      let in_b : b < length ms = get_elem?-lt ms b at_m in
      keys-Looped (get_or out a (false, 0)) (get_or out b (false, 0))
        (get_elem?-get_or out a (false, 0) (omega (arith, in_a, v.size)))
        (get_elem?-get_or out b (false, 0) (omega (arith, in_b, v.size))) low

module _ (qsort : (ℕ → ℕ → ℤ) → List ℕ → List ℕ) (w : IsQsort qsort) where
  deps_sorted-IsDepsSorted :
      (ms : List Module) (out : List SortKey) (m : Module)
      → IsCalculated ms out
      → DepsFit (length ms) ms
      → IsDepsSorted ms out m (deps_sorted qsort out m)
  unfolding array_sort
  deps_sorted-IsDepsSorted ms out m v fits = elim (Bool-cases (ltb 1 (length m.deps))) [
    | inl many ↦
        rw (many, if◌then◌else◌)
          (record {
            users = refl;
            same = w.same (dep_cmp_at out) m.deps;
            first =
                Pairwise-mono (λ a b. above (dep_cmp_at out a b) ≡ false) (NotUser ms out)
                  (qsort (dep_cmp_at out) m.deps)
                  (λ a b low x at_x uses. behind-Looped ms out v a b x at_x uses fits low)
                  (w.ascending (dep_cmp_at out) (dep_cmp_at-IsComparison out) m.deps);
          })
    | inr few ↦
        rw (few, if◌then◌else◌)
          (record {
            users = refl;
            same = λ j. refl;
            first = Pairwise-short (NotUser ms out) m.deps (ground (arith, few));
          })
  ]

module _ (qsort : (ℕ → ℕ → ℤ) → List ℕ → List ℕ) where
  sort_dependencies-get :
      (out : List SortKey) (ms : List Module) (k : ℕ) (m : Module)
      → get_elem? ms k ≡ some m
      → get_elem? (sort_dependencies qsort out ms) k ≡ some (deps_sorted qsort out m)
  unfolding sort_dependencies
  sort_dependencies-get out [] k m at = absurd cc
  sort_dependencies-get out (x ∷ ms) zero m at =
      ap (λ o. some (deps_sorted qsort out (module_or o))) at
  sort_dependencies-get out (x ∷ ms) (suc k) m at = sort_dependencies-get out ms k m at

  length-sort_dependencies :
      (out : List SortKey) (ms : List Module) → length (sort_dependencies qsort out ms) ≡ length ms
  unfolding sort_dependencies
  length-sort_dependencies out [] = refl
  length-sort_dependencies out (m ∷ ms) = ap suc (length-sort_dependencies out ms)

-- Where qsort keeps its promises (IsQsort), for fewer than 65535 modules whose dependencies are
-- modules and whose counters `users` are right: depmod_calculate_dependencies meets no fault and
-- ends. It marks and numbers the modules as IsCalculated says, and each module keeps its
-- dependencies, each as often as before. In their new order no dependency has a user of it
-- behind it, unless both are marked as in a loop.
pub calculate_and_sort-IsDepsSorted :
    (qsort : (ℕ → ℕ → ℤ) → List ℕ → List ℕ) (w : IsQsort qsort) (ms : List Module)
    → length ms < 2 ^ 16 - 1
    → DepsFit (length ms) ms
    → UsersCounted ms
    → (out : List SortKey) × (ms' : List Module) × (calculate_and_sort qsort ms ≡ some (out, ms'))
      × IsCalculated ms out
      × (length ms' ≡ length ms)
      × ((k : ℕ) (m : Module)
          → get_elem? ms k ≡ some m
          → (m' : Module) × (get_elem? ms' k ≡ some m') × IsDepsSorted ms out m m')
unfolding calculate_and_sort
calculate_and_sort-IsDepsSorted qsort w ms few fits h =
    let (out, run, v) = calculate_dependencies-IsCalculated ms few fits h in
    (
      out,
      sort_dependencies qsort out ms,
      rw (run, ◌>>=◌),
      v,
      length-sort_dependencies qsort out ms,
      λ k m at. (
        deps_sorted qsort out m,
        sort_dependencies-get qsort out ms k m at,
        deps_sorted-IsDepsSorted qsort w ms out m v fits,
      ),
    )
