-- ===== src/Toposort/Indirect/Paths.antt =====
-- The recursions of mod_get_all_sorted_dependencies, on modules whose dependencies lead into no loop.
use comment_subs.Prelude.{
  ℕ, zero, suc, ◌+◌, ◌%◌, ◌≤◌, ◌<◌, ◌≡◌, ap, sym, ◌∙◌, false, Option, none, some, List, [], ◌∷◌,
  length, get_elem?, arith, ◌>>=◌, pos, add_size, size_mod,
}
use comment_subs.Toposort.Defs.{Module}
use comment_subs.Toposort.Count.{occ}
use comment_subs.Toposort.Mark.{IsCalculated}
use comment_subs.Toposort.Sorted.{SortKey}
use comment_subs.Toposort.Indirect.Defs.{
  count_loop, count_all_dependencies, fill_all_unique_dependencies,
}
use comment_subs.Toposort.Indirect.Fills.{Fills, occ-here, occ-later}
use comment_subs.Toposort.Indirect.FillLoop.{total, fill_loop-Fills}

abbrev pub deps_at : Option Module → List ℕ
deps_at none = []
deps_at (some m) = m.deps

-- How many paths of dependencies start at a module, of at most `fuel` steps.
unfoldable pub paths : (fuel : ℕ) → List Module → ℕ → ℕ
paths zero ms k = 0
paths (suc fuel) ms k = total (λ d. paths fuel ms d) (deps_at (get_elem? ms k))

-- A bound of the dep_sort_idx of the modules that are not marked.
unfoldable pub idx_bound : List SortKey → ℕ
idx_bound [] = 0
idx_bound ((looped, idx) ∷ out) = idx + idx_bound out

-- The modules of the set are not marked as in a loop, and have their dependencies in it.
abbrev pub IsUnlooped : List Module → List SortKey → (ℕ → Type 0) → Type 0
IsUnlooped ms out P =
    (k : ℕ)
    → P k
    → (m : Module) × (idx : ℕ) × (get_elem? ms k ≡ some m)
      × (get_elem? out k ≡ some (false, idx))
      × ((d : ℕ) → 0 < occ d m.deps → P d)

count_loop_lem :
    (count_of : ℕ → Option ℕ) (weight : ℕ → ℕ) (deps : List ℕ) (count : ℕ)
    → ((d : ℕ) → 0 < occ d deps → count_of d ≡ some (weight d % size_mod))
    → count < size_mod
    → count_loop count_of deps count ≡ some ((count + total weight deps) % size_mod)
unfolding count_loop total
count_loop_lem count_of weight [] count h small = ap some (omega (arith, small))
count_loop_lem count_of weight (x ∷ deps) count h small =
    rw (h x (occ-here x deps), ◌>>=◌)
      (count_loop_lem count_of weight deps (add_size count (add_size 1 (weight x % size_mod)))
          (λ d k. h d (occ-later d x deps k)) (omega arith)
        ∙ ap some (omega arith))

abbrev idx_or : Option SortKey → ℕ
idx_or none = 0
idx_or (some (looped, idx)) = idx

idx_bound_lem :
    (out : List SortKey) (k idx : ℕ) → get_elem? out k ≡ some (false, idx) → idx ≤ idx_bound out
unfolding idx_bound
idx_bound_lem [] k idx at = absurd cc
idx_bound_lem ((looped, i) ∷ out) zero idx at =
    let same : i ≡ idx = ap idx_or at in omega (arith, same)
idx_bound_lem ((looped, i) ∷ out) (suc k) idx at = omega (arith, idx_bound_lem out k idx at)

module _ (ms : List Module) (out : List SortKey) (P : ℕ → Type 0) (v : IsCalculated ms out)
    (u : IsUnlooped ms out P) where
  -- From a dependency, there is less to go.
  deeper :
      (k d idx idx' : ℕ) (m : Module)
      → get_elem? ms k ≡ some m
      → get_elem? out k ≡ some (false, idx)
      → 0 < occ d m.deps
      → get_elem? out d ≡ some (false, idx')
      → idx < idx'
  deeper k d idx idx' m at_k out_k uses out_d =
      let (x, there, less) = v.order d idx' out_d k m at_k uses in
      let same : idx ≡ x = ap idx_or (sym out_k ∙ there) in omega (arith, same, less)

  pub count_all_dependencies-paths :
      (fuel k idx : ℕ)
      → P k
      → get_elem? out k ≡ some (false, idx)
      → idx_bound out < fuel + idx
      → count_all_dependencies fuel ms k ≡ some (paths fuel ms k % size_mod)
  unfolding count_all_dependencies paths
  count_all_dependencies-paths zero k idx p at_out h =
      absurd (omega (arith, h, idx_bound_lem out k idx at_out))
  count_all_dependencies-paths (suc fuel) k idx p at_out h =
      let (m, _, at, _, inside) = u k p in
      rw (at, ◌>>=◌)
        (count_loop_lem (λ d. count_all_dependencies fuel ms d) (λ d. paths fuel ms d) m.deps 0
            (λ d uses.
              let (o, idx', at_d, out_d, _) = u d (inside d uses) in
              count_all_dependencies-paths fuel d idx' (inside d uses) out_d
                (omega (arith, h, deeper k d idx idx' m at at_out uses out_d)))
            (omega arith)
          ∙ ap some (omega arith))

  pub fill_all_unique_dependencies-Fills :
      (fuel room k idx : ℕ)
      → P k
      → get_elem? out k ≡ some (false, idx)
      → idx_bound out < fuel + idx
      → (before : List ℕ) → length before + paths fuel ms k ≤ room
      → (m : Module) × (get_elem? ms k ≡ some m)
        × (after : List ℕ) × (fill_all_unique_dependencies fuel ms room room k before
            ≡ some (after, pos 0))
        × Fills ms m.deps before after (paths fuel ms k)
  unfolding fill_all_unique_dependencies paths
  fill_all_unique_dependencies-Fills zero room k idx p at_out h before fits =
      absurd (omega (arith, h, idx_bound_lem out k idx at_out))
  fill_all_unique_dependencies-Fills (suc fuel) room k idx p at_out h before fits =
      let (m, _, at, _, inside) = u k p in
      let deps : deps_at (get_elem? ms k) ≡ m.deps = ap deps_at at in
      let (after, run, r) =
        fill_loop-Fills ms (λ d filled. fill_all_unique_dependencies fuel ms room room d filled)
          (λ d. paths fuel ms d) room m.deps before
          (λ d uses earlier few.
            let (o, idx', at_d, out_d, _) = u d (inside d uses) in
            fill_all_unique_dependencies-Fills fuel room d idx' (inside d uses) out_d
              (omega (arith, h, deeper k d idx idx' m at at_out uses out_d)) earlier few)
          (rw deps at fits) in
      (m, at, after, rw (at, ◌>>=◌) run, rw at r)
