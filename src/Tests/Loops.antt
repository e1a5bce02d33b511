-- ===== src/Tests/Loops.antt =====
-- mod_get_all_sorted_dependencies of tools/depmod.c: on a module that is in no loop but uses modules
-- that are in one, and on modules without loops.
use comment_subs.Prelude.{
  sym, ap, ◌∙◌, ◌^◌, get_elem?, ℕ, zero, suc, ◌<◌, ◌≡◌, refl, true, false, some, none, Option, List,
  [], ◌∷◌, arith, ℤ,
}
use comment_subs.Toposort.{
  Module, calculate_dependencies, populate, push, sort_loop, visit, release, mark_loops, no_loops,
  int32_max,
}
use comment_subs.Toposort.Count.{occ}
use comment_subs.Toposort.Indirect.{
  count_loop, count_all_dependencies, after_fill, fill_loop, append_dep,
  fill_all_unique_dependencies, sort_filled, get_all_sorted_dependencies,
}
use mathlib.Core.Path.{subst}
use comment_subs.Toposort.Count.{pending}
use comment_subs.Toposort.Order.{DepsFit}
use comment_subs.Toposort.Mark.{IsCalculated}
use comment_subs.Toposort.Result.{calculate_dependencies-IsCalculated, UsersCounted}
use comment_subs.Toposort.Sorted.{SortKey}
use comment_subs.Toposort.Indirect.FillLoop.{total}
use comment_subs.Toposort.Indirect.Listed.{get_all_sorted_dependencies-Listed, Listed}
use comment_subs.Toposort.Indirect.Paths.{IsUnlooped, idx_bound, paths}
use comment_subs.Tests.Sorts.{insertion_sort, insertion_sort-IsQsort}
use comment_subs.Toposort.Indirect.Endless.{get_all_sorted_dependencies-none, IsEndless}
use comment_subs.Array.Scan.{contains}

-- Module 0 uses module 1; the modules 1 and 2 use each other.
abbrev looping_modules : List Module
looping_modules =
    record { users = 0; deps = 1 ∷ [] }
    ∷ record { users = 2; deps = 2 ∷ [] }
    ∷ record { users = 1; deps = 1 ∷ [] }
    ∷ []

-- depmod_calculate_dependencies does not mark module 0.
looping_run :
    calculate_dependencies looping_modules
    ≡ some ((false, 0) ∷ (true, int32_max) ∷ (true, int32_max) ∷ [])
unfolding calculate_dependencies populate push sort_loop visit release mark_loops
looping_run = refl

looping_modules-IsEndless : IsEndless looping_modules (λ k. k < 3)
unfolding occ
looping_modules-IsEndless zero h = (_, refl, 1, omega arith, omega arith)
looping_modules-IsEndless (suc zero) h = (_, refl, 2, omega arith, omega arith)
looping_modules-IsEndless (suc (suc zero)) h = (_, refl, 1, omega arith, omega arith)
looping_modules-IsEndless (suc (suc (suc k))) h = absurd (omega arith)

abbrev unchanged : (ℕ → ℕ → ℤ) → List ℕ → List ℕ
unchanged cmp xs = xs

get_all_sorted_dependencies_example :
    get_all_sorted_dependencies unchanged true 1000
      ((false, 0) ∷ (true, int32_max) ∷ (true, int32_max) ∷ [])
      looping_modules
      0
    ≡ none
get_all_sorted_dependencies_example =
    get_all_sorted_dependencies-none unchanged true 1000
      ((false, 0) ∷ (true, int32_max) ∷ (true, int32_max) ∷ []) looping_modules (λ k. k < 3)
      looping_modules-IsEndless 0 (omega arith)

-- Module 0 uses module 1, and both use module 2: module 2 is counted twice and filled in once.
abbrev shared_modules : List Module
shared_modules =
    record { users = 0; deps = 1 ∷ 2 ∷ [] }
    ∷ record { users = 1; deps = 2 ∷ [] }
    ∷ record { users = 2; deps = [] }
    ∷ []

abbrev keys_or : List SortKey → Option (List SortKey) → List SortKey
keys_or d none = d
keys_or d (some out) = out

abbrev users_or : Option Module → ℕ
users_or none = 0
users_or (some m) = m.users

shared_modules-UsersCounted : UsersCounted shared_modules
unfolding pending occ
shared_modules-UsersCounted zero m at = sym (ap users_or at)
shared_modules-UsersCounted (suc zero) m at = sym (ap users_or at)
shared_modules-UsersCounted (suc (suc zero)) m at = sym (ap users_or at)
shared_modules-UsersCounted (suc (suc (suc k))) m at = cc

shared_modules-DepsFit : DepsFit 3 shared_modules
shared_modules-DepsFit = ((omega arith, (omega arith, tt)), ((omega arith, tt), (tt, tt)))

shared_keys :
    (out : List SortKey) × (calculate_dependencies shared_modules ≡ some out)
    × IsCalculated shared_modules out
shared_keys =
    calculate_dependencies-IsCalculated shared_modules (omega arith) shared_modules-DepsFit
      shared_modules-UsersCounted

abbrev shared_out : List SortKey
shared_out = (false, 0) ∷ (false, 1) ∷ (false, 2) ∷ []

shared_calculate : calculate_dependencies shared_modules ≡ some shared_out
unfolding calculate_dependencies populate push sort_loop visit release no_loops
shared_calculate = refl

shared_out-IsCalculated : IsCalculated shared_modules shared_out
shared_out-IsCalculated =
    let (out, run, v) = shared_keys in
    subst (IsCalculated shared_modules) (ap (keys_or []) (sym run ∙ shared_calculate)) v

shared_modules-IsUnlooped : IsUnlooped shared_modules shared_out (λ k. k < 3)
unfolding occ
shared_modules-IsUnlooped zero h = (_, 0, refl, refl, λ d k. ground (arith, k))
shared_modules-IsUnlooped (suc zero) h = (_, 1, refl, refl, λ d k. ground (arith, k))
shared_modules-IsUnlooped (suc (suc zero)) h = (_, 2, refl, refl, λ d k. absurd (omega (arith, k)))
shared_modules-IsUnlooped (suc (suc (suc j))) h = absurd (omega arith)

shared_bound : idx_bound shared_out < 4
unfolding idx_bound
shared_bound = omega arith

shared_paths : paths 4 shared_modules 0 < 2 ^ 61
unfolding paths total
shared_paths = omega arith

get_all_sorted_dependencies-Listed_example :
    (m : Module) × (r : Option (List ℕ) × ℕ) × (get_elem? shared_modules 0 ≡ some m)
    × (get_all_sorted_dependencies insertion_sort true 4 shared_out shared_modules 0 ≡ some r)
    × Listed shared_modules shared_out m r
get_all_sorted_dependencies-Listed_example =
    get_all_sorted_dependencies-Listed insertion_sort insertion_sort-IsQsort 4 shared_out
      shared_modules (λ k. k < 3) shared_out-IsCalculated shared_modules-DepsFit
      shared_modules-IsUnlooped 0 (omega arith) shared_bound shared_paths

shared_count : count_all_dependencies 4 shared_modules 0 ≡ some 3
unfolding count_all_dependencies count_loop
shared_count = refl

shared_run :
    get_all_sorted_dependencies unchanged true 4
      ((false, 0) ∷ (false, 1) ∷ (false, 2) ∷ [])
      shared_modules
      0
    ≡ some (some (1 ∷ 2 ∷ []), 2)
unfolding get_all_sorted_dependencies count_all_dependencies count_loop fill_all_unique_dependencies
    fill_loop append_dep after_fill sort_filled contains
shared_run = refl
