-- ===== src/Tests/Orders.antt =====
-- depmod_calculate_dependencies of tools/depmod.c on four modules, two of which form a cycle.
use comment_subs.Prelude.{
  ℕ, zero, suc, ◌≡◌, refl, ap, sym, true, false, some, none, Option, List, [], ◌∷◌, arith,
}
use comment_subs.Toposort.Link.{mod_add_dependency-IsLinked, IsLinked}
use comment_subs.Prelude.{ℤ, pos, enomem, ◌⊎◌}
use comment_subs.Toposort.{mod_add_dependency}
use comment_subs.Toposort.{
  Module, calculate_dependencies, populate, push, sort_loop, visit, release, mark_loops, int32_max,
}
use comment_subs.Toposort.Count.{pending, occ}
use comment_subs.Toposort.Result.{UsersCounted}

-- Module 0 uses module 1; modules 2 and 3 use each other.
abbrev four_modules : List Module
four_modules =
    record { users = 0; deps = 1 ∷ [] }
    ∷ record { users = 1; deps = [] }
    ∷ record { users = 1; deps = 3 ∷ [] }
    ∷ record { users = 1; deps = 2 ∷ [] }
    ∷ []

abbrev users_or : Option Module → ℕ
users_or none = 0
users_or (some m) = m.users

four_modules-UsersCounted : UsersCounted four_modules
unfolding pending occ
four_modules-UsersCounted zero m at = sym (ap users_or at)
four_modules-UsersCounted (suc zero) m at = sym (ap users_or at)
four_modules-UsersCounted (suc (suc zero)) m at = sym (ap users_or at)
four_modules-UsersCounted (suc (suc (suc zero))) m at = sym (ap users_or at)
four_modules-UsersCounted (suc (suc (suc (suc k)))) m at = cc

four_modules_run :
    calculate_dependencies four_modules
    ≡ some ((false, 0) ∷ (false, 1) ∷ (true, int32_max) ∷ (true, int32_max) ∷ [])
unfolding calculate_dependencies populate push sort_loop visit release mark_loops
four_modules_run = refl

four_modules-IsLinked : IsLinked four_modules
unfolding occ
four_modules-IsLinked = record {
  few = omega arith;
  fits = ((omega arith, tt), (tt, ((omega arith, tt), ((omega arith, tt), tt))));
  unique =
      (λ j. ground arith, ((λ j. ground arith), ((λ j. ground arith), ((λ j. ground arith), tt))));
  counted = four_modules-UsersCounted;
}

-- Module 0 comes to use module 2 as well.
mod_add_dependency_example :
    (ms : List Module) × (r : ℤ) × (mod_add_dependency true four_modules 0 (some 2) ≡ some (ms, r))
    × IsLinked ms
    × ((r ≡ pos 0) ⊎ ((true ≡ false) × (r ≡ enomem)))
mod_add_dependency_example =
    mod_add_dependency-IsLinked true four_modules 0 (some 2) four_modules-IsLinked (omega arith)
      (omega arith)
