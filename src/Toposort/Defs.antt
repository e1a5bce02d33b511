-- ===== src/Toposort/Defs.antt =====
-- mod_add_dependency, and depmod_calculate_dependencies up to its call of depmod_sort_dependencies.
-- The fields that the latter writes, dep_sort_idx and dep_loop, are kept in lists of their own. An
-- assertion that fails and an access outside of an array are a fault.
use comment_subs.Prelude.{
  ℕ, zero, suc, ◌+◌, ◌-◌, ◌^◌, Bool, true, false, Option, none, some, List, [], ◌∷◌, if◌then◌else◌,
  ltb, ◌==◌, length, get_elem?, set, replicate, ◌>>=◌, ◌++◌, ◌%◌, ℤ, pos, enomem,
}
use comment_subs.Array.Scan.{contains}

-- The fields of `struct mod` that the function reads: `deps` has the `idx` of each module there.
pub record Module : Type 0 where
  pub users : ℕ
  pub deps : List ℕ

-- `array_append_unique(&mod->deps, sym->owner)` on the list that the array stands for
abbrev pub dep_added : Module → ℕ → Module
dep_added m owner = record m { deps = m.deps ++ owner ∷ [] }

-- `sym->owner->users++`, of a uint16_t
abbrev pub user_added : Module → Module
user_added m = record m { users = (m.users + 1) % 2 ^ 16 }

-- mod_add_dependency for the module at index `mod_idx`, with `none` for an owner that is NULL.
-- `granted` says whether array_append_unique gets the memory that it needs.
unfoldable pub mod_add_dependency :
    (granted : Bool) → List Module → (mod_idx : ℕ) → (owner : Option ℕ) → Option (List Module × ℤ)
mod_add_dependency granted ms mod_idx none = some (ms, pos 0)
mod_add_dependency granted ms mod_idx (some owner) = do
  m ← get_elem? ms mod_idx
  if contains m.deps owner
      then some (ms, pos 0)
      else if granted
      then (do
        let ms' = set ms mod_idx (dep_added m owner)
        o ← get_elem? ms' owner
        some (set ms' owner (user_added o), pos 0))
      else some (ms, enomem)

-- The variables of the function. `roots` and `sorted` have the last element first, so n_roots and
-- n_sorted are their lengths.
pub record Sort : Type 0 where
  pub users : List ℕ
  pub roots : List ℕ
  pub sorted : List ℕ
  pub dep_sort_idx : List ℕ

-- `array[n++] = i`, for an array of `size` elements
unfoldable pub push : (size : ℕ) → List ℕ → ℕ → Option (List ℕ)
push size array i = if ltb (length array) size then some (i ∷ array) else none

-- `populate modules users`, from module `i` on
unfoldable pub populate : (n_mods i : ℕ) → List Module → (roots : List ℕ) → Option (List ℕ × List ℕ)
populate n_mods i [] roots = some ([], roots)
populate n_mods i (m ∷ ms) roots = do
  roots' ← if m.users == 0 then push n_mods roots i else some roots
  (users, roots'') ← populate n_mods (i + 1) ms roots'
  some (m.users ∷ users, roots'')

-- The loop over the dependencies of a module.
unfoldable pub release : (n_mods : ℕ) → (deps users roots : List ℕ) → Option (List ℕ × List ℕ)
release n_mods [] users roots = some (users, roots)
release n_mods (dst ∷ deps) users roots = do
  u ← get_elem? users dst
  roots' ← if u == 0 then none else if u - 1 == 0 then push n_mods roots dst else some roots
  release n_mods deps (set users dst (u - 1)) roots'

-- `src->dep_sort_idx = n_sorted`, and the rest of a round, for the root `src`
unfoldable pub visit : List Module → (src : ℕ) → Sort → Option Sort
visit ms src s = do
  m ← get_elem? ms src
  sorted' ← push (length ms) s.sorted src
  (users', roots') ← release (length ms) m.deps s.users s.roots
  some (record {
    users = users';
    roots = roots';
    sorted = sorted';
    dep_sort_idx = set s.dep_sort_idx src (length s.sorted);
  })

-- The topological sort. `none` is a fault, or that the fuel ran out.
unfoldable pub sort_loop : ℕ → List Module → Sort → (roots : List ℕ) → Option Sort
sort_loop zero ms s roots = none
sort_loop (suc fuel) ms s [] = some (record s { roots = [] })
sort_loop (suc fuel) ms s (src ∷ roots) =
    visit ms src (record s { roots = roots }) >>= λ s'. sort_loop fuel ms s' s'.roots

abbrev pub int32_max : ℕ
int32_max = 2 ^ 31 - 1

-- The loop over the modules in dependency cycles: dep_loop and dep_sort_idx.
unfoldable pub mark_loops : (users dep_sort_idx : List ℕ) → List (Bool × ℕ)
mark_loops [] idx = []
mark_loops (u ∷ users) [] = []
mark_loops (u ∷ users) (i ∷ idx) =
    (if u == 0 then (false, i) else (true, int32_max)) ∷ mark_loops users idx

-- The fields of the modules where no module is in a cycle.
unfoldable pub no_loops : (dep_sort_idx : List ℕ) → List (Bool × ℕ)
no_loops [] = []
no_loops (i ∷ idx) = (false, i) ∷ no_loops idx

-- dep_loop and dep_sort_idx of each module, which are zero before.
unfoldable pub calculate_dependencies : List Module → Option (List (Bool × ℕ))
calculate_dependencies ms =
    if ltb (length ms) (2 ^ 16 - 1)
    then (do
      (users, roots) ← populate (length ms) 0 ms []
      s ←
          sort_loop (length ms + 1) ms
            (record {
              users = users;
              roots = roots;
              sorted = [];
              dep_sort_idx = replicate (length ms) 0;
            })
            roots
      some (
          if ltb (length s.sorted) (length ms)
          then mark_loops s.users s.dep_sort_idx
          else no_loops s.dep_sort_idx))
    else none
