-- ===== src/Toposort/Indirect/Defs.antt =====
-- mod_count_all_dependencies, mod_fill_all_unique_dependencies and mod_get_all_sorted_dependencies
-- of tools/depmod.c. The depth of a recursion is the fuel; `none` is a call that is deeper, or an
-- access outside of the array of modules.
use comment_subs.Prelude.{
  ltb, ◌%◌, ◌*◌, ◌/◌, size_mod, ℕ, zero, suc, Bool, Option, none, some, List, [], ◌∷◌, ◌++◌,
  if◌then◌else◌, ◌==◌, leb, length, get_elem?, ◌>>=◌, ℤ, pos, negsuc, add_size,
}
use comment_subs.Array.Scan.{contains}
use comment_subs.Toposort.Defs.{Module}
use comment_subs.Toposort.Sorted.{SortKey, dep_cmp_at}

-- -ENOSPC
abbrev pub enospc : ℤ
enospc = negsuc 27

-- The loop of mod_count_all_dependencies; `count_of` is the recursive call.
unfoldable pub count_loop : (count_of : ℕ → Option ℕ) → (deps : List ℕ) → (count : ℕ) → Option ℕ
count_loop count_of [] count = some count
count_loop count_of (d ∷ deps) count = do
  c ← count_of d
  count_loop count_of deps (add_size count (add_size 1 c))

unfoldable pub count_all_dependencies : ℕ → List Module → (mod_idx : ℕ) → Option ℕ
count_all_dependencies zero ms mod_idx = none
count_all_dependencies (suc fuel) ms mod_idx =
    get_elem? ms mod_idx >>= λ m. count_loop (λ d. count_all_dependencies fuel ms d) m.deps 0

-- What follows a recursive call in the loop; `next` are the further rounds.
unfoldable pub after_fill :
    (next : List ℕ → ℤ → Option (List ℕ × ℤ)) → List ℕ × ℤ → Option (List ℕ × ℤ)
after_fill next (filled, pos err) = next filled (pos err)
after_fill next (filled, negsuc err) = some (filled, negsuc err)

-- `deps[*last] = d` with `(*last)++`, in an array with `room` elements; a write behind its end is a
-- fault.
unfoldable pub append_dep : (room : ℕ) → (filled : List ℕ) → ℕ → Option (List ℕ)
append_dep room filled d = if ltb (length filled) room then some (filled ++ d ∷ []) else none

-- The loop of mod_fill_all_unique_dependencies. `filled` are the first `*last` elements of the
-- array `deps`, which has `room` elements; `fill` is the recursive call.
unfoldable pub fill_loop :
    (fill : ℕ → List ℕ → Option (List ℕ × ℤ))
    → (room n_deps : ℕ) → (mod_deps filled : List ℕ) → (err : ℤ) → Option (List ℕ × ℤ)
fill_loop fill room n_deps [] filled err = some (filled, err)
fill_loop fill room n_deps (d ∷ mod_deps) filled err =
    if contains filled d
    then fill_loop fill room n_deps mod_deps filled err
    else if leb n_deps (length filled)
    then some (filled, enospc)
    else (append_dep room filled d >>= λ longer.
        fill d longer
        >>= after_fill (λ filled' err'. fill_loop fill room n_deps mod_deps filled' err'))

unfoldable pub fill_all_unique_dependencies :
    ℕ → List Module → (room n_deps mod_idx : ℕ) → (filled : List ℕ) → Option (List ℕ × ℤ)
fill_all_unique_dependencies zero ms room n_deps mod_idx filled = none
fill_all_unique_dependencies (suc fuel) ms room n_deps mod_idx filled =
    get_elem? ms mod_idx >>= λ m.
    fill_loop (λ d filled'. fill_all_unique_dependencies fuel ms room n_deps d filled') room n_deps
      m.deps filled (pos 0)

-- The elements for which `malloc(sizeof(struct mod *) * n_deps)` has room.
abbrev pub room_for : ℕ → ℕ
room_for n_deps = 8 * n_deps % size_mod / 8

-- The sort of the dependencies that were found, unless there was an error.
unfoldable pub sort_filled :
    (qsort : (ℕ → ℕ → ℤ) → List ℕ → List ℕ)
    → List SortKey
    → (n_deps : ℕ) → List ℕ × ℤ
    → Option (List ℕ) × ℕ
sort_filled qsort out n_deps (filled, pos err) =
    (some (qsort (dep_cmp_at out) filled), length filled)
sort_filled qsort out n_deps (filled, negsuc err) = (none, n_deps)

-- The array, or NULL, and `*n_deps`. `granted` says whether malloc gets the memory.
unfoldable pub get_all_sorted_dependencies :
    (qsort : (ℕ → ℕ → ℤ) → List ℕ → List ℕ)
    → (granted : Bool) → ℕ
    → List SortKey
    → List Module
    → (mod_idx : ℕ) → Option (Option (List ℕ) × ℕ)
get_all_sorted_dependencies qsort granted fuel out ms mod_idx = do
  n_deps ← count_all_dependencies fuel ms mod_idx
  if n_deps == 0
      then some (none, 0)
      else if granted
      then (do
        filled ← fill_all_unique_dependencies fuel ms (room_for n_deps) n_deps mod_idx []
        some (sort_filled qsort out n_deps filled))
      else some (none, n_deps)
