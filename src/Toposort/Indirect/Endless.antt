-- ===== src/Toposort/Indirect/Endless.antt =====
-- mod_get_all_sorted_dependencies on a module whose dependencies lead into a loop.
use comment_subs.Prelude.{
  ℕ, zero, suc, ◌<◌, ◌≡◌, refl, ap, ◌∙◌, Bool, Option, none, some, List, [], ◌∷◌, ◌==◌, get_elem?,
  arith, Bool-cases, inl, inr, ◌>>=◌, ℤ, add_size,
}
use comment_subs.Toposort.Defs.{Module}
use comment_subs.Toposort.Count.{occ}
use comment_subs.Toposort.Sorted.{SortKey}
use comment_subs.Toposort.Indirect.Defs.{
  count_loop, count_all_dependencies, get_all_sorted_dependencies,
}

-- Each of the modules has a dependency that is one of them too.
abbrev pub IsEndless : List Module → (ℕ → Type 0) → Type 0
IsEndless ms P =
    (k : ℕ) → P k → (m : Module) × (get_elem? ms k ≡ some m) × (d : ℕ) × (0 < occ d m.deps) × P d

-- A chain with a last call that gives nothing gives nothing.
chain-none : (o : Option ℕ) (f : ℕ → Option ℕ) → ((c : ℕ) → f c ≡ none) → (o >>= f) ≡ none
chain-none none f h = refl
chain-none (some c) f h = h c

count_loop-none :
    (count_of : ℕ → Option ℕ) (d : ℕ) (deps : List ℕ) (count : ℕ)
    → count_of d ≡ none
    → 0 < occ d deps
    → count_loop count_of deps count ≡ none
unfolding count_loop occ
count_loop-none count_of d [] count e h = absurd (omega arith)
count_loop-none count_of d (x ∷ deps) count e h = elim (Bool-cases (x == d)) [
  | inl same ↦ let at : count_of x ≡ none = ap count_of (ground (arith, same)) ∙ e in rw (at, ◌>>=◌)
  | inr other ↦
      chain-none (count_of x) (λ c. count_loop count_of deps (add_size count (add_size 1 c)))
        (λ c.
          count_loop-none count_of d deps (add_size count (add_size 1 c)) e
            (ground (arith, other, h)))
]

count_all_dependencies-none :
    (ms : List Module) (P : ℕ → Type 0)
    → IsEndless ms P
    → (fuel k : ℕ) → P k
    → count_all_dependencies fuel ms k ≡ none
unfolding count_all_dependencies
count_all_dependencies-none ms P endless zero k p = refl
count_all_dependencies-none ms P endless (suc fuel) k p =
    let (m, at, d, uses, q) = endless k p in
    rw (at, ◌>>=◌)
      (count_loop-none (λ j. count_all_dependencies fuel ms j) d m.deps 0
        (count_all_dependencies-none ms P endless fuel d q) uses)

-- Where each module of a set has a dependency in the set, mod_get_all_sorted_dependencies returns
-- on none of them, at whatever depth: its call of mod_count_all_dependencies does not end. Such a
-- set are the modules of a loop, with those that use them directly or indirectly.
pub get_all_sorted_dependencies-none :
    (qsort : (ℕ → ℕ → ℤ) → List ℕ → List ℕ) (granted : Bool) (fuel : ℕ) (out : List SortKey)
    (ms : List Module) (P : ℕ → Type 0)
    → IsEndless ms P
    → (k : ℕ) → P k
    → get_all_sorted_dependencies qsort granted fuel out ms k ≡ none
unfolding get_all_sorted_dependencies
get_all_sorted_dependencies-none qsort granted fuel out ms P endless k p =
    rw (count_all_dependencies-none ms P endless fuel k p, ◌>>=◌)
