-- ===== src/Toposort/Result.antt =====
-- depmod_calculate_dependencies as a whole.
use comment_subs.Prelude.{
  ℕ, ◌+◌, ◌-◌, ◌^◌, ◌<◌, ◌≡◌, ap, ◌∙◌, Bool, some, List, [], if◌then◌else◌, ◌==◌, length,
  length-replicate, replicate, get_elem?, get_or, get_elem?-get_or, arith, ltb, Bool-cases, inl,
  inr, lt→ltb, ◌>>=◌,
}
use comment_subs.Toposort.Defs.{Module, Sort, mark_loops, no_loops, calculate_dependencies}
use comment_subs.Toposort.Count.{occ, pending, positives}
use comment_subs.Toposort.Loop.{IsCounted}
use comment_subs.Toposort.Order.{DepsFit, IsSorting, sort_loop-IsSorting}
use comment_subs.Toposort.Start.{Populated, populate-Populated}
use comment_subs.Toposort.Mark.{IsCalculated, marked-IsCalculated, mark_loops-none, idx-users}

-- The counter `users` of each module is the number of dependencies on it.
abbrev pub UsersCounted : List Module → Type 0
UsersCounted ms = (k : ℕ) (m : Module) → get_elem? ms k ≡ some m → m.users ≡ pending k [] 0 ms

start-IsCounted :
    (ms : List Module) (users roots : List ℕ)
    → UsersCounted ms
    → Populated (length ms) 0 ms [] users roots
    → IsCounted ms users roots [] []
unfolding occ
start-IsCounted ms users roots h p =
    let at : (j : ℕ) → j < length ms → occ j roots ≡ (if get_or users j 0 == 0 then 1 else 0) =
      λ j k. ap (λ i. occ i roots) {x = j} {y = 0 + j} (omega arith) ∙ p.at j k ∙ omega arith in
    record {
      size = p.size;
      counts = λ j k.
          let there = get_elem?-get_or ms j (record { users = 0; deps = [] }) k in
          omega (arith, p.values j _ there, h j _ there);
      once = λ j k. ground (arith, at j k);
      total = omega (arith, p.total);
      inside = p.inside;
    }

-- The end of the function.
finish-IsCalculated :
    (ms : List Module) (s : Sort) (v : IsSorting ms s [])
    → IsCalculated ms (
        if ltb (length s.sorted) (length ms)
        then mark_loops s.users s.dep_sort_idx
        else no_loops s.dep_sort_idx)
finish-IsCalculated ms s v = elim (Bool-cases (ltb (length s.sorted) (length ms))) [
  | inl loops ↦ rw loops (marked-IsCalculated ms s v)
  | inr all ↦
      let none_used : positives s.users ≡ 0 = ground (arith, v.counted.total) in
      rw (all, ← mark_loops-none s.users s.dep_sort_idx none_used (idx-users ms s v))
        (marked-IsCalculated ms s v)
]

-- For fewer than 65535 modules whose dependencies are modules and whose counters `users` are right,
-- depmod_calculate_dependencies meets no fault and ends. A module that it does not mark as in a
-- loop has a greater dep_sort_idx than each of its users, none of which is marked; a module that it
-- marks has a user that is marked.
pub calculate_dependencies-IsCalculated :
    (ms : List Module)
    → length ms < 2 ^ 16 - 1
    → DepsFit (length ms) ms
    → UsersCounted ms
    → (out : List (Bool × ℕ)) × (calculate_dependencies ms ≡ some out) × IsCalculated ms out
unfolding calculate_dependencies
calculate_dependencies-IsCalculated ms few fits h =
    let (users, roots, run, p) =
      populate-Populated (length ms) 0 ms [] (omega arith) (omega arith) tt in
    let start : Sort = record {
      users = users;
      roots = roots;
      sorted = [];
      dep_sort_idx = replicate (length ms) 0;
    } in
    let (s, sorted, v) =
      sort_loop-IsSorting ms fits (length ms + 1) start roots (omega arith) (record {
        counted = start-IsCounted ms users roots h p;
        ordered = tt;
        indexed = tt;
        idx_size = length-replicate {A = ℕ} (length ms) 0;
      }) in
    (_, rw (lt→ltb _ _ few, run, ◌>>=◌, sorted), finish-IsCalculated ms s v)
