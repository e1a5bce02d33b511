-- ===== src/Toposort/Order.antt =====
-- The topological sort ends, and in the order of its output each module comes behind its users.
use comment_subs.Prelude.{
  ℕ, zero, suc, ◌+◌, ◌<◌, ◌≡◌, refl, ap, ◌∙◌, some, List, [], ◌∷◌, length, length-set, get_elem?,
  get_or, set, arith, ◌>>=◌,
}
use comment_subs.Toposort.Defs.{Module, Sort, visit, sort_loop}
use comment_subs.Toposort.Count.{occ, get_or-set, pending-sorted, pending-none}
use comment_subs.Toposort.Loop.{Inside, IsCounted, push_lem, release-IsCounted}

-- The users of a module in the list come behind it, where the last sorted module is the first.
abbrev pub Ordered : List Module → List ℕ → Type 0
Ordered ms [] = Unit
Ordered ms (j ∷ s) =
    ((k : ℕ) (m : Module) → get_elem? ms k ≡ some m → 0 < occ j m.deps → 0 < occ k s) × Ordered ms s

-- dep_sort_idx is the position in the output.
abbrev pub Indexed : List ℕ → List ℕ → Type 0
Indexed idx [] = Unit
Indexed idx (j ∷ s) = (get_or idx j 0 ≡ length s) × Indexed idx s

-- The dependencies are modules.
abbrev pub DepsFit : ℕ → List Module → Type 0
DepsFit n [] = Unit
DepsFit n (m ∷ ms) = Inside n m.deps × DepsFit n ms

pub record IsSorting (ms : List Module) (s : Sort) (roots : List ℕ) : Type 0 where
  pub counted : IsCounted ms s.users roots s.sorted []
  pub ordered : Ordered ms s.sorted
  pub indexed : Indexed s.dep_sort_idx s.sorted
  pub idx_size : length s.dep_sort_idx ≡ length ms

DepsFit-get :
    (n : ℕ) (ms : List Module) (k : ℕ)
    → DepsFit n ms
    → k < length ms
    → (m : Module) × (get_elem? ms k ≡ some m) × Inside n m.deps
DepsFit-get n [] k fits h = absurd (omega arith)
DepsFit-get n (m ∷ ms) zero fits h = (m, refl, fits.0)
DepsFit-get n (m ∷ ms) (suc k) fits h = DepsFit-get n ms k fits.1 (omega arith)

Indexed-set :
    (idx s : List ℕ) (src v : ℕ)
    → occ src s ≡ 0
    → src < length idx
    → Indexed idx s
    → Indexed (set idx src v) s
unfolding occ
Indexed-set idx [] src v new h at = tt
Indexed-set idx (j ∷ s) src v new h at = (
  ground (arith, get_or-set idx src j v, new, at.0),
  Indexed-set idx s src v (ground (arith, new)) h at.1,
)

module _ (ms : List Module) (users roots sorted : List ℕ) (src : ℕ)
    (v : IsCounted ms users (src ∷ roots) sorted []) where
  new_root : (occ src sorted ≡ 0) × (get_or users src 0 ≡ 0)
  unfolding occ
  new_root = ground (arith, v.once src v.inside.0)

  popped-IsCounted :
      (m : Module) → get_elem? ms src ≡ some m → IsCounted ms users roots (src ∷ sorted) m.deps
  unfolding occ
  popped-IsCounted m at = record {
    size = v.size;
    counts = λ j h.
        v.counts j h
        ∙ omega (arith, pending-sorted j src 0 src sorted ms m new_root.0 at (omega arith));
    once = λ j h. omega (arith, v.once j h);
    total = omega (arith, v.total);
    inside = v.inside.1;
  }

  -- The users of a root are sorted.
  users-sorted :
      (k : ℕ) (m : Module) → get_elem? ms k ≡ some m → 0 < occ src m.deps → 0 < occ k sorted
  unfolding occ
  users-sorted k m at h =
      let at_k : occ (0 + k) sorted ≡ occ k sorted = ap (λ y. occ y sorted) (omega arith) in
      let out =
        pending-none src sorted 0 k ms m (omega (arith, v.counts src v.inside.0, new_root.1)) at
          h in
      omega (arith, at_k, out)

module _ (ms : List Module) (fits : DepsFit (length ms) ms) where
  visit-IsSorting :
      (s : Sort) (src : ℕ) (roots : List ℕ)
      → IsSorting ms s (src ∷ roots)
      → (s' : Sort) × (visit ms src (record s { roots = roots }) ≡ some s')
        × IsSorting ms s' s'.roots
        × (length s'.sorted ≡ suc (length s.sorted))
  unfolding visit
  visit-IsSorting s src roots v =
      let (m, at, inside) = DepsFit-get (length ms) ms src fits v.counted.inside.0 in
      let (users, roots', run, w) =
        release-IsCounted ms s.users roots (src ∷ s.sorted) m.deps
          (popped-IsCounted ms s.users roots s.sorted src v.counted m at) inside in
      let few : length s.sorted < length ms = omega (arith, v.counted.total) in
      (
        record {
          users = users;
          roots = roots';
          sorted = src ∷ s.sorted;
          dep_sort_idx = set s.dep_sort_idx src (length s.sorted);
        },
        rw (at, push_lem (length ms) s.sorted src few, run, ◌>>=◌),
        record {
          counted = w;
          ordered = (users-sorted ms s.users roots s.sorted src v.counted, v.ordered);
          indexed = (
            ground (
              arith,
              get_or-set s.dep_sort_idx src src (length s.sorted),
              v.idx_size,
              v.counted.inside.0,
            ),
            Indexed-set s.dep_sort_idx s.sorted src (length s.sorted)
                (new_root ms s.users roots s.sorted src v.counted).0
                (omega (arith, v.idx_size, v.counted.inside.0)) v.indexed,
          );
          idx_size = length-set s.dep_sort_idx src (length s.sorted) ∙ v.idx_size;
        },
        refl,
      )

  -- With a round for each module that is not sorted and one more, the loop ends with no roots.
  pub sort_loop-IsSorting :
      (fuel : ℕ) (s : Sort) (roots : List ℕ)
      → length ms < fuel + length s.sorted
      → IsSorting ms s roots
      → (s' : Sort) × (sort_loop fuel ms s roots ≡ some s') × IsSorting ms s' []
  unfolding sort_loop
  sort_loop-IsSorting zero s roots h v = absurd (omega (arith, v.counted.total))
  sort_loop-IsSorting (suc fuel) s [] h v = (
    record s { roots = [] },
    refl,
    record { counted = v.counted; ordered = v.ordered; indexed = v.indexed; idx_size = v.idx_size },
  )
  sort_loop-IsSorting (suc fuel) s (src ∷ roots) h v =
      let (s1, run, w, longer) = visit-IsSorting s src roots v in
      let (s2, further, x) = sort_loop-IsSorting fuel s1 s1.roots (omega (arith, longer)) w in
      (s2, rw (run, ◌>>=◌) further, x)
