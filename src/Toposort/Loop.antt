-- ===== src/Toposort/Loop.antt =====
-- What each round of the topological sort keeps.
use comment_subs.Prelude.{
  ℕ, ◌+◌, ◌-◌, ◌<◌, ◌≡◌, refl, ◌∙◌, true, false, some, List, [], ◌∷◌, if◌then◌else◌, ◌==◌, length,
  length-set, get_elem?, get_or, get_elem?-get_or, set, arith, Bool-cases, inl, inr, lt→ltb, ◌>>=◌,
}
use comment_subs.Toposort.Defs.{Module, push, release}
use comment_subs.Toposort.Count.{occ, pending, positives, get_or-set, positives-set}

abbrev pub Inside : ℕ → List ℕ → Type 0
Inside n [] = Unit
Inside n (x ∷ xs) = (x < n) × Inside n xs

-- The counters, while the dependencies `rem` of the last sorted module are still to be released:
-- a module is a root, sorted, or has users that are not sorted.
pub record IsCounted (ms : List Module) (users roots sorted rem : List ℕ) : Type 0 where
  pub size : length users ≡ length ms
  pub counts : (j : ℕ) → j < length ms → get_or users j 0 ≡ pending j sorted 0 ms + occ j rem
  pub once :
      (j : ℕ)
      → j < length ms
      → occ j roots + occ j sorted + (if get_or users j 0 == 0 then 0 else 1) ≡ 1
  pub total : length roots + length sorted + positives users ≡ length ms
  pub inside : Inside (length ms) roots

pub push_lem :
    (size : ℕ) (array : List ℕ) (i : ℕ) → length array < size → push size array i ≡ some (i ∷ array)
unfolding push
push_lem size array i h = rw (lt→ltb _ _ h)

module _ (ms : List Module) (users roots sorted : List ℕ) (dst : ℕ) (deps : List ℕ)
    (v : IsCounted ms users roots sorted (dst ∷ deps)) (fits : dst < length ms) where
  used : 0 < get_or users dst 0
  unfolding occ
  used = ground (arith, v.counts dst fits)

  lowered-IsCounted :
      (get_or users dst 0 - 1 == 0) ≡ false
      → IsCounted ms (set users dst (get_or users dst 0 - 1)) roots sorted deps
  unfolding occ
  lowered-IsCounted more = record {
    size = length-set users dst _ ∙ v.size;
    counts = λ j h.
        ground (arith, v.counts j h, get_or-set users dst j (get_or users dst 0 - 1), v.size);
    once =
        λ j h. ground (arith, v.once j h, get_or-set users dst j (get_or users dst 0 - 1), v.size);
    total = ground (arith, v.total, positives-set users dst (get_or users dst 0 - 1), v.size, used);
    inside = v.inside;
  }

  released-IsCounted :
      (get_or users dst 0 - 1 == 0) ≡ true
      → IsCounted ms (set users dst (get_or users dst 0 - 1)) (dst ∷ roots) sorted deps
  unfolding occ
  released-IsCounted last = record {
    size = length-set users dst _ ∙ v.size;
    counts = λ j h.
        ground (arith, v.counts j h, get_or-set users dst j (get_or users dst 0 - 1), v.size);
    once = λ j h.
        ground (arith, v.once j h, get_or-set users dst j (get_or users dst 0 - 1), v.size, used);
    total = ground (arith, v.total, positives-set users dst (get_or users dst 0 - 1), v.size, used);
    inside = (fits, v.inside);
  }

  room : length roots < length ms
  room = ground (arith, v.total, positives-set users dst 0, v.size, used)

-- Each dependency of the module is released without a fault.
pub release-IsCounted :
    (ms : List Module) (users roots sorted deps : List ℕ)
    → IsCounted ms users roots sorted deps
    → Inside (length ms) deps
    → (users' roots' : List ℕ) × (release (length ms) deps users roots ≡ some (users', roots'))
      × IsCounted ms users' roots' sorted []
unfolding release
release-IsCounted ms users roots sorted [] v fits = (users, roots, refl, v)
release-IsCounted ms users roots sorted (dst ∷ deps) v fits =
    let u = get_or users dst 0 in
    let there : get_elem? users dst ≡ some u =
      get_elem?-get_or users dst 0 (omega (arith, fits.0, v.size)) in
    let some_user : (u == 0) ≡ false =
      ground (arith, used ms users roots sorted dst deps v fits.0) in
    elim (Bool-cases (u - 1 == 0)) [
      | inl last ↦
          let (us, rs, run, w) =
            release-IsCounted ms (set users dst (u - 1)) (dst ∷ roots) sorted deps
              (released-IsCounted ms users roots sorted dst deps v fits.0 last) fits.1 in
          (
            us,
            rs,
            rw
                (
                  there,
                  ◌>>=◌,
                  some_user,
                  last,
                  push_lem (length ms) roots dst (room ms users roots sorted dst deps v fits.0),
                )
                run,
            w,
          )
      | inr more ↦
          let (us, rs, run, w) =
            release-IsCounted ms (set users dst (u - 1)) roots sorted deps
              (lowered-IsCounted ms users roots sorted dst deps v fits.0 more) fits.1 in
          (us, rs, rw (there, ◌>>=◌, some_user, more) run, w)
    ]
