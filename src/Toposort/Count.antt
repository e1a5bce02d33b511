-- ===== src/Toposort/Count.antt =====
-- Occurrences in lists of indices, and what of the users of a module is still to come.
use comment_subs.Prelude.{
  ℕ, zero, suc, ◌+◌, ◌<◌, ◌≡◌, refl, ap, sym, ◌∙◌, Option, none, some, List, [], ◌∷◌, if◌then◌else◌,
  ◌==◌, length, get_elem?, get_or, set, arith, ltb, ◌&&◌, Bool-cases, inl, inr,
}
use comment_subs.Toposort.Defs.{Module}

abbrev pub deps_of : Option Module → List ℕ
deps_of none = []
deps_of (some m) = m.deps

unfoldable pub occ : ℕ → List ℕ → ℕ
occ j [] = 0
occ j (x ∷ xs) = (if x == j then 1 else 0) + occ j xs

-- The dependencies on `j` of the modules that are not in `s`, from module `i` on.
unfoldable pub pending : (j : ℕ) → (s : List ℕ) → (i : ℕ) → List Module → ℕ
pending j s i [] = 0
pending j s i (m ∷ ms) = (if occ i s == 0 then occ j m.deps else 0) + pending j s (i + 1) ms

-- How many counters are not 0.
unfoldable pub positives : List ℕ → ℕ
positives [] = 0
positives (u ∷ us) = (if u == 0 then 0 else 1) + positives us

pub get_or-set :
    (us : List ℕ) (d j v : ℕ)
    → d < length us
    → get_or (set us d v) j 0 ≡ (if j == d then v else get_or us j 0)
get_or-set [] d j v h = absurd (omega arith)
get_or-set (u ∷ us) zero zero v h = refl
get_or-set (u ∷ us) zero (suc j) v h = ground arith
get_or-set (u ∷ us) (suc d) zero v h = ground arith
get_or-set (u ∷ us) (suc d) (suc j) v h = ground (arith, get_or-set us d j v)

pub positives-set :
    (us : List ℕ) (d v : ℕ)
    → d < length us
    → positives (set us d v) + (if get_or us d 0 == 0 then 0 else 1)
      ≡ positives us + (if v == 0 then 0 else 1)
unfolding positives
positives-set [] d v h = absurd (omega arith)
positives-set (u ∷ us) zero v h = omega arith
positives-set (u ∷ us) (suc d) v h = omega (arith, positives-set us d v (omega arith))

pub occ-cons : (i x : ℕ) (s : List ℕ) → occ i (x ∷ s) ≡ (if x == i then 1 else 0) + occ i s
unfolding occ
occ-cons i x s = refl

pending-other :
    (j x i : ℕ) (s : List ℕ) (ms : List Module) → x < i → pending j (x ∷ s) i ms ≡ pending j s i ms
unfolding pending occ
pending-other j x i s [] h = refl
pending-other j x i s (m ∷ ms) h = ground (arith, pending-other j x (i + 1) s ms)

-- A module that is sorted takes its dependencies out of what is to come.
pub pending-sorted :
    (j x i k : ℕ) (s : List ℕ) (ms : List Module) (m : Module)
    → occ x s ≡ 0
    → get_elem? ms k ≡ some m
    → x ≡ i + k
    → pending j s i ms ≡ pending j (x ∷ s) i ms + occ j m.deps
unfolding pending occ
pending-sorted j x i k s [] m new at e = cc
pending-sorted j x i zero s (m' ∷ ms) m new at e =
    let at_i : x ≡ i = omega arith in
    let free : occ i s ≡ 0 = ap (λ y. occ y s) (sym at_i) ∙ new in
    let same : occ j m'.deps ≡ occ j m.deps = ap (λ o. occ j (deps_of o)) at in
    ground (arith, free, same, pending-other j x (i + 1) s ms)
pending-sorted j x i (suc k) s (m' ∷ ms) m new at e =
    ground (arith, pending-sorted j x (i + 1) k s ms m new at)

-- Where nothing is to come, the users are sorted.
pub pending-none :
    (j : ℕ) (s : List ℕ) (i k : ℕ) (ms : List Module) (m : Module)
    → pending j s i ms ≡ 0
    → get_elem? ms k ≡ some m
    → 0 < occ j m.deps
    → 0 < occ (i + k) s
unfolding pending
pending-none j s i k [] m e at h = absurd cc
pending-none j s i zero (m' ∷ ms) m e at h =
    let same : occ j m'.deps ≡ occ j m.deps = ap (λ o. occ j (deps_of o)) at in
    let at_i : occ (i + 0) s ≡ occ i s = ap (λ y. occ y s) (omega arith) in
    ground (arith, same, at_i)
pending-none j s i (suc k) (m' ∷ ms) m e at h =
    let there : occ (i + suc k) s ≡ occ (i + 1 + k) s = ap (λ y. occ y s) (omega arith) in
    let on = pending-none j s (i + 1) k ms m (ground arith) at h in omega (arith, there, on)

-- Where something is to come, there is a user that is not sorted.
pub pending-some :
    (j : ℕ) (s : List ℕ) (i : ℕ) (ms : List Module)
    → 0 < pending j s i ms
    → (k : ℕ) × (m : Module) × (get_elem? ms k ≡ some m) × (0 < occ j m.deps) × (occ (i + k) s ≡ 0)
unfolding pending
pending-some j s i [] h = absurd (omega arith)
pending-some j s i (m ∷ ms) h = elim (Bool-cases (occ i s == 0 && ltb 0 (occ j m.deps))) [
  | inl free ↦
      (0, m, refl, ground arith, ap (λ y. occ y s) {x = i + 0} {y = i} (omega arith) ∙ ground arith)
  | inr other ↦
      let (k, m', at, uses, out) = pending-some j s (i + 1) ms (ground arith) in
      (suc k, m', at, uses, ap (λ y. occ y s) {x = i + suc k} {y = i + 1 + k} (omega arith) ∙ out)
]
