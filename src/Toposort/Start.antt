-- ===== src/Toposort/Start.antt =====
-- The loop that fills the counters and finds the first roots.
use comment_subs.Prelude.{
  ℕ, zero, suc, ◌+◌, ◌≤◌, ◌<◌, ◌≡◌, refl, ap, ◌∙◌, Option, none, some, List, [], ◌∷◌, if◌then◌else◌,
  ◌==◌, length, get_elem?, get_or, arith, Bool-cases, inl, inr, ◌>>=◌,
}
use comment_subs.Toposort.Defs.{Module, populate}
use comment_subs.Toposort.Count.{occ, positives}
use comment_subs.Toposort.Loop.{Inside, push_lem}

-- What the loop makes of the modules from `i` on.
pub record Populated (n i : ℕ) (ms : List Module) (roots users out : List ℕ) : Type 0 where
  pub size : length users ≡ length ms
  pub values : (k : ℕ) (m : Module) → get_elem? ms k ≡ some m → get_or users k 0 ≡ m.users
  pub before : (j : ℕ) → j < i → occ j out ≡ occ j roots
  pub at :
      (k : ℕ)
      → k < length ms
      → occ (i + k) out ≡ occ (i + k) roots + (if get_or users k 0 == 0 then 1 else 0)
  pub total : length out + positives users ≡ length roots + length ms
  pub inside : Inside n out

users_of : Option Module → ℕ
users_of none = 0
users_of (some m) = m.users

module _ (n i : ℕ) (m : Module) (ms : List Module) (roots roots' users out : List ℕ)
    (p : Populated n (i + 1) ms roots' users out)
    (one : (j : ℕ)
      → occ j roots' ≡ occ j roots + (if m.users == 0 then (if i == j then 1 else 0) else 0))
    (longer : length roots' + (if m.users == 0 then 0 else 1) ≡ suc (length roots)) where
  values-cons :
      (k : ℕ) (m' : Module)
      → get_elem? (m ∷ ms) k ≡ some m'
      → get_or (m.users ∷ users) k 0 ≡ m'.users
  unfolding users_of
  values-cons zero m' at = ap users_of at
  values-cons (suc k) m' at = p.values k m' at

  at-cons :
      (k : ℕ)
      → k < suc (length ms)
      → occ (i + k) out ≡ occ (i + k) roots + (if get_or (m.users ∷ users) k 0 == 0 then 1 else 0)
  at-cons zero h =
      let there : occ (i + 0) out ≡ occ (i + 0) roots' = p.before (i + 0) (omega arith) in
      ground (arith, there, one (i + 0))
  at-cons (suc k) h =
      let there : occ (i + suc k) out
          ≡ occ (i + suc k) roots' + (if get_or users k 0 == 0 then 1 else 0) =
        ap (λ j. occ j out) {x = i + suc k} {y = i + 1 + k} (omega arith)
        ∙ p.at k (omega arith)
        ∙ ap (λ j. occ j roots' + (if get_or users k 0 == 0 then 1 else 0)) {x = i + 1 + k}
            {y = i + suc k} (omega arith) in
      ground (arith, there, one (i + suc k))

  before-cons : (j : ℕ) → j < i → occ j out ≡ occ j roots
  before-cons j h = ground (arith, p.before j, one j)

module _ (n i : ℕ) (m : Module) (ms : List Module) (roots roots' users out : List ℕ)
    (p : Populated n (i + 1) ms roots' users out)
    (one : (j : ℕ)
      → occ j roots' ≡ occ j roots + (if m.users == 0 then (if i == j then 1 else 0) else 0))
    (longer : length roots' + (if m.users == 0 then 0 else 1) ≡ suc (length roots)) where
  Populated-cons : Populated n i (m ∷ ms) roots (m.users ∷ users) out
  unfolding positives
  Populated-cons = record {
    size = ap suc p.size;
    values = values-cons n i m ms roots roots' users out p one longer;
    before = before-cons n i m ms roots roots' users out p one longer;
    at = at-cons n i m ms roots roots' users out p one longer;
    total = ground (arith, p.total, longer);
    inside = p.inside;
  }

pub populate-Populated :
    (n i : ℕ) (ms : List Module) (roots : List ℕ)
    → length roots ≤ i
    → i + length ms ≡ n
    → Inside n roots
    → (users out : List ℕ) × (populate n i ms roots ≡ some (users, out))
      × Populated n i ms roots users out
unfolding populate occ positives
populate-Populated n i [] roots few e inside = (
  [],
  roots,
  refl,
  record {
    size = refl;
    values = λ k m at. cc;
    before = λ j h. refl;
    at = λ k h. absurd (omega arith);
    total = refl;
    inside = inside;
  },
)
populate-Populated n i (m ∷ ms) roots few e inside = elim (Bool-cases (m.users == 0)) [
  | inl root ↦
      let (users, out, run, p) =
        populate-Populated n (i + 1) ms (i ∷ roots) (omega arith) (omega arith)
          (omega arith, inside) in
      (
        m.users ∷ users,
        out,
        rw (root, push_lem n roots i (omega arith), ◌>>=◌, run),
        Populated-cons n i m ms roots (i ∷ roots) users out p (λ j. ground (arith, root))
            (ground (arith, root)),
      )
  | inr used ↦
      let (users, out, run, p) =
        populate-Populated n (i + 1) ms roots (omega arith) (omega arith) inside in
      (
        m.users ∷ users,
        out,
        rw (used, ◌>>=◌, run),
        Populated-cons n i m ms roots roots users out p (λ j. ground (arith, used))
            (ground (arith, used)),
      )
]
