-- ===== src/Toposort/Deps.antt =====
-- Changes of one module in the list of modules, and what they do to dependencies and users.
use comment_subs.Prelude.{
  ℕ, zero, suc, ◌+◌, ◌≤◌, ◌<◌, ◌≡◌, refl, ap, false, Option, none, some, List, [], ◌∷◌, ◌++◌,
  if◌then◌else◌, ◌==◌, length, get_elem?, set, arith,
}
use comment_subs.Array.Scan.{contains}
use comment_subs.Toposort.Defs.{Module}
use comment_subs.Toposort.Count.{occ, pending, deps_of}
use comment_subs.Toposort.Loop.{Inside}
use comment_subs.Toposort.Order.{DepsFit}

-- No module has a dependency twice.
abbrev pub DepsUnique : List Module → Type 0
DepsUnique [] = Unit
DepsUnique (m ∷ ms) = ((j : ℕ) → occ j m.deps ≤ 1) × DepsUnique ms

pub pending-set :
    (j i k : ℕ) (ms : List Module) (m m' : Module)
    → get_elem? ms k ≡ some m
    → pending j [] i (set ms k m') + occ j m.deps ≡ pending j [] i ms + occ j m'.deps
unfolding pending occ
pending-set j i k [] m m' at = absurd cc
pending-set j i zero (x ∷ ms) m m' at =
    let same : occ j x.deps ≡ occ j m.deps = ap (λ o. occ j (deps_of o)) at in omega (arith, same)
pending-set j i (suc k) (x ∷ ms) m m' at = omega (arith, pending-set j (i + 1) k ms m m' at)

pub pending-le : (j i : ℕ) (ms : List Module) → DepsUnique ms → pending j [] i ms ≤ length ms
unfolding pending occ
pending-le j i [] h = omega arith
pending-le j i (m ∷ ms) h = omega (arith, h.0 j, pending-le j (i + 1) ms h.1)

pub occ-append :
    (j d : ℕ) (xs : List ℕ) → occ j (xs ++ d ∷ []) ≡ occ j xs + (if d == j then 1 else 0)
unfolding occ
occ-append j d [] = omega arith
occ-append j d (x ∷ xs) = omega (arith, occ-append j d xs)

pub contains-occ : (d : ℕ) (xs : List ℕ) → contains xs d ≡ false → occ d xs ≡ 0
unfolding occ contains
contains-occ d [] h = refl
contains-occ d (x ∷ xs) h = ground (arith, contains-occ d xs)

pub get_elem?-set :
    (ms : List Module) (k j : ℕ) (v : Module)
    → k < length ms
    → get_elem? (set ms k v) j ≡ (if j == k then some v else get_elem? ms j)
get_elem?-set [] k j v h = absurd (omega arith)
get_elem?-set (m ∷ ms) zero zero v h = refl
get_elem?-set (m ∷ ms) zero (suc j) v h = ground arith
get_elem?-set (m ∷ ms) (suc k) zero v h = ground arith
get_elem?-set (m ∷ ms) (suc k) (suc j) v h = ground (arith, get_elem?-set ms k j v)

pub DepsFit-set :
    (n : ℕ) (ms : List Module) (k : ℕ) (v : Module)
    → DepsFit n ms
    → Inside n v.deps
    → DepsFit n (set ms k v)
DepsFit-set n [] k v h g = tt
DepsFit-set n (m ∷ ms) zero v h g = (g, h.1)
DepsFit-set n (m ∷ ms) (suc k) v h g = (h.0, DepsFit-set n ms k v h.1 g)

pub DepsUnique-set :
    (ms : List Module) (k : ℕ) (v : Module)
    → DepsUnique ms
    → ((j : ℕ) → occ j v.deps ≤ 1)
    → DepsUnique (set ms k v)
DepsUnique-set [] k v h g = tt
DepsUnique-set (m ∷ ms) zero v h g = (g, h.1)
DepsUnique-set (m ∷ ms) (suc k) v h g = (h.0, DepsUnique-set ms k v h.1 g)

abbrev pub users_in : Option Module → ℕ
users_in none = 0
users_in (some m) = m.users

pub DepsUnique-get :
    (ms : List Module) (k : ℕ) (m : Module)
    → DepsUnique ms
    → get_elem? ms k ≡ some m
    → (j : ℕ) → occ j m.deps ≤ 1
DepsUnique-get [] k m h at j = absurd cc
DepsUnique-get (x ∷ ms) zero m h at j =
    let same : occ j x.deps ≡ occ j m.deps = ap (λ o. occ j (deps_of o)) at in
    omega (arith, h.0 j, same)
DepsUnique-get (x ∷ ms) (suc k) m h at j = DepsUnique-get ms k m h.1 at j

pub Inside-append : (n d : ℕ) (xs : List ℕ) → Inside n xs → d < n → Inside n (xs ++ d ∷ [])
Inside-append n d [] h k = (k, tt)
Inside-append n d (x ∷ xs) h k = (h.0, Inside-append n d xs h.1 k)

pub Inside-at :
    (n : ℕ) (ms : List Module) (k : ℕ) (m : Module)
    → DepsFit n ms
    → get_elem? ms k ≡ some m
    → Inside n m.deps
Inside-at n [] k m h at = absurd cc
Inside-at n (x ∷ ms) zero m h at = rw (ap deps_of at) at h.0
Inside-at n (x ∷ ms) (suc k) m h at = Inside-at n ms k m h.1 at
