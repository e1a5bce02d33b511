-- ===== src/Toposort/Indirect/Fills.antt =====
-- mod_fill_all_unique_dependencies collects each dependency once.
use mathlib.Core.Path.{subst}
use comment_subs.Prelude.{
  ℕ, zero, suc, ◌+◌, ◌≤◌, ◌<◌, ◌≡◌, refl, ap, sym, ◌∙◌, true, Option, none, some, List, [], ◌∷◌,
  ◌++◌, if◌then◌else◌, ◌==◌, length, length-append, get_elem?, arith, Bool-cases, inl, inr, ◌⊎◌,
}
use comment_subs.Array.Scan.{contains}
use comment_subs.Toposort.Defs.{Module}
use comment_subs.Toposort.Count.{occ}
use comment_subs.Toposort.Deps.{occ-append}

-- A path of dependencies from a module to a module.
pub data Leads (ms : List Module) : ℕ → ℕ → Type 0 where
  here : {x : ℕ} → Leads ms x x
  next :
      {d e x : ℕ} (m : Module)
      → get_elem? ms d ≡ some m
      → 0 < occ e m.deps
      → Leads ms e x
      → Leads ms d x

-- What is filled in for the dependencies `deps`, with at most `n` elements. They are in the array;
-- what is new is there once, is one of them or led to by one of them, and its dependencies are in
-- the array too.
pub record Fills (ms : List Module) (deps filled filled' : List ℕ) (n : ℕ) : Type 0 where
  pub kept : (x : ℕ) → 0 < occ x filled → occ x filled' ≡ occ x filled
  pub once : (x : ℕ) → occ x filled ≡ 0 → occ x filled' ≤ 1
  pub all : (d : ℕ) → 0 < occ d deps → 0 < occ d filled'
  pub closed :
      (x : ℕ)
      → occ x filled ≡ 0
      → 0 < occ x filled'
      → (m : Module) → get_elem? ms x ≡ some m
      → (d : ℕ) → 0 < occ d m.deps
      → 0 < occ d filled'
  pub sound :
      (x : ℕ) → occ x filled ≡ 0 → 0 < occ x filled' → (d : ℕ) × (0 < occ d deps) × Leads ms d x
  pub few : length filled' ≤ length filled + n

pub occ-here : (x : ℕ) (xs : List ℕ) → 0 < occ x (x ∷ xs)
unfolding occ
occ-here x xs = ground arith

pub occ-later : (d x : ℕ) (xs : List ℕ) → 0 < occ d xs → 0 < occ d (x ∷ xs)
unfolding occ
occ-later d x xs h = ground (arith, h)

pub occ-cons : (d x : ℕ) (xs : List ℕ) → 0 < occ d (x ∷ xs) → (x ≡ d) ⊎ (0 < occ d xs)
unfolding occ
occ-cons d x xs h = elim (Bool-cases (x == d)) [
  | inl same ↦ inl (ground (arith, same))
  | inr other ↦ inr (ground (arith, other, h))
]

pub occ-contains : (d : ℕ) (xs : List ℕ) → contains xs d ≡ true → 0 < occ d xs
unfolding occ contains
occ-contains d [] h = absurd cc
occ-contains d (x ∷ xs) h = elim (Bool-cases (x == d)) [
  | inl same ↦ ground (arith, same)
  | inr other ↦ let further = occ-contains d xs (rw other at h) in ground (arith, further)
]

abbrev deps_or : Option Module → List ℕ
deps_or none = []
deps_or (some m) = m.deps

none_or_some : (n : ℕ) → (n ≡ 0) ⊎ (0 < n)
none_or_some zero = inl refl
none_or_some (suc n) = inr (omega arith)

pub Fills-nil : (ms : List Module) (filled : List ℕ) → Fills ms [] filled filled 0
unfolding occ
Fills-nil ms filled = record {
  kept = λ x h. refl;
  once = λ x h. omega arith;
  all = λ d h. absurd (omega (arith, h));
  closed = λ x h k. absurd (omega (arith, h, k));
  sound = λ x h k. absurd (omega (arith, h, k));
  few = omega arith;
}

module _ (ms : List Module) (x : ℕ) (deps filled : List ℕ) where
  Fills-mono : {ds f g : List ℕ} {n : ℕ} → Fills ms ds f g n → (d : ℕ) → 0 < occ d f → 0 < occ d g
  Fills-mono r d h = omega (arith, r.kept d h, h)

  -- The dependency is there before.
  pub Fills-skip :
      {f : List ℕ} {n k : ℕ}
      → 0 < occ x filled
      → n ≤ k
      → Fills ms deps filled f n
      → Fills ms (x ∷ deps) filled f k
  Fills-skip there more r = record {
    kept = r.kept;
    once = r.once;
    all = λ d h. elim (occ-cons d x deps h) [
      | inl same ↦ Fills-mono r d (rw same at there)
      | inr later ↦ r.all d later
    ];
    closed = r.closed;
    sound = λ y h k. let (d, at, path) = r.sound y h k in (d, occ-later d x deps at, path);
    few = omega (arith, r.few, more);
  }

  module _ {f g : List ℕ} {n k : ℕ} (m : Module) (at : get_elem? ms x ≡ some m)
      (new : occ x filled ≡ 0) (r : Fills ms m.deps (filled ++ x ∷ []) f n)
      (s : Fills ms deps f g k) where
    put : (y : ℕ) → occ y (filled ++ x ∷ []) ≡ occ y filled + (if x == y then 1 else 0)
    put y = occ-append y x filled

    x_there : 0 < occ x (filled ++ x ∷ [])
    x_there = ground (arith, put x)

    -- Where a new element comes from: it is the dependency itself, or it was filled in for the
    -- dependencies of the latter, or after them.
    origin :
        (y : ℕ)
        → occ y filled ≡ 0
        → ((x ≡ y) ⊎ ((occ y (filled ++ x ∷ []) ≡ 0) × (0 < occ y f))) ⊎ (occ y f ≡ 0)
    origin y h = elim (none_or_some (occ y f)) [
      | inl last ↦ inr last
      | inr there ↦ elim (Bool-cases (x == y)) [
        | inl same ↦ inl (inl (ground (arith, same)))
        | inr other ↦ inl (inr (ground (arith, put y, h, other), there))
      ]
    ]

    step_kept : (y : ℕ) → 0 < occ y filled → occ y g ≡ occ y filled
    step_kept y h = elim (Bool-cases (x == y)) [
      | inl same ↦
          let e : x ≡ y = ground (arith, same) in
          absurd (omega (arith, h, new, ap (λ z. occ z filled) e))
      | inr other ↦
          let first : occ y (filled ++ x ∷ []) ≡ occ y filled = ground (arith, put y, other) in
          let second = r.kept y (omega (arith, first, h)) in
          let third = s.kept y (omega (arith, first, second, h)) in
          omega (arith, first, second, third)
    ]

    step_once : (y : ℕ) → occ y filled ≡ 0 → occ y g ≤ 1
    step_once y h = elim (origin y h) [
      | inr last ↦ s.once y last
      | inl (inr (fresh, there)) ↦ omega (arith, r.once y fresh, s.kept y there)
      | inl (inl same) ↦
          let one : occ y (filled ++ x ∷ []) ≡ 1 = ground (arith, put y, h, same) in
          let second = r.kept y (omega (arith, one)) in
          omega (arith, one, second, s.kept y (omega (arith, one, second)))
    ]

    x_in : 0 < occ x g
    x_in = Fills-mono s x (Fills-mono r x x_there)

    step_closed :
        (y : ℕ)
        → occ y filled ≡ 0
        → 0 < occ y g
        → (o : Module) → get_elem? ms y ≡ some o
        → (d : ℕ) → 0 < occ d o.deps
        → 0 < occ d g
    step_closed y h there o at_o d uses = elim (origin y h) [
      | inr last ↦ s.closed y last there o at_o d uses
      | inl (inr (fresh, in_f)) ↦ Fills-mono s d (r.closed y fresh in_f o at_o d uses)
      | inl (inl same) ↦
          let own : some m ≡ some o = sym at ∙ ap (get_elem? ms) same ∙ at_o in
          let e : occ d m.deps ≡ occ d o.deps = ap (λ q. occ d (deps_or q)) own in
          Fills-mono s d (r.all d (omega (arith, uses, e)))
    ]

    step_sound :
        (y : ℕ) → occ y filled ≡ 0 → 0 < occ y g → (d : ℕ) × (0 < occ d (x ∷ deps)) × Leads ms d y
    step_sound y h there = elim (origin y h) [
      | inr last ↦ let (d, at_d, path) = s.sound y last there in (d, occ-later d x deps at_d, path)
      | inl (inr (fresh, in_f)) ↦
          let (e, at_e, path) = r.sound y fresh in_f in (x, occ-here x deps, next m at at_e path)
      | inl (inl same) ↦ (x, occ-here x deps, subst (Leads ms x) same here)
    ]

    pub Fills-step : Fills ms (x ∷ deps) filled g (suc (n + k))
    Fills-step = record {
      kept = step_kept;
      once = step_once;
      all = λ d h. elim (occ-cons d x deps h) [
        | inl same ↦ subst (λ z. 0 < occ z g) same x_in
        | inr later ↦ s.all d later
      ];
      closed = step_closed;
      sound = step_sound;
      few = omega (arith, r.few, s.few, length-append filled (x ∷ []));
    }
