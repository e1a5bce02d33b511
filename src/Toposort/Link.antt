-- ===== src/Toposort/Link.antt =====
-- mod_add_dependency keeps the counters right that the topological sort relies on.
use comment_subs.Prelude.{
  ℕ, ◌+◌, ◌-◌, ◌^◌, ◌≤◌, ◌<◌, ◌≡◌, refl, ap, sym, ◌∙◌, Bool, true, false, Option, none, some, List,
  [], if◌then◌else◌, ◌==◌, length, length-set, get_elem?, get_or, get_elem?-get_or, set, arith,
  Bool-cases, inl, inr, ◌⊎◌, ◌>>=◌, ℤ, pos, enomem,
}
use comment_subs.Array.Scan.{contains}
use comment_subs.Toposort.Defs.{Module, mod_add_dependency, dep_added, user_added}
use comment_subs.Toposort.Count.{occ, pending}
use comment_subs.Toposort.Order.{DepsFit}
use comment_subs.Toposort.Result.{UsersCounted}
use comment_subs.Toposort.Deps.{
  DepsUnique, users_in, pending-set, pending-le, occ-append, contains-occ, get_elem?-set,
  DepsFit-set, DepsUnique-set, DepsUnique-get, Inside-append, Inside-at,
}

-- The modules as calculate_dependencies expects them.
pub record IsLinked (ms : List Module) : Type 0 where
  pub few : length ms < 2 ^ 16 - 1
  pub fits : DepsFit (length ms) ms
  pub unique : DepsUnique ms
  pub counted : UsersCounted ms

module _ (ms : List Module) (v : IsLinked ms) (k d : ℕ) (m o : Module)
    (at : get_elem? ms k ≡ some m) (at_o : get_elem? (set ms k (dep_added m d)) d ≡ some o)
    (new : contains m.deps d ≡ false) (in_k : k < length ms) (in_d : d < length ms) where
  pending_after :
      (j : ℕ)
      → pending j [] 0 (set (set ms k (dep_added m d)) d (user_added o))
        ≡ pending j [] 0 ms + (if d == j then 1 else 0)
  pending_after j = omega (
    arith,
    pending-set j 0 k ms m (dep_added m d) at,
    occ-append j d m.deps,
    pending-set j 0 d (set ms k (dep_added m d)) o (user_added o) at_o,
  )

  owner_users : o.users ≡ pending d [] 0 ms
  owner_users =
      let there : get_elem? (set ms k (dep_added m d)) d
          ≡ (if d == k then some (dep_added m d) else get_elem? ms d) =
        get_elem?-set ms k d (dep_added m d) in_k in
      let same = sym at_o ∙ there in
      elim (Bool-cases (d == k)) [
        | inl own ↦
            let e : k ≡ d = ground (arith, own) in
            ap users_in (rw own at same) ∙ v.counted k m at ∙ ap (λ j. pending j [] 0 ms) e
        | inr other ↦ v.counted d o (sym (rw other at same))
      ]

  dep_added-counted : UsersCounted (set (set ms k (dep_added m d)) d (user_added o))
  dep_added-counted j x at_x =
      let there : get_elem? (set (set ms k (dep_added m d)) d (user_added o)) j ≡ (
          if j == d
          then some (user_added o)
          else if j == k
          then some (dep_added m d)
          else get_elem? ms j) =
        rw (
          get_elem?-set (set ms k (dep_added m d)) d j (user_added o)
              (omega (arith, length-set ms k (dep_added m d))),
          get_elem?-set ms k j (dep_added m d) in_k,
        ) in
      let same = sym at_x ∙ there in
      elim (Bool-cases (j == d)) [
        | inl own ↦
            let e : pending j [] 0 ms ≡ pending d [] 0 ms =
              ap (λ i. pending i [] 0 ms) (ground (arith, own)) in
            ground (
              arith,
              ap users_in (rw own at same),
              pending_after j,
              e,
              owner_users,
              pending-le d 0 ms v.unique,
              v.few,
            )
        | inr other ↦ elim (Bool-cases (j == k)) [
          | inl mod_own ↦
              let e : pending j [] 0 ms ≡ pending k [] 0 ms =
                ap (λ i. pending i [] 0 ms) (ground (arith, mod_own)) in
              ground (
                arith,
                ap users_in (rw (other, mod_own) at same),
                pending_after j,
                e,
                v.counted k m at,
              )
          | inr neither ↦
              ground (arith, v.counted j x (sym (rw (other, neither) at same)), pending_after j)
        ]
      ]

  once_new : (j : ℕ) → (if d == j then 1 else 0) + occ j m.deps ≤ 1
  once_new j =
      let free : occ d m.deps ≡ 0 = contains-occ d m.deps new in
      elim (Bool-cases (d == j)) [
        | inl own ↦
            let e : occ d m.deps ≡ occ j m.deps = ap (λ i. occ i m.deps) (ground (arith, own)) in
            ground (arith, own, free, e)
        | inr other ↦ ground (arith, other, DepsUnique-get ms k m v.unique at j)
      ]

  dep_added-IsLinked : IsLinked (set (set ms k (dep_added m d)) d (user_added o))
  dep_added-IsLinked =
      let ms1 = set ms k (dep_added m d) in
      let size : length (set ms1 d (user_added o)) ≡ length ms =
        length-set ms1 d (user_added o) ∙ length-set ms k (dep_added m d) in
      let fits1 : DepsFit (length ms) ms1 =
        DepsFit-set (length ms) ms k (dep_added m d) v.fits
          (Inside-append (length ms) d m.deps (Inside-at (length ms) ms k m v.fits at) in_d) in
      let unique1 : DepsUnique ms1 = DepsUnique-set ms k (dep_added m d) v.unique (λ j.
        omega (arith, occ-append j d m.deps, DepsUnique-get ms k m v.unique at j, once_new j)) in
      record {
        few = omega (arith, size, v.few);
        fits = rw size (
            DepsFit-set (length ms) ms1 d (user_added o) fits1
              (Inside-at (length ms) ms1 d o fits1 at_o));
        unique = DepsUnique-set ms1 d (user_added o) unique1 (DepsUnique-get ms1 d o unique1 at_o);
        counted = dep_added-counted;
      }

added_cases :
    (granted : Bool) (ms : List Module) (v : IsLinked ms) (k d : ℕ) (m : Module)
    → get_elem? ms k ≡ some m
    → contains m.deps d ≡ false
    → k < length ms
    → d < length ms
    → (ms' : List Module) × (r : ℤ) × (mod_add_dependency granted ms k (some d) ≡ some (ms', r))
      × IsLinked ms'
      × ((r ≡ pos 0) ⊎ ((granted ≡ false) × (r ≡ enomem)))
unfolding mod_add_dependency
added_cases false ms v k d m at new in_k in_d =
    (ms, enomem, rw (at, ◌>>=◌, new), v, inr (refl, refl))
added_cases true ms v k d m at new in_k in_d =
    let ms1 = set ms k (dep_added m d) in
    let o = get_or ms1 d (record { users = 0; deps = [] }) in
    let at_o : get_elem? ms1 d ≡ some o =
      get_elem?-get_or ms1 d (record { users = 0; deps = [] })
        (omega (arith, in_d, length-set ms k (dep_added m d))) in
    (
      set ms1 d (user_added o),
      pos 0,
      rw (at, ◌>>=◌, new, at_o),
      dep_added-IsLinked ms v k d m o at at_o new in_k in_d,
      inl refl,
    )

-- An owner is NULL or a module.
abbrev pub OwnerFits : ℕ → Option ℕ → Type 0
OwnerFits n none = Unit
OwnerFits n (some owner) = owner < n

-- For fewer than 65535 modules whose dependencies are modules, unique, and counted in the counters
-- `users` of their owners, mod_add_dependency of a module and an owner that is NULL or a module
-- meets no fault and keeps all this, so no counter wraps around. It returns 0, or -ENOMEM where it
-- gets no memory.
pub mod_add_dependency-IsLinked :
    (granted : Bool) (ms : List Module) (mod_idx : ℕ) (owner : Option ℕ)
    → IsLinked ms
    → mod_idx < length ms
    → OwnerFits (length ms) owner
    → (ms' : List Module) × (r : ℤ) × (mod_add_dependency granted ms mod_idx owner ≡ some (ms', r))
      × IsLinked ms'
      × ((r ≡ pos 0) ⊎ ((granted ≡ false) × (r ≡ enomem)))
unfolding mod_add_dependency
mod_add_dependency-IsLinked granted ms k none v in_k in_d = (ms, pos 0, refl, v, inl refl)
mod_add_dependency-IsLinked granted ms k (some d) v in_k in_d =
    let m = get_or ms k (record { users = 0; deps = [] }) in
    let at : get_elem? ms k ≡ some m =
      get_elem?-get_or ms k (record { users = 0; deps = [] }) in_k in
    elim (Bool-cases (contains m.deps d)) [
      | inl there ↦ (ms, pos 0, rw (at, ◌>>=◌, there), v, inl refl)
      | inr new ↦ added_cases granted ms v k d m at new in_k in_d
    ]
