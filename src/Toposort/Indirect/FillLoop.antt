-- ===== src/Toposort/Indirect/FillLoop.antt =====
-- The loop of mod_fill_all_unique_dependencies.
use comment_subs.Prelude.{
  ℕ, suc, ◌+◌, ◌≤◌, ◌<◌, ◌≡◌, refl, false, Option, some, List, [], ◌∷◌, ◌++◌, if◌then◌else◌, leb,
  length, length-append, get_elem?, arith, Bool-cases, inl, inr, ◌>>=◌, ℤ, pos, lt→ltb,
}
use comment_subs.Array.Scan.{contains}
use comment_subs.Toposort.Defs.{Module}
use comment_subs.Toposort.Count.{occ}
use comment_subs.Toposort.Deps.{contains-occ}
use comment_subs.Toposort.Indirect.Defs.{after_fill, append_dep, fill_loop}
use comment_subs.Toposort.Indirect.Fills.{
  Fills, occ-here, occ-later, occ-contains, Fills-nil, Fills-skip, Fills-step,
}

-- How many elements the dependencies need, with those of which `weight` is the number below each.
unfoldable pub total : (weight : ℕ → ℕ) → List ℕ → ℕ
total weight [] = 0
total weight (d ∷ deps) = suc (weight d + total weight deps)

append_dep_lem :
    (room : ℕ) (filled : List ℕ) (d : ℕ)
    → length filled < room
    → append_dep room filled d ≡ some (filled ++ d ∷ [])
unfolding append_dep
append_dep_lem room filled d h = rw (lt→ltb _ _ h)

-- The loop, where the recursive calls are right.
pub fill_loop-Fills :
    (ms : List Module) (fill : ℕ → List ℕ → Option (List ℕ × ℤ)) (weight : ℕ → ℕ) (room : ℕ)
    (deps filled : List ℕ)
    → ((d : ℕ)
        → 0 < occ d deps
        → (before : List ℕ) → length before + weight d ≤ room
        → (m : Module) × (get_elem? ms d ≡ some m)
          × (after : List ℕ) × (fill d before ≡ some (after, pos 0))
          × Fills ms m.deps before after (weight d))
    → length filled + total weight deps ≤ room
    → (after : List ℕ) × (fill_loop fill room room deps filled (pos 0) ≡ some (after, pos 0))
      × Fills ms deps filled after (total weight deps)
unfolding fill_loop total after_fill
fill_loop-Fills ms fill weight room [] filled call h = (filled, refl, Fills-nil ms filled)
fill_loop-Fills ms fill weight room (x ∷ deps) filled call h =
    elim (Bool-cases (contains filled x)) [
      | inl there ↦
          let (after, run, r) =
            fill_loop-Fills ms fill weight room deps filled (λ d at. call d (occ-later d x deps at))
              (omega arith) in
          (
            after,
            rw (there, if◌then◌else◌) run,
            Fills-skip ms x deps filled (occ-contains x filled there) (omega arith) r,
          )
      | inr new ↦
          let free : leb room (length filled) ≡ false = ground (arith, h) in
          let fits : length filled < room = omega (arith, h) in
          let (m, at, f, ran, r) =
            call x (occ-here x deps) (filled ++ x ∷ [])
              (omega (arith, h, length-append filled (x ∷ []))) in
          let (g, run, s) =
            fill_loop-Fills ms fill weight room deps f (λ d at_d. call d (occ-later d x deps at_d))
              (omega (arith, h, r.few, length-append filled (x ∷ []))) in
          (
            g,
            rw
                (
                  new,
                  if◌then◌else◌,
                  free,
                  if◌then◌else◌,
                  append_dep_lem room filled x fits,
                  ◌>>=◌,
                  ran,
                  ◌>>=◌,
                )
                run,
            Fills-step ms x deps filled m at (contains-occ x filled new) r s,
          )
    ]
