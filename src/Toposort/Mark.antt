-- ===== src/Toposort/Mark.antt =====
-- The fields that depmod_calculate_dependencies writes, behind the topological sort.
use comment_subs.Prelude.{
  ℕ, zero, suc, ◌+◌, ◌<◌, ◌≡◌, refl, ap, sym, ◌∙◌, Bool, true, false, Option, none, some, List, [],
  ◌∷◌, if◌then◌else◌, ◌==◌, length, get_elem?, get_or, arith, Bool-cases, inl, inr,
}
use comment_subs.Toposort.Defs.{Module, Sort, mark_loops, no_loops, int32_max}
use comment_subs.Toposort.Count.{occ, positives, pending-some}
use comment_subs.Toposort.Order.{Ordered, Indexed, IsSorting}

-- dep_loop and dep_sort_idx of the modules. A module that is not in a loop comes behind each of its
-- users, none of which is in a loop; a module in a loop has a user in a loop.
pub record IsCalculated (ms : List Module) (out : List (Bool × ℕ)) : Type 0 where
  pub size : length out ≡ length ms
  pub order :
      (d y : ℕ)
      → get_elem? out d ≡ some (false, y)
      → (k : ℕ) (m : Module) → get_elem? ms k ≡ some m
      → 0 < occ d m.deps
      → (x : ℕ) × (get_elem? out k ≡ some (false, x)) × (x < y)
  pub cycle :
      (d y : ℕ)
      → get_elem? out d ≡ some (true, y)
      → (k : ℕ) × (m : Module) × (get_elem? ms k ≡ some m)
        × (0 < occ d m.deps)
        × (get_elem? out k ≡ some (true, int32_max))

mark_loops-get :
    (users idx : List ℕ) (k : ℕ)
    → k < length users
    → length idx ≡ length users
    → get_elem? (mark_loops users idx) k
      ≡ some (if get_or users k 0 == 0 then (false, get_or idx k 0) else (true, int32_max))
unfolding mark_loops
mark_loops-get [] idx k h e = absurd (omega arith)
mark_loops-get (u ∷ users) [] k h e = absurd (omega arith)
mark_loops-get (u ∷ users) (i ∷ idx) zero h e = refl
mark_loops-get (u ∷ users) (i ∷ idx) (suc k) h e =
    mark_loops-get users idx k (omega arith) (omega arith)

pub mark_loops-none :
    (users idx : List ℕ)
    → positives users ≡ 0
    → length idx ≡ length users
    → mark_loops users idx ≡ no_loops idx
unfolding mark_loops no_loops positives
mark_loops-none [] [] h e = refl
mark_loops-none [] (i ∷ idx) h e = absurd (omega arith)
mark_loops-none (u ∷ users) [] h e = absurd (omega arith)
mark_loops-none (u ∷ users) (i ∷ idx) h e = ground (arith, mark_loops-none users idx)

length-mark_loops :
    (users idx : List ℕ) → length idx ≡ length users → length (mark_loops users idx) ≡ length users
unfolding mark_loops
length-mark_loops [] [] e = refl
length-mark_loops [] (i ∷ idx) e = absurd (omega arith)
length-mark_loops (u ∷ users) [] e = absurd (omega arith)
length-mark_loops (u ∷ users) (i ∷ idx) e = ap suc (length-mark_loops users idx (omega arith))

pub get_elem?-lt :
    {A : Type 0} (xs : List A) (k : ℕ) {x : A} → get_elem? xs k ≡ some x → k < length xs
get_elem?-lt [] k at = cc
get_elem?-lt (x ∷ xs) zero at = omega arith
get_elem?-lt (x ∷ xs) (suc k) at = omega (arith, get_elem?-lt xs k at)

-- A module that is sorted has a smaller index than the next one.
Indexed-lt : (idx s : List ℕ) (k : ℕ) → Indexed idx s → 0 < occ k s → get_or idx k 0 < length s
unfolding occ
Indexed-lt idx [] k at h = absurd (omega arith)
Indexed-lt idx (j ∷ s) k at h = elim (Bool-cases (j == k)) [
  | inl here ↦ ground (arith, at.0)
  | inr there ↦ ground (arith, Indexed-lt idx s k at.1)
]

Ordered-lt :
    (ms : List Module) (idx s : List ℕ) (d k : ℕ) (m : Module)
    → Ordered ms s
    → Indexed idx s
    → 0 < occ d s
    → get_elem? ms k ≡ some m
    → 0 < occ d m.deps
    → (0 < occ k s) × (get_or idx k 0 < get_or idx d 0)
unfolding occ
Ordered-lt ms idx [] d k m o at h there_k uses = absurd (omega arith)
Ordered-lt ms idx (j ∷ s) d k m o at h there_k uses = elim (Bool-cases (j == d)) [
  | inl here ↦
      let e : j ≡ d = ground arith in
      let sorted = o.0 k m there_k (omega (arith, ap (λ y. occ y m.deps) e, uses)) in
      let top : get_or idx d 0 ≡ length s = ap (λ y. get_or idx y 0) (sym e) ∙ at.0 in
      (ground (arith, sorted), omega (arith, top, Indexed-lt idx s k at.1 sorted))
  | inr other ↦
      let (sorted, less) = Ordered-lt ms idx s d k m o.1 at.1 (ground arith) there_k uses in
      (ground (arith, sorted), less)
]

flag_of : Option (Bool × ℕ) → Bool
flag_of none = false
flag_of (some (flag, index)) = flag

index_of : Option (Bool × ℕ) → ℕ
index_of none = 0
index_of (some (flag, index)) = index

module _ (ms : List Module) (s : Sort) (v : IsSorting ms s []) where
  abbrev pub marked : List (Bool × ℕ)
  marked = mark_loops s.users s.dep_sort_idx

  pub idx-users : length s.dep_sort_idx ≡ length s.users
  idx-users = v.idx_size ∙ sym v.counted.size

  marked-get :
      (k : ℕ)
      → k < length ms
      → get_elem? marked k
        ≡ some (
            if get_or s.users k 0 == 0
            then (false, get_or s.dep_sort_idx k 0)
            else (true, int32_max))
  marked-get k h = mark_loops-get s.users s.dep_sort_idx k (omega (arith, v.counted.size)) idx-users

  length-marked : length marked ≡ length ms
  length-marked = length-mark_loops s.users s.dep_sort_idx idx-users ∙ v.counted.size

  in_range : (d : ℕ) {r : Bool × ℕ} → get_elem? marked d ≡ some r → d < length ms
  in_range d at = omega (arith, get_elem?-lt marked d at, length-marked)

  get-sorted :
      (d : ℕ)
      → d < length ms
      → 0 < occ d s.sorted
      → get_elem? marked d ≡ some (false, get_or s.dep_sort_idx d 0)
  unfolding occ
  get-sorted d h sorted =
      let free : (get_or s.users d 0 == 0) ≡ true = ground (arith, v.counted.once d h) in
      marked-get d h ∙ rw free

  get-looped :
      (d : ℕ) → d < length ms → occ d s.sorted ≡ 0 → get_elem? marked d ≡ some (true, int32_max)
  unfolding occ
  get-looped d h out =
      let used : (get_or s.users d 0 == 0) ≡ false = ground (arith, v.counted.once d h) in
      marked-get d h ∙ rw used

  sorted-get :
      (d y : ℕ)
      → get_elem? marked d ≡ some (false, y)
      → (0 < occ d s.sorted) × (y ≡ get_or s.dep_sort_idx d 0)
  unfolding occ flag_of index_of
  sorted-get d y at =
      let is = sym (marked-get d (in_range d at)) ∙ at in
      elim (Bool-cases (get_or s.users d 0 == 0)) [
        | inl free ↦
            (ground (arith, v.counted.once d (in_range d at)), sym (ap index_of (rw free at is)))
        | inr used ↦ let wrong : true ≡ false = ap flag_of (rw used at is) in absurd cc
      ]

  looped-get : (d y : ℕ) → get_elem? marked d ≡ some (true, y) → 0 < get_or s.users d 0
  unfolding flag_of
  looped-get d y at =
      let is = sym (marked-get d (in_range d at)) ∙ at in
      elim (Bool-cases (get_or s.users d 0 == 0)) [
        | inl free ↦ let wrong : false ≡ true = ap flag_of (rw free at is) in absurd cc
        | inr used ↦ ground arith
      ]

module _ (ms : List Module) (s : Sort) (v : IsSorting ms s []) where
  pub marked-IsCalculated : IsCalculated ms (marked ms s v)
  unfolding occ
  marked-IsCalculated = record {
    size = length-marked ms s v;
    order = λ d y at k m there uses.
        let (sorted, is) = sorted-get ms s v d y at in
        let (before, less) =
          Ordered-lt ms s.dep_sort_idx s.sorted d k m v.ordered v.indexed sorted there uses in
        (
          get_or s.dep_sort_idx k 0,
          get-sorted ms s v k (get_elem?-lt ms k there) before,
          omega (arith, is, less),
        );
    cycle = λ d y at.
        let used = looped-get ms s v d y at in
        let (k, m, there, uses, out) =
          pending-some d s.sorted 0 ms
            (omega (arith, v.counted.counts d (in_range ms s v d at), used)) in
        let at_k : occ k s.sorted ≡ 0 =
          ap (λ j. occ j s.sorted) {x = k} {y = 0 + k} (omega arith) ∙ out in
        (k, m, there, uses, get-looped ms s v k (get_elem?-lt ms k there) at_k);
  }
