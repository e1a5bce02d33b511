-- ===== src/LinkedList/Rings/Added.antt =====
-- What an allocation and a splice make of a list, for each place of the new node.
use comment_subs.Prelude.{
  ℕ, true, false, List, [], ◌∷◌, ◌++◌, map, map-append, Option, some, ◌==◌, ◌≡◌, refl, sym, ap, ◌∙◌,
  arith, ◌>>=◌, Bool-cases, inl, inr,
}
use comment_subs.LinkedList.Defs.{
  NodePtr, Heap, update, list_node_append, list_node_init, list_node_insert_before,
  list_node_insert_after, set_next, set_prev,
}
use comment_subs.LinkedList.Links.{Links, has, last_of, has-last_of, has-next, Links-last}
use comment_subs.LinkedList.Rings.{IsRing, Holds, SameAt, map_same}
use comment_subs.LinkedList.Rings.Splice.{
  Spliced, Splices, list_node_append-Splices, list_node_insert_before-Splices,
  list_node_insert_after-Splices,
}
use comment_subs.LinkedList.Rings.Between.{append-IsRing, prepend-IsRing, insert-IsRing}
use comment_subs.LinkedList.Rings.Fresh.{
  Yields, with_node, fresh_lem, with_node-Holds, Spliced-SameOutside,
}

-- The nodes with one more behind the head.
abbrev pub behind_head : {A : Type 0} → List A → A → List A
behind_head [] x = x ∷ []
behind_head (p ∷ xs) x = p ∷ x ∷ xs

-- The list of one node.
module _ (h : Heap) (new : NodePtr) (d : ℕ) where
  unfoldable pub single : Heap
  single = record (with_node h new d) { next = update h.next new new; prev = update h.prev new new }

  pub init_single : list_node_init (with_node h new d) new ≡ some single
  unfolding list_node_init set_next set_prev single
  init_single = ground arith

  single-Holds : Holds single (new ∷ []) (d ∷ [])
  unfolding Holds IsRing Links single
  single-Holds = (((ground arith, ground arith), (refl, tt), λ a i. ground arith), ground arith)

  pub single-Yields : Yields h (some (some new, single)) (new ∷ []) (d ∷ []) (new ∷ [])
  unfolding Yields SameAt single
  single-Yields = (
    single,
    refl,
    single-Holds,
    λ a out. (ground arith, ground arith, ground arith, ground arith),
  )

module _ (h : Heap) (p : NodePtr) (xs : List NodePtr) (ds : List ℕ) (new : NodePtr) (d : ℕ)
    (holds : Holds h (p ∷ xs) ds) (unused : h.live new ≡ false) where
  unfoldable pub h1 : Heap
  h1 = with_node h new d

  fresh : has new (p ∷ xs) ≡ false
  unfolding Holds
  fresh = fresh_lem h (p ∷ xs) new holds.0 unused

  before : Holds h1 (p ∷ xs) ds
  unfolding h1
  before = with_node-Holds h (p ∷ xs) ds new d holds fresh

  live_new : h1.live new ≡ true
  unfolding h1
  live_new = ground arith

  live_old : (a : NodePtr) → has a (p ∷ xs) ≡ true → h1.live a ≡ true
  unfolding Holds IsRing
  live_old a i = before.0.2 a i

  last_lem : (h1.next (last_of p xs) ≡ p) × (h1.prev p ≡ last_of p xs)
  unfolding Holds IsRing
  last_lem = Links-last h1.next h1.prev p xs p before.0.0

  -- The values behind a splice.
  module _ (g : Heap) (b a : NodePtr) (s : Spliced h1 g b new a) where
    data_new : g.data_of new ≡ d
    unfolding h1
    data_new = s.data_same new ∙ ground arith

    data_old : map g.data_of (p ∷ xs) ≡ ds
    unfolding Holds
    data_old = map_same h1.data_of g.data_of (p ∷ xs) (λ c i. s.data_same c) ∙ before.1

  -- What the functions do once `list_node_*` is known to splice.
  pub at_end :
      (result : Option Heap)
      → Splices h1 result (last_of p xs) new p
      → Yields h
          (result >>= λ g. some (some p, g))
          (p ∷ (xs ++ new ∷ []))
          (ds ++ d ∷ [])
          (new ∷ p ∷ xs)
  unfolding Yields Holds h1
  at_end result (g, e, s) = (
    g,
    rw e refl,
    (
      append-IsRing h1 g p xs new before.0 fresh live_new s,
      map-append g.data_of (p ∷ xs) (new ∷ [])
          ∙ ap (λ l. l ++ g.data_of new ∷ []) (data_old g _ _ s)
          ∙ ap (λ v. ds ++ v ∷ []) (data_new g _ _ s),
    ),
    Spliced-SameOutside h g _ new _ d (p ∷ xs) s (has-last_of p xs) (ground arith),
  )

  pub at_start :
      (result : Option Heap)
      → Splices h1 result (last_of p xs) new p
      → Yields h (result >>= λ g. some (some new, g)) (new ∷ p ∷ xs) (d ∷ ds) (new ∷ p ∷ xs)
  unfolding Yields Holds h1
  at_start result (g, e, s) = (
    g,
    rw e refl,
    (
      prepend-IsRing h1 g p xs new before.0 fresh live_new s,
      rw (data_new g _ _ s, data_old g _ _ s) refl,
    ),
    Spliced-SameOutside h g _ new _ d (p ∷ xs) s (has-last_of p xs) (ground arith),
  )

  next_in : has (h1.next p) (p ∷ xs) ≡ true
  unfolding Holds IsRing
  next_in = has-next h1.next h1.prev p xs before.0.0

  pub behind_first :
      (result : Option Heap)
      → Splices h1 result p new (h1.next p)
      → Yields h (result >>= λ g. some (some p, g)) (p ∷ new ∷ xs) (behind_head ds d) (new ∷ p ∷ xs)
  unfolding Yields Holds h1
  behind_first result (g, e, s) = (
    g,
    rw e refl,
    (
      insert-IsRing h1 g p xs new before.0 fresh live_new s,
      ap (λ v. g.data_of p ∷ v ∷ map g.data_of xs) (data_new g _ _ s)
          ∙ ap (λ l. behind_head l d) (data_old g _ _ s),
    ),
    Spliced-SameOutside h g _ new _ d (p ∷ xs) s (ground arith) next_in,
  )

  not_new : (a : NodePtr) → has a (p ∷ xs) ≡ true → (a == new) ≡ false
  not_new a i = elim (Bool-cases (a == new)) [
    | inl same ↦
        let is : a ≡ new = ground arith in
        absurd (ground (arith, sym i ∙ ap (λ b. has b (p ∷ xs)) is ∙ fresh))
    | inr apart ↦ apart
  ]

  last_in : has (last_of p xs) (p ∷ xs) ≡ true
  last_in = has-last_of p xs

  first_in : has p (p ∷ xs) ≡ true
  first_in = ground arith

  pub appended : Splices h1 (list_node_append h1 (some p) new) (last_of p xs) new p
  appended =
      list_node_append-Splices h1 _ p new live_new (live_old _ last_in) (live_old p first_in)
        (not_new _ last_in) (not_new p first_in) last_lem.1

  pub put_before : Splices h1 (list_node_insert_before h1 (some p) new) (last_of p xs) new p
  put_before =
      list_node_insert_before-Splices h1 _ p new live_new (live_old _ last_in) (live_old p first_in)
        (not_new _ last_in) (not_new p first_in) last_lem.1

  pub put_after : Splices h1 (list_node_insert_after h1 (some p) new) p new (h1.next p)
  put_after =
      list_node_insert_after-Splices h1 p _ new live_new (live_old p first_in) (live_old _ next_in)
        (not_new p first_in) (not_new _ next_in) refl
