-- ===== src/LinkedList/Rings/Splice.antt =====
-- A node that the functions on `struct list_node` put between two neighbours.
use comment_subs.Prelude.{
  true, false, Option, some, ◌==◌, if◌then◌else◌, ◌≡◌, ◌≢◌, refl, arith, ◌>>=◌,
}
use comment_subs.LinkedList.Defs.{
  NodePtr, Heap, update, load_next, load_prev, set_next, set_prev, list_node_append,
  list_node_insert_after, list_node_insert_before,
}

-- What is written to have `new` between `before` and `after`.
pub record Spliced (h g : Heap) (before new after : NodePtr) : Type 0 where
  pub live_same : (a : NodePtr) → g.live a ≡ h.live a
  pub data_same : (a : NodePtr) → g.data_of a ≡ h.data_of a
  pub before_next : g.next before ≡ new
  pub new_next : g.next new ≡ after
  pub new_prev : g.prev new ≡ before
  pub after_prev : g.prev after ≡ new
  pub next_same : (a : NodePtr) → a ≢ before → a ≢ new → g.next a ≡ h.next a
  pub prev_same : (a : NodePtr) → a ≢ after → a ≢ new → g.prev a ≡ h.prev a

-- The result of an operation that does so.
abbrev pub Splices : Heap → Option Heap → (before new after : NodePtr) → Type 0
Splices h result before new after = (g : Heap) × (result ≡ some g) × Spliced h g before new after

module _ (h : Heap) (before after new : NodePtr) (live_new : h.live new ≡ true)
    (live_before : h.live before ≡ true) (live_after : h.live after ≡ true)
    (before_new : (before == new) ≡ false) (after_new : (after == new) ≡ false) where
  written_lem :
      (g : Heap)
      → ((a : NodePtr) → g.live a ≡ h.live a)
      → ((a : NodePtr) → g.data_of a ≡ h.data_of a)
      → ((a : NodePtr)
          → g.next a ≡ (if a == new then after else if a == before then new else h.next a))
      → ((a : NodePtr)
          → g.prev a ≡ (if a == new then before else if a == after then new else h.prev a))
      → Spliced h g before new after
  written_lem g lives values nexts prevs = record {
    live_same = lives;
    data_same = values;
    before_next = ground (arith, nexts before);
    new_next = ground (arith, nexts new);
    new_prev = ground (arith, prevs new);
    after_prev = ground (arith, prevs after);
    next_same = λ a m n. ground (arith, nexts a);
    prev_same = λ a m n. ground (arith, prevs a);
  }

  pub list_node_append-Splices :
      h.prev after ≡ before → Splices h (list_node_append h (some after) new) before new after
  unfolding list_node_append load_prev set_next set_prev
  list_node_append-Splices is = (
    record h {
      next = update (update h.next before new) new after;
      prev = update (update h.prev new before) after new;
    },
    rw (
      live_after, is, ◌>>=◌, live_new, ◌>>=◌, after_new, live_after, ◌>>=◌, is, live_before, ◌>>=◌,
      live_after, ◌>>=◌, live_new,
    ),
    written_lem _ (λ a. refl) (λ a. refl) (λ a. ground arith) (λ a. ground arith),
  )

  pub list_node_insert_before-Splices :
      h.prev after ≡ before
      → Splices h (list_node_insert_before h (some after) new) before new after
  unfolding list_node_insert_before load_prev set_next set_prev
  list_node_insert_before-Splices is = (
    record h {
      next = update (update h.next new after) before new;
      prev = update (update h.prev new before) after new;
    },
    rw (
      live_new, ◌>>=◌, live_after, is, ◌>>=◌, live_new, ◌>>=◌, after_new, live_after, ◌>>=◌, is,
      live_before, ◌>>=◌, live_after,
    ),
    written_lem _ (λ a. refl) (λ a. refl) (λ a. ground arith) (λ a. ground arith),
  )

  pub list_node_insert_after-Splices :
      h.next before ≡ after
      → Splices h (list_node_insert_after h (some before) new) before new after
  unfolding list_node_insert_after load_next set_next set_prev
  list_node_insert_after-Splices is = (
    record h {
      next = update (update h.next new after) before new;
      prev = update (update h.prev new before) after new;
    },
    rw (
      live_new, ◌>>=◌, live_before, is, ◌>>=◌, live_new, ◌>>=◌, before_new, live_before, ◌>>=◌, is,
      live_after, ◌>>=◌, live_before,
    ),
    written_lem _ (λ a. refl) (λ a. refl) (λ a. ground arith) (λ a. ground arith),
  )
