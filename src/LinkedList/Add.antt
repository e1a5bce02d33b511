-- ===== src/LinkedList/Add.antt =====
-- kmod_list_append, kmod_list_prepend, kmod_list_insert_before and kmod_list_insert_after.
use comment_subs.Prelude.{ℕ, false, List, [], ◌∷◌, ◌++◌, some, ◌≡◌, ◌>>=◌, ap, arith, length}
use comment_subs.LinkedList.Defs.{
  NodePtr, Heap, kmod_list_append, kmod_list_prepend, kmod_list_insert_before,
  kmod_list_insert_after, list_node_append, list_node_init, set_data, allocate,
}
use comment_subs.LinkedList.Rings.{Holds, head}
use comment_subs.LinkedList.Rings.Fresh.{Yields, set_data-allocate}
use comment_subs.LinkedList.Rings.Added.{
  behind_head, single-Yields, init_single, at_end, at_start, behind_first, appended, put_before,
  put_after, h1,
}

alone :
    (h : Heap) (new : NodePtr) (d : ℕ)
    → Yields h
        (set_data (allocate h new) new d >>= λ g. list_node_init g new >>= λ f. some (some new, f))
        (new ∷ [])
        (d ∷ [])
        (new ∷ [])
alone h new d = rw (set_data-allocate h new d, ◌>>=◌, init_single h new d) (single-Yields h new d)

-- With an address from malloc that was not in use, on a list that holds some values, or on NULL for
-- none: no function meets an invalid access, and each leaves a circular list of the old nodes and
-- the new one, linked in both directions. kmod_list_append has the new value last,
-- kmod_list_prepend and kmod_list_insert_before have it first and return the new node,
-- kmod_list_insert_after has it behind the first. Nodes outside of the list stay as they were.
pub additions-Yields :
    (h : Heap) (xs : List NodePtr) (ds : List ℕ) (new : NodePtr) (d : ℕ)
    → Holds h xs ds
    → h.live new ≡ false
    → Yields h
        (kmod_list_append h (head xs) (some new) d)
        (xs ++ new ∷ [])
        (ds ++ d ∷ [])
        (new ∷ xs)
      × Yields h (kmod_list_prepend h (head xs) (some new) d) (new ∷ xs) (d ∷ ds) (new ∷ xs)
      × Yields h (kmod_list_insert_before h (head xs) (some new) d) (new ∷ xs) (d ∷ ds) (new ∷ xs)
      × Yields h
          (kmod_list_insert_after h (head xs) (some new) d)
          (behind_head xs new)
          (behind_head ds d)
          (new ∷ xs)
unfolding kmod_list_append kmod_list_prepend kmod_list_insert_before kmod_list_insert_after h1
    list_node_append Holds
additions-Yields h [] [] new d holds unused =
    (alone h new d, alone h new d, alone h new d, alone h new d)
additions-Yields h [] (v ∷ vs) new d holds unused = absurd (omega (arith, ap length holds.1))
additions-Yields h (p ∷ xs) ds new d holds unused = (
  rw (set_data-allocate h new d)
      (at_end h p xs ds new d holds unused _ (appended h p xs ds new d holds unused)),
  rw (set_data-allocate h new d)
      (at_start h p xs ds new d holds unused _ (appended h p xs ds new d holds unused)),
  rw (set_data-allocate h new d)
      (at_start h p xs ds new d holds unused _ (put_before h p xs ds new d holds unused)),
  rw (set_data-allocate h new d)
      (behind_first h p xs ds new d holds unused _ (put_after h p xs ds new d holds unused)),
)
