-- ===== src/Tests/Lists.antt =====
-- libkmod/libkmod-list.c on a heap with a list of three nodes and one of a single node.
use comment_subs.Prelude.{
  false, ◌≡◌, refl, some, none, [], ◌∷◌, arith, List, ◌==◌, if◌then◌else◌, ◌>>=◌, ◌+◌,
}
use comment_subs.LinkedList.{
  Heap, NodePtr, kmod_list_append, kmod_list_prepend, kmod_list_insert_before,
  kmod_list_insert_after, kmod_list_append_list, kmod_list_remove, kmod_list_remove_data,
  kmod_list_remove_n_latest, kmod_list_next, kmod_list_prev, kmod_list_last, list_node_remove,
  load_prev, load_next, free,
}
use comment_subs.LinkedList.Links.{Links, has}
use comment_subs.LinkedList.Rings.{IsRing, Holds, SameOutside}
use comment_subs.LinkedList.Rings.Fresh.{Yields}
use comment_subs.LinkedList.Add.{additions-Yields}
use comment_subs.LinkedList.Join.{kmod_list_append_list-Yields}
use comment_subs.LinkedList.Remove.{kmod_list_remove_lem}
use comment_subs.LinkedList.Search.{kmod_list_remove_data-Yields}
use comment_subs.LinkedList.Latest.{kmod_list_remove_n_latest-Yields}
use comment_subs.LinkedList.Walk.{neighbours_lem}

-- The nodes 1, 2 and 3 in a circle, and the node 6.
abbrev three_and_one : Heap
three_and_one = record {
  live = λ a. has a (1 ∷ 2 ∷ 3 ∷ 6 ∷ []);
  next = λ a. if a == 1 then 2 else if a == 2 then 3 else if a == 3 then 1 else 6;
  prev = λ a. if a == 1 then 3 else if a == 2 then 1 else if a == 3 then 2 else 6;
  data_of = λ a. a + 10;
}

three-Holds : Holds three_and_one (1 ∷ 2 ∷ 3 ∷ []) (11 ∷ 12 ∷ 13 ∷ [])
unfolding Holds IsRing Links
three-Holds = (
  ((refl, refl, (refl, refl, (refl, refl))), (refl, (refl, (refl, tt))), λ a i. ground arith),
  refl,
)

one-Holds : Holds three_and_one (6 ∷ []) (16 ∷ [])
unfolding Holds IsRing Links
one-Holds = (((refl, refl), (refl, tt), λ a i. ground arith), refl)

additions_example :
    Yields three_and_one
      (kmod_list_append three_and_one (some 1) (some 9) 5)
      (1 ∷ 2 ∷ 3 ∷ 9 ∷ [])
      (11 ∷ 12 ∷ 13 ∷ 5 ∷ [])
      (9 ∷ 1 ∷ 2 ∷ 3 ∷ [])
    × Yields three_and_one
        (kmod_list_prepend three_and_one (some 1) (some 9) 5)
        (9 ∷ 1 ∷ 2 ∷ 3 ∷ [])
        (5 ∷ 11 ∷ 12 ∷ 13 ∷ [])
        (9 ∷ 1 ∷ 2 ∷ 3 ∷ [])
    × Yields three_and_one
        (kmod_list_insert_before three_and_one (some 1) (some 9) 5)
        (9 ∷ 1 ∷ 2 ∷ 3 ∷ [])
        (5 ∷ 11 ∷ 12 ∷ 13 ∷ [])
        (9 ∷ 1 ∷ 2 ∷ 3 ∷ [])
    × Yields three_and_one
        (kmod_list_insert_after three_and_one (some 1) (some 9) 5)
        (1 ∷ 9 ∷ 2 ∷ 3 ∷ [])
        (11 ∷ 5 ∷ 12 ∷ 13 ∷ [])
        (9 ∷ 1 ∷ 2 ∷ 3 ∷ [])
additions_example =
    additions-Yields three_and_one (1 ∷ 2 ∷ 3 ∷ []) (11 ∷ 12 ∷ 13 ∷ []) 9 5 three-Holds refl

append_list_example :
    Yields three_and_one
      (kmod_list_append_list three_and_one (some 1) (some 6))
      (1 ∷ 2 ∷ 3 ∷ 6 ∷ [])
      (11 ∷ 12 ∷ 13 ∷ 16 ∷ [])
      (1 ∷ 2 ∷ 3 ∷ 6 ∷ [])
append_list_example =
    kmod_list_append_list-Yields three_and_one (1 ∷ 2 ∷ 3 ∷ []) (6 ∷ []) (11 ∷ 12 ∷ 13 ∷ [])
      (16 ∷ []) three-Holds one-Holds (λ a i. ground arith)

remove_inner_example :
    (g : Heap) × (kmod_list_remove three_and_one (some 2) ≡ some (some 3, g))
    × Holds g (3 ∷ 1 ∷ []) (13 ∷ 11 ∷ [])
    × SameOutside (1 ∷ 2 ∷ 3 ∷ []) three_and_one g
    × (g.live 2 ≡ false)
remove_inner_example =
    kmod_list_remove_lem three_and_one (1 ∷ []) 2 (3 ∷ []) (11 ∷ []) 12 (13 ∷ []) three-Holds refl

remove_data_example :
    (left : List NodePtr) × Yields three_and_one
      (kmod_list_remove_data 4 three_and_one (some 1) 12)
      left
      (13 ∷ 11 ∷ [])
      (1 ∷ 2 ∷ 3 ∷ [])
remove_data_example =
    kmod_list_remove_data-Yields 4 three_and_one (1 ∷ 2 ∷ 3 ∷ []) (11 ∷ 12 ∷ 13 ∷ []) 12 three-Holds
      (omega arith)

remove_n_latest_example :
    Yields three_and_one
      (kmod_list_remove_n_latest three_and_one (some 1) 2)
      (1 ∷ [])
      (11 ∷ [])
      (1 ∷ 2 ∷ 3 ∷ [])
remove_n_latest_example =
    kmod_list_remove_n_latest-Yields 2 three_and_one (1 ∷ 2 ∷ 3 ∷ []) (11 ∷ 12 ∷ 13 ∷ [])
      three-Holds

three-IsRing : IsRing three_and_one (1 ∷ 2 ∷ 3 ∷ [])
unfolding Holds
three-IsRing = three-Holds.0

neighbours_example :
    (kmod_list_next three_and_one (some 1) (some 2) ≡ some (some 3))
    × (kmod_list_prev three_and_one (some 1) (some 2) ≡ some (some 1))
    × (kmod_list_last three_and_one (some 1) ≡ some (some 3))
neighbours_example = neighbours_lem three_and_one (1 ∷ []) 2 (3 ∷ []) three-IsRing

-- A list without nodes stays NULL.
null_run : kmod_list_remove_n_latest three_and_one none 2 ≡ some (none, three_and_one)
unfolding kmod_list_remove_n_latest kmod_list_last kmod_list_remove
null_run = refl

-- A failure of malloc leaves the list as it was and returns NULL.
no_memory_run : kmod_list_append three_and_one (some 1) none 5 ≡ some (none, three_and_one)
unfolding kmod_list_append
no_memory_run = refl

-- A node that was freed is not usable.
removed_run :
    (kmod_list_remove three_and_one (some 6) >>= λ r. kmod_list_remove r.1 (some 6)) ≡ none
unfolding kmod_list_remove list_node_remove load_prev load_next free
removed_run = refl
