-- ===== src/Tests/Arrays.antt =====
-- libkmod/libkmod-array.c on small arrays.
use comment_subs.Prelude.{
  ◌≡◌, refl, true, false, some, none, [], ◌∷◌, arith, pos, eexist, if◌then◌else◌,
}
use comment_subs.Memory.{filled}
use comment_subs.Array.{
  Array, IsArray, array_append, array_append_unique, array_pop, array_remove_at, array_free_array,
  array_resize,
}
use comment_subs.Array.Grow.{array_append-IsArray}
use comment_subs.Array.Edit.{array_pop-IsArray, array_remove_at-IsArray}
use comment_subs.Array.Scan.{array_append_unique_lem, contains}

-- Two pointers in four slots.
abbrev two_pointers : Array
two_pointers = record {
  live = true;
  block = some 5 ∷ some 7 ∷ none ∷ none ∷ [];
  count = 2;
  total = 4;
  step = 2;
}

two_pointers-IsArray : IsArray two_pointers (5 ∷ 7 ∷ [])
unfolding filled
two_pointers-IsArray = record {
  rest = none ∷ none ∷ [];
  split = refl;
  count = refl;
  total = refl;
  step = omega arith;
  fits = omega arith;
  small = omega arith;
  live = refl;
}

array_append_example :
    (a : Array) × (array_append true two_pointers 9 ≡ some (a, pos 2)) × IsArray a (5 ∷ 7 ∷ 9 ∷ [])
array_append_example = array_append-IsArray two_pointers-IsArray 9 (omega arith) (omega arith)

array_pop_example : (a : Array) × (array_pop true two_pointers ≡ some a) × IsArray a (5 ∷ [])
array_pop_example = array_pop-IsArray true (5 ∷ []) 7 two_pointers-IsArray

array_remove_at_example :
    (a : Array) × (array_remove_at false two_pointers 0 ≡ some (a, pos 0)) × IsArray a (7 ∷ [])
array_remove_at_example = array_remove_at-IsArray false [] (7 ∷ []) 5 two_pointers-IsArray

array_append_unique_example : array_append_unique true two_pointers 7 ≡ (
    if contains (5 ∷ 7 ∷ []) 7
    then some (two_pointers, eexist)
    else array_append true two_pointers 7)
array_append_unique_example = array_append_unique_lem true two_pointers-IsArray 7

-- An array that was freed is not usable: its pointer dangles.
freed_run : array_append true (array_free_array two_pointers) 9 ≡ none
unfolding array_append array_free_array array_resize
freed_run = refl
