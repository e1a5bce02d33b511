-- ===== src/Array/Defs.antt =====
-- The struct and the functions of libkmod-array.c. A pointer is its address. The argument `granted`
-- says whether a call of realloc in the function gets its memory.
use comment_subs.Prelude.{
  ℕ, zero, suc, ◌+◌, ◌*◌, ◌/◌, ◌%◌, Bool, Option, none, some, [], if◌then◌else◌, leb, ltb, ◌==◌,
  ◌>>=◌, ◌>>◌, ℤ, pos, size_mod, add_size, sub_size, to_int, enoent, enomem, eexist,
}
use comment_subs.Memory.{Block, load, store, memmove, realloc}

abbrev pub Ptr : Type 0
Ptr = ℕ

-- `live` says that the pointer is NULL or points to a block that was not freed.
pub record Array : Type 0 where
  pub live : Bool
  pub block : Block Ptr
  pub count : ℕ
  pub total : ℕ
  pub step : ℕ

-- A failed assertion is a fault, as an access out of bounds is.
abbrev pub assert : Bool → Option (Unit {0})
assert b = if b then some tt else none

-- The slots that `realloc(p, sizeof(void *) * new_total)` asks for.
abbrev pub slots : ℕ → ℕ
slots new_total = 8 * new_total % size_mod / 8

unfoldable pub array_init : ℕ → Option Array
array_init step = do
  assert (ltb 0 step)
  some (record { live = Bool.true; block = []; count = 0; total = 0; step = step })

-- `realloc(array->array, sizeof(void *) * new_total)`: a fault if the pointer dangles.
unfoldable pub array_resize : Array → ℕ → Option Array
array_resize a new_total = do
  assert a.live
  some (record a { block = realloc a.block (slots new_total); total = new_total })

-- The part that array_append runs once there is room.
unfoldable pub array_put : Array → Ptr → Option (Array × ℤ)
array_put a element = do
  b ← store a.block a.count element
  some (record a { block = b; count = add_size a.count 1 }, to_int a.count)

unfoldable pub array_append : Bool → Array → Ptr → Option (Array × ℤ)
array_append granted a element =
    if leb a.total (add_size a.count 1)
    then (do
      a' ← array_resize a (add_size a.total a.step)
      assert (ltb 0 a.step)
      if granted then array_put a' element else some (a, enomem))
    else array_put a element

-- `for (; itr < itr_end; itr++) if (*itr == element)`, from slot `i` with `n` slots to go
unfoldable pub array_scan : Block Ptr → ℕ → ℕ → Ptr → Option Bool
array_scan b i zero element = some Bool.false
array_scan b i (suc n) element = do
  let rest = array_scan b (i + 1) n element
  p ← load b i
  if p == element then some Bool.true else rest

unfoldable pub array_append_unique : Bool → Array → Ptr → Option (Array × ℤ)
array_append_unique granted a element = do
  found ← array_scan a.block 0 a.count element
  if found then some (a, eexist) else array_append granted a element

-- The part that array_pop and array_remove_at share: a step of slots that are not needed goes.
unfoldable pub array_shrink : Bool → Array → Option Array
array_shrink granted a =
    if ltb (add_size a.count a.step) a.total
    then (do
      a' ← array_resize a (sub_size a.total a.step)
      assert (ltb 0 a.step)
      some (if granted then a' else a))
    else some a

unfoldable pub array_pop : Bool → Array → Option Array
array_pop granted a = array_shrink granted (record a { count = sub_size a.count 1 })

unfoldable pub array_free_array : Array → Array
array_free_array a = record a { live = Bool.false; block = []; count = 0; total = 0 }

-- `if (pos < array->count) memmove(...)`, for the lowered count
unfoldable pub array_close : Block Ptr → ℕ → ℕ → Option (Block Ptr)
array_close b count at = if ltb at count then memmove b at (at + 1) (sub_size count at) else some b

-- `at` is an unsigned int.
unfoldable pub array_remove_at : Bool → Array → ℕ → Option (Array × ℤ)
array_remove_at granted a at = if leb a.count at then some (a, enoent) else do
  let count = sub_size a.count 1
  b ← array_close a.block count at
  a' ← array_shrink granted (record a { block = b; count = count })
  some (a', pos 0)
