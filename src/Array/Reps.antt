-- ===== src/Array/Reps.antt =====
-- What an array stands for.
use comment_subs.Prelude.{◌*◌, ◌<◌, ◌≡◌, true, List, ◌++◌, length, size_mod}
use comment_subs.Memory.{Block, filled}
use comment_subs.Array.Defs.{Ptr, Array}

-- The array holds the pointers `xs`: they fill its first slots, the counters fit, and the
-- block has as many slots as the array claims.
pub record IsArray (a : Array) (xs : List Ptr) : Type 0 where
  pub rest : Block Ptr
  pub split : a.block ≡ filled xs ++ rest
  pub count : a.count ≡ length xs
  pub total : a.total ≡ length a.block
  pub step : 0 < a.step
  pub fits : 8 * a.total < size_mod
  pub small : 8 * a.step < size_mod
  pub live : a.live ≡ true
