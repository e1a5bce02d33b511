-- ===== src/Memory/Defs.antt =====
-- A block is the list of its slots; a slot that was never written is `none`. An access outside of
-- the block, and a read of a slot that was never written, is a fault: the result is `none`.
use comment_subs.Prelude.{
  ℕ, ◌+◌, ◌-◌, ◌&&◌, Option, none, some, List, ◌++◌, map, if◌then◌else◌, leb, ltb, length,
  get_elem?, set, take, drop, replicate,
}

abbrev pub Block {ℓ} : Type ℓ → Type ℓ
Block A = List (Option A)

module _ {ℓ} {A : Type ℓ} where
  abbrev pub slot_value : Option (Option A) → Option A
  slot_value none = none
  slot_value (some slot) = slot

  -- `p[i]` as a value
  unfoldable pub load : Block A → ℕ → Option A
  load b i = slot_value (get_elem? b i)

  -- `p[i] = v`
  unfoldable pub store : Block A → ℕ → A → Option (Block A)
  store b i v = if ltb i (length b) then some (set b i (some v)) else none

  -- `memmove(p + dst, p + src, n)`
  unfoldable pub memmove : Block A → (dst src n : ℕ) → Option (Block A)
  memmove b dst src n =
      if leb (dst + n) (length b) && leb (src + n) (length b)
      then some (take dst b ++ (take n (drop src b) ++ drop (dst + n) b))
      else none

  -- `realloc(p, n)` where it succeeds: the slots that both blocks have keep their values
  unfoldable pub realloc : Block A → ℕ → Block A
  realloc b n = take n b ++ replicate (n - length b) none

  -- The slots that hold the values `xs`.
  unfoldable pub filled : List A → Block A
  filled xs = map some xs
