-- ===== src/Hash/Superfast.antt =====
-- hash_superfast, on a machine that stores the low byte of a word first, and whose type char is
-- signed.
use Prim.Native.Nat.{bit_xor}
use comment_subs.Prelude.{
  ℕ, ◌+◌, ◌-◌, ◌*◌, ◌/◌, ◌%◌, ◌^◌, [], ◌∷◌, Bytes, length, take, ltb, if◌then◌else◌, u32_mod, add32,
}

-- `get_unaligned((uint16_t *) key)`
abbrev word16 : ℕ → ℕ → ℕ
word16 lo hi = lo + 256 * hi

abbrev shl32 : ℕ → ℕ → ℕ
shl32 x n = x * 2 ^ n % u32_mod

abbrev shr32 : ℕ → ℕ → ℕ
shr32 x n = x / 2 ^ n

-- A char, converted to an unsigned int.
abbrev char32 : ℕ → ℕ
char32 c = if ltb c 128 then c else c + u32_mod - 256

-- The end cases and the avalanche.
superfast_finish : ℕ → ℕ
superfast_finish h0 =
    let h1 = bit_xor h0 (shl32 h0 3) in
    let h2 = add32 h1 (shr32 h1 5) in
    let h3 = bit_xor h2 (shl32 h2 4) in
    let h4 = add32 h3 (shr32 h3 17) in let h5 = bit_xor h4 (shl32 h4 25) in add32 h5 (shr32 h5 6)

unfoldable pub superfast_loop : ℕ → Bytes → ℕ
unfolding superfast_finish
superfast_loop hash [] = superfast_finish hash
superfast_loop hash (a ∷ []) =
    let h1 = add32 hash (char32 a) in
    let h2 = bit_xor h1 (shl32 h1 10) in superfast_finish (add32 h2 (shr32 h2 1))
superfast_loop hash (a ∷ b ∷ []) =
    let h1 = add32 hash (word16 a b) in
    let h2 = bit_xor h1 (shl32 h1 11) in superfast_finish (add32 h2 (shr32 h2 17))
superfast_loop hash (a ∷ b ∷ c ∷ []) =
    let h1 = add32 hash (word16 a b) in
    let h2 = bit_xor h1 (shl32 h1 16) in
    let h3 = bit_xor h2 (shl32 (char32 c) 18) in superfast_finish (add32 h3 (shr32 h3 11))
superfast_loop hash (a ∷ b ∷ c ∷ d ∷ key) =
    let h1 = add32 hash (word16 a b) in
    let tmp = bit_xor (word16 c d * 2 ^ 11) h1 in
    let h2 = bit_xor (shl32 h1 16) tmp in superfast_loop (add32 h2 (shr32 h2 11)) key

-- `len` is the length of the key, an unsigned int.
unfoldable pub hash_superfast : Bytes → ℕ
unfolding superfast_loop
hash_superfast key = let len = length key % u32_mod in superfast_loop len (take len key)
