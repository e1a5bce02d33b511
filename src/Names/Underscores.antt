-- ===== src/Names/Underscores.antt =====
-- underscores2 of depmod follows the same grammar as alias_normalize of libkmod.
use comment_subs.Prelude.{
  ℕ, ◌-◌, ◌<◌, ◌≡◌, refl, Bool, true, false, none, [], ◌∷◌, ◌==◌, leb, if◌then◌else◌, Bytes, length,
  arith, Bool-cases, inl, inr, sym, ◌∙◌,
}
use comment_subs.Names.Defs.{
  invalid, push, alias_normalize, path_max, has_bracket, underscores2, underscores2_loop,
}
use comment_subs.Names.Alias.{translate, copied, choose, close, alias_normalize-translate}

translate_unclosed : (s : Bytes) → has_bracket s ≡ false → translate true s ≡ none
unfolding has_bracket translate
translate_unclosed [] h = refl
translate_unclosed (c ∷ s) h = ground (arith, translate_unclosed s)

-- The test for a closing bracket changes nothing, since the grammar asks for one.
checked :
    (c : ℕ) (s : Bytes)
    → (if has_bracket s then push c (copied (translate true s)) else invalid)
      ≡ push c (copied (translate true s))
checked c s = elim (Bool-cases (has_bracket s)) [
  | inl there ↦ rw there
  | inr absent ↦ rw (absent, translate_unclosed s absent)
]

pub underscores2_loop-translate :
    (inside : Bool) (room : ℕ) (s : Bytes)
    → length s < room
    → underscores2_loop inside room s ≡ copied (translate inside s)
unfolding underscores2_loop translate
underscores2_loop-translate false room [] h = ground arith
underscores2_loop-translate true room [] h = refl
underscores2_loop-translate false room (c ∷ s) h =
    let more : leb room 1 ≡ false = ground arith in
    let there : (room == 0) ≡ false = ground arith in
    rw
      (
        more,
        there,
        underscores2_loop-translate false (room - 1) s (omega arith),
        underscores2_loop-translate true (room - 1) s (omega arith),
        checked c s,
      )
      (choose c (translate false s) (translate true s))
underscores2_loop-translate true room (c ∷ s) h =
    let there : (room == 0) ≡ false = ground arith in
    rw
      (
        there,
        underscores2_loop-translate false (room - 1) s (omega arith),
        underscores2_loop-translate true (room - 1) s (omega arith),
      )
      (close c (translate false s) (translate true s))

-- On a name that fits both buffers, depmod and libkmod agree: the key that depmod writes into the
-- index is the key that libkmod looks up, and both refuse the same names.
pub underscores2-alias_normalize :
    (s : Bytes) (outputlen : ℕ)
    → length s < outputlen
    → length s < path_max
    → underscores2 s outputlen ≡ alias_normalize s
unfolding underscores2
underscores2-alias_normalize s outputlen h k =
    underscores2_loop-translate false outputlen s h ∙ sym (alias_normalize-translate s k)
