-- ===== src/Tests/Namings.antt =====
-- libkmod/libkmod-util.c and underscores2 of tools/depmod.c on short names.
use comment_subs.Prelude.{
  ◌≤◌, ◌+◌, ℕ, ◌≡◌, false, some, [], ◌∷◌, ◌++◌, arith, Bytes, length, ◌<◌, replicate,
  length-replicate, zero, suc,
}
use comment_subs.Names.{
  done, overflow, alias_normalize, underscores2, modname_normalize, path_to_modname, path_max,
}
use comment_subs.Names.Alias.{alias_normalize-translate, alias_normalize_idem, translate, copied}
use comment_subs.Names.Overflow.{alias_normalize-overflow}
use comment_subs.Names.Underscores.{underscores2-alias_normalize}
use comment_subs.Names.Modname.{modname_normalize_idem, path_to_modname-file, IsModname, Without}

-- "a-[-]"
abbrev dashes : Bytes
dashes = b'a' ∷ b'-' ∷ b'[' ∷ b'-' ∷ b']' ∷ []

-- "a_[-]"
abbrev underscored : Bytes
underscored = b'a' ∷ b'_' ∷ b'[' ∷ b'-' ∷ b']' ∷ []

dashes_run : alias_normalize dashes ≡ done underscored
unfolding translate
dashes_run = alias_normalize-translate dashes (omega arith)

alias_normalize-translate_example : alias_normalize dashes ≡ copied (translate false dashes)
alias_normalize-translate_example = alias_normalize-translate dashes (omega arith)

alias_normalize_idem_example :
    (length underscored ≡ length dashes) × (alias_normalize underscored ≡ done underscored)
alias_normalize_idem_example = alias_normalize_idem dashes underscored (omega arith) dashes_run

underscores2_example : underscores2 dashes 1024 ≡ alias_normalize dashes
underscores2_example = underscores2-alias_normalize dashes 1024 (omega arith) (omega arith)

modname_normalize_example :
    IsModname (modname_normalize dashes)
    × (length (modname_normalize dashes) < path_max)
    × (modname_normalize (modname_normalize dashes) ≡ modname_normalize dashes)
modname_normalize_example = modname_normalize_idem dashes

-- "/lib/ab.ko"
path_to_modname_example :
    path_to_modname
      ((b'/' ∷ b'l' ∷ b'i' ∷ b'b' ∷ []) ++ b'/' ∷ (b'a' ∷ (b'b' ∷ [] ++ b'.' ∷ b'k' ∷ b'o' ∷ [])))
    ≡ some (b'a' ∷ b'b' ∷ [])
path_to_modname_example =
    path_to_modname-file (b'/' ∷ b'l' ∷ b'i' ∷ b'b' ∷ []) (b'b' ∷ []) (b'k' ∷ b'o' ∷ []) b'a'
      (omega arith, omega arith, (omega arith, omega arith, tt)) (omega arith, (omega arith, tt))
      (omega arith, (omega arith, tt)) (omega arith)

Without-replicate : (n : ℕ) → Without b']' (replicate n b'x')
Without-replicate zero = tt
Without-replicate (suc n) = (omega arith, Without-replicate n)

-- "[xxx...", with PATH_MAX characters behind the bracket
replicate_long : path_max ≤ 1 + length {A = ℕ} (replicate path_max b'x')
replicate_long = omega (arith, length-replicate {A = ℕ} path_max b'x')

alias_normalize-overflow_example :
    alias_normalize (b'a' ∷ b'[' ∷ (replicate path_max b'x' ++ [])) ≡ overflow
alias_normalize-overflow_example =
    alias_normalize-overflow (b'a' ∷ []) (replicate path_max b'x') [] (omega arith, tt)
      (omega arith, tt) (Without-replicate path_max) (omega arith) replicate_long
