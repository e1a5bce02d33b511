-- ===== src/Names/Modname.antt =====
-- modname_normalize and path_to_modname.
use comment_subs.Prelude.{
  ℕ, zero, suc, ◌-◌, ◌≤◌, ◌<◌, ◌≡◌, ◌≢◌, refl, false, some, [], ◌∷◌, ◌++◌, ◌==◌, Bytes, length,
  arith, Bool-cases, inl, inr,
}
use comment_subs.Names.Defs.{
  modname_loop, modname_normalize, path_max, path_to_modname, basename_from,
}

-- What a module name is: no '-', no '.', and shorter than PATH_MAX.
abbrev pub IsModname : Bytes → Type 0
IsModname [] = Unit
IsModname (c ∷ s) = (c ≢ b'-') × (c ≢ b'.') × IsModname s

modname_loop-IsModname :
    (n : ℕ) (s : Bytes) → IsModname (modname_loop n s) × (length (modname_loop n s) ≤ n)
unfolding modname_loop
modname_loop-IsModname zero s = (tt, omega arith)
modname_loop-IsModname (suc n) [] = (tt, omega arith)
modname_loop-IsModname (suc n) (c ∷ s) = ground (arith, modname_loop-IsModname n s)

modname_loop-id : (n : ℕ) (s : Bytes) → IsModname s → length s ≤ n → modname_loop n s ≡ s
unfolding modname_loop
modname_loop-id zero [] m h = refl
modname_loop-id zero (c ∷ s) m h = absurd (omega arith)
modname_loop-id (suc n) [] m h = refl
modname_loop-id (suc n) (c ∷ s) m h = ground (arith, modname_loop-id n s m.2 (omega arith))

-- modname_normalize returns a module name that fits its buffer with the NUL, and changes nothing
-- when it is applied again.
pub modname_normalize_idem :
    (s : Bytes)
    → IsModname (modname_normalize s)
      × (length (modname_normalize s) < path_max)
      × (modname_normalize (modname_normalize s) ≡ modname_normalize s)
unfolding modname_normalize
modname_normalize_idem s =
    let name = modname_loop-IsModname (path_max - 1) s in
    (name.0, omega (arith, name.1), modname_loop-id (path_max - 1) _ name.0 name.1)

abbrev pub Without : ℕ → Bytes → Type 0
Without c [] = Unit
Without c (x ∷ s) = (x ≢ c) × Without c s

Without-append : (k : ℕ) (s t : Bytes) → Without k s → Without k t → Without k (s ++ t)
Without-append k [] t a b = b
Without-append k (c ∷ s) t a b = (a.0, Without-append k s t a.1 b)

basename_from-plain : (name s : Bytes) → Without b'/' s → basename_from name s ≡ name
unfolding basename_from
basename_from-plain name [] w = refl
basename_from-plain name (c ∷ s) w =
    let other : (c == b'/') ≡ false = ground (arith, w.0) in
    rw (other, basename_from-plain name s w.1)

basename_from-dir :
    (name dir file : Bytes) → Without b'/' file → basename_from name (dir ++ b'/' ∷ file) ≡ file
unfolding basename_from
basename_from-dir name [] file w = basename_from-plain file file w
basename_from-dir name (c ∷ dir) file w = elim (Bool-cases (c == b'/')) [
  | inl slash ↦ rw slash (basename_from-dir (dir ++ b'/' ∷ file) dir file w)
  | inr other ↦ rw other (basename_from-dir name dir file w)
]

modname_loop-suffix :
    (n : ℕ) (name ext : Bytes)
    → IsModname name
    → length name ≤ n
    → modname_loop n (name ++ b'.' ∷ ext) ≡ name
unfolding modname_loop
modname_loop-suffix zero [] ext m h = refl
modname_loop-suffix zero (c ∷ name) ext m h = absurd (omega arith)
modname_loop-suffix (suc n) [] ext m h = refl
modname_loop-suffix (suc n) (c ∷ name) ext m h =
    ground (arith, modname_loop-suffix n name ext m.2 (omega arith))

-- Of the path of a module file, path_to_modname finds the module: the name between the last slash
-- and the first dot, where the name has no slash, dot or dash and fits the buffer, whatever the
-- directory is and whatever extensions without a slash follow.
pub path_to_modname-file :
    (dir name ext : Bytes) (c : ℕ)
    → IsModname (c ∷ name)
    → Without b'/' (c ∷ name)
    → Without b'/' ext
    → length (c ∷ name) < path_max
    → path_to_modname (dir ++ b'/' ∷ (c ∷ (name ++ b'.' ∷ ext))) ≡ some (c ∷ name)
unfolding path_to_modname modname_normalize
path_to_modname-file dir name ext c m w x h =
    let file = c ∷ (name ++ b'.' ∷ ext) in
    let plain : Without b'/' file =
      (w.0, Without-append b'/' name (b'.' ∷ ext) w.1 (omega arith, x)) in
    rw (
      basename_from-dir (dir ++ b'/' ∷ file) dir file plain,
      modname_loop-suffix (path_max - 1) (c ∷ name) ext m (omega arith),
    )
