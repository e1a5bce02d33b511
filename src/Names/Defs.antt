-- ===== src/Names/Defs.antt =====
-- The functions that copy a name into a buffer. A buffer is what was written before the NUL.
use comment_subs.Prelude.{
  ℕ, zero, suc, ◌-◌, Bool, true, false, Option, none, some, [], ◌∷◌, ◌++◌, ◌==◌, leb, if◌then◌else◌,
  Bytes, ◌>>=◌,
}

abbrev pub path_max : ℕ
path_max = 4096

-- How a copy ends: a buffer, -EINVAL or NULL, or a write behind the end of the buffer.
pub data Copy : Type 0 where
  done : Bytes → Copy
  invalid : Copy
  overflow : Copy

abbrev pub push : ℕ → Copy → Copy
push c (done t) = done (c ∷ t)
push c invalid = invalid
push c overflow = overflow

-- `buf[s] = c`, with `room` bytes of the buffer from `s` on
abbrev pub put : ℕ → ℕ → Copy → Copy
put room c rest = if room == 0 then overflow else push c rest

-- `buf[s] = '\0'`
abbrev pub finish : ℕ → Copy
finish room = if room == 0 then overflow else done []

-- The loops of alias_normalize: `inside` is the loop of the case '['.
unfoldable pub alias_loop : (inside : Bool) → ℕ → Bytes → Copy
alias_loop false room [] = finish room
alias_loop false room (c ∷ s) =
    let outer = alias_loop false (room - 1) s in
    let inner = alias_loop true (room - 1) s in
    if leb room 1
    then finish room
    else if c == b'-'
    then put room b'_' outer
    else if c == b']'
    then invalid
    else if c == b'['
    then put room c inner
    else put room c outer
alias_loop true room [] = invalid
alias_loop true room (c ∷ s) =
    let outer = alias_loop false (room - 1) s in
    let inner = alias_loop true (room - 1) s in
    if c == b']' then put room c outer else put room c inner

unfoldable pub alias_normalize : Bytes → Copy
alias_normalize alias = alias_loop false path_max alias

-- `input[i + strcspn(input + i, "]")] != '\0'`
unfoldable pub has_bracket : Bytes → Bool
has_bracket [] = false
has_bracket (c ∷ s) = if c == b']' then true else has_bracket s

-- The loop of underscores2, and its memcpy up to the next ']' as a loop, `inside`.
unfoldable pub underscores2_loop : (inside : Bool) → ℕ → Bytes → Copy
underscores2_loop false room [] = finish room
underscores2_loop false room (c ∷ s) =
    let outer = underscores2_loop false (room - 1) s in
    let inner = underscores2_loop true (room - 1) s in
    if leb room 1
    then finish room
    else if c == b'-'
    then put room b'_' outer
    else if c == b']'
    then invalid
    else if c == b'['
    then (if has_bracket s then put room c inner else invalid)
    else put room c outer
underscores2_loop true room [] = invalid
underscores2_loop true room (c ∷ s) =
    let outer = underscores2_loop false (room - 1) s in
    let inner = underscores2_loop true (room - 1) s in
    if c == b']' then put room c outer else put room c inner

unfoldable pub underscores2 : Bytes → (outputlen : ℕ) → Copy
underscores2 input outputlen = underscores2_loop false outputlen input

-- The loop of modname_normalize, with `n` rounds to go.
unfoldable pub modname_loop : ℕ → Bytes → Bytes
modname_loop zero s = []
modname_loop (suc n) [] = []
modname_loop (suc n) (c ∷ s) =
    let rest = modname_loop n s in
    if c == b'-' then b'_' ∷ rest else if c == b'.' then [] else c ∷ rest

unfoldable pub modname_normalize : Bytes → Bytes
modname_normalize modname = modname_loop (path_max - 1) modname

-- `basename` of the C library: what follows the last '/'
unfoldable pub basename_from : Bytes → Bytes → Bytes
basename_from name [] = name
basename_from name (c ∷ s) = if c == b'/' then basename_from s s else basename_from name s

-- `if (modname == NULL || modname[0] == '\0') return NULL`
abbrev pub named : Bytes → Option Bytes
named [] = none
named (c ∷ s) = some (modname_normalize (c ∷ s))

-- `none` is NULL.
unfoldable pub path_to_modname : Bytes → Option Bytes
path_to_modname path = named (basename_from path path)

unfoldable pub strchr_replace : Bytes → (c r : ℕ) → Bytes
strchr_replace [] c r = []
strchr_replace (p ∷ s) c r = (if p == c then r else p) ∷ strchr_replace s c r

-- An assertion that `p` is not NULL holds of every string.
unfoldable pub path_is_absolute : Bytes → Bool
path_is_absolute [] = false
path_is_absolute (c ∷ s) = c == b'/'

-- `cwd` is what get_current_dir_name returns.
unfoldable pub path_make_absolute_cwd : (cwd : Option Bytes) → Bytes → Option Bytes
path_make_absolute_cwd cwd p =
    if path_is_absolute p then some p else (cwd >>= λ d. some (d ++ b'/' ∷ p))
