-- ===== src/Getline/Defs.antt =====
-- getline_wrapped on a stream, which is the list of the bytes that are left of the file, for a
-- linenum that is not NULL. malloc and realloc succeed. The buffer is the list of what was written
-- into it, and has `size` bytes; a write behind its end and an `int` that overflows are a fault.
use comment_subs.Prelude.{
  ℕ, ◌+◌, ◌*◌, ◌^◌, Option, none, some, [], ◌∷◌, ◌++◌, if◌then◌else◌, ◌==◌, ltb, length, Bytes,
  ◌>>=◌, add32,
}

-- What a call returns, with `none` for NULL, the new value of `*linenum`, and the rest of the stream.
pub record Got : Type 0 where
  pub line : Option Bytes
  pub linenum : ℕ
  pub rest : Bytes

-- `size *= 2` where `i == size`; an overflow of the `int` is a fault.
unfoldable pub grow : (size i : ℕ) → Option ℕ
grow size i =
    if i == size then (if ltb (size * 2) (2 ^ 31) then some (size * 2) else none) else some size

-- `buf[i++] = ch`, and the growth of the buffer behind it: the new size and the new contents.
unfoldable pub append_char : (size : ℕ) → (buf : Bytes) → (ch : ℕ) → Option (ℕ × Bytes)
append_char size buf ch =
    if ltb (length buf) size
    then (grow size (length buf + 1) >>= λ size'. some (size', buf ++ ch ∷ []))
    else none

-- EOF, converted to a char.
abbrev pub eof_char : ℕ
eof_char = 255

-- `(*linenum)++`, of an unsigned int
abbrev pub next_line : ℕ → ℕ
next_line linenum = add32 linenum 1

-- The case of a line feed: the buffer gets room for the NUL where it is full, and then the NUL.
unfoldable pub end_of_line : (size : ℕ) → (buf : Bytes) → (linenum : ℕ) → Bytes → Option Got
end_of_line size buf linenum rest =
    let room = if length buf == size then size + 1 else size in
    if ltb (length buf) room
    then some (record { line = some buf; linenum = next_line linenum; rest = rest })
    else none

-- The case EOF, which falls through to the one of a line feed.
unfoldable pub end_of_file : (size : ℕ) → (buf : Bytes) → (linenum : ℕ) → Option Got
end_of_file size [] linenum = some (record { line = none; linenum = linenum; rest = [] })
end_of_file size (c ∷ buf) linenum = end_of_line size (c ∷ buf) linenum []

-- The loop. Behind a backslash, a line feed is skipped, and any other character, EOF included, is
-- written.
unfoldable pub getline_loop : (size : ℕ) → (buf : Bytes) → (linenum : ℕ) → Bytes → Option Got
getline_loop size buf linenum [] = end_of_file size buf linenum
getline_loop size buf linenum (ch ∷ []) =
    if ch == b'\n'
    then end_of_line size buf linenum []
    else append_char size buf (if ch == b'\\' then eof_char else ch) >>= λ r.
        end_of_file r.0 r.1 linenum
getline_loop size buf linenum (ch ∷ next ∷ s) =
    let written = append_char size buf ch >>= λ r. getline_loop r.0 r.1 linenum (next ∷ s) in
    let skipped = getline_loop size buf (next_line linenum) s in
    let escaped = append_char size buf next >>= λ r. getline_loop r.0 r.1 linenum s in
    if ch == b'\n'
    then end_of_line size buf linenum (next ∷ s)
    else if ch == b'\\'
    then (if next == b'\n' then skipped else escaped)
    else written

unfoldable pub getline_wrapped : Bytes → (linenum : ℕ) → Option Got
getline_wrapped s linenum = getline_loop 256 [] linenum s
