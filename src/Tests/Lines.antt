-- ===== src/Tests/Lines.antt =====
-- getline_wrapped of libkmod/libkmod-util.c on short streams.
use comment_subs.Prelude.{◌<◌, ◌^◌, length, ◌≡◌, refl, some, [], ◌∷◌, arith, Bytes}
use comment_subs.Getline.{
  Got, getline_wrapped, getline_loop, append_char, grow, end_of_file, end_of_line,
}
use comment_subs.Getline.Buffer.{getline_wrapped-Read, Read}
use comment_subs.Getline.Pieces.{getline_wrapped-joined, physical, joined}

-- "a\", a line feed, "b", a line feed, and "c"
abbrev two_lines : Bytes
two_lines = b'a' ∷ b'\\' ∷ b'\n' ∷ b'b' ∷ b'\n' ∷ b'c' ∷ []

getline_wrapped-Read_example :
    (g : Got) × (getline_wrapped two_lines 0 ≡ some g) × Read two_lines 0 g
getline_wrapped-Read_example = getline_wrapped-Read two_lines 0 (omega arith) (omega arith)

few_joined : length (joined (b'a' ∷ []) ((b'b' ∷ []) ∷ [])) < 2 ^ 30
unfolding joined
few_joined = omega arith

getline_wrapped-joined_example :
    getline_wrapped (physical (b'a' ∷ []) ((b'b' ∷ []) ∷ []) (b'c' ∷ [])) 0
    ≡ some (record {
      line = some (joined (b'a' ∷ []) ((b'b' ∷ []) ∷ []));
      linenum = 2;
      rest = b'c' ∷ [];
    })
getline_wrapped-joined_example =
    getline_wrapped-joined (b'a' ∷ []) ((b'b' ∷ []) ∷ []) (b'c' ∷ []) 0 few_joined
      (omega arith, omega arith, tt) ((omega arith, omega arith, tt), tt)

two_lines-physical : physical (b'a' ∷ []) ((b'b' ∷ []) ∷ []) (b'c' ∷ []) ≡ two_lines
unfolding physical
two_lines-physical = refl

-- A backslash before the end of the file puts EOF into the line, as the byte 255.
escaped_end_run :
    getline_wrapped (b'a' ∷ b'\\' ∷ []) 0
    ≡ some (record { line = some (b'a' ∷ 255 ∷ []); linenum = 1; rest = [] })
unfolding getline_wrapped getline_loop append_char grow end_of_file end_of_line
escaped_end_run = refl
