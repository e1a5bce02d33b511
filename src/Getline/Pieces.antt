-- ===== src/Getline/Pieces.antt =====
-- getline_wrapped joins the physical lines of a logical line.
use comment_subs.Prelude.{
  ℕ, suc, ◌+◌, ◌%◌, ◌^◌, ◌<◌, ◌≡◌, ◌≢◌, refl, ap, sym, ◌∙◌, false, Option, some, List, [], ◌∷◌,
  ◌++◌, ◌==◌, length, length-append, u32_mod, append_assoc, append-nil, Bytes, arith, ◌>>=◌,
}
use comment_subs.Getline.Defs.{Got, next_line, getline_loop, getline_wrapped}
use comment_subs.Getline.Buffer.{grown, append_char_lem, end_of_line_lem}

-- No line feed and no backslash.
abbrev pub IsPlain : Bytes → Type 0
IsPlain [] = Unit
IsPlain (c ∷ s) = (c ≢ b'\n') × (c ≢ b'\\') × IsPlain s

abbrev pub ArePlain : List Bytes → Type 0
ArePlain [] = Unit
ArePlain (p ∷ ps) = IsPlain p × ArePlain ps

-- The pieces of a line as they stand in the file.
unfoldable pub physical : Bytes → List Bytes → Bytes → Bytes
physical [] [] rest = b'\n' ∷ rest
physical [] (q ∷ qs) rest = b'\\' ∷ b'\n' ∷ physical q qs rest
physical (c ∷ p) ps rest = c ∷ physical p ps rest

-- The logical line.
unfoldable pub joined : Bytes → List Bytes → Bytes
joined p [] = p
joined p (q ∷ qs) = p ++ joined q qs

physical-some : (p : Bytes) (ps : List Bytes) (rest : Bytes) → 0 < length (physical p ps rest)
unfolding physical
physical-some [] [] rest = omega arith
physical-some [] (q ∷ qs) rest = omega arith
physical-some (c ∷ p) ps rest = omega arith

joined-cons : (c : ℕ) (p : Bytes) (ps : List Bytes) → joined (c ∷ p) ps ≡ c ∷ joined p ps
unfolding joined
joined-cons c p [] = refl
joined-cons c p (q ∷ qs) = refl

getline_loop-plain :
    (size : ℕ) (buf : Bytes) (linenum c : ℕ) (s : Bytes)
    → length buf < size
    → length buf + 1 < 2 ^ 30
    → c ≢ b'\n'
    → c ≢ b'\\'
    → 0 < length s
    → getline_loop size buf linenum (c ∷ s)
      ≡ getline_loop (grown size (length buf)) (buf ++ c ∷ []) linenum s
unfolding getline_loop
getline_loop-plain size buf linenum c [] h few a b some_more = absurd (omega arith)
getline_loop-plain size buf linenum c (x ∷ s) h few a b some_more =
    let no_feed : (c == b'\n') ≡ false = ground (arith, a) in
    let no_escape : (c == b'\\') ≡ false = ground (arith, b) in
    rw (no_feed, no_escape, (append_char_lem size buf c h few).0, ◌>>=◌)

getline_loop-feed :
    (size : ℕ) (buf : Bytes) (linenum : ℕ) (rest : Bytes)
    → length buf < size
    → getline_loop size buf linenum (b'\n' ∷ rest)
      ≡ some (record { line = some buf; linenum = next_line linenum; rest = rest })
unfolding getline_loop
getline_loop-feed size buf linenum [] h = end_of_line_lem size buf linenum [] h
getline_loop-feed size buf linenum (x ∷ rest) h = end_of_line_lem size buf linenum (x ∷ rest) h

got_line : Bytes → ℕ → Bytes → Option Got
got_line l n rest = some (record { line = some l; linenum = n; rest = rest })

getline_loop-joined :
    (size : ℕ) (buf : Bytes) (linenum : ℕ) (p : Bytes) (ps : List Bytes) (rest : Bytes)
    → length buf < size
    → length buf + length (joined p ps) < 2 ^ 30
    → IsPlain p
    → ArePlain ps
    → getline_loop size buf linenum (physical p ps rest)
      ≡ some (record {
        line = some (buf ++ joined p ps);
        linenum = (linenum + length ps + 1) % u32_mod;
        rest = rest;
      })
unfolding physical joined getline_loop got_line
getline_loop-joined size buf linenum [] [] rest h few a b =
    getline_loop-feed size buf linenum rest h
    ∙ ap (λ l. got_line l (next_line linenum) rest) (sym (append-nil buf))
    ∙ ap (λ n. got_line (buf ++ []) n rest) {x = next_line linenum}
        {y = (linenum + 0 + 1) % u32_mod} (omega arith)
getline_loop-joined size buf linenum [] (q ∷ qs) rest h few a b =
    getline_loop-joined size buf (next_line linenum) q qs rest h few b.0 b.1
    ∙ ap (λ n. got_line (buf ++ joined q qs) n rest)
        {x = (next_line linenum + length qs + 1) % u32_mod}
        {y = (linenum + suc (length qs) + 1) % u32_mod} (omega arith)
getline_loop-joined size buf linenum (c ∷ p) ps rest h few a b =
    let longer : length (joined (c ∷ p) ps) ≡ suc (length (joined p ps)) =
      ap length (joined-cons c p ps) in
    let (put, room) = append_char_lem size buf c h (omega (arith, longer, few)) in
    getline_loop-plain size buf linenum c (physical p ps rest) h (omega (arith, longer, few)) a.0
      a.1 (physical-some p ps rest)
    ∙ getline_loop-joined (grown size (length buf)) (buf ++ c ∷ []) linenum p ps rest room
        (omega (arith, longer, few, length-append buf (c ∷ []))) a.2 b
    ∙ ap (λ l. got_line l ((linenum + length ps + 1) % u32_mod) rest)
        (append_assoc buf (c ∷ []) (joined p ps) ∙ ap (λ l. buf ++ l) (sym (joined-cons c p ps)))

-- Where the pieces of a line have no line feed and no backslash of their own, and fewer than 2 ^ 30
-- bytes together, getline_wrapped returns the pieces joined without the escaped ends of line, adds
-- the number of physical lines to the number of lines, which wraps around at 2 ^ 32, and stops
-- behind the line.
pub getline_wrapped-joined :
    (p : Bytes) (ps : List Bytes) (rest : Bytes) (linenum : ℕ)
    → length (joined p ps) < 2 ^ 30
    → IsPlain p
    → ArePlain ps
    → getline_wrapped (physical p ps rest) linenum
      ≡ some (record {
        line = some (joined p ps);
        linenum = (linenum + length ps + 1) % u32_mod;
        rest = rest;
      })
unfolding getline_wrapped
getline_wrapped-joined p ps rest linenum few a b =
    getline_loop-joined 256 [] linenum p ps rest (omega arith) (omega (arith, few)) a b
